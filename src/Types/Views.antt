-- ===== src/Types/Views.antt =====
-- Views that have their bytes.
use yappod.Prelude.{ℕ, ◌≡◌, sym, ap, ◌∙◌, some, List, arith, length, take_all}
use yappod.Types.{BytesView, content}

-- A view with its data there, as the readers of segments and tombstones give it.
pub record HasBytes (v : BytesView) : Type 0 where
  pub xs : List ℕ
  pub there : v.bytes ≡ some xs
  pub sized : length xs ≡ v.len

whole_view :
    (v : BytesView) → HasBytes v → v ≡ record { bytes = some (content v); len = length (content v) }
whole_view v h =
    let all : content v ≡ h.xs = rw (h.there) (take_all v.len h.xs (omega (arith, h.sized))) in
    rw all (ground (arith, h.there, h.sized))

pub view_eq : (v w : BytesView) → HasBytes v → HasBytes w → content v ≡ content w → v ≡ w
view_eq v w hv hw same =
    whole_view v hv
    ∙ ap (λ (xs : List ℕ). record { bytes = some xs; len = length xs }) same
    ∙ sym (whole_view w hw)
