-- ===== src/Rag.antt =====
-- The look-ups of passages for the assembly of contexts (src/query/yappo_rag.c), on the passages of one
-- segment. `qsort` with `compare_passages` is a parameter.
pub mod Listing
use yappod.Prelude.{
  ℕ, zero, suc, ◌+◌, ◌/◌, Bool, true, false, not, ◌&&◌, ◌||◌, Option, none, some, List, [], ◌∷◌,
  ltb, ◌==◌, if◌then◌else◌, length,
}
use yappod.Prelude.Bytes.{bytes_eq}
use yappod.Types.{BytesView, is_null, content, PassageView}
use yappod.Storage.Slots.{size_max}

-- `YAP_RAG_STATUS`
pub data RagStatus : Type 0 where
  listed bad_argument no_passage buffer_too_small no_memory : RagStatus

unfoldable pub views_equal : BytesView → BytesView → Bool
views_equal left right =
    left.len == right.len
    && (left.len == 0
        || (not (is_null left) && not (is_null right) && bytes_eq (content left) (content right)))

abbrev pub empty_id : BytesView → Bool
empty_id id = is_null id || id.len == 0

-- The loop of `YAP_RAG_find_passage`.
unfoldable pub find_from : BytesView → List PassageView → Option PassageView
find_from id [] = none
find_from id (p ∷ rest) = if views_equal p.id id then some p else find_from id rest

unfoldable pub find_passage : List PassageView → BytesView → RagStatus × Option PassageView
find_passage passages id =
    if empty_id id
    then (bad_argument, none)
    else elim (find_from id passages) [ none ↦ (no_passage, none) | some p ↦ (listed, some p) ]

-- The first loop of `YAP_RAG_list_passages`, from a count.
unfoldable pub count_matching : BytesView → ℕ → List PassageView → ℕ
count_matching document_id matching [] = matching
count_matching document_id matching (p ∷ rest) =
    count_matching document_id
      (if views_equal p.parent_document_id document_id then matching + 1 else matching) rest

-- Its second loop.
unfoldable pub select : BytesView → List PassageView → List PassageView
select document_id [] = []
select document_id (p ∷ rest) =
    let more = select document_id rest in
    if views_equal p.parent_document_id document_id then p ∷ more else more

-- The status, the count that is written, and the passages that are written. `granted` is what `malloc`
-- answers.
unfoldable pub list_passages :
    (List PassageView → List PassageView)
    → Bool
    → List PassageView
    → BytesView
    → ℕ
    → RagStatus × Option ℕ × List PassageView
list_passages sort granted passages document_id capacity =
    if empty_id document_id
    then (bad_argument, none, [])
    else let matching = count_matching document_id 0 passages in
      if matching == 0
      then (listed, some matching, [])
      else if ltb capacity matching
      then (buffer_too_small, some matching, [])
      else if ltb (size_max / 8) matching || not granted
      then (no_memory, some matching, [])
      else (listed, some matching, sort (select document_id passages))
