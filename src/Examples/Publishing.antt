-- ===== src/Examples/Publishing.antt =====
-- Publications on the disk in memory.
use yappod.Prelude.{ℕ, ◌≡◌, List, [], ◌∷◌, arith, replicate}
use yappod.Types.{ok}
use yappod.Storage.Manifest.{Manifest, manifest_init}
use yappod.ManifestFile.Publish.{
  prepare, manifest_publish_next, manifest_publish_if_generation, manifest_save_atomic,
}
use yappod.ManifestFile.Publish.Outcome.{Saved, manifest_save_atomic-Saved}
use yappod.ManifestFile.Publish.Updates.{
  Published, manifest_publish_next-Published, manifest_publish_if_generation-Published,
}
use yappod.ManifestFile.Publish.Races.{no_lost_update, start, next}
use yappod.Examples.Disk.{memory_disk, disk_laws, all_granted, empty_disk}

abbrev manifest_path : List ℕ
manifest_path = b'i' ∷ b'/' ∷ b'm' ∷ []

abbrev configured : Manifest
configured = record manifest_init { config_fingerprint = replicate 32 7 }

manifest_save_atomic-Saved_example :
    Saved disk_laws.content empty_disk
      (prepare memory_disk all_granted manifest_path configured)
      (manifest_save_atomic memory_disk all_granted manifest_path empty_disk configured)
manifest_save_atomic-Saved_example =
    manifest_save_atomic-Saved memory_disk all_granted manifest_path disk_laws empty_disk configured

manifest_publish_next-Published_example :
    Published disk_laws
      (λ g. Unit {0})
      empty_disk
      (manifest_publish_next memory_disk all_granted manifest_path empty_disk configured)
manifest_publish_next-Published_example =
    manifest_publish_next-Published memory_disk all_granted manifest_path disk_laws empty_disk
      configured

manifest_publish_if_generation-Published_example :
    Published disk_laws
      (λ g. g ≡ 1)
      empty_disk
      (manifest_publish_if_generation memory_disk all_granted manifest_path empty_disk 1 configured)
manifest_publish_if_generation-Published_example =
    manifest_publish_if_generation-Published memory_disk all_granted manifest_path disk_laws
      empty_disk 1 configured (omega arith)

-- Two publishers that both expect generation 1, with an unconditional publication between them.
no_lost_update_example : ¬ (
    ((manifest_publish_if_generation memory_disk all_granted manifest_path empty_disk 1
        configured).0
      ≡ ok)
    × ((manifest_publish_if_generation memory_disk all_granted manifest_path
          (manifest_publish_next memory_disk all_granted manifest_path
            (manifest_publish_if_generation memory_disk all_granted manifest_path empty_disk 1
              configured).1
            configured).1
          1
          configured).0
        ≡ ok))
no_lost_update_example =
    no_lost_update memory_disk manifest_path disk_laws empty_disk _ 1 all_granted all_granted
      configured configured (omega arith) (next _ all_granted configured start)
