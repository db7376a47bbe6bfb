-- ===== src/Fat/Dir/Rules.antt =====
-- Rules for the loops of lib/fat12/fat12_dir.c, from any predicates of what a walk keeps.
use gem.Base.{ℕ, zero, suc, List, Option, none, some, ◌==◌, take, drop, if_both}
use gem.Fat.{FatError, byte_at, cluster_unread}
use gem.Fat.File.{Dirent}
use gem.Fat.Dir.{
  Walk, Walked, walked, failed, continue, visit_bytes, walk_region, read_part, read_entry,
}

-- `W` of a walk that may go on, `F` of one that failed.
module _ {ℓ κ} {C : Type ℓ} (W : Walk C → Type κ) (F : FatError → Walk C → Type κ) where
  abbrev pub Ends : Walked C → Type κ
  Ends (walked w) = W w
  Ends (failed e w) = F e w

  pub continue-Ends :
      (r : Walked C) (rest : Walk C → Walked C)
      → Ends r
      → ((w : Walk C) → W w → Ends (rest w))
      → Ends (continue r rest)
  continue-Ends (failed e w) rest k later = k
  continue-Ends (walked w) rest k later = if_both Ends w.stopped k (later w k)

  pub read_part-Ends :
      (bytes : Option (List ℕ)) (region : List ℕ → Walk C → Walked C) (rest : Walk C → Walked C)
      (w : Walk C)
      → ((b : List ℕ) (v : Walk C) → W v → Ends (region b v))
      → ((v : Walk C) → W v → Ends (rest v))
      → F cluster_unread w
      → W w
      → Ends (read_part bytes region rest w)
  read_part-Ends none region rest w each later lost k = lost
  read_part-Ends (some bytes) region rest w each later lost k =
      continue-Ends (region bytes w) rest (each bytes w k) later

  module _ (visit : Dirent → Walk C → Walked C)
      (each : (e : Dirent) (v : Walk C) → W v → Ends (visit e v)) where
    visit_bytes-Ends : (entry : Option Dirent) (w : Walk C) → W w → Ends (visit_bytes visit entry w)
    visit_bytes-Ends none w k = k
    visit_bytes-Ends (some entry) w k = each entry w k

    pub walk_region-Ends :
        (count : ℕ) (bytes : List ℕ) (w : Walk C) → W w → Ends (walk_region visit count bytes w)
    unfolding walk_region
    walk_region-Ends zero bytes w k = k
    walk_region-Ends (suc count) bytes w k = if_both Ends (byte_at bytes 0 == 0) {x = walked w} k (
        continue-Ends (visit_bytes visit (read_entry (take 32 bytes)) w)
          (walk_region visit count (drop 32 bytes))
          (visit_bytes-Ends (read_entry (take 32 bytes)) w k)
          (walk_region-Ends count (drop 32 bytes)))
