-- ===== src/Fat/Dir/Once.antt =====
-- The budget of `fat12_walk_root` (lib/fat12/fat12_dir.c): which clusters it reads as directories.
use gem.Base.{
  ℕ, zero, suc, ◌+◌, ◌*◌, ◌/◌, ◌≤◌, ◌<◌, ◌≡◌, ◌≢◌, refl, Bool, true, false, not, ◌&&◌, ◌||◌, List,
  [], ◌∷◌, Option, none, some, if◌then◌else◌, ltb, leb, ◌==◌, length, arith, inl, inr, Bool-cases,
  if_both,
}
use gem.Fat.{
  FatError, Image, read_bytes, cluster_offset, next_cluster, cluster_end_min, cluster_bad,
  bad_chain, cluster_loop, bad_size, unsafe_name, long_path,
}
use gem.Fat.File.{Dirent, is_directory, max_guard}
use gem.Fat.Dir.{
  Walk, Walked, walked, failed, Callback, is_dot_name, has_unsafe, is_empty, join_path, max_path,
  max_entries, max_depth, called, visit_entry, is_visited, follow, read_part, walk_round,
  walk_chain, walk_directory, fresh, walk_entries, walk_root, final,
}
use gem.Fat.Dir.Rules.{Ends, walk_region-Ends, read_part-Ends}

-- Numbers of data clusters, each of them once.
abbrev pub AreOnce : List ℕ → Type 0
AreOnce [] = Unit
AreOnce (c ∷ cs) = (2 ≤ c) × (c < cluster_end_min) × (is_visited cs c ≡ false) × AreOnce cs

-- How many of the first `n` numbers are not in the list.
missing : List ℕ → ℕ → ℕ
missing cs zero = 0
missing cs (suc n) = (if is_visited cs n then 0 else 1) + missing cs n

missing-above : (c : ℕ) (cs : List ℕ) (n : ℕ) → n ≤ c → missing (c ∷ cs) n ≡ missing cs n
unfolding missing
missing-above c cs zero le = refl
missing-above c cs (suc n) le = let later = missing-above c cs n (omega arith) in ground arith

missing-new :
    (c : ℕ) (cs : List ℕ) (n : ℕ)
    → is_visited cs c ≡ false
    → c < n
    → missing (c ∷ cs) n + 1 ≡ missing cs n
unfolding missing
missing-new c cs zero new lt = absurd (omega arith)
missing-new c cs (suc n) new lt = elim (Bool-cases (n == c)) [
  | inl e ↦
      let same : n ≡ c = ground arith in
      let above = missing-above c cs n (omega arith) in
      let unseen : is_visited cs n ≡ false = rw same new in rw e (rw unseen (omega (arith, above)))
  | inr e ↦ let later = missing-new c cs n new (ground arith) in rw e (omega arith)
]

missing-none : (n : ℕ) → missing [] n ≡ n
unfolding missing
missing-none zero = refl
missing-none (suc n) = let later = missing-none n in omega arith

once-length :
    (cs : List ℕ) (n : ℕ) → cluster_end_min ≤ n → AreOnce cs → length cs + missing cs n ≡ n
once-length [] n le once = omega (arith, missing-none n)
once-length (c ∷ cs) n le (some_data, few, new, once) =
    omega (arith, missing-new c cs n new (omega arith), once-length cs n le once)

-- There are at most 4088 of them.
once_few : (cs : List ℕ) → AreOnce cs → length cs ≤ cluster_end_min
once_few cs once = let all = once-length cs cluster_end_min (omega arith) once in omega arith

module _ {ℓ} {C : Type ℓ} (callback : Callback C) where
  abbrev Grown : ℕ → Walk C → Type 0
  Grown start w = AreOnce w.visited × (start ≤ length w.visited)

  abbrev Budgeted : FatError → Walk C → Type 0
  Budgeted e w = AreOnce w.visited × (e ≢ cluster_loop)

  abbrev IsGrown : ℕ → Walked C → Type 0
  IsGrown start = Ends (Grown start) Budgeted

  abbrev Descends : (ℕ → List ℕ → Walk C → Walked C) → Type ℓ
  Descends descend =
      (start cluster : ℕ) (path : List ℕ) (w : Walk C)
      → Grown start w
      → IsGrown start (descend cluster path w)

  called-IsGrown :
      (descend : ℕ → List ℕ → Walk C → Walked C) (start : ℕ) (entry : Dirent) (path : List ℕ)
      (w : Walk C) (r : Bool × C)
      → Descends descend
      → Grown start w
      → IsGrown start (called descend entry path w r)
  called-IsGrown descend start entry path w (false, c) deeper k = k
  called-IsGrown descend start entry path w (true, c) deeper k =
      if_both (IsGrown start)
        (is_directory entry && (not (is_dot_name entry.name) && leb 2 entry.first_cluster))
        {y = walked (record w { context = c })}
        (deeper start entry.first_cluster path (record w { context = c }) k) k

  visit_entry-IsGrown :
      (descend : ℕ → List ℕ → Walk C → Walked C) (start : ℕ) (prefix : List ℕ) (entry : Dirent)
      (w : Walk C)
      → Descends descend
      → Grown start w
      → IsGrown start (visit_entry callback descend prefix entry w)
  unfolding visit_entry
  visit_entry-IsGrown descend start prefix entry w deeper k =
      let counted = record w { entries = w.entries + 1 } in
      if_both (IsGrown start) (is_dot_name entry.name) {x = walked w} k (
        if_both (IsGrown start) (ltb max_entries (w.entries + 1) || is_empty entry.name)
          {x = failed bad_size counted} (k.0, cc)
          (if_both (IsGrown start) (has_unsafe entry.name) {x = failed unsafe_name counted}
            (k.0, cc)
            (if_both (IsGrown start) (leb max_path (length (join_path prefix entry.name)))
              {x = failed long_path counted} (k.0, cc)
              (called-IsGrown descend start entry (join_path prefix entry.name) counted
                (callback entry (join_path prefix entry.name) w.context) deeper k))))

  IsGrown-weaken : (start : ℕ) (r : Walked C) → IsGrown (start + 1) r → IsGrown start r
  IsGrown-weaken start (walked w) k = (k.0, omega (arith, k.1))
  IsGrown-weaken start (failed e w) k = k

  read_cluster-IsGrown :
      (image : Image) (region : List ℕ → Walk C → Walked C) (rest : ℕ → Walk C → Walked C)
      (start cluster : ℕ) (w : Walk C)
      → ((begun : ℕ) (b : List ℕ) (v : Walk C) → Grown begun v → IsGrown begun (region b v))
      → ((next : ℕ) (v : Walk C) → Grown start v → IsGrown start (rest next v))
      → Grown start w
      → IsGrown start (
          read_part
            (read_bytes image (cluster_offset image cluster) image.bpb.cluster_size)
            region
            (follow (next_cluster image cluster) rest)
            w)
  read_cluster-IsGrown image region rest start cluster w each later k =
      read_part-Ends (Grown start) Budgeted
        (read_bytes image (cluster_offset image cluster) image.bpb.cluster_size) region
        (follow (next_cluster image cluster) rest) w (each start)
        (λ v grown.
          if_both (IsGrown start) (next_cluster image cluster == cluster_bad)
            {x = failed bad_chain v} (grown.0, cc) (later (next_cluster image cluster) v grown))
        (k.0, cc) k

  walk_round-IsGrown :
      (image : Image) (region : List ℕ → Walk C → Walked C) (rest : ℕ → Walk C → Walked C)
      (start cluster : ℕ) (w : Walk C)
      → ((begun : ℕ) (b : List ℕ) (v : Walk C) → Grown begun v → IsGrown begun (region b v))
      → ((next : ℕ) (v : Walk C) → Grown (start + 1) v → IsGrown (start + 1) (rest next v))
      → Grown start w
      → IsGrown start (walk_round image region rest cluster w)
  unfolding walk_round
  walk_round-IsGrown image region rest start cluster w each later k =
      elim (Bool-cases (ltb cluster 2 || leb cluster_end_min cluster)) [
        | inl e ↦ rw e k
        | inr in_data ↦ rw in_data (elim (Bool-cases (is_visited w.visited cluster)) [
          | inl e ↦ rw e (k.0, cc)
          | inr new ↦
              let once : AreOnce (cluster ∷ w.visited) = (ground arith, ground arith, new, k.0) in
              rw new (
                IsGrown-weaken start _ (
                  read_cluster-IsGrown image region rest (start + 1) cluster
                    (record w { visited = cluster ∷ w.visited }) each later
                    (once, omega (arith, k.1))))
        ])
      ]

  walk_chain-IsGrown :
      (guard : ℕ) (image : Image) (region : List ℕ → Walk C → Walked C) (start cluster : ℕ)
      (w : Walk C)
      → max_guard ≤ start + guard
      → ((begun : ℕ) (b : List ℕ) (v : Walk C) → Grown begun v → IsGrown begun (region b v))
      → Grown start w
      → IsGrown start (walk_chain guard image region cluster w)
  unfolding walk_chain
  walk_chain-IsGrown zero image region start cluster w enough each =
      walk_round-IsGrown image region _ start cluster w each
        (λ next v grown. absurd (omega (arith, once_few v.visited grown.0, grown.1, enough)))
  walk_chain-IsGrown (suc guard) image region start cluster w enough each =
      walk_round-IsGrown image region _ start cluster w each (λ next v.
        walk_chain-IsGrown guard image region (start + 1) next v (omega (arith, enough)) each)

  walk_directory-IsGrown :
      (room : ℕ) (image : Image) → Descends (walk_directory room image callback)
  unfolding walk_directory
  walk_directory-IsGrown zero image start cluster path w k = (k.0, cc)
  walk_directory-IsGrown (suc room) image start cluster path w k =
      walk_chain-IsGrown max_guard image _ start cluster w (omega arith)
        (λ begun.
          walk_region-Ends (Grown begun) Budgeted _
            (λ entry u.
              visit_entry-IsGrown (walk_directory room image callback) begun path entry u
                (walk_directory-IsGrown room image))
            (image.bpb.cluster_size / 32))
        k

  walk_entries-IsGrown :
      (region : List ℕ → Walk C → Walked C) (c : C) (bytes : Option (List ℕ))
      → ((b : List ℕ) (v : Walk C) → Grown 0 v → IsGrown 0 (region b v))
      → IsGrown 0 (walk_entries region c bytes)
  walk_entries-IsGrown region c none each = (tt, cc)
  walk_entries-IsGrown region c (some bytes) each = each bytes (fresh c) (tt, omega arith)

  IsGrown-final :
      (r : Walked C)
      → IsGrown 0 r
      → AreOnce (final r).visited
        × (length (final r).visited ≤ cluster_end_min)
        × ((w : Walk C) → r ≢ failed cluster_loop w)
  IsGrown-final (walked w) k = (k.0, once_few w.visited k.0, λ v. cc)
  IsGrown-final (failed e w) k = (k.0, once_few w.visited k.0, λ v same. k.1 cc)

-- On every disk and with every callback, `fat12_walk_root` reads no cluster twice as a directory:
-- those that it marks are numbers from 2 up to 4087, each once, so at most 4088. It never fails by
-- its limit of 4096 on the length of a chain, which the marks make unreachable.
pub walk_root-AreOnce {ℓ} :
    {C : Type ℓ} (callback : Callback C) (image : Image) (c : C)
    → AreOnce (final (walk_root image callback c)).visited
      × (length (final (walk_root image callback c)).visited ≤ cluster_end_min)
      × ((w : Walk C) → walk_root image callback c ≢ failed cluster_loop w)
unfolding walk_root
walk_root-AreOnce callback image c = IsGrown-final callback (walk_root image callback c) (
    walk_entries-IsGrown callback _ c
      (read_bytes image (image.bpb.root_dir_sector * image.bpb.bytes_per_sector)
        (image.bpb.root_dir_sector_count * image.bpb.bytes_per_sector))
      (walk_region-Ends (Grown callback 0) (Budgeted callback) _
        (λ entry u.
          visit_entry-IsGrown callback (walk_directory max_depth image callback) 0 [] entry u
            (walk_directory-IsGrown callback max_depth image))
        (image.bpb.root_dir_sector_count * image.bpb.bytes_per_sector / 32)))
