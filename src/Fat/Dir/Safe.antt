-- ===== src/Fat/Dir/Safe.antt =====
-- What the callback of `fat12_walk_root` (lib/fat12/fat12_dir.c) is called with.
use gem.Base.{
  ℕ, zero, suc, ◌+◌, ◌*◌, ◌/◌, ◌≤◌, ◌<◌, ◌≡◌, ◌≢◌, ◌⊎◌, ◌∙◌, refl, sym, ap, Bool, true, false, not,
  ◌&&◌, ◌||◌, List, [], ◌∷◌, ◌++◌, Option, none, some, ltb, leb, ◌==◌, length, arith, All, inl, inr,
  Bool-cases, if_both,
}
use mathlib.Core.Bool.{false≢true}
use gem.Fat.Dir.Rules.{Ends, walk_region-Ends, read_part-Ends}
use gem.Fat.{
  FatError, Image, read_bytes, cluster_offset, next_cluster, cluster_end_min, cluster_bad,
  bad_chain, directory_cycle,
}
use gem.Fat.File.{Dirent, is_directory, max_guard}
use gem.Fat.Dir.{
  Walk, Walked, walked, failed, Callback, slash, is_dot_name, has_unsafe, is_empty, join_path,
  max_path, max_entries, max_depth, called, visit_entry, is_visited, follow, walk_round, walk_chain,
  walk_directory, fresh, walk_entries, walk_root, final,
}

-- Not a control character, a separator of paths or of a drive.
abbrev pub IsSafeChar : ℕ → Type 0
IsSafeChar c = (32 ≤ c) × (c ≢ 47) × (c ≢ 92) × (c ≢ 58)

pub record IsSafeName (name : List ℕ) : Type 0 where
  pub some_char : name ≢ []
  pub not_dots : (name ≢ 46 ∷ []) × (name ≢ 46 ∷ 46 ∷ [])
  pub chars : All IsSafeChar name

-- Safe names with a slash between them.
pub data IsPath : List ℕ → Type 0 where
  top : {name : List ℕ} → IsSafeName name → IsPath name
  below : {path name : List ℕ} → IsPath path → IsSafeName name → IsPath (path ++ slash ∷ name)

abbrev IsPrefix : List ℕ → Type 0
IsPrefix prefix = (prefix ≡ []) ⊎ IsPath prefix

join_path-IsPath :
    (prefix name : List ℕ) → IsPrefix prefix → IsSafeName name → IsPath (join_path prefix name)
join_path-IsPath [] name p safe = top safe
join_path-IsPath (c ∷ cs) name (inl e) safe = absurd cc
join_path-IsPath (c ∷ cs) name (inr p) safe = below p safe

has_unsafe-chars : (name : List ℕ) → has_unsafe name ≡ false → All IsSafeChar name
has_unsafe-chars [] e = tt
has_unsafe-chars (c ∷ cs) e =
    ((ground arith, ground arith, ground arith, ground arith), has_unsafe-chars cs (ground arith))

not_dot-name : (name : List ℕ) → is_dot_name name ≡ false → (name ≢ 46 ∷ []) × (name ≢ 46 ∷ 46 ∷ [])
not_dot-name name e =
    ((λ f. false≢true (sym e ∙ ap is_dot_name f)), (λ f. false≢true (sym e ∙ ap is_dot_name f)))

tests-IsSafeName :
    (name : List ℕ)
    → is_dot_name name ≡ false
    → is_empty name ≡ false
    → has_unsafe name ≡ false
    → IsSafeName name
tests-IsSafeName name dots empty unsafe = record {
  some_char = λ e. false≢true (sym empty ∙ ap is_empty e);
  not_dots = not_dot-name name dots;
  chars = has_unsafe-chars name unsafe;
}

module _ {ℓ κ} {C : Type ℓ} (callback : Callback C) (P : ℕ → C → Type κ)
    (keeps : (n : ℕ) (entry : Dirent) (path : List ℕ) (c : C)
      → IsSafeName entry.name
      → IsPath path
      → length path < max_path
      → P n c
      → P (n + 1) (callback entry path c).1) where
  abbrev Kept : Walk C → Type κ
  Kept w = (w.entries ≤ max_entries) × P w.entries w.context

  abbrev Lost : FatError → Walk C → Type κ
  Lost e w = (n : ℕ) × (n ≤ max_entries) × P n w.context

  abbrev IsKept : Walked C → Type κ
  IsKept = Ends Kept Lost

  failed-IsKept : (w : Walk C) → Kept w → (m : ℕ) × (m ≤ max_entries) × P m w.context
  failed-IsKept w k = (w.entries, k.0, k.1)

  abbrev Descends : (ℕ → List ℕ → Walk C → Walked C) → Type (ℓ ⊔ κ)
  Descends descend =
      (cluster : ℕ) (path : List ℕ) (w : Walk C)
      → IsPath path
      → Kept w
      → IsKept (descend cluster path w)

  called-IsKept :
      (descend : ℕ → List ℕ → Walk C → Walked C) (entry : Dirent) (path : List ℕ) (w : Walk C)
      (r : Bool × C)
      → Descends descend
      → IsPath path
      → w.entries ≤ max_entries
      → P w.entries r.1
      → IsKept (called descend entry path w r)
  called-IsKept descend entry path w (false, c) deeper good le p = (le, p)
  called-IsKept descend entry path w (true, c) deeper good le p =
      let here : IsKept (walked (record w { context = c })) = (le, p) in
      if_both IsKept
        (is_directory entry && (not (is_dot_name entry.name) && leb 2 entry.first_cluster))
        {y = walked (record w { context = c })}
        (deeper entry.first_cluster path (record w { context = c }) good (le, p)) here

  visit_entry-IsKept :
      (descend : ℕ → List ℕ → Walk C → Walked C) (prefix : List ℕ) (entry : Dirent) (w : Walk C)
      → Descends descend
      → IsPrefix prefix
      → Kept w
      → IsKept (visit_entry callback descend prefix entry w)
  unfolding visit_entry
  visit_entry-IsKept descend prefix entry w deeper good k =
      elim (Bool-cases (is_dot_name entry.name)) [
        | inl e ↦ rw e k
        | inr dots ↦
            rw dots (elim (Bool-cases (ltb max_entries (w.entries + 1) || is_empty entry.name)) [
              | inl e ↦ rw e (failed-IsKept w k)
              | inr room ↦ rw room (elim (Bool-cases (has_unsafe entry.name)) [
                | inl e ↦ rw e (failed-IsKept w k)
                | inr chars ↦
                    rw chars
                      (elim (Bool-cases (leb max_path (length (join_path prefix entry.name)))) [
                        | inl e ↦ rw e (failed-IsKept w k)
                        | inr short ↦
                            let safe = tests-IsSafeName entry.name dots (ground arith) chars in
                            let path = join_path-IsPath prefix entry.name good safe in
                            rw short (
                              called-IsKept descend entry (join_path prefix entry.name)
                                (record w { entries = w.entries + 1 })
                                (callback entry (join_path prefix entry.name) w.context) deeper path
                                (ground arith)
                                (keeps w.entries entry (join_path prefix entry.name) w.context safe
                                  path (ground arith) k.1))
                      ])
              ])
            ])
      ]

  walk_round-IsKept :
      (image : Image) (region : List ℕ → Walk C → Walked C) (rest : ℕ → Walk C → Walked C)
      (cluster : ℕ) (w : Walk C)
      → ((b : List ℕ) (v : Walk C) → Kept v → IsKept (region b v))
      → ((next : ℕ) (v : Walk C) → Kept v → IsKept (rest next v))
      → Kept w
      → IsKept (walk_round image region rest cluster w)
  unfolding walk_round
  walk_round-IsKept image region rest cluster w each later k =
      if_both IsKept (ltb cluster 2 || leb cluster_end_min cluster) {x = walked w} k (
        if_both IsKept (is_visited w.visited cluster) {x = failed directory_cycle w}
          (failed-IsKept w k)
          (read_part-Ends Kept Lost
            (read_bytes image (cluster_offset image cluster) image.bpb.cluster_size) region
            (follow (next_cluster image cluster) rest) (record w { visited = cluster ∷ w.visited })
            each
            (λ v kept.
              if_both IsKept (next_cluster image cluster == cluster_bad) {x = failed bad_chain v}
                (failed-IsKept v kept) (later (next_cluster image cluster) v kept))
            (failed-IsKept w k) k))

  walk_chain-IsKept :
      (guard : ℕ) (image : Image) (region : List ℕ → Walk C → Walked C) (cluster : ℕ) (w : Walk C)
      → ((b : List ℕ) (v : Walk C) → Kept v → IsKept (region b v))
      → Kept w
      → IsKept (walk_chain guard image region cluster w)
  unfolding walk_chain
  walk_chain-IsKept zero image region cluster w each =
      walk_round-IsKept image region _ cluster w each (λ next v. failed-IsKept v)
  walk_chain-IsKept (suc guard) image region cluster w each =
      walk_round-IsKept image region _ cluster w each
        (λ next v. walk_chain-IsKept guard image region next v each)

  walk_directory-IsKept : (room : ℕ) (image : Image) → Descends (walk_directory room image callback)
  unfolding walk_directory
  walk_directory-IsKept zero image cluster path w good k = failed-IsKept w k
  walk_directory-IsKept (suc room) image cluster path w good k =
      walk_chain-IsKept max_guard image _ cluster w
        (walk_region-Ends Kept Lost _
          (λ entry u.
            visit_entry-IsKept (walk_directory room image callback) path entry u
              (walk_directory-IsKept room image) (inr good))
          (image.bpb.cluster_size / 32))
        k

  walk_entries-IsKept :
      (region : List ℕ → Walk C → Walked C) (c : C) (bytes : Option (List ℕ))
      → ((b : List ℕ) (v : Walk C) → Kept v → IsKept (region b v))
      → P 0 c
      → IsKept (walk_entries region c bytes)
  walk_entries-IsKept region c none each p = (0, omega arith, p)
  walk_entries-IsKept region c (some bytes) each p = each bytes (fresh c) (omega arith, p)

  IsKept-final : (r : Walked C) → IsKept r → (n : ℕ) × (n ≤ max_entries) × P n (final r).context
  IsKept-final (walked w) k = failed-IsKept w k
  IsKept-final (failed e w) k = k

-- For a predicate of a count and the caller's context: when every call of the callback with a
-- name of safe characters that is not `.` or `..`, and a path of such names shorter than 256
-- characters, keeps the predicate as the count goes up by 1, then the predicate holds of the context
-- after `fat12_walk_root`, whatever the disk holds, whether the walk fails, stops or ends, at some
-- count of at most 65536. The walk ends on every disk.
pub walk_root-IsSafe {ℓ κ} :
    {C : Type ℓ} (callback : Callback C) (P : ℕ → C → Type κ) (image : Image) (c : C)
    → ((n : ℕ) (entry : Dirent) (path : List ℕ) (d : C)
        → IsSafeName entry.name
        → IsPath path
        → length path < max_path
        → P n d
        → P (n + 1) (callback entry path d).1)
    → P 0 c
    → (n : ℕ) × (n ≤ max_entries) × P n (final (walk_root image callback c)).context
unfolding walk_root
walk_root-IsSafe callback P image c keeps p =
    IsKept-final callback P keeps (walk_root image callback c) (
      walk_entries-IsKept callback P keeps _ c
        (read_bytes image (image.bpb.root_dir_sector * image.bpb.bytes_per_sector)
          (image.bpb.root_dir_sector_count * image.bpb.bytes_per_sector))
        (λ bytes v.
          walk_region-Ends (Kept callback P keeps) (Lost callback P keeps) _
            (λ entry u.
              visit_entry-IsKept callback P keeps (walk_directory max_depth image callback) [] entry
                u (walk_directory-IsKept callback P keeps max_depth image) (inl refl))
            (image.bpb.root_dir_sector_count * image.bpb.bytes_per_sector / 32) bytes v)
        p)
