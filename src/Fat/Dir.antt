-- ===== src/Fat/Dir.antt =====
-- The walk over the directories of a FAT12 volume: lib/fat12/fat12_dir.c. A name or a path is the list
-- of its characters, without the NUL at its end. The list `visited` holds the clusters that the
-- source marks in its array; in place of the depth, `room` says how many levels of the 32 are left.
-- `stopped` is set only where the source returns, so that it is read after each entry.
pub mod Rules
pub mod Safe
pub mod Once
use gem.Base.{
  ℕ, zero, suc, ◌+◌, ◌-◌, ◌*◌, ◌/◌, ◌%◌, Bool, true, false, not, ◌&&◌, ◌||◌, List, [], ◌∷◌, ◌++◌,
  Option, none, some, if◌then◌else◌, ltb, leb, ◌==◌, length, take, drop,
}
use gem.Fat.{
  Image, FatError, cluster_unread, bad_chain, cluster_loop, root_unread, bad_size, unsafe_name,
  long_path, deep_nesting, directory_cycle, byte_at, read_le16, read_le32, read_bytes,
  cluster_offset, next_cluster, cluster_end_min, cluster_bad,
}
use gem.Fat.File.{Dirent, is_directory, max_guard}

-- What a walk keeps; `context` is the caller's.
pub record Walk {ℓ} (C : Type ℓ) : Type ℓ where
  pub visited : List ℕ
  pub entries : ℕ
  pub stopped : Bool
  pub context : C

pub data Walked {ℓ} (C : Type ℓ) : Type ℓ where
  walked : Walk C → Walked C
  failed : FatError → Walk C → Walked C

-- `fat12_walk_fn`: whether to go on, and the context after the call.
abbrev pub Callback {ℓ} : Type ℓ → Type ℓ
Callback C = Dirent → List ℕ → C → Bool × C

-- A C string ends at its first NUL.
abbrev pub until_nul : List ℕ → List ℕ
until_nul [] = []
until_nul (c ∷ cs) = if c == 0 then [] else c ∷ until_nul cs

abbrev pub add_char : ℕ → List ℕ → List ℕ
add_char c [] = if c == 32 then [] else c ∷ []
add_char c (d ∷ ds) = c ∷ d ∷ ds

abbrev pub trim_spaces : List ℕ → List ℕ
trim_spaces [] = []
trim_spaces (c ∷ cs) = add_char c (trim_spaces cs)

abbrev pub restore_first : List ℕ → List ℕ
restore_first [] = []
restore_first (c ∷ cs) = (if c == 5 then 229 else c) ∷ cs

abbrev pub dot : ℕ
dot = 46

abbrev pub slash : ℕ
slash = 47

abbrev pub with_ext : List ℕ → List ℕ → List ℕ
with_ext base [] = base
with_ext base (c ∷ cs) = base ++ dot ∷ c ∷ cs

abbrev pub format_name : List ℕ → List ℕ
format_name entry =
    with_ext (trim_spaces (until_nul (restore_first (take 8 entry))))
      (trim_spaces (until_nul (take 3 (drop 8 entry))))

abbrev pub is_dot_name : List ℕ → Bool
is_dot_name [] = false
is_dot_name (c ∷ []) = c == dot
is_dot_name (c ∷ d ∷ []) = c == dot && d == dot
is_dot_name (c ∷ d ∷ e ∷ rest) = false

abbrev pub attr_long_name : ℕ
attr_long_name = 15

unfoldable pub read_entry : List ℕ → Option Dirent
read_entry bytes =
    if byte_at bytes 0 == 0 || (byte_at bytes 0 == 229 || byte_at bytes 11 == attr_long_name)
    then none
    else some (record {
      name = format_name bytes;
      attr = byte_at bytes 11;
      first_cluster = read_le16 bytes 26;
      file_size = read_le32 bytes 28;
    })

-- `fat12_format_attr`, of a buffer of some size.
abbrev letter_if : Bool → ℕ → List ℕ → List ℕ
letter_if true letter rest = letter ∷ rest
letter_if false letter rest = rest

abbrev or_dash : List ℕ → List ℕ
or_dash [] = 45 ∷ []
or_dash (c ∷ cs) = c ∷ cs

unfoldable pub format_attr : ℕ → ℕ → List ℕ
format_attr attr size = take (size - 1) (
    or_dash (
      letter_if (attr / 16 % 2 == 1) 68 (
        letter_if (attr / 8 % 2 == 1) 86 (
          letter_if (attr % 2 == 1) 82 (
            letter_if (attr / 2 % 2 == 1) 72
              (letter_if (attr / 4 % 2 == 1) 83 (letter_if (attr / 32 % 2 == 1) 65 [])))))))

abbrev pub is_unsafe : ℕ → Bool
is_unsafe c = ltb c 32 || (c == slash || (c == 92 || c == 58))

abbrev pub has_unsafe : List ℕ → Bool
has_unsafe [] = false
has_unsafe (c ∷ cs) = is_unsafe c || has_unsafe cs

abbrev pub is_empty : List ℕ → Bool
is_empty [] = true
is_empty (c ∷ cs) = false

abbrev pub join_path : List ℕ → List ℕ → List ℕ
join_path [] name = name
join_path (c ∷ cs) name = (c ∷ cs) ++ slash ∷ name

abbrev pub max_path : ℕ
max_path = 256

abbrev pub max_entries : ℕ
max_entries = 65536

abbrev pub max_depth : ℕ
max_depth = 32

abbrev pub is_visited : List ℕ → ℕ → Bool
is_visited [] cluster = false
is_visited (c ∷ visited) cluster = cluster == c || is_visited visited cluster

module _ {ℓ} {C : Type ℓ} where
  -- What follows a call that succeeded and did not stop the walk.
  abbrev pub continue : Walked C → (Walk C → Walked C) → Walked C
  continue (failed e w) rest = failed e w
  continue (walked w) rest = if w.stopped then walked w else rest w

  -- After the callback; `descend` is fat12_walk_cluster_directory one level deeper.
  abbrev pub enter : (ℕ → List ℕ → Walk C → Walked C) → Dirent → List ℕ → Walk C → Walked C
  enter descend entry path w =
      if is_directory entry && (not (is_dot_name entry.name) && leb 2 entry.first_cluster)
      then descend entry.first_cluster path w
      else walked w

  abbrev pub called :
      (ℕ → List ℕ → Walk C → Walked C) → Dirent → List ℕ → Walk C → Bool × C → Walked C
  called descend entry path w (false, c) = walked (record w { stopped = true; context = c })
  called descend entry path w (true, c) = enter descend entry path (record w { context = c })

  -- The body of the loop of fat12_walk_directory_region, for an entry that was read.
  unfoldable pub visit_entry :
      Callback C → (ℕ → List ℕ → Walk C → Walked C) → List ℕ → Dirent → Walk C → Walked C
  visit_entry callback descend prefix entry w =
      let path = join_path prefix entry.name in
      let counted = record w { entries = w.entries + 1 } in
      if is_dot_name entry.name
      then walked w
      else if ltb max_entries (w.entries + 1) || is_empty entry.name
      then failed bad_size counted
      else if has_unsafe entry.name
      then failed unsafe_name counted
      else if leb max_path (length path)
      then failed long_path counted
      else called descend entry path counted (callback entry path w.context)

  abbrev pub visit_bytes : (Dirent → Walk C → Walked C) → Option Dirent → Walk C → Walked C
  visit_bytes visit none w = walked w
  visit_bytes visit (some entry) w = visit entry w

  -- The entries of a region, `count` of them at most.
  unfoldable pub walk_region :
      (Dirent → Walk C → Walked C) → (count : ℕ) → List ℕ → Walk C → Walked C
  walk_region visit zero bytes w = walked w
  walk_region visit (suc count) bytes w =
      if byte_at bytes 0 == 0
      then walked w
      else continue (visit_bytes visit (read_entry (take 32 bytes)) w)
          (walk_region visit count (drop 32 bytes))

  abbrev pub follow : ℕ → (ℕ → Walk C → Walked C) → Walk C → Walked C
  follow next rest w = if next == cluster_bad then failed bad_chain w else rest next w

  abbrev pub read_part :
      Option (List ℕ) → (List ℕ → Walk C → Walked C) → (Walk C → Walked C) → Walk C → Walked C
  read_part none region rest w = failed cluster_unread w
  read_part (some bytes) region rest w = continue (region bytes w) rest

  -- A round of the loop of fat12_walk_cluster_directory; `rest` is what the rounds after it do.
  unfoldable pub walk_round :
      Image → (List ℕ → Walk C → Walked C) → (ℕ → Walk C → Walked C) → ℕ → Walk C → Walked C
  walk_round image region rest cluster w =
      if ltb cluster 2 || leb cluster_end_min cluster
      then walked w
      else if is_visited w.visited cluster
      then failed directory_cycle w
      else read_part (read_bytes image (cluster_offset image cluster) image.bpb.cluster_size) region
          (follow (next_cluster image cluster) rest) (record w { visited = cluster ∷ w.visited })

  -- The loop, of which `guard` more rounds may follow.
  unfoldable pub walk_chain : ℕ → Image → (List ℕ → Walk C → Walked C) → ℕ → Walk C → Walked C
  walk_chain zero image region = walk_round image region (λ next w. failed cluster_loop w)
  walk_chain (suc guard) image region = walk_round image region (walk_chain guard image region)

  -- fat12_walk_cluster_directory, where `room` more levels are allowed.
  unfoldable pub walk_directory : ℕ → Image → Callback C → ℕ → List ℕ → Walk C → Walked C
  walk_directory zero image callback cluster prefix w = failed deep_nesting w
  walk_directory (suc room) image callback cluster prefix w =
      walk_chain max_guard image
        (walk_region (visit_entry callback (walk_directory room image callback) prefix)
          (image.bpb.cluster_size / 32))
        cluster w

  abbrev pub fresh : C → Walk C
  fresh c = record { visited = []; entries = 0; stopped = false; context = c }

  abbrev pub walk_entries : (List ℕ → Walk C → Walked C) → C → Option (List ℕ) → Walked C
  walk_entries region c none = failed root_unread (fresh c)
  walk_entries region c (some bytes) = region bytes (fresh c)

  -- `fat12_walk_root`
  unfoldable pub walk_root : Image → Callback C → C → Walked C
  walk_root image callback c =
      let size = image.bpb.root_dir_sector_count * image.bpb.bytes_per_sector in
      walk_entries
        (walk_region (visit_entry callback (walk_directory max_depth image callback) [])
          (size / 32))
        c (read_bytes image (image.bpb.root_dir_sector * image.bpb.bytes_per_sector) size)

  abbrev pub final : Walked C → Walk C
  final (walked w) = w
  final (failed e w) = w
