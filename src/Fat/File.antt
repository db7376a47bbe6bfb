-- ===== src/Fat/File.antt =====
-- `fat12_read_file` and `fat12_read_file_alloc` of lib/fat12/fat12.c, and what a file's clusters are.
use gem.Base.{
  ℕ, zero, suc, ◌-◌, ◌*◌, ◌/◌, ◌%◌, Bool, true, false, ◌||◌, List, [], ◌++◌, Option, none, some,
  if◌then◌else◌, ltb, leb, ◌==◌,
}
use gem.Fat.{
  Image, Answer, fails, gives, not_regular, chain_ended, cluster_unread, bad_chain, cluster_loop,
  too_large, buffer_small, smaller, read_bytes, cluster_offset, next_cluster, cluster_end_min,
  cluster_bad,
}

pub record Dirent : Type 0 where
  pub name : List ℕ
  pub attr : ℕ
  pub first_cluster : ℕ
  pub file_size : ℕ

abbrev pub is_volume : Dirent → Bool
is_volume entry = entry.attr / 8 % 2 == 1

abbrev pub is_directory : Dirent → Bool
is_directory entry = entry.attr / 16 % 2 == 1

abbrev pub before_rest : List ℕ → Answer (List ℕ) → Answer (List ℕ)
before_rest bytes (fails e) = fails e
before_rest bytes (gives more) = gives (bytes ++ more)

-- What follows a cluster that was read: the end of the file, or the rest of the chain.
abbrev pub cluster_then : Option (List ℕ) → Bool → Answer (List ℕ) → Answer (List ℕ)
cluster_then none more rest = fails cluster_unread
cluster_then (some bytes) true rest = before_rest bytes rest
cluster_then (some bytes) false rest = gives bytes

-- One round of the loop: `rest` is what the rounds after it come to.
unfoldable pub read_cluster : Image → ℕ → ℕ → Answer (List ℕ) → Answer (List ℕ)
read_cluster image cluster left rest =
    let chunk = smaller left image.bpb.cluster_size in
    if ltb cluster 2 || leb cluster_end_min cluster
    then fails chain_ended
    else cluster_then (read_bytes image (cluster_offset image cluster) chunk) (ltb chunk left)
        (if next_cluster image cluster == cluster_bad then fails bad_chain else rest)

-- The loop from a cluster on, with `left` bytes to copy; `guard` more clusters may follow.
unfoldable pub read_clusters : ℕ → Image → ℕ → ℕ → Answer (List ℕ)
unfolding read_cluster
read_clusters zero image cluster left = read_cluster image cluster left (fails cluster_loop)
read_clusters (suc guard) image cluster left = read_cluster image cluster left (
    read_clusters guard image (next_cluster image cluster)
      (left - smaller left image.bpb.cluster_size))

abbrev pub max_guard : ℕ
max_guard = 4096

-- `room` is the size of the caller's buffer.
unfoldable pub read_file : Image → Dirent → ℕ → Answer (List ℕ)
unfolding read_clusters
read_file image entry room =
    if is_directory entry || is_volume entry
    then fails not_regular
    else if ltb room entry.file_size
    then fails buffer_small
    else if entry.file_size == 0
    then gives []
    else read_clusters max_guard image entry.first_cluster entry.file_size

unfoldable pub read_file_alloc : Image → Dirent → Answer (List ℕ)
read_file_alloc image entry =
    if ltb (image.bpb.total_sectors * 512) entry.file_size
    then fails too_large
    else read_file image entry entry.file_size
