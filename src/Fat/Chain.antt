-- ===== src/Fat/Chain.antt =====
-- The file that `fat12_read_file` (lib/fat12/fat12.c) reads, against the chain of its clusters.
use mathlib.Core.Path.{subst}
use gem.Base.{◌↔◌}
use gem.Base.{
  ℕ, zero, suc, ◌-◌, ◌≤◌, ◌<◌, ◌≡◌, ◌≢◌, ◌⊎◌, ◌∙◌, refl, sym, ap, Bool, true, false, ◌||◌, List,
  ◌++◌, Option, none, some, if◌then◌else◌, ltb, leb, ◌==◌, arith, inl, inr, Bool-cases, if_true,
  if_inv, ltb→lt, ltb→le,
}
use gem.Fat.{
  Image, Answer, fails, gives, FatError, chain_ended, cluster_unread, bad_chain, cluster_loop,
  smaller, read_bytes, cluster_offset, next_cluster, cluster_end_min, cluster_bad,
}
use gem.Fat.File.{
  Dirent, is_volume, is_directory, before_rest, cluster_then, read_cluster, read_clusters,
  max_guard, read_file,
}

-- The bytes of a file: `left` bytes from the chain of `n` clusters that begins with a cluster.
pub data IsFile (image : Image) : ℕ → ℕ → ℕ → List ℕ → Type 0 where
  last_cluster :
      (cluster left : ℕ) (bytes : List ℕ)
      → 2 ≤ cluster
      → cluster < cluster_end_min
      → left ≤ image.bpb.cluster_size
      → read_bytes image (cluster_offset image cluster) left ≡ some bytes
      → IsFile image 1 cluster left bytes
  one_cluster :
      (n cluster left : ℕ) (bytes rest : List ℕ)
      → 2 ≤ cluster
      → cluster < cluster_end_min
      → image.bpb.cluster_size < left
      → read_bytes image (cluster_offset image cluster) image.bpb.cluster_size ≡ some bytes
      → next_cluster image cluster ≢ cluster_bad
      → IsFile image n (next_cluster image cluster) (left - image.bpb.cluster_size) rest
      → IsFile image (suc n) cluster left (bytes ++ rest)

fails_not_gives {ℓ} : {A : Type ℓ} (e : FatError) (a : A) → fails e ≢ gives a
fails_not_gives e a h = cc

gives-injective {ℓ} : {A : Type ℓ} (a b : A) → gives a ≡ gives b → a ≡ b
gives-injective a b h = cc

after_bytes :
    (bytes : List ℕ) (rest : Answer (List ℕ)) (all : List ℕ)
    → before_rest bytes rest ≡ gives all
    → (more : List ℕ) × (rest ≡ gives more) × (all ≡ bytes ++ more)
after_bytes bytes (fails e) all h = absurd (fails_not_gives e all h)
after_bytes bytes (gives more) all h = (more, refl, sym (gives-injective _ _ h))

short_inv :
    (o : Option (List ℕ)) (rest : Answer (List ℕ)) (all : List ℕ)
    → cluster_then o false rest ≡ gives all
    → o ≡ some all
short_inv none rest all h = absurd (fails_not_gives cluster_unread all h)
short_inv (some bytes) rest all h = ap some (gives-injective _ _ h)

long_inv :
    (o : Option (List ℕ)) (bad : Bool) (rest : Answer (List ℕ)) (all : List ℕ)
    → cluster_then o true (if bad then fails bad_chain else rest) ≡ gives all
    → (bytes : List ℕ) × (more : List ℕ) × (o ≡ some bytes)
      × (bad ≡ false)
      × (rest ≡ gives more)
      × (all ≡ bytes ++ more)
long_inv none bad rest all h = absurd (fails_not_gives cluster_unread all h)
long_inv (some bytes) true rest all h = absurd (fails_not_gives bad_chain all h)
long_inv (some bytes) false rest all h =
    let (more, found, same) = after_bytes bytes rest all h in (bytes, more, refl, refl, found, same)

module _ (image : Image) (cluster left : ℕ) (rest : Answer (List ℕ)) (all : List ℕ) where
  IsLast : Type 0
  IsLast =
      (left ≤ image.bpb.cluster_size)
      × (read_bytes image (cluster_offset image cluster) left ≡ some all)

  IsFirst : Type 0
  IsFirst =
      (bytes : List ℕ) × (more : List ℕ) × (image.bpb.cluster_size < left)
      × (read_bytes image (cluster_offset image cluster) image.bpb.cluster_size ≡ some bytes)
      × (next_cluster image cluster ≢ cluster_bad)
      × (rest ≡ gives more)
      × (all ≡ bytes ++ more)

  read_cluster-gives :
      read_cluster image cluster left rest ≡ gives all
      → (2 ≤ cluster) × (cluster < cluster_end_min) × (IsLast ⊎ IsFirst)
  unfolding read_cluster IsLast IsFirst
  read_cluster-gives h =
      elim (if_inv (ltb cluster 2 || leb cluster_end_min cluster) (fails chain_ended)
        (cluster_then
          (read_bytes image (cluster_offset image cluster) (smaller left image.bpb.cluster_size))
          (ltb (smaller left image.bpb.cluster_size) left)
          (if next_cluster image cluster == cluster_bad then fails bad_chain else rest))
        h) [
          | inl (t, e) ↦ absurd (fails_not_gives chain_ended all e)
          | inr (f, e) ↦ (ground arith, ground arith, by_size e)
        ]
    where
      by_size :
          cluster_then
              (read_bytes image
                (cluster_offset image cluster)
                (smaller left image.bpb.cluster_size))
              (ltb (smaller left image.bpb.cluster_size) left)
              (if next_cluster image cluster == cluster_bad then fails bad_chain else rest)
            ≡ gives all
          → IsLast ⊎ IsFirst
      by_size e = elim (Bool-cases (ltb image.bpb.cluster_size left)) [
        | inl more ↦
            let e' = rw more at e in
            let e'' = rw more at e' in
            let (bytes, others, found, good, followed, same) = long_inv _ _ rest all e'' in
            inr (bytes, others, ltb→lt _ _ more, found, ground arith, followed, same)
        | inr last ↦
            let e' = rw last at e in
            let same : ltb left left ≡ false = ground arith in
            let e'' = rw same at e' in inl (ltb→le _ _ last, short_inv _ _ all e'')
      ]

read_cluster-last :
    (image : Image) (cluster left : ℕ) (rest : Answer (List ℕ)) (bytes : List ℕ)
    → 2 ≤ cluster
    → cluster < cluster_end_min
    → left ≤ image.bpb.cluster_size
    → read_bytes image (cluster_offset image cluster) left ≡ some bytes
    → read_cluster image cluster left rest ≡ gives bytes
unfolding read_cluster
read_cluster-last image cluster left rest bytes low high fits found =
    let inside : (ltb cluster 2 || leb cluster_end_min cluster) ≡ false = ground arith in
    let short : ltb image.bpb.cluster_size left ≡ false = ground arith in
    let same : ltb left left ≡ false = ground arith in
    rw inside (rw short (rw found (rw same refl)))

read_cluster-more :
    (image : Image) (cluster left : ℕ) (bytes more : List ℕ)
    → 2 ≤ cluster
    → cluster < cluster_end_min
    → image.bpb.cluster_size < left
    → read_bytes image (cluster_offset image cluster) image.bpb.cluster_size ≡ some bytes
    → next_cluster image cluster ≢ cluster_bad
    → read_cluster image cluster left (gives more) ≡ gives (bytes ++ more)
unfolding read_cluster
read_cluster-more image cluster left bytes more low high long found good =
    let inside : (ltb cluster 2 || leb cluster_end_min cluster) ≡ false = ground arith in
    let yes_more : ltb image.bpb.cluster_size left ≡ true = ground arith in
    let not_bad : (next_cluster image cluster == cluster_bad) ≡ false = ground arith in
    rw inside (rw yes_more (rw yes_more (rw found (rw not_bad refl))))

some_cluster :
    (image : Image) (n cluster left : ℕ) (bytes : List ℕ)
    → IsFile image n cluster left bytes
    → 0 < n
some_cluster image n cluster left bytes (last_cluster c l b low high fits found) = omega arith
some_cluster image n cluster left bytes (one_cluster m c l b r low high long found good file) =
    omega arith

read_clusters_complete :
    (image : Image) (guard n cluster left : ℕ) (bytes : List ℕ)
    → n ≤ suc guard
    → IsFile image n cluster left bytes
    → read_clusters guard image cluster left ≡ gives bytes
unfolding read_clusters
read_clusters_complete image zero n cluster left bytes le (last_cluster c l b low high fits found) =
    read_cluster-last image cluster left _ bytes low high fits found
read_clusters_complete image (suc guard) n cluster left bytes le
      (last_cluster c l b low high fits found) =
    read_cluster-last image cluster left _ bytes low high fits found
read_clusters_complete image zero n cluster left bytes le
      (one_cluster m c l b r low high long found good file) =
    absurd (let some_more = some_cluster image m _ _ r file in omega (arith, le, some_more))
read_clusters_complete image (suc guard) n cluster left bytes le
      (one_cluster m c l b r low high long found good file) =
    let later = read_clusters_complete image guard m _ _ r (omega (arith, le)) file in
    let yes_more : ltb image.bpb.cluster_size left ≡ true = ground arith in
    let size = if_true _ image.bpb.cluster_size left yes_more in
    ap (read_cluster image cluster left) (
      ap (λ chunk. read_clusters guard image (next_cluster image cluster) (left - chunk)) size
      ∙ later)
    ∙ read_cluster-more image cluster left b r low high long found good

cluster-IsFile :
    (image : Image) (guard cluster left : ℕ) (rest : Answer (List ℕ)) (bytes : List ℕ)
    → read_cluster image cluster left rest ≡ gives bytes
    → ((more : List ℕ)
        → rest ≡ gives more
        → image.bpb.cluster_size < left
        → (n : ℕ) × (n ≤ guard)
          × IsFile image n (next_cluster image cluster) (left - image.bpb.cluster_size) more)
    → (n : ℕ) × (n ≤ suc guard) × IsFile image n cluster left bytes
unfolding IsLast IsFirst
cluster-IsFile image guard cluster left rest bytes h later =
    let (low, high, kind) = read_cluster-gives image cluster left rest bytes h in
    elim kind [
      | inl (fits, found) ↦ (1, omega arith, last_cluster cluster left bytes low high fits found)
      | inr (b, more, long, found, good, followed, same) ↦
          let (n, le, file) = later more followed long in
          (
            suc n,
            omega (arith, le),
            subst (IsFile image (suc n) cluster left) (sym same)
                (one_cluster n cluster left b more low high long found good file),
          )
    ]

read_clusters_sound :
    (image : Image) (guard cluster left : ℕ) (bytes : List ℕ)
    → read_clusters guard image cluster left ≡ gives bytes
    → (n : ℕ) × (n ≤ suc guard) × IsFile image n cluster left bytes
unfolding read_clusters
read_clusters_sound image zero cluster left bytes h =
    cluster-IsFile image 0 cluster left _ bytes h
      (λ more e long. absurd (fails_not_gives cluster_loop more e))
read_clusters_sound image (suc guard) cluster left bytes h =
    cluster-IsFile image (suc guard) cluster left _ bytes h (λ more e long.
      let yes_more : ltb image.bpb.cluster_size left ≡ true = ground arith in
      let e' = rw yes_more at e in
      read_clusters_sound image guard (next_cluster image cluster) (left - image.bpb.cluster_size)
        more e')

-- For a regular file that is not empty and a buffer that holds it, `fat12_read_file` gives bytes just
-- when they are those of a chain of at most 4097 clusters, not of necessity distinct, that begins with
-- the file's first cluster and follows the FAT's entries, each cluster read in full and the last as
-- far as the file goes.
pub read_file-IsFile :
    (image : Image) (entry : Dirent) (room : ℕ) (bytes : List ℕ)
    → (is_directory entry || is_volume entry) ≡ false
    → 0 < entry.file_size
    → entry.file_size ≤ room
    → (read_file image entry room ≡ gives bytes)
      ↔ ((n : ℕ) × (n ≤ 4097) × IsFile image n entry.first_cluster entry.file_size bytes)
unfolding read_file
read_file-IsFile image entry room bytes regular some_bytes fits =
    let enough : ltb room entry.file_size ≡ false = ground arith in
    let filled : (entry.file_size == 0) ≡ false = ground arith in
    (
      (λ h.
          let a = rw regular at h in
          let b = rw enough at a in
          let c = rw filled at b in
          read_clusters_sound image max_guard entry.first_cluster entry.file_size bytes c),
      (λ (n, le, file). rw regular (
          rw enough (
            rw filled (
              read_clusters_complete image max_guard n entry.first_cluster entry.file_size bytes le
                file)))),
    )
