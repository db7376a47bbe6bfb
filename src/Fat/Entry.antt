-- ===== src/Fat/Entry.antt =====
-- `fat12_next_cluster` (lib/fat12/fat12.c) against the format of a FAT: two entries of twelve bits in
-- three bytes.
use gem.Base.{two32}
use gem.Base.{
  ℕ, zero, suc, ◌+◌, ◌*◌, ◌/◌, ◌%◌, ◌≤◌, ◌<◌, ◌≡◌, ◌∙◌, refl, sym, ap, List, [], ◌∷◌, ◌++◌, none,
  some, if◌then◌else◌, leb, ◌==◌, length, get_or, take, drop, arith, le→leb, get_or-drop,
  get_or-take, if_true,
}
use gem.Fat.{Image, entry_of, next_cluster}
use gem.Fat.Slice.{Holds, read_bytes-slice}

-- The bytes of the entries, an even number of them.
unfoldable pub packed : List (ℕ × ℕ) → List ℕ
packed [] = []
packed ((a, b) ∷ rest) = a % 256 ∷ (a / 256 + b % 16 * 16) ∷ b / 16 ∷ packed rest

unfoldable pub entries : List (ℕ × ℕ) → List ℕ
entries [] = []
entries ((a, b) ∷ rest) = a ∷ b ∷ entries rest

unfoldable pub AreEntries : List (ℕ × ℕ) → Type 0
AreEntries [] = Unit
AreEntries ((a, b) ∷ rest) = (a < 4096) × (b < 4096) × AreEntries rest

-- The twelve bits of the entry in the pair of bytes.
abbrev pub twelve_bits : ℕ → ℕ → ℕ → ℕ
twelve_bits cluster low high =
    if cluster % 2 == 0 then (low + high * 256) % 4096 else (low + high * 256) / 16

packed_at :
    (pairs : List (ℕ × ℕ)) (cluster : ℕ)
    → AreEntries pairs
    → cluster < length (entries pairs)
    → twelve_bits cluster
        (get_or (packed pairs) (cluster + cluster / 2) 0)
        (get_or (packed pairs) (cluster + cluster / 2 + 1) 0)
      ≡ get_or (entries pairs) cluster 0
unfolding packed entries AreEntries
packed_at [] cluster are lt = absurd (omega arith)
packed_at ((a, b) ∷ rest) zero are lt = omega (arith, are.0)
packed_at ((a, b) ∷ rest) (suc zero) are lt = omega (arith, are.1)
packed_at ((a, b) ∷ rest) (suc (suc c)) are lt =
    let at : suc (suc c) + suc (suc c) / 2 ≡ suc (suc (suc (c + c / 2))) = omega arith in
    let after : suc (suc (suc (c + c / 2))) + 1 ≡ suc (suc (suc (c + c / 2 + 1))) = omega arith in
    let even : suc (suc c) % 2 ≡ c % 2 = omega arith in
    rw at (rw after (rw even (packed_at rest c are.2 (omega arith))))

get_or-append : (xs ys : List ℕ) (i : ℕ) → i < length xs → get_or (xs ++ ys) i 0 ≡ get_or xs i 0
get_or-append [] ys i lt = absurd (omega arith)
get_or-append (x ∷ xs) ys zero lt = refl
get_or-append (x ∷ xs) ys (suc i) lt = get_or-append xs ys i (omega arith)

length-packed : (pairs : List (ℕ × ℕ)) → 2 * length (packed pairs) ≡ 3 * length (entries pairs)
unfolding packed entries
length-packed [] = refl
length-packed ((a, b) ∷ rest) = let later = length-packed rest in omega arith

even_entries : (pairs : List (ℕ × ℕ)) → length (entries pairs) % 2 ≡ 0
unfolding entries
even_entries [] = refl
even_entries ((a, b) ∷ rest) = let later = even_entries rest in omega arith

-- A byte that is read of the table.
table_byte :
    (bytes table other : List ℕ) (start i k : ℕ)
    → drop start bytes ≡ table ++ other
    → k < 2
    → i + k < length table
    → get_or (take 2 (drop (start + i) bytes)) k 0 ≡ get_or table (i + k) 0
table_byte bytes table other start i k at small lt =
    get_or-take 2 k (drop (start + i) bytes) 0 small
    ∙ get_or-drop (start + i) k bytes 0
    ∙ ap (λ n. get_or bytes n 0) {x = start + i + k} {y = start + (i + k)} (omega arith)
    ∙ sym (get_or-drop start (i + k) bytes 0)
    ∙ ap (λ t. get_or t (i + k) 0) at
    ∙ get_or-append table other (i + k) lt

-- What the two bytes of an entry come to.
entry_of-bytes :
    (cluster : ℕ) (bytes : List ℕ)
    → entry_of cluster (some bytes) ≡ twelve_bits cluster (get_or bytes 0 0) (get_or bytes 1 0)
entry_of-bytes cluster bytes = refl

-- On a disk that holds a volume whose FAT, after the reserved sectors, is the packed form of the
-- entries: for a cluster that has an entry, `fat12_next_cluster` answers the entry.
pub next_cluster-entries :
    (image : Image) (bytes : List ℕ) (pairs : List (ℕ × ℕ)) (other : List ℕ) (cluster : ℕ)
    → Holds image.disk image.bpb.bytes_per_sector image.bpb.total_sectors bytes
    → 0 < image.bpb.bytes_per_sector
    → image.bpb.total_sectors * image.bpb.bytes_per_sector < two32
    → AreEntries pairs
    → drop (image.bpb.reserved_sectors * image.bpb.bytes_per_sector) bytes ≡ packed pairs ++ other
    → (image.bpb.reserved_sectors * image.bpb.bytes_per_sector) + length (packed pairs)
      ≤ image.bpb.total_sectors * image.bpb.bytes_per_sector
    → cluster < length (entries pairs)
    → next_cluster image cluster ≡ get_or (entries pairs) cluster 0
unfolding next_cluster
next_cluster-entries image bytes pairs other cluster holds some_size small are at fits lt =
    let start = image.bpb.reserved_sectors * image.bpb.bytes_per_sector in
    let i = cluster + cluster / 2 in
    let inside : i + 1 < length (packed pairs) =
      omega (arith, length-packed pairs, even_entries pairs) in
    let whole = read_bytes-slice image bytes (start + i) 2 holds some_size small in
    let read =
      whole
      ∙ if_true (leb (start + i + 2) (image.bpb.total_sectors * image.bpb.bytes_per_sector)) _ none
          (le→leb _ _ (omega arith)) in
    let low = table_byte bytes (packed pairs) other start i 0 at (omega arith) (omega arith) in
    let high = table_byte bytes (packed pairs) other start i 1 at (omega arith) inside in
    let first : i + 0 ≡ i = omega arith in
    rw read (rw low (rw high (rw first (packed_at pairs cluster are lt))))
