-- ===== src/Fat/Slice.antt =====
-- `fat12_read_bytes` (lib/fat12/fat12.c) reads what the disk holds.
use gem.Base.{two32}
use gem.Base.{
  ℕ, zero, suc, ◌+◌, ◌-◌, ◌*◌, ◌/◌, ◌%◌, ◌≤◌, ◌<◌, ◌≡◌, ◌∙◌, refl, sym, ap, not, ◌||◌, List, ◌++◌,
  Option, none, some, if◌then◌else◌, ltb, leb, ◌==◌, length, take, drop, arith, inl, inr,
  Bool-cases, if_true, if_false, leb→le, drop-drop, drop-take, take-take, take-append-take,
}
use gem.Fat.{
  Disk, Image, memory_disk, size_max, read_sector_data, part_then, smaller, read_from, read_bytes,
}
use native.Mathlib.Nat.{
  div-add-mod', mod-lt, mod-eq_of_lt, div-lt_iff_lt-mul, le-div_iff_mul-le, mul-le-mul_right,
}

-- The disk holds the bytes: it reads each of `sectors` sectors of `size` bytes from them.
pub record Holds (disk : Disk) (size sectors : ℕ) (bytes : List ℕ) : Type 0 where
  pub reads : (i : ℕ) → i < sectors → disk i size ≡ some (take size (drop (i * size) bytes))
  pub long_enough : sectors * size ≤ length bytes

-- One sector's part of the bytes.
sector_part :
    (size pos chunk : ℕ) (bytes : List ℕ)
    → chunk + pos % size ≤ size
    → take chunk (drop (pos % size) (take size (drop (pos / size * size) bytes)))
      ≡ take chunk (drop pos bytes)
sector_part size pos chunk bytes fits =
    let at : pos / size * size + pos % size ≡ pos = div-add-mod' pos size in
    ap (take chunk) (drop-take (pos % size) size (drop (pos / size * size) bytes))
    ∙ take-take chunk (size - pos % size) (drop (pos % size) (drop (pos / size * size) bytes))
        (omega arith)
    ∙ ap (take chunk) (drop-drop (pos % size) (pos / size * size) bytes ∙ ap (λ n. drop n bytes) at)

chunk_bounds :
    (left room : ℕ)
    → 0 < left
    → 0 < room
    → (0 < smaller left room) × (smaller left room ≤ left) × (smaller left room ≤ room)
chunk_bounds left room some_left some_room = ground arith

-- One round of the loop, with what its parts are.
round :
    (bytes : List ℕ) (size pos left chunk : ℕ) (sector rest : Option (List ℕ))
    → sector ≡ some (take size (drop (pos / size * size) bytes))
    → chunk + pos % size ≤ size
    → chunk ≤ left
    → rest ≡ some (take (left - chunk) (drop (pos + chunk) bytes))
    → part_then (pos % size) chunk sector rest ≡ some (take left (drop pos bytes))
round bytes size pos left chunk sector rest found fits le later = rw found (
    rw later (
      ap some (
        ap (λ t. t ++ take (left - chunk) (drop (pos + chunk) bytes))
          (sector_part size pos chunk bytes fits)
        ∙ ap (λ t. take chunk (drop pos bytes) ++ take (left - chunk) t)
            (sym (drop-drop chunk pos bytes))
        ∙ take-append-take chunk (left - chunk) (drop pos bytes)
        ∙ ap (λ n. take n (drop pos bytes)) (omega arith))))

module _ (image : Image) (bytes : List ℕ)
    (holds : Holds image.disk image.bpb.bytes_per_sector image.bpb.total_sectors bytes)
    (some_size : 0 < image.bpb.bytes_per_sector)
    (small : image.bpb.total_sectors * image.bpb.bytes_per_sector < two32) where
  sector_read :
      (i : ℕ)
      → i < image.bpb.total_sectors
      → read_sector_data image i image.bpb.bytes_per_sector
        ≡ some (take image.bpb.bytes_per_sector (drop (i * image.bpb.bytes_per_sector) bytes))
  sector_read i lt =
      if_false
        (not (image.bpb.bytes_per_sector == image.bpb.bytes_per_sector)
          || leb image.bpb.total_sectors i)
        none (image.disk i image.bpb.bytes_per_sector) (ground arith)
      ∙ holds.reads i lt

  read_from-slice :
      (n pos left : ℕ)
      → left ≤ n
      → pos + left ≤ image.bpb.total_sectors * image.bpb.bytes_per_sector
      → read_from n image pos left ≡ some (take left (drop pos bytes))
  unfolding read_from
  read_from-slice zero pos left le fits =
      let none_left : left ≡ 0 = omega arith in rw none_left refl
  read_from-slice (suc n) pos left le fits = elim (Bool-cases (left == 0)) [
    | inl e ↦ let none_left : left ≡ 0 = ground arith in rw none_left refl
    | inr e ↦
        let near = mod-eq_of_lt {n = pos} {m = two32} (omega arith) in
        let some_left : 0 < left = ground arith in
        let inside = mod-lt pos some_size in
        let c =
          chunk_bounds left (image.bpb.bytes_per_sector - pos % image.bpb.bytes_per_sector)
            some_left (omega arith) in
        let sector =
          sector_read (pos / image.bpb.bytes_per_sector)
            ((div-lt_iff_lt-mul some_size).1 (omega arith)) in
        let later =
          read_from-slice n
            (pos + smaller left (image.bpb.bytes_per_sector - pos % image.bpb.bytes_per_sector))
            (left - smaller left (image.bpb.bytes_per_sector - pos % image.bpb.bytes_per_sector))
            (omega arith) (omega arith) in
        if_false _ _ _ e
        ∙ rw near
            (round bytes image.bpb.bytes_per_sector pos left _ _ _ sector (omega arith) c.1 later)
  ]

-- From a disk that holds the bytes of a volume, with sectors of some size and less than 4 GiB in all:
-- `fat12_read_bytes` gives exactly the bytes at the offset when the range lies within the volume, and
-- nothing when it does not.
pub read_bytes-slice :
    (image : Image) (bytes : List ℕ) (offset count : ℕ)
    → Holds image.disk image.bpb.bytes_per_sector image.bpb.total_sectors bytes
    → 0 < image.bpb.bytes_per_sector
    → image.bpb.total_sectors * image.bpb.bytes_per_sector < two32
    → read_bytes image offset count ≡ (
        if leb (offset + count) (image.bpb.total_sectors * image.bpb.bytes_per_sector)
        then some (take count (drop offset bytes))
        else none)
unfolding read_bytes
read_bytes-slice image bytes offset count holds some_size small =
    elim (Bool-cases
      (leb (offset + count) (image.bpb.total_sectors * image.bpb.bytes_per_sector))) [
        | inl e ↦
            let fits = leb→le _ _ e in
            rw e (
              if_false _ none (read_from count image offset count) (ground arith)
              ∙ read_from-slice image bytes holds some_size small count offset count (omega arith)
                  fits)
        | inr e ↦ rw e (if_true _ none (read_from count image offset count) (ground arith))
      ]

-- A disk in memory with enough bytes holds them.
pub memory_disk-Holds :
    (bytes : List ℕ) (size sectors : ℕ)
    → 0 < size
    → sectors * size ≤ length bytes
    → sectors * size ≤ size_max
    → Holds (memory_disk bytes) size sectors bytes
unfolding memory_disk
memory_disk-Holds bytes size sectors some_size enough addressable = record {
  reads = λ i lt.
      let next : (i + 1) * size ≤ sectors * size =
        mul-le-mul_right {m = i + 1} size (omega arith) in
      let unit : (i + 1) * size ≡ i * size + size = grind arith in
      let counted : i ≤ size_max / size =
        (le-div_iff_mul-le {y = size_max} some_size).1 (omega arith) in
      if_false (size == 0) none _ (ground arith)
      ∙ if_false (ltb (size_max / size) i) none _ (ground arith)
      ∙ if_false (ltb (length bytes) (i * size) || ltb (length bytes - i * size) size) none
          (some (take size (drop (i * size) bytes))) (ground arith);
  long_enough = enough;
}
