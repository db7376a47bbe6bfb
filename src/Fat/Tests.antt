-- ===== src/Fat/Tests.antt =====
-- Small volumes in memory, and the theorems on lib/fat12/fat12.c and lib/fat12/fat12_dir.c.
use gem.Base.{◌↔◌}
use gem.Base.{
  ℕ, zero, suc, ◌+◌, ◌/◌, ◌≤◌, ◌<◌, ◌≡◌, ◌≢◌, refl, true, List, [], ◌∷◌, ◌++◌, some, length, arith,
  All,
}
use mathlib.Core.Option
use gem.Msa.Rle.{IsByte}
use gem.Fat.{
  Disk, Image, gives, memory_disk, cluster_loop, cluster_end_min, boot_sector_size, cluster_offset,
  next_cluster, read_bytes, read_from, open_image, parse_bpb,
}
use gem.Fat.File.{Dirent, read_file}
use gem.Fat.Slice.{Holds, read_bytes-slice, memory_disk-Holds}
use gem.Fat.Entry.{packed, entries, AreEntries, next_cluster-entries}
use gem.Fat.Chain.{IsFile, read_file-IsFile}
use gem.Fat.Open.{open_image-clusters}
use gem.Fat.Dir.{
  Walk, failed, Callback, walk_root, walk_region, visit_entry, read_entry, format_attr, final,
  max_entries,
}
use gem.Fat.Dir.Safe.{walk_root-IsSafe}
use gem.Fat.Dir.Once.{AreOnce, walk_root-AreOnce}

-- Sectors of four bytes: one reserved, two that hold a FAT of six bytes, and two clusters.
abbrev volume : List ℕ
volume =
    1 ∷ 2 ∷ 3 ∷ 4 ∷ 0xf0 ∷ 0xff ∷ 0xff ∷ 3 ∷ 0xf0 ∷ 0xff ∷ 0 ∷ 0 ∷ 20 ∷ 21 ∷ 22 ∷ 23 ∷ 30 ∷ 31 ∷ 32
    ∷ 33 ∷ []

abbrev small_image : Image
small_image = record {
  disk = memory_disk volume;
  bpb = record {
    bytes_per_sector = 4;
    sectors_per_cluster = 1;
    reserved_sectors = 1;
    fat_count = 1;
    root_entries = 0;
    total_sectors = 5;
    sectors_per_fat = 2;
    sectors_per_track = 0;
    sides = 0;
    root_dir_sector = 3;
    root_dir_sector_count = 0;
    data_sector = 3;
    cluster_size = 4;
  };
}

volume-Holds : Holds (memory_disk volume) 4 5 volume
volume-Holds = memory_disk-Holds volume 4 5 (omega arith) (omega arith) (omega arith)

read_bytes-slice_example : read_bytes small_image 3 3 ≡ some (4 ∷ 0xf0 ∷ 0xff ∷ [])
read_bytes-slice_example =
    read_bytes-slice small_image volume 3 3 volume-Holds (omega arith) (omega arith)

abbrev pairs : List (ℕ × ℕ)
pairs = (0xff0, 0xfff) ∷ (3, 0xfff) ∷ []

next_cluster-entries_example : next_cluster small_image 2 ≡ 3
unfolding entries packed AreEntries
next_cluster-entries_example =
    next_cluster-entries small_image volume pairs
      (0 ∷ 0 ∷ 20 ∷ 21 ∷ 22 ∷ 23 ∷ 30 ∷ 31 ∷ 32 ∷ 33 ∷ []) 2 volume-Holds (omega arith)
      (omega arith) (omega arith) refl (omega arith) (omega arith)

abbrev two_clusters : Dirent
two_clusters = record { name = 65 ∷ []; attr = 32; first_cluster = 2; file_size = 6 }

read_file-IsFile_example :
    (read_file small_image two_clusters 8 ≡ gives (20 ∷ 21 ∷ 22 ∷ 23 ∷ 30 ∷ 31 ∷ []))
    ↔ ((n : ℕ) × (n ≤ 4097) × IsFile small_image n 2 6 (20 ∷ 21 ∷ 22 ∷ 23 ∷ 30 ∷ 31 ∷ []))
read_file-IsFile_example =
    read_file-IsFile small_image two_clusters 8 (20 ∷ 21 ∷ 22 ∷ 23 ∷ 30 ∷ 31 ∷ []) refl
      (omega arith) (omega arith)

-- The boot sector of a floppy of 360 KB.
zeros : ℕ → List ℕ
zeros zero = []
zeros (suc n) = 0 ∷ zeros n

zeros-All : (n : ℕ) → All IsByte (zeros n)
unfolding zeros
zeros-All zero = tt
zeros-All (suc n) = (omega arith, zeros-All n)

abbrev parameters : List ℕ
parameters =
    0 ∷ 0 ∷ 0 ∷ 0 ∷ 0 ∷ 0 ∷ 0 ∷ 0 ∷ 0 ∷ 0 ∷ 0 ∷ 0 ∷ 2 ∷ 2 ∷ 1 ∷ 0 ∷ 2 ∷ 112 ∷ 0 ∷ 208 ∷ 2 ∷ 248 ∷ 5
    ∷ 0 ∷ 9 ∷ 0 ∷ 1 ∷ 0 ∷ []

append-All : (xs ys : List ℕ) → All IsByte xs → All IsByte ys → All IsByte (xs ++ ys)
append-All [] ys all more = more
append-All (x ∷ xs) ys all more = (all.0, append-All xs ys all.1 more)

abbrev floppy : Disk
floppy = λ sector size. some (parameters ++ zeros 484)

floppy-IsByte : (boot : List ℕ) → floppy 0 boot_sector_size ≡ some boot → All IsByte boot
floppy-IsByte boot e =
    rw (← Option.some-injective _ _ e)
      (append-All parameters (zeros 484) (ground arith) (zeros-All 484))

abbrev floppy_image : Image
floppy_image = record {
  disk = floppy;
  bpb = record {
    bytes_per_sector = 512;
    sectors_per_cluster = 2;
    reserved_sectors = 1;
    fat_count = 2;
    root_entries = 112;
    total_sectors = 720;
    sectors_per_fat = 5;
    sectors_per_track = 9;
    sides = 1;
    root_dir_sector = 11;
    root_dir_sector_count = 7;
    data_sector = 18;
    cluster_size = 1024;
  };
}

floppy_opens : open_image floppy ≡ gives floppy_image
unfolding open_image parse_bpb
floppy_opens = refl

open_image-clusters_example :
    (cluster_offset floppy_image 352 ≡ 367616)
    × (9216 ≤ cluster_offset floppy_image 352)
    × (cluster_offset floppy_image 352 + 1024 ≤ 368640)
    × (512 + (352 + 352 / 2) + 2 ≤ 3072)
    × (3072 ≤ 5632)
    × (5632 + 3584 ≤ 9216)
open_image-clusters_example =
    open_image-clusters floppy floppy_image 352 floppy-IsByte floppy_opens (omega arith)
      (omega arith)

-- A root directory of one sector with one entry, A.TXT.
abbrev root_sector : List ℕ
root_sector =
    65 ∷ 32 ∷ 32 ∷ 32 ∷ 32 ∷ 32 ∷ 32 ∷ 32 ∷ 84 ∷ 88 ∷ 84 ∷ 32 ∷ 0 ∷ 0 ∷ 0 ∷ 0 ∷ 0 ∷ 0 ∷ 0 ∷ 0 ∷ 0
    ∷ 0 ∷ 0 ∷ 0 ∷ 0 ∷ 0 ∷ 2 ∷ 0 ∷ 6 ∷ 0 ∷ 0 ∷ 0 ∷ []

abbrev root_image : Image
root_image = record {
  disk = memory_disk root_sector;
  bpb = record floppy_image.bpb {
    bytes_per_sector = 32;
    total_sectors = 1;
    root_dir_sector = 0;
    root_dir_sector_count = 1;
  };
}

-- A callback that notes the paths.
abbrev note : Callback (List (List ℕ))
note entry path paths = (true, path ∷ paths)

notes_path : (final (walk_root root_image note [])).context ≡ (65 ∷ 46 ∷ 84 ∷ 88 ∷ 84 ∷ []) ∷ []
unfolding walk_root walk_region visit_entry read_entry memory_disk read_bytes read_from
notes_path = refl

abbrev AreShort : ℕ → List (List ℕ) → Type 0
AreShort n paths = (length paths ≡ n) × All (λ p. length p < 256) paths

walk_root-IsSafe_example :
    (n : ℕ) × (n ≤ max_entries) × AreShort n (final (walk_root root_image note [])).context
walk_root-IsSafe_example =
    walk_root-IsSafe note AreShort root_image []
      (λ n entry path d name good short all. (omega (arith, all.0), (short, all.1))) (refl, tt)

walk_root-AreOnce_example :
    AreOnce (final (walk_root root_image note [])).visited
    × (length (final (walk_root root_image note [])).visited ≤ cluster_end_min)
    × ((w : Walk (List (List ℕ))) → walk_root root_image note [] ≢ failed cluster_loop w)
walk_root-AreOnce_example = walk_root-AreOnce note root_image []

shows_attributes : format_attr 49 8 ≡ 68 ∷ 82 ∷ 65 ∷ []
unfolding format_attr
shows_attributes = refl
