-- ===== src/Fat.antt =====
-- The FAT12 reader: lib/fat12/fat12.c, with the types of include/fat12/fat12.h.
-- A pointer that is not NULL is its value; `malloc` succeeds. Bytes are numbers below 256.
pub mod Open
pub mod Slice
pub mod Entry
pub mod File
pub mod Chain
pub mod Dir
mod Tests
use Prim.Native.Nat.{bit_and}
use gem.Base.{two32}
use gem.Base.{
  ℕ, zero, suc, ◌+◌, ◌-◌, ◌*◌, ◌/◌, ◌%◌, min, Bool, true, false, not, ◌&&◌, ◌||◌, List, [], ◌∷◌,
  ◌++◌, Option, none, some, if◌then◌else◌, ltb, leb, ◌==◌, length, get_or, take, drop,
}

pub record Bpb : Type 0 where
  pub bytes_per_sector : ℕ
  pub sectors_per_cluster : ℕ
  pub reserved_sectors : ℕ
  pub fat_count : ℕ
  pub root_entries : ℕ
  pub total_sectors : ℕ
  pub sectors_per_fat : ℕ
  pub sectors_per_track : ℕ
  pub sides : ℕ
  pub root_dir_sector : ℕ
  pub root_dir_sector_count : ℕ
  pub data_sector : ℕ
  pub cluster_size : ℕ

-- The callback of the disk: the sector and the size of the buffer, to the bytes read.
abbrev pub Disk : Type 0
Disk = ℕ → ℕ → Option (List ℕ)

pub record Image : Type 0 where
  pub disk : Disk
  pub bpb : Bpb

-- Why a call fails: the messages of the source.
pub data FatError : Type 0 where
  boot_unread bad_bpb metadata_exceeds bad_geometry : FatError
  not_regular chain_ended cluster_unread bad_chain cluster_loop too_large buffer_small : FatError
  root_unread bad_size unsafe_name long_path deep_nesting directory_cycle : FatError

pub data Answer {ℓ} (A : Type ℓ) : Type ℓ where
  fails : FatError → Answer A
  gives : A → Answer A

-- `SIZE_MAX` of a 64-bit `size_t`.
abbrev pub size_max : ℕ
size_max = 18446744073709551615

-- `fat12_memory_disk_read_sector` of the bytes of an image.
unfoldable pub memory_disk : List ℕ → Disk
memory_disk image sector size =
    if size == 0
    then none
    else if ltb (size_max / size) sector
    then none
    else if ltb (length image) (sector * size) || ltb (length image - sector * size) size
    then none
    else some (take size (drop (sector * size) image))

abbrev pub byte_at : List ℕ → ℕ → ℕ
byte_at bytes i = get_or bytes i 0

abbrev pub read_le16 : List ℕ → ℕ → ℕ
read_le16 bytes i = byte_at bytes i + byte_at bytes (i + 1) * 256

abbrev pub read_le32 : List ℕ → ℕ → ℕ
read_le32 bytes i = read_le16 bytes i + read_le16 bytes (i + 2) * 65536

-- The parameters in the boot sector, with the sectors that follow from them.
abbrev pub normal_reserved : ℕ → ℕ
normal_reserved n = if n == 0 then 1 else n

unfoldable pub parse_bpb : List ℕ → Bpb
parse_bpb boot =
    let bytes_per_sector = read_le16 boot 11 in
    let reserved = normal_reserved (read_le16 boot 14) in
    let root_count = (read_le16 boot 17 * 32 + bytes_per_sector - 1) / bytes_per_sector in
    let root_sector = reserved + byte_at boot 16 * read_le16 boot 22 in
    record {
      bytes_per_sector = bytes_per_sector;
      sectors_per_cluster = byte_at boot 13;
      reserved_sectors = reserved;
      fat_count = byte_at boot 16;
      root_entries = read_le16 boot 17;
      total_sectors = read_le16 boot 19;
      sectors_per_fat = read_le16 boot 22;
      sectors_per_track = read_le16 boot 24;
      sides = read_le16 boot 26;
      root_dir_sector = root_sector;
      root_dir_sector_count = root_count;
      data_sector = root_sector + root_count;
      cluster_size = bytes_per_sector * byte_at boot 13;
    }

abbrev pub boot_sector_size : ℕ
boot_sector_size = 512

abbrev pub is_bad_bpb : Bpb → Bool
is_bad_bpb b =
    not (b.bytes_per_sector == boot_sector_size)
    || (b.sectors_per_cluster == 0
        || (not (bit_and b.sectors_per_cluster (b.sectors_per_cluster - 1) == 0)
            || (ltb 128 b.sectors_per_cluster
                || (b.reserved_sectors == 0
                    || (b.root_entries == 0 || (b.fat_count == 0 || b.sectors_per_fat == 0))))))

abbrev pub clusters_of : Bpb → ℕ
clusters_of b = (b.total_sectors - b.data_sector) / b.sectors_per_cluster

abbrev pub is_bad_geometry : Bpb → Bool
is_bad_geometry b =
    clusters_of b == 0
    || (leb 4085 (clusters_of b)
        || ltb (b.sectors_per_fat * 512) (((clusters_of b + 2) * 3 + 1) / 2))

abbrev pub open_with : Disk → Bpb → Answer Image
open_with disk b =
    if is_bad_bpb b
    then fails bad_bpb
    else if leb b.total_sectors b.data_sector
    then fails metadata_exceeds
    else if is_bad_geometry b
    then fails bad_geometry
    else gives (record { disk = disk; bpb = b })

abbrev pub open_boot : Disk → Option (List ℕ) → Answer Image
open_boot disk none = fails boot_unread
open_boot disk (some boot) = open_with disk (parse_bpb boot)

-- `fat12_image_open`
unfoldable pub open_image : Disk → Answer Image
open_image disk = open_boot disk (disk 0 boot_sector_size)

abbrev pub read_sector_data : Image → ℕ → ℕ → Option (List ℕ)
read_sector_data image sector size =
    if not (size == image.bpb.bytes_per_sector) || leb image.bpb.total_sectors sector
    then none
    else image.disk sector size

abbrev pub joined : List ℕ → Option (List ℕ) → Option (List ℕ)
joined bytes none = none
joined bytes (some more) = some (bytes ++ more)

-- What the rest of a loop makes of the sector that was read.
abbrev pub part_then : ℕ → ℕ → Option (List ℕ) → Option (List ℕ) → Option (List ℕ)
part_then offset chunk none rest = none
part_then offset chunk (some sector) rest = joined (take chunk (drop offset sector)) rest

abbrev pub smaller : ℕ → ℕ → ℕ
smaller a b = if ltb b a then b else a

-- The loop of `fat12_read_bytes`: `left` bytes from `pos` on, with fuel.
unfoldable pub read_from : ℕ → Image → ℕ → ℕ → Option (List ℕ)
read_from zero image pos left = if left == 0 then some [] else none
read_from (suc n) image pos left =
    let size = image.bpb.bytes_per_sector in
    let at = pos % two32 in
    let chunk = smaller left (size - at % size) in
    let rest = read_from n image (pos + chunk) (left - chunk) in
    if left == 0
    then some []
    else part_then (at % size) chunk (read_sector_data image (at / size) size) rest

unfoldable pub read_bytes : Image → ℕ → ℕ → Option (List ℕ)
unfolding read_from
read_bytes image offset count =
    let size = image.bpb.bytes_per_sector in
    let volume = image.bpb.total_sectors * size in
    if size == 0 || (ltb volume offset || ltb (volume - offset) count)
    then none
    else read_from count image offset count

abbrev pub cluster_end_min : ℕ
cluster_end_min = 0xff8

abbrev pub cluster_bad : ℕ
cluster_bad = 0xff7

unfoldable pub cluster_offset : Image → ℕ → ℕ
cluster_offset image cluster =
    (image.bpb.data_sector + (cluster + (two32 - 2)) % two32 * image.bpb.sectors_per_cluster)
    * image.bpb.bytes_per_sector
    % two32

abbrev pub entry_of : ℕ → Option (List ℕ) → ℕ
entry_of cluster none = cluster_bad
entry_of cluster (some bytes) =
    if cluster % 2 == 0 then read_le16 bytes 0 % 4096 else read_le16 bytes 0 / 16

unfoldable pub next_cluster : Image → ℕ → ℕ
next_cluster image cluster = entry_of cluster (
    read_bytes image
      (image.bpb.reserved_sectors * image.bpb.bytes_per_sector + (cluster + cluster / 2)) 2)
