-- ===== src/Fat/Open.antt =====
-- What `fat12_image_open` (lib/fat12/fat12.c) makes sure of, and the addresses that follow from it.
use gem.Base.{two32}
use gem.Base.{
  ℕ, zero, suc, ◌+◌, ◌-◌, ◌*◌, ◌/◌, ◌%◌, ◌≤◌, ◌<◌, ◌≡◌, refl, sym, List, [], ◌∷◌, Option, none,
  some, leb, arith, All, if_inv, inl, inr,
}
use gem.Msa.Rle.{IsByte}
use gem.Fat.{
  Bpb, Disk, Image, gives, byte_at, read_le16, parse_bpb, is_bad_bpb, clusters_of, is_bad_geometry,
  open_with, open_boot, open_image, boot_sector_size, cluster_offset, normal_reserved,
}
use native.Mathlib.Nat.{le-div_iff_mul-le, mul-le-mul_right}

-- The metadata of a volume that can be read.
pub record IsVolume (b : Bpb) : Type 0 where
  pub sector_bytes : b.bytes_per_sector ≡ 512
  pub cluster_sectors : (0 < b.sectors_per_cluster) × (b.sectors_per_cluster ≤ 128)
  pub cluster_bytes : b.cluster_size ≡ b.bytes_per_sector * b.sectors_per_cluster
  pub sectors : b.total_sectors < 65536
  pub one_fat : b.reserved_sectors + b.sectors_per_fat ≤ b.root_dir_sector
  pub root : b.root_dir_sector * 512 + b.root_entries * 32 ≤ b.data_sector * 512
  pub some_data : b.data_sector < b.total_sectors
  pub some_clusters : (0 < clusters_of b) × (clusters_of b < 4085)
  pub table : ((clusters_of b + 2) * 3 + 1) / 2 ≤ b.sectors_per_fat * 512

byte-bound : (bytes : List ℕ) (i : ℕ) → All IsByte bytes → byte_at bytes i < 256
byte-bound [] i all = omega arith
byte-bound (b ∷ bytes) zero all = all.0
byte-bound (b ∷ bytes) (suc i) all = byte-bound bytes i all.1

le16-bound : (bytes : List ℕ) (i : ℕ) → All IsByte bytes → read_le16 bytes i < 65536
le16-bound bytes i all =
    let low = byte-bound bytes i all in let high = byte-bound bytes (i + 1) all in omega arith

gives-injective : {A : Type 0} (a b : A) → gives a ≡ gives b → a ≡ b
gives-injective a b e = cc

-- The first FAT ends where the root directory begins, or before.
fat-fits : (reserved count size : ℕ) → 0 < count → reserved + size ≤ reserved + count * size
fat-fits reserved count size some_fat =
    let one : 1 * size ≤ count * size = mul-le-mul_right size some_fat in omega arith

-- The root directory has the sectors that its entries need.
root-fits :
    (bytes entries root : ℕ)
    → bytes ≡ 512
    → root * 512 + entries * 32 ≤ (root + (entries * 32 + bytes - 1) / bytes) * 512
root-fits bytes entries root e = rw e (omega arith)

open_with-IsVolume :
    (disk : Disk) (boot : List ℕ) (image : Image)
    → All IsByte boot
    → open_with disk (parse_bpb boot) ≡ gives image
    → (image ≡ record { disk = disk; bpb = parse_bpb boot }) × IsVolume (parse_bpb boot)
unfolding parse_bpb
open_with-IsVolume disk boot image bytes e = elim (if_inv (is_bad_bpb (parse_bpb boot)) _ _ e) [
  | inl (bad, f) ↦ absurd cc
  | inr (good, f) ↦
      elim (if_inv (leb (parse_bpb boot).total_sectors (parse_bpb boot).data_sector) _ _ f) [
        | inl (bad, g) ↦ absurd cc
        | inr (room, g) ↦ elim (if_inv (is_bad_geometry (parse_bpb boot)) _ _ g) [
          | inl (bad, h) ↦ absurd cc
          | inr (geometry, h) ↦ (
            sym (gives-injective _ _ h),
            record {
              sector_bytes = ground arith;
              cluster_sectors = (ground arith, ground arith);
              cluster_bytes = refl;
              sectors = le16-bound boot 19 bytes;
              one_fat =
                  fat-fits (normal_reserved (read_le16 boot 14)) (byte_at boot 16)
                    (read_le16 boot 22) (ground arith);
              root =
                  root-fits (read_le16 boot 11) (read_le16 boot 17) (parse_bpb boot).root_dir_sector
                    (ground arith);
              some_data = ground arith;
              some_clusters = (ground arith, ground arith);
              table = ground arith;
            },
          )
        ]
      ]
]

open_boot-IsVolume :
    (disk : Disk) (boot : Option (List ℕ)) (image : Image)
    → ((bytes : List ℕ) → boot ≡ some bytes → All IsByte bytes)
    → open_boot disk boot ≡ gives image
    → (image.disk ≡ disk) × IsVolume image.bpb
open_boot-IsVolume disk none image bytes e = absurd cc
open_boot-IsVolume disk (some boot) image bytes e =
    let (same, good) = open_with-IsVolume disk boot image (bytes boot refl) e in
    rw same (refl, good)

pub open_image-IsVolume :
    (disk : Disk) (image : Image)
    → ((boot : List ℕ) → disk 0 boot_sector_size ≡ some boot → All IsByte boot)
    → open_image disk ≡ gives image
    → (image.disk ≡ disk) × IsVolume image.bpb
unfolding open_image
open_image-IsVolume disk image = open_boot-IsVolume disk (disk 0 boot_sector_size) image

-- The sectors of a cluster lie between the metadata and the end.
cluster_sectors-fit :
    (first per total clusters i : ℕ)
    → 0 < per
    → clusters ≡ (total - first) / per
    → first ≤ total
    → i < clusters
    → first + i * per + per ≤ total
cluster_sectors-fit first per total clusters i some_sectors e room lt =
    let whole : (i + 1) * per ≤ total - first =
      (le-div_iff_mul-le {y = total - first} some_sectors).0 (omega arith) in
    let unit : (i + 1) * per ≡ i * per + per = grind arith in omega arith

-- The sector that a cluster begins at.
abbrev pub cluster_sector : Bpb → ℕ → ℕ
cluster_sector b cluster = b.data_sector + (cluster - 2) * b.sectors_per_cluster

cluster_sector-fits :
    (b : Bpb) (cluster : ℕ)
    → IsVolume b
    → 2 ≤ cluster
    → cluster < clusters_of b + 2
    → cluster_sector b cluster + b.sectors_per_cluster ≤ b.total_sectors
cluster_sector-fits b cluster good data_cluster lt =
    cluster_sectors-fit b.data_sector b.sectors_per_cluster b.total_sectors (clusters_of b)
      (cluster - 2) good.cluster_sectors.0 refl (omega (arith, good.some_data)) (omega arith)

cluster_offset-lem :
    (image : Image) (cluster : ℕ)
    → IsVolume image.bpb
    → 2 ≤ cluster
    → cluster < clusters_of image.bpb + 2
    → cluster_offset image cluster ≡ cluster_sector image.bpb cluster * 512
unfolding cluster_offset
cluster_offset-lem image cluster good data_cluster lt =
    let index : (cluster + (two32 - 2)) % two32 ≡ cluster - 2 =
      omega (arith, good.some_clusters.1) in
    let fits = cluster_sector-fits image.bpb cluster good data_cluster lt in
    rw index (rw good.sector_bytes (omega (arith, good.sectors)))

-- An image that opened, of a disk whose boot sector is bytes; a data cluster is one from 2 up to the
-- count of clusters and 1. The offset of a data cluster is that of its sectors, without a wrap; the
-- cluster lies in the volume, after the metadata; its entry lies in the first FAT; the first FAT ends
-- before the root directory; and the entries of the root directory end before the data clusters.
pub open_image-clusters :
    (disk : Disk) (image : Image) (cluster : ℕ)
    → ((boot : List ℕ) → disk 0 boot_sector_size ≡ some boot → All IsByte boot)
    → open_image disk ≡ gives image
    → 2 ≤ cluster
    → cluster < clusters_of image.bpb + 2
    → (cluster_offset image cluster ≡ cluster_sector image.bpb cluster * image.bpb.bytes_per_sector)
      × (image.bpb.data_sector * image.bpb.bytes_per_sector ≤ cluster_offset image cluster)
      × (cluster_offset image cluster + image.bpb.cluster_size
          ≤ image.bpb.total_sectors * image.bpb.bytes_per_sector)
      × (image.bpb.reserved_sectors * image.bpb.bytes_per_sector + (cluster + cluster / 2) + 2
          ≤ (image.bpb.reserved_sectors + image.bpb.sectors_per_fat) * image.bpb.bytes_per_sector)
      × ((image.bpb.reserved_sectors + image.bpb.sectors_per_fat) * image.bpb.bytes_per_sector
          ≤ image.bpb.root_dir_sector * image.bpb.bytes_per_sector)
      × (image.bpb.root_dir_sector * image.bpb.bytes_per_sector + image.bpb.root_entries * 32
          ≤ image.bpb.data_sector * image.bpb.bytes_per_sector)
open_image-clusters disk image cluster bytes e data_cluster lt =
    let good = (open_image-IsVolume disk image bytes e).1 in
    let fits = cluster_sector-fits image.bpb cluster good data_cluster lt in
    let at = cluster_offset-lem image cluster good data_cluster lt in
    let table = good.table in
    rw at (
      rw good.cluster_bytes (
        rw good.sector_bytes
          (refl, omega arith, omega arith, omega arith, omega (arith, good.one_fat), good.root)))
