-- ===== src/Msa/Image.antt =====
-- The in-memory image of lib/msa/msa.c: geometry, track addressing, an image from raw bytes, and the
-- guess of a geometry from a raw image.
-- `msa_set_error` is the error value; allocation does not fail. A pointer that may be NULL is an
-- `Option`. The metadata arrays of a fresh image are zeros, one for each track.
use gem.Base.{
  two32, ℕ, ◌+◌, ◌-◌, ◌*◌, ◌/◌, ◌%◌, Bool, not, ◌&&◌, ◌||◌, List, [], ◌∷◌, Option, none, some,
  if◌then◌else◌, ltb, leb, ◌==◌, length, take, drop, replicate, get_or,
}

pub data Error : Type 0 where
  invalid_read_arguments unable_to_open invalid_header invalid_track_block : Error
  truncated_track invalid_rle : Error
  invalid_write_arguments geometry_mismatch : Error
  invalid_raw_arguments raw_size_mismatch : Error
  not_sector_aligned no_geometry ambiguous_geometry : Error

-- `fault` is no result of the C function: it has written past a buffer.
pub data Result {ℓ} (T : Type ℓ) : Type ℓ where
  fault : Result T
  err : Error → Result T
  ok : T → Result T

module _ {ℓ κ} {T : Type ℓ} {S : Type κ} where
  infixl 5 ◌>>=◌
  abbrev pub ◌>>=◌ : Result T → (T → Result S) → Result S
  fault >>= next = fault
  err reason >>= next = err reason
  ok value >>= next = next value

pub record Geometry : Type 0 where
  pub sectors_per_track : ℕ
  pub sides : ℕ
  pub start_track : ℕ
  pub end_track : ℕ

pub record Image : Type 0 where
  pub geometry : Geometry
  pub contents : Option (List ℕ)
  pub data_size : ℕ
  pub track_stored_sizes : List ℕ
  pub track_compressed : List ℕ

abbrev pub sector_size : ℕ
sector_size = 512

unfoldable pub track_count : Geometry → ℕ
track_count g =
    if g.sides == 0 || ltb g.end_track g.start_track
    then 0
    else (g.end_track - g.start_track + 1) * g.sides

unfoldable pub track_size : Geometry → ℕ
track_size g = g.sectors_per_track * sector_size

unfoldable pub track_index : Geometry → ℕ → ℕ → ℕ
track_index g track side = (track - g.start_track) * g.sides + side

-- The bytes that the returned pointer and `*size_out` delimit.
unfoldable pub track_bytes : Geometry → ℕ → ℕ → Option (List ℕ) → Option (List ℕ)
unfolding track_index track_size
track_bytes g track side none = none
track_bytes g track side (some bytes) =
    if ltb track g.start_track || ltb g.end_track track || leb g.sides side
    then none
    else some (take (track_size g) (drop (track_index g track side * track_size g) bytes))

unfoldable pub track_data : Image → ℕ → ℕ → Option (List ℕ)
unfolding track_bytes
track_data image track side = track_bytes image.geometry track side image.contents

unfoldable pub valid_geometry : Geometry → Bool
valid_geometry g = not (
    g.sectors_per_track == 0
    || g.sides == 0
    || ltb 2 g.sides
    || ltb 128 g.sectors_per_track
    || leb 256 g.end_track
    || ltb g.end_track g.start_track)

unfoldable pub fresh_image : Geometry → List ℕ → Image
unfolding track_count
fresh_image g bytes = record {
  geometry = g;
  contents = some bytes;
  data_size = length bytes;
  track_stored_sizes = replicate (track_count g) 0;
  track_compressed = replicate (track_count g) 0;
}

unfoldable pub build_image_from_raw : List ℕ → Geometry → Result Image
unfolding valid_geometry fresh_image
build_image_from_raw raw g =
    if not (valid_geometry g)
    then err invalid_raw_arguments
    else if length raw
        == (g.end_track - g.start_track + 1) * g.sides * g.sectors_per_track * sector_size
    then ok (fresh_image g raw)
    else err raw_size_mismatch

abbrev pub read_le16 : List ℕ → ℕ → ℕ
read_le16 bytes offset = get_or bytes offset 0 + get_or bytes (offset + 1) 0 * 256

-- The geometry that the boot sector states, where it fits the size.
unfoldable pub bpb_geometry : ℕ → ℕ → ℕ → ℕ → Option Geometry
bpb_geometry total sectors sides raw_size =
    if not (total == 0)
      && (not (sectors == 0)
          && (not (sides == 0)
              && (total * sector_size == raw_size && total % (sectors * sides) == 0)))
    then some (record {
      sectors_per_track = sectors;
      sides = sides;
      start_track = 0;
      end_track = (total / (sectors * sides) - 1) % 65536;
    })
    else none

unfoldable pub boot_geometry : Option (List ℕ) → ℕ → Option Geometry
unfolding bpb_geometry
boot_geometry none raw_size = none
boot_geometry (some raw) raw_size =
    if leb 32 raw_size
    then bpb_geometry (read_le16 raw 19) (read_le16 raw 24) (read_le16 raw 26) raw_size
    else none

-- One round of the two loops: the geometry of the last match, and the number of matches. The count
-- of tracks is cut to an unsigned int of 32 bits.
unfoldable pub try_geometry : ℕ → ℕ → ℕ → Option Geometry × ℕ → Option Geometry × ℕ
try_geometry raw_size sectors sides (last, matches) =
    if not ((raw_size / sector_size) % (sectors * sides) == 0)
    then (last, matches)
    else if raw_size / sector_size / (sectors * sides) % two32 == 0
        || ltb 85 (raw_size / sector_size / (sectors * sides) % two32)
    then (last, matches)
    else (
      some (record {
        sectors_per_track = sectors;
        sides = sides;
        start_track = 0;
        end_track = (raw_size / sector_size / (sectors * sides) % two32 - 1) % 65536;
      }),
      matches + 1,
    )

-- `sectors_per_track` from 8 to 11, and for each `sides` from 1 to 2.
unfoldable pub try_all : ℕ → List ℕ → Option Geometry × ℕ → Option Geometry × ℕ
unfolding try_geometry
try_all raw_size [] found = found
try_all raw_size (sectors ∷ more) found =
    try_all raw_size more (try_geometry raw_size sectors 2 (try_geometry raw_size sectors 1 found))

unfoldable pub decide_guess : Option Geometry × ℕ → Result Geometry
decide_guess (some g, matches) =
    if matches == 1 then ok g else if matches == 0 then err no_geometry else err ambiguous_geometry
decide_guess (none, matches) = if matches == 0 then err no_geometry else err ambiguous_geometry

unfoldable pub guess_from : Option Geometry → ℕ → Result Geometry
unfolding try_all decide_guess
guess_from (some g) raw_size = ok g
guess_from none raw_size = decide_guess (try_all raw_size (8 ∷ 9 ∷ 10 ∷ 11 ∷ []) (none, 0))

unfoldable pub guess_geometry : Option (List ℕ) → ℕ → Result Geometry
unfolding guess_from boot_geometry
guess_geometry raw raw_size =
    if raw_size == 0 || not (raw_size % sector_size == 0)
    then err not_sector_aligned
    else guess_from (boot_geometry raw raw_size) raw_size
