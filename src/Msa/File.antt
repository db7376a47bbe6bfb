-- ===== src/Msa/File.antt =====
-- The archive reader and writer of lib/msa/msa.c, msa_read_file and msa_write_file.
-- A file is the list of its bytes; `none` is a file that cannot be opened for reading. Reads and
-- writes of an open file do not fail but at its end, and allocation does not fail. A track whose
-- encoding is longer than its buffer is the result `fault`.
use gem.Base.{
  ℕ, zero, suc, ◌+◌, ◌-◌, ◌*◌, ◌/◌, ◌%◌, not, ◌&&◌, List, [], ◌∷◌, ◌++◌, Option, none, some,
  if◌then◌else◌, ltb, leb, ◌==◌, length, take, drop,
}
use gem.Msa.Rle.{encode_track, decode_track}
use gem.Msa.Capacity.{encoded_capacity}
use gem.Msa.Image.{
  Result, ok, err, fault, ◌>>=◌, Geometry, Image, track_count, track_size, valid_geometry,
  unable_to_open, invalid_header, invalid_track_block, truncated_track, invalid_rle,
  invalid_write_arguments, geometry_mismatch,
}

abbrev pub magic : ℕ
magic = 0x0e0f

-- `msa_write_be16` of a `uint16_t`.
abbrev pub be16 : ℕ → List ℕ
be16 value = (value / 256 % 256) ∷ (value % 256) ∷ []

-- The round of the writing loop for one track.
unfoldable pub write_track : ℕ → List ℕ → Result (List ℕ)
unfolding encoded_capacity
write_track size track =
    let encoded = encode_track track in
    if ltb (encoded_capacity size) (length encoded)
    then fault
    else if leb size (length encoded)
    then ok (be16 (size % 65536) ++ track)
    else ok (be16 (length encoded % 65536) ++ encoded)

unfoldable pub write_tracks : ℕ → ℕ → List ℕ → Result (List ℕ)
unfolding write_track
write_tracks zero size bytes = ok []
write_tracks (suc n) size bytes = do
  first ← write_track size (take size bytes)
  rest ← write_tracks n size (drop size bytes)
  ok (first ++ rest)

unfoldable pub header : Geometry → List ℕ
header g =
    be16 magic
    ++ (be16 g.sectors_per_track
        ++ (be16 (g.sides - 1) ++ (be16 g.start_track ++ be16 g.end_track)))

unfoldable pub write_contents : Geometry → ℕ → Option (List ℕ) → Result (List ℕ)
unfolding header write_tracks
write_contents g size none = err invalid_write_arguments
write_contents g size (some bytes) =
    if not (valid_geometry g)
    then err invalid_write_arguments
    else if not (size == track_count g * track_size g)
    then err geometry_mismatch
    else do body ← write_tracks (track_count g) (track_size g) bytes; ok (header g ++ body)

unfoldable pub write_file : Image → Result (List ℕ)
unfolding write_contents
write_file image = write_contents image.geometry image.data_size image.contents

-- What `msa_read_be16` takes off the front; `none` where it clears `*ok`.
unfoldable pub read_be16 : List ℕ → Option (ℕ × List ℕ)
read_be16 [] = none
read_be16 (hi ∷ []) = none
read_be16 (hi ∷ lo ∷ rest) = some (hi * 256 + lo, rest)

-- The decoded tracks with the two metadata arrays.
pub record Tracks : Type 0 where
  pub bytes : List ℕ
  pub stored_sizes : List ℕ
  pub compressed : List ℕ

unfoldable pub unpack_track : ℕ → ℕ → List ℕ → Result (List ℕ)
unpack_track size stored_size block =
    if stored_size == size
    then ok block
    else elim (decode_track block size) [ none ↦ err invalid_rle | some track ↦ ok track ]

-- One round of the reading loop: the track, its stored size, and the rest of the file.
unfoldable pub read_track : ℕ → Option (ℕ × List ℕ) → Result (List ℕ × ℕ × List ℕ)
unfolding unpack_track
read_track size none = err invalid_track_block
read_track size (some (stored_size, rest)) =
    if stored_size == 0
    then err invalid_track_block
    else if ltb (length rest) stored_size
    then err truncated_track
    else do
      track ← unpack_track size stored_size (take stored_size rest)
      ok (track, stored_size, drop stored_size rest)

unfoldable pub read_tracks : ℕ → ℕ → List ℕ → Result Tracks
unfolding read_track read_be16
read_tracks zero size file = ok (record { bytes = []; stored_sizes = []; compressed = [] })
read_tracks (suc n) size file = do
  (track, stored_size, rest) ← read_track size (read_be16 file)
  more ← read_tracks n size rest
  ok (record {
    bytes = track ++ more.bytes;
    stored_sizes = stored_size ∷ more.stored_sizes;
    compressed = (if stored_size == size then 0 else 1) ∷ more.compressed;
  })

infixl 5 ◌>>=?◌
abbrev ◌>>=?◌ : {A B : Type 0} → Option A → (A → Option B) → Option B
none >>=? f = none
some a >>=? f = f a

unfoldable pub read_header : List ℕ → Option (Geometry × List ℕ)
unfolding read_be16
read_header file = read_be16 file >>=? λ (word, r). read_be16 r >>=? λ (sectors, r1).
    read_be16 r1 >>=? λ (sides, r2). read_be16 r2 >>=? λ (start, r3). read_be16 r3 >>=? λ (end, r4).
    let g : Geometry = record {
      sectors_per_track = sectors;
      sides = (sides + 1) % 65536;
      start_track = start;
      end_track = end;
    } in
    if word == magic && valid_geometry g then some (g, r4) else none

unfoldable pub read_body : Option (Geometry × List ℕ) → Result Image
unfolding read_tracks
read_body none = err invalid_header
read_body (some (g, rest)) = do
  tracks ← read_tracks (track_count g) (track_size g) rest
  ok (record {
    geometry = g;
    contents = some tracks.bytes;
    data_size = track_count g * track_size g;
    track_stored_sizes = tracks.stored_sizes;
    track_compressed = tracks.compressed;
  })

unfoldable pub read_file : Option (List ℕ) → Result Image
unfolding read_header read_body
read_file none = err unable_to_open
read_file (some file) = read_body (read_header file)
