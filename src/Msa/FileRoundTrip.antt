-- ===== src/Msa/FileRoundTrip.antt =====
-- What msa_write_file (lib/msa/msa.c) writes, read back by msa_read_file.
use mathlib.Core.Path.{subst}
use gem.Base.{
  ℕ, zero, suc, ◌+◌, ◌-◌, ◌*◌, ◌/◌, ◌%◌, ◌≤◌, ◌<◌, ◌≡◌, ◌≢◌, refl, sym, ap, ap₂, ◌∙◌, true, false,
  List, [], ◌∷◌, ◌++◌, some, arith, if◌then◌else◌, ltb, leb, ◌==◌, length, take, drop, inl, inr,
  Bool-cases, length-append, length-take, length-drop, take-append_length, drop-append_length,
  take-append-drop, append_assoc, ==-refl, ==_iff, append-nil,
}
use gem.Msa.Rle.{encode_track, decode_track}
use gem.Msa.RoundTrip.{decode-encode}
use gem.Msa.Capacity.{encoded_capacity}
use gem.Msa.Image.{
  Error, Result, ok, err, fault, ◌>>=◌, Geometry, Image, track_count, track_size, valid_geometry,
  invalid_write_arguments, geometry_mismatch,
}
use gem.Msa.File.{
  be16, write_track, write_tracks, header, write_contents, write_file, read_be16, Tracks,
  unpack_track, read_track, read_tracks, read_header, read_body, read_file,
}

pub read-be16 : (n : ℕ) (rest : List ℕ) → n < 65536 → read_be16 (be16 n ++ rest) ≡ some (n, rest)
unfolding read_be16
read-be16 n rest h = let e : n / 256 % 256 * 256 + n % 256 ≡ n = omega arith in rw e

take_front : (n : ℕ) (xs ys : List ℕ) → length xs ≡ n → take n (xs ++ ys) ≡ xs
take_front n xs ys e = rw (← e) (take-append_length xs ys)

drop_front : (n : ℕ) (xs ys : List ℕ) → length xs ≡ n → drop n (xs ++ ys) ≡ ys
drop_front n xs ys e = rw (← e) (drop-append_length xs ys)

encode-nonempty : (track : List ℕ) → length track ≢ 0 → length (encode_track track) ≢ 0
encode-nonempty track h z = h (empty (encode_track track) z (decode-encode track))
  where
    empty :
        (e : List ℕ) → length e ≡ 0 → decode_track e (length track) ≡ some track → length track ≡ 0
    empty [] z d = unfold decode_track in ground arith
    empty (b ∷ bs) z d = absurd (omega arith)

-- Reading one stored block.
read_stored :
    (size stored : ℕ) (block rest track : List ℕ)
    → stored < 65536
    → stored ≢ 0
    → length block ≡ stored
    → unpack_track size stored block ≡ ok track
    → read_track size (read_be16 (be16 stored ++ (block ++ rest))) ≡ ok (track, stored, rest)
unfolding read_track
read_stored size stored block rest track small ne e u =
    let z : (stored == 0) ≡ false = ground arith in
    let fits : ltb (length (block ++ rest)) stored ≡ false =
      ground (arith, length-append block rest) in
    rw (
      read-be16 stored (block ++ rest) small,
      z,
      fits,
      take_front stored block rest e,
      u,
      drop_front stored block rest e,
    )

-- A track that was written reads back, and the reader stops behind it.
ReadsBack : ℕ → List ℕ → List ℕ → List ℕ → Type 0
ReadsBack size track file rest =
    (stored : ℕ) × (read_track size (read_be16 (file ++ rest)) ≡ ok (track, stored, rest))

raw_back :
    (size : ℕ) (track rest : List ℕ)
    → size ≢ 0
    → size < 65536
    → length track ≡ size
    → ReadsBack size track (be16 (size % 65536) ++ track) rest
unfolding ReadsBack
raw_back size track rest ne small e =
    let m : size % 65536 ≡ size = omega arith in
    (
      size,
      rw m (
          read_stored size size track rest track small ne e
            (unfold unpack_track in rw (==-refl size))),
    )

packed_back :
    (size : ℕ) (track rest : List ℕ)
    → size ≢ 0
    → size ≤ 65536
    → length track ≡ size
    → length (encode_track track) < size
    → ReadsBack size track (be16 (length (encode_track track) % 65536) ++ encode_track track) rest
unfolding ReadsBack
packed_back size track rest ne small e shorter =
    let n = length (encode_track track) in
    let m : n % 65536 ≡ n = omega arith in
    let other : (n == size) ≡ false = ground arith in
    let d : decode_track (encode_track track) size ≡ some track = rw (← e) (decode-encode track) in
    (
      n,
      rw m (
          read_stored size n (encode_track track) rest track (omega arith)
            (encode-nonempty track (omega arith)) refl (unfold unpack_track in rw (other, d))),
    )

pub fault_ok : {f : List ℕ} → fault ≡ ok f → ⊥
fault_ok h = cc

pub ok_eq : {f g : List ℕ} → ok f ≡ ok g → f ≡ g
ok_eq h = cc

write_track_back :
    (size : ℕ) (track file rest : List ℕ)
    → size ≢ 0
    → size < 65536
    → length track ≡ size
    → write_track size track ≡ ok file
    → ReadsBack size track file rest
write_track_back size track file rest ne small e w =
    elim (Bool-cases (ltb (encoded_capacity size) (length (encode_track track)))) [
      | inl t ↦ absurd (fault_ok {f = file} (unfold write_track in rw t at w))
      | inr t ↦ elim (Bool-cases (leb size (length (encode_track track)))) [
        | inl u ↦
            let same : be16 (size % 65536) ++ track ≡ file =
              ok_eq {f = be16 (size % 65536) ++ track} {g = file}
                (unfold write_track in rw (t, u) at w) in
            subst (λ f. ReadsBack size track f rest) same (raw_back size track rest ne small e)
        | inr u ↦
            let same : be16 (length (encode_track track) % 65536) ++ encode_track track ≡ file =
              ok_eq {f = be16 (length (encode_track track) % 65536) ++ encode_track track}
                {g = file} (unfold write_track in rw (t, u) at w) in
            subst (λ f. ReadsBack size track f rest) same
              (packed_back size track rest ne (omega arith) e (ground arith))
      ]
    ]

module _ {ℓ κ} {T : Type ℓ} {S : Type κ} where
  pub both_ok :
      (first : Result T) (next : T → Result S) {s : S}
      → (first >>= next) ≡ ok s
      → (t : T) × (first ≡ ok t) × (next t ≡ ok s)
  both_ok fault next whole = cc
  both_ok (err reason) next whole = cc
  both_ok (ok t) next whole = (t, refl, whole)

-- The tracks of a file that was written.
TracksBack : ℕ → ℕ → List ℕ → List ℕ → List ℕ → Type 0
TracksBack n size bytes file rest =
    (tracks : Tracks) × (read_tracks n size (file ++ rest) ≡ ok tracks) × (tracks.bytes ≡ bytes)

cons_back :
    (n size : ℕ) (bytes track first more rest : List ℕ)
    → take size bytes ≡ track
    → ReadsBack size track first (more ++ rest)
    → TracksBack n size (drop size bytes) more rest
    → TracksBack (suc n) size bytes (first ++ more) rest
unfolding ReadsBack TracksBack
cons_back n size bytes track first more rest e (stored, r) (tracks, s, t) = (
  record {
    bytes = track ++ tracks.bytes;
    stored_sizes = stored ∷ tracks.stored_sizes;
    compressed = (if stored == size then 0 else 1) ∷ tracks.compressed;
  },
  unfold read_tracks in rw (append_assoc first more rest, r, s),
  ap₂ ◌++◌ (sym e) t ∙ take-append-drop size bytes,
)

write_tracks_back :
    (n size : ℕ) (bytes file rest : List ℕ)
    → size ≢ 0
    → size < 65536
    → length bytes ≡ n * size
    → write_tracks n size bytes ≡ ok file
    → TracksBack n size bytes file rest
unfolding write_tracks
write_tracks_back zero size [] file rest ne small e w =
    unfold TracksBack read_tracks in
    (record { bytes = []; stored_sizes = []; compressed = [] }, refl, refl)
write_tracks_back zero size (b ∷ bs) file rest ne small e w = absurd (omega arith)
write_tracks_back (suc n) size bytes file rest ne small e w =
    let (first, wf, w') = both_ok (write_track size (take size bytes)) _ w in
    let (more, wm, w'') = both_ok (write_tracks n size (drop size bytes)) _ w' in
    let same : first ++ more ≡ file = ok_eq w'' in
    let full : length (take size bytes) ≡ size = omega (arith, length-take size bytes) in
    let left : length (drop size bytes) ≡ n * size = omega (arith, length-drop size bytes) in
    subst (λ f. TracksBack (suc n) size bytes f rest) same
      (cons_back n size bytes (take size bytes) first more rest refl
        (write_track_back size (take size bytes) first (more ++ rest) ne small full wf)
        (write_tracks_back n size (drop size bytes) more rest ne small left wm))

-- What a valid geometry is.
pub record IsValid (g : Geometry) : Type 0 where
  pub sectors : (1 ≤ g.sectors_per_track) × (g.sectors_per_track ≤ 128)
  pub one_or_two : (1 ≤ g.sides) × (g.sides ≤ 2)
  pub tracks : (g.start_track ≤ g.end_track) × (g.end_track < 256)

pub geometry_accepted : (g : Geometry) → valid_geometry g ≡ true → IsValid g
unfolding valid_geometry
geometry_accepted g h = ground arith

-- The number of sides goes into the file less one.
sides_back : (g : Geometry) → valid_geometry g ≡ true → (g.sides - 1 + 1) % 65536 ≡ g.sides
sides_back g v = omega (arith, geometry_accepted g v)

be16_back : (n : ℕ) → n < 65536 → n / 256 % 256 * 256 + n % 256 ≡ n
be16_back n h = omega arith

pub read-header :
    (g : Geometry) (rest : List ℕ)
    → valid_geometry g ≡ true
    → read_header (header g ++ rest) ≡ some (g, rest)
unfolding header read_header
read-header g rest v = rw (
  be16_back g.sectors_per_track (omega (arith, geometry_accepted g v)),
  be16_back (g.sides - 1) (omega (arith, geometry_accepted g v)),
  be16_back g.start_track (omega (arith, geometry_accepted g v)),
  be16_back g.end_track (omega (arith, geometry_accepted g v)),
  sides_back g v,
  v,
)

track_size-bounds :
    (g : Geometry)
    → valid_geometry g ≡ true
    → g.sectors_per_track ≢ 128
    → (track_size g ≢ 0) × (track_size g < 65536)
unfolding track_size
track_size-bounds g v ne = omega (arith, geometry_accepted g v)

pub err_ok : {A : Type 0} (e : Error) {a : A} → err e ≡ ok a → ⊥
err_ok e h = cc

write_contents_back :
    (g : Geometry) (size : ℕ) (bytes file : List ℕ)
    → length bytes ≡ size
    → g.sectors_per_track ≢ 128
    → write_contents g size (some bytes) ≡ ok file
    → (back : Image) × (read_body (read_header file) ≡ ok back)
      × (back.geometry ≡ g)
      × (back.contents ≡ some bytes)
      × (back.data_size ≡ size)
unfolding TracksBack
write_contents_back g size bytes file full ne w = elim (Bool-cases (valid_geometry g)) [
  | inr v ↦ absurd (err_ok invalid_write_arguments {a = file} (unfold write_contents in rw v at w))
  | inl v ↦ elim (Bool-cases (size == track_count g * track_size g)) [
    | inr t ↦ absurd (err_ok geometry_mismatch {a = file} (unfold write_contents in rw (v, t) at w))
    | inl t ↦
        let sized : size ≡ track_count g * track_size g = (==_iff size _).0 t in
        let chain : (write_tracks (track_count g) (track_size g) bytes
              >>= (λ body. ok (header g ++ body)))
            ≡ ok file =
          unfold write_contents in rw (v, t) at w in
        let (body, wb, f) = both_ok (write_tracks (track_count g) (track_size g) bytes) _ chain in
        let (nonzero, small) = track_size-bounds g v ne in
        let same : header g ++ body ≡ file = ok_eq f in
        let (tracks, r, b) =
          write_tracks_back (track_count g) (track_size g) bytes body [] nonzero small
            (full ∙ sized) wb in
        let whole : read_tracks (track_count g) (track_size g) body ≡ ok tracks =
          rw (append-nil body) at r in
        (
          record {
            geometry = g;
            contents = some tracks.bytes;
            data_size = track_count g * track_size g;
            track_stored_sizes = tracks.stored_sizes;
            track_compressed = tracks.compressed;
          },
          rw (← same, read-header g body v) (unfold read_body in rw whole),
          refl,
          ap some b,
          sym sized,
        )
  ]
]

-- An archive that `msa_write_file` writes for an image whose contents fill its geometry reads back:
-- `msa_read_file` returns the same geometry and the same bytes. The geometry has fewer than 128
-- sectors in a track.
pub read-write :
    (image : Image) (bytes file : List ℕ)
    → image.contents ≡ some bytes
    → length bytes ≡ image.data_size
    → image.geometry.sectors_per_track ≢ 128
    → write_file image ≡ ok file
    → (back : Image) × (read_file (some file) ≡ ok back)
      × (back.geometry ≡ image.geometry)
      × (back.contents ≡ some bytes)
      × (back.data_size ≡ image.data_size)
unfolding write_file read_file
read-write image bytes file c full ne w =
    write_contents_back image.geometry image.data_size bytes file full ne
      (ap (write_contents image.geometry image.data_size) (sym c) ∙ w)
