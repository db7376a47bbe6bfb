-- ===== src/Msa/Limits.antt =====
-- When msa_write_file (lib/msa/msa.c) succeeds, and a geometry that it accepts and cannot store.
use gem.Base.{
  ℕ, zero, suc, ◌+◌, ◌-◌, ◌*◌, ◌%◌, ◌≤◌, ◌≡◌, refl, sym, ap, ◌∙◌, true, false, List, [], ◌∷◌, ◌++◌,
  some, arith, ltb, leb, ◌==◌, length, take, drop, inl, inr, Bool-cases, length-take, ==_iff,
}
use gem.Msa.Rle.{encode_track}
use gem.Msa.Capacity.{encoded_capacity, markers, markers-drop, length-encode_markers}
use gem.Msa.Image.{
  ok, err, ◌>>=◌, Geometry, Image, track_count, track_size, valid_geometry, invalid_track_block,
  invalid_write_arguments, geometry_mismatch,
}
use gem.Msa.File.{
  be16, write_track, write_tracks, header, write_contents, write_file, read_be16, read_track,
  read_tracks, read_header, read_body, read_file,
}
use gem.Msa.FileRoundTrip.{geometry_accepted, read-header, both_ok, ok_eq, err_ok, fault_ok}

markers-take : (n : ℕ) (bs : List ℕ) → markers (take n bs) ≤ markers bs
markers-take zero bs = omega arith
markers-take (suc n) [] = omega arith
markers-take (suc n) (b ∷ bs) = omega (arith, markers-take n bs)

write_track-ok :
    (size : ℕ) (track : List ℕ)
    → length track ≤ size
    → 3 * markers track ≤ size + 4
    → (file : List ℕ) × (write_track size track ≡ ok file)
write_track-ok size track h k =
    let t : ltb (encoded_capacity size) (length (encode_track track)) ≡ false =
      unfold encoded_capacity in ground (arith, length-encode_markers track) in
    elim (Bool-cases (leb size (length (encode_track track)))) [
      | inl u ↦ (be16 (size % 65536) ++ track, unfold write_track in rw (t, u))
      | inr u ↦ (
        be16 (length (encode_track track) % 65536) ++ encode_track track,
        unfold write_track in rw (t, u),
      )
    ]

write_tracks-ok :
    (n size : ℕ) (bytes : List ℕ)
    → 3 * markers bytes ≤ size + 4
    → (file : List ℕ) × (write_tracks n size bytes ≡ ok file)
unfolding write_tracks
write_tracks-ok zero size bytes h = ([], refl)
write_tracks-ok (suc n) size bytes h =
    let (first, f) =
      write_track-ok size (take size bytes) (omega (arith, length-take size bytes))
        (omega (arith, markers-take size bytes)) in
    let (rest, r) =
      write_tracks-ok n size (drop size bytes) (omega (arith, markers-drop size bytes)) in
    (first ++ rest, rw (write_tracks, f, r))

write_contents-ok :
    (g : Geometry) (size : ℕ) (bytes : List ℕ)
    → valid_geometry g ≡ true
    → size ≡ track_count g * track_size g
    → 3 * markers bytes ≤ track_size g + 4
    → (file : List ℕ) × (write_contents g size (some bytes) ≡ ok file)
write_contents-ok g size bytes v e h =
    let (body, b) = write_tracks-ok (track_count g) (track_size g) bytes h in
    let t : (size == track_count g * track_size g) ≡ true = (==_iff size _).1 e in
    (header g ++ body, unfold write_contents in rw (v, t, b))

-- `msa_write_file` succeeds on an image of a valid geometry and matching size when three times the
-- markers in its contents are at most four more than the size of a track.
pub write_file-ok :
    (image : Image) (bytes : List ℕ)
    → image.contents ≡ some bytes
    → valid_geometry image.geometry ≡ true
    → image.data_size ≡ track_count image.geometry * track_size image.geometry
    → 3 * markers bytes ≤ track_size image.geometry + 4
    → (file : List ℕ) × (write_file image ≡ ok file)
unfolding write_file
write_file-ok image bytes c v e h =
    let (file, w) = write_contents-ok image.geometry image.data_size bytes v e h in
    (file, ap (write_contents image.geometry image.data_size) c ∙ w)

product_pos : (a b : ℕ) → 1 ≤ a → 1 ≤ b → 1 ≤ a * b
product_pos a b h k = grind arith

-- Tracks of 128 sectors.
abbrev widest : ℕ
widest = 65536

zero_size :
    (track file rest : List ℕ)
    → widest ≤ length (encode_track track)
    → write_track widest track ≡ ok file
    → read_track widest (read_be16 (file ++ rest)) ≡ err invalid_track_block
zero_size track file rest long w =
    elim (Bool-cases (ltb (encoded_capacity widest) (length (encode_track track)))) [
      | inl t ↦ absurd (fault_ok {f = file} (unfold write_track in rw t at w))
      | inr t ↦
          let u : leb widest (length (encode_track track)) ≡ true = ground arith in
          let same : 0 ∷ 0 ∷ track ≡ file =
            ok_eq {f = 0 ∷ 0 ∷ track} {g = file} (unfold write_track in rw (t, u) at w) in
          rw (← same) (unfold read_track read_be16 in refl)
    ]

some_track : (g : Geometry) → valid_geometry g ≡ true → 1 ≤ track_count g
unfolding track_count
some_track g v =
    let k = geometry_accepted g v in
    let a : (g.sides == 0) ≡ false = ground arith in
    let b : ltb g.end_track g.start_track ≡ false = ground arith in
    rw (a, b) (product_pos (g.end_track - g.start_track + 1) g.sides (omega arith) (omega arith))

zero_size_tracks :
    (n : ℕ) (bytes file : List ℕ)
    → 1 ≤ n
    → widest ≤ length (encode_track (take widest bytes))
    → write_tracks n widest bytes ≡ ok file
    → read_tracks n widest file ≡ err invalid_track_block
unfolding write_tracks
zero_size_tracks zero bytes file h long w = absurd (omega arith)
zero_size_tracks (suc n) bytes file h long w =
    let (first, wf, w') = both_ok (write_track widest (take widest bytes)) _ w in
    let (rest, wr, w'') = both_ok (write_tracks n widest (drop widest bytes)) _ w' in
    let same : first ++ rest ≡ file = ok_eq w'' in
    rw (← same) (unfold read_tracks in rw (zero_size (take widest bytes) first rest long wf))

write_contents-unreadable :
    (g : Geometry) (size : ℕ) (bytes file : List ℕ)
    → g.sectors_per_track ≡ 128
    → widest ≤ length (encode_track (take widest bytes))
    → write_contents g size (some bytes) ≡ ok file
    → read_body (read_header file) ≡ err invalid_track_block
write_contents-unreadable g size bytes file wide long w = elim (Bool-cases (valid_geometry g)) [
  | inr v ↦ absurd (err_ok invalid_write_arguments {a = file} (unfold write_contents in rw v at w))
  | inl v ↦ elim (Bool-cases (size == track_count g * track_size g)) [
    | inr t ↦ absurd (err_ok geometry_mismatch {a = file} (unfold write_contents in rw (v, t) at w))
    | inl t ↦
        let chain : (write_tracks (track_count g) (track_size g) bytes
              >>= (λ body. ok (header g ++ body)))
            ≡ ok file =
          unfold write_contents in rw (v, t) at w in
        let (body, wb, f) = both_ok (write_tracks (track_count g) (track_size g) bytes) _ chain in
        let same : header g ++ body ≡ file = ok_eq f in
        let size_eq : track_size g ≡ widest = unfold track_size in omega arith in
        let fails : read_tracks (track_count g) (track_size g) body ≡ err invalid_track_block =
          rw size_eq (
            zero_size_tracks (track_count g) bytes body (some_track g v) long (rw size_eq at wb)) in
        rw (← same, read-header g body v) (unfold read_body in rw fails)
  ]
]

-- Of an image with 128 sectors in a track, `msa_write_file` writes a file that `msa_read_file`
-- refuses, when the first track does not compress: the stored size 65536 is cut to 0.
pub write-unreadable :
    (image : Image) (bytes file : List ℕ)
    → image.contents ≡ some bytes
    → image.geometry.sectors_per_track ≡ 128
    → 65536 ≤ length (encode_track (take 65536 bytes))
    → write_file image ≡ ok file
    → read_file (some file) ≡ err invalid_track_block
unfolding write_file read_file
write-unreadable image bytes file c wide long w =
    write_contents-unreadable image.geometry image.data_size bytes file wide long
      (ap (write_contents image.geometry image.data_size) (sym c) ∙ w)
