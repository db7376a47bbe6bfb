-- ===== src/Msa/Tests.antt =====
-- Runs of the archive library, and its theorems at concrete inputs.
use gem.Base.{
  ℕ, zero, suc, ◌%◌, ◌≤◌, ◌<◌, ◌≡◌, refl, sym, ap, ◌∙◌, false, List, [], ◌∷◌, some, none, arith,
  length, take, replicate,
}
use gem.Msa.Rle.{encode_track, decode_track, encode_from, use_run}
use gem.Msa.RoundTrip.{decode-encode, run_of, encode_byte}
use gem.Msa.Capacity.{encoded_capacity, markers, alternating, encode_overflow, no_run}
use gem.Msa.Image.{
  Geometry, Image, ok, err, invalid_track_block, guess_geometry, track_count, track_size,
  valid_geometry,
}
use gem.Msa.File.{write_file, read_file}
use gem.Msa.FileRoundTrip.{read-write}
use gem.Msa.Limits.{write_file-ok, write-unreadable}
use gem.Msa.Geometry.{guess-Describes, Describes}

abbrev small : Geometry
small = record { sectors_per_track = 1; sides = 1; start_track = 0; end_track = 0 }

abbrev blank : List ℕ
blank = replicate 512 7

abbrev disk : Image
disk = record {
  geometry = small;
  contents = some blank;
  data_size = 512;
  track_stored_sizes = 0 ∷ [];
  track_compressed = 0 ∷ [];
}

abbrev archive : List ℕ
archive = 14 ∷ 15 ∷ 0 ∷ 1 ∷ 0 ∷ 0 ∷ 0 ∷ 0 ∷ 0 ∷ 0 ∷ 0 ∷ 4 ∷ 0xe5 ∷ 7 ∷ 2 ∷ 0 ∷ []

disk-archive : write_file disk ≡ ok archive
unfolding write_file encode_track encoded_capacity valid_geometry track_count track_size
disk-archive = refl

read-write_example :
    (back : Image) × (read_file (some archive) ≡ ok back)
    × (back.geometry ≡ small)
    × (back.contents ≡ some blank)
    × (back.data_size ≡ 512)
read-write_example = read-write disk blank archive refl refl (omega arith) disk-archive

decode-encode_example :
    decode_track (encode_track (1 ∷ 0xe5 ∷ 2 ∷ 2 ∷ 2 ∷ 2 ∷ [])) 6
    ≡ some (1 ∷ 0xe5 ∷ 2 ∷ 2 ∷ 2 ∷ 2 ∷ [])
decode-encode_example = decode-encode (1 ∷ 0xe5 ∷ 2 ∷ 2 ∷ 2 ∷ 2 ∷ [])

decode_run_example : decode_track (0xe5 ∷ 9 ∷ 0 ∷ 3 ∷ []) 3 ≡ some (9 ∷ 9 ∷ 9 ∷ [])
unfolding decode_track
decode_run_example = refl

encode_overflow_example :
    encoded_capacity (length (alternating (1 ∷ 2 ∷ 3 ∷ 4 ∷ 5 ∷ [])))
    < length (encode_track (alternating (1 ∷ 2 ∷ 3 ∷ 4 ∷ 5 ∷ [])))
encode_overflow_example = encode_overflow (1 ∷ 2 ∷ 3 ∷ 4 ∷ 5 ∷ []) (omega arith) (omega arith)

abbrev big_size : ℕ
big_size = 467456

guess_big :
    guess_geometry none big_size
    ≡ ok (record { sectors_per_track = 11; sides = 1; start_track = 0; end_track = 82 })
unfolding guess_geometry
guess_big = refl

-- With 2 ^ 32 + 80 tracks, the count of tracks is cut to 80.
guess_wraps :
    guess_geometry none 24189256261632
    ≡ ok (record { sectors_per_track = 11; sides = 1; start_track = 0; end_track = 79 })
unfolding guess_geometry
guess_wraps = refl

guess-Describes_example :
    Describes
      (record { sectors_per_track = 11; sides = 1; start_track = 0; end_track = 82 })
      big_size
guess-Describes_example = guess-Describes none big_size _ tt (omega arith) guess_big

abbrev double_sided : Geometry
double_sided = record { sectors_per_track = 9; sides = 2; start_track = 0; end_track = 79 }

-- A track on which no two neighbours are equal, and none is the marker.
weave : ℕ → List ℕ
weave zero = []
weave (suc n) = (n % 2) ∷ weave n

length-weave : (n : ℕ) → length (weave n) ≡ n
unfolding weave
length-weave zero = refl
length-weave (suc n) = ap suc (length-weave n)

no_run_weave : (n : ℕ) → run_of (n % 2) 65534 (weave n) ≡ 0
unfolding weave
no_run_weave zero = unfold run_of in refl
no_run_weave (suc n) = no_run (suc n % 2) 65534 (n % 2) (weave n) (omega arith)

plain_weave : (n : ℕ) → use_run (n % 2) (suc (run_of (n % 2) 65534 (weave n))) ≡ false
unfolding use_run
plain_weave n = ground (arith, no_run_weave n)

encode-weave : (fuel n : ℕ) → n ≤ fuel → length (encode_from fuel (weave n)) ≡ n
unfolding weave
encode-weave fuel zero h = unfold encode_from in refl
encode-weave zero (suc n) h = absurd (omega arith)
encode-weave (suc fuel) (suc n) h =
    ap length (encode_byte fuel (n % 2) (weave n) (plain_weave n))
    ∙ ap suc (encode-weave fuel n (omega arith))

markers-weave : (n : ℕ) → markers (weave n) ≡ 0
unfolding weave
markers-weave zero = refl
markers-weave (suc n) = ground (arith, markers-weave n)

take_all : (xs : List ℕ) → take (length xs) xs ≡ xs
take_all [] = refl
take_all (x ∷ xs) = ap (λ t. x ∷ t) (take_all xs)

long_weave : (n : ℕ) → n ≤ length (encode_track (take n (weave n)))
unfolding encode_track
long_weave n =
    let whole : take n (weave n) ≡ weave n =
      ap (λ k. take k (weave n)) (sym (length-weave n)) ∙ take_all (weave n) in
    rw whole (omega (arith, encode-weave (length (weave n)) n (omega (arith, length-weave n))))

wide_disk : ℕ → Image
wide_disk n = record {
  geometry = record { sectors_per_track = 128; sides = 1; start_track = 0; end_track = 0 };
  contents = some (weave n);
  data_size = 65536;
  track_stored_sizes = 0 ∷ [];
  track_compressed = 0 ∷ [];
}

wide_file : (n : ℕ) → (file : List ℕ) × (write_file (wide_disk n) ≡ ok file)
unfolding wide_disk valid_geometry track_size track_count
wide_file n = write_file-ok (wide_disk n) (weave n) refl refl refl (omega (arith, markers-weave n))

write-unreadable_example : read_file (some (wide_file 65536).0) ≡ err invalid_track_block
unfolding wide_disk
write-unreadable_example =
    write-unreadable (wide_disk 65536) (weave 65536) (wide_file 65536).0 refl refl
      (long_weave 65536) (wide_file 65536).1
