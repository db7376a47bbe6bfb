-- ===== src/Msa/Rle.antt =====
-- msa_encode_track and msa_decode_track of lib/msa/msa.c.
-- `source + src_index` is the rest of the list. What is written to `destination` is the result; the
-- encoder's result has no bound, so that a run past the caller's buffer shows in its length.
use mathlib.Core.Option
use gem.Base.{
  ℕ, zero, suc, ◌+◌, ◌-◌, ◌*◌, ◌/◌, ◌%◌, ◌<◌, Bool, ◌&&◌, ◌||◌, List, [], ◌∷◌, ◌++◌, Option, none,
  some, if◌then◌else◌, ltb, leb, ◌==◌, length, drop, replicate,
}

abbrev pub marker : ℕ
marker = 0xe5

abbrev pub IsByte : ℕ → Type 0
IsByte b = b < 256

abbrev pub longest_run : ℕ
longest_run = 65535

-- The `while` that counts the bytes equal to `value`: `run_length` is what it has counted before.
unfoldable pub count_run : ℕ → ℕ → List ℕ → ℕ
count_run value run_length [] = run_length
count_run value run_length (b ∷ bs) =
    let more = count_run value (run_length + 1) bs in
    if b == value && ltb run_length longest_run then more else run_length

-- `use_run`.
unfoldable pub use_run : ℕ → ℕ → Bool
use_run value run_length = if value == marker then leb 1 run_length else leb 4 run_length

-- The four bytes of a run.
abbrev pub run_bytes : ℕ → ℕ → List ℕ
run_bytes value run_length = marker ∷ value ∷ (run_length / 256 % 256) ∷ (run_length % 256) ∷ []

-- The outer loop, on fuel: each round takes a byte at least.
unfoldable pub encode_from : ℕ → List ℕ → List ℕ
unfolding count_run use_run
encode_from fuel [] = []
encode_from zero (value ∷ rest) = []
encode_from (suc fuel) (value ∷ rest) =
    let run_length = count_run value 1 rest in
    let after_run = encode_from fuel (drop (run_length - 1) rest) in
    let after_byte = encode_from fuel rest in
    if use_run value run_length then run_bytes value run_length ++ after_run else value ∷ after_byte

unfoldable pub encode_track : List ℕ → List ℕ
unfolding encode_from
encode_track source = encode_from (length source) source

-- The value and the length of a run, and what follows it. `src_index + 2u >= source_size`, with
-- `src_index` behind the marker, says that fewer than three bytes follow.
unfoldable pub take_run : List ℕ → Option (ℕ × ℕ × List ℕ)
take_run [] = none
take_run (value ∷ []) = none
take_run (value ∷ hi ∷ []) = none
take_run (value ∷ hi ∷ lo ∷ rest) = some (value, hi * 256 + lo, rest)

-- What the decoder does with a run; `decode` is the rest of its loop.
unfoldable pub decode_run :
    (List ℕ → ℕ → Option (List ℕ)) → Option (ℕ × ℕ × List ℕ) → ℕ → Option (List ℕ)
decode_run decode none room = none
decode_run decode (some (value, run_length, rest)) room =
    if run_length == 0 || ltb room run_length
    then none
    else Option.map (λ out. replicate run_length value ++ out) (decode rest (room - run_length))

-- The loop of the decoder, on fuel: each round takes a byte at least. `room` is what is left of
-- `destination_size`; the result is what a successful call has written.
unfoldable pub decode_from : ℕ → List ℕ → ℕ → Option (List ℕ)
unfolding take_run decode_run
decode_from fuel [] room = if room == 0 then some [] else none
decode_from zero (byte ∷ rest) room = none
decode_from (suc fuel) (byte ∷ rest) room =
    let after_byte = Option.map (λ out. byte ∷ out) (decode_from fuel rest (room - 1)) in
    let after_run = decode_run (decode_from fuel) (take_run rest) room in
    if room == 0 then none else if byte == marker then after_run else after_byte

unfoldable pub decode_track : List ℕ → ℕ → Option (List ℕ)
unfolding decode_from
decode_track source destination_size = decode_from (length source) source destination_size
