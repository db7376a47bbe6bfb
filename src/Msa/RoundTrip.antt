-- ===== src/Msa/RoundTrip.antt =====
-- A track that msa_encode_track (lib/msa/msa.c) wrote, read back by msa_decode_track.
use mathlib.Core.Option
use gem.Base.{
  ℕ, zero, suc, ◌+◌, ◌-◌, ◌*◌, ◌/◌, ◌%◌, ◌≤◌, ◌<◌, ◌≡◌, ◌≢◌, refl, ap, ap₂, ◌∙◌, true, false, ◌||◌,
  List, [], ◌∷◌, ◌++◌, Option, none, some, arith, if◌then◌else◌, ltb, ◌==◌, length, drop, replicate,
  inl, inr, Bool-cases, length-append, length-drop, length-replicate,
}
use gem.Msa.Rle.{
  marker, longest_run, count_run, use_run, run_bytes, encode_from, encode_track, take_run,
  decode_run, decode_from, decode_track,
}

-- How many of the first `room` bytes are `value`, up to the first that is not.
unfoldable pub run_of : ℕ → ℕ → List ℕ → ℕ
run_of value zero bs = 0
run_of value (suc room) [] = 0
run_of value (suc room) (b ∷ bs) = if b == value then suc (run_of value room bs) else 0

count_run-eq :
    (value k room : ℕ) (bs : List ℕ)
    → k + room ≡ longest_run
    → count_run value k bs ≡ k + run_of value room bs
unfolding count_run run_of
count_run-eq value k zero [] h = omega arith
count_run-eq value k zero (b ∷ bs) h = ground arith
count_run-eq value k (suc room) [] h = omega arith
count_run-eq value k (suc room) (b ∷ bs) h =
    ground (arith, count_run-eq value (k + 1) room bs (omega arith))

pub run_of-le :
    (value room : ℕ) (bs : List ℕ)
    → (run_of value room bs ≤ room) × (run_of value room bs ≤ length bs)
unfolding run_of
run_of-le value zero bs = omega arith
run_of-le value (suc room) [] = omega arith
run_of-le value (suc room) (b ∷ bs) = ground (arith, run_of-le value room bs)

run_split :
    (value room : ℕ) (bs : List ℕ)
    → replicate (run_of value room bs) value ++ drop (run_of value room bs) bs ≡ bs
unfolding run_of
run_split value zero bs = refl
run_split value (suc room) [] = refl
run_split value (suc room) (b ∷ bs) = elim (Bool-cases (b == value)) [
  | inl t ↦ rw t (ap₂ ◌∷◌ (ground arith) (run_split value room bs))
  | inr t ↦ rw t
]

-- One round of the encoder.
abbrev pub run_after : ℕ → List ℕ → ℕ
run_after value rest = run_of value 65534 rest

pub encode_step :
    (fuel value : ℕ) (rest : List ℕ)
    → encode_from (suc fuel) (value ∷ rest) ≡ (
        if use_run value (suc (run_after value rest))
        then run_bytes value (suc (run_after value rest))
          ++ encode_from fuel (drop (run_after value rest) rest)
        else value ∷ encode_from fuel rest)
unfolding encode_from
encode_step fuel value rest =
    let e : count_run value 1 rest ≡ suc (run_after value rest) =
      omega (arith, count_run-eq value 1 65534 rest refl) in
    let d : suc (run_after value rest) - 1 ≡ run_after value rest = omega arith in rw (e, d)

decode_byte :
    (fuel byte room : ℕ) (rest out : List ℕ)
    → byte ≢ marker
    → decode_from fuel rest room ≡ some out
    → decode_from (suc fuel) (byte ∷ rest) (suc room) ≡ some (byte ∷ out)
unfolding decode_from
decode_byte fuel byte room rest out ne e =
    let t : (suc room == 0) ≡ false = ground arith in
    let u : (byte == marker) ≡ false = ground arith in
    let d : suc room - 1 ≡ room = omega arith in rw (t, u, d, e)

decode_written_run :
    (fuel value n room : ℕ) (rest out : List ℕ)
    → n < 65535
    → decode_from fuel rest room ≡ some out
    → decode_from (suc fuel) (run_bytes value (suc n) ++ rest) (suc n + room)
      ≡ some (replicate (suc n) value ++ out)
unfolding decode_from
decode_written_run fuel value n room rest out h e =
    let t : (suc n + room == 0) ≡ false = ground arith in
    let r : suc n / 256 % 256 * 256 + suc n % 256 ≡ suc n = omega arith in
    let u : (suc n == 0) ≡ false = ground arith in
    let v : ltb (suc n + room) (suc n) ≡ false = ground arith in
    let d : suc n + room - suc n ≡ room = omega arith in rw (t, r, u, v, d, e)

-- A byte that stands for itself is not the marker.
plain_byte : (value n : ℕ) → use_run value (suc n) ≡ false → value ≢ marker
unfolding use_run
plain_byte value n h = ground arith

pub length-after_run :
    (value : ℕ) (rest : List ℕ)
    → suc (run_after value rest) + length (drop (run_after value rest) rest) ≡ suc (length rest)
length-after_run value rest =
    omega (arith, length-drop (run_after value rest) rest, run_of-le value 65534 rest)

pub encode_run :
    (fuel value : ℕ) (rest : List ℕ)
    → use_run value (suc (run_after value rest)) ≡ true
    → encode_from (suc fuel) (value ∷ rest)
      ≡ run_bytes value (suc (run_after value rest))
        ++ encode_from fuel (drop (run_after value rest) rest)
encode_run fuel value rest t = encode_step fuel value rest ∙ rw t

pub encode_byte :
    (fuel value : ℕ) (rest : List ℕ)
    → use_run value (suc (run_after value rest)) ≡ false
    → encode_from (suc fuel) (value ∷ rest) ≡ value ∷ encode_from fuel rest
encode_byte fuel value rest t = encode_step fuel value rest ∙ rw t

-- The decoder's fuel is what it is given to read.
decode-encode_from :
    (fuel more : ℕ) (src : List ℕ)
    → length src ≤ fuel
    → length (encode_from fuel src) ≤ more
    → decode_from more (encode_from fuel src) (length src) ≡ some src
decode-encode_from zero more [] h k = unfold encode_from decode_from in refl
decode-encode_from (suc fuel) more [] h k = unfold encode_from decode_from in refl
decode-encode_from zero more (value ∷ rest) h k = absurd (omega arith)
decode-encode_from (suc fuel) zero (value ∷ rest) h k =
    elim (Bool-cases (use_run value (suc (run_after value rest)))) [
      | inl t ↦ absurd (omega (arith, ap length (encode_run fuel value rest t)))
      | inr t ↦ absurd (omega (arith, ap length (encode_byte fuel value rest t)))
    ]
decode-encode_from (suc fuel) (suc more) (value ∷ rest) h k =
    elim (Bool-cases (use_run value (suc (run_after value rest)))) [
      | inl t ↦
          let n = run_after value rest in
          let shorter = length-after_run value rest in
          let s = ap length (encode_run fuel value rest t) in
          rw (encode_run fuel value rest t, ← shorter)
            (decode_written_run more value n (length (drop n rest)) (encode_from fuel (drop n rest))
                (drop n rest) (omega (arith, run_of-le value 65534 rest))
                (decode-encode_from fuel more (drop n rest)
                  (omega (arith, run_of-le value 65534 rest)) (omega arith))
              ∙ ap (λ r. some (value ∷ r)) (run_split value 65534 rest))
      | inr t ↦
          let s = ap length (encode_byte fuel value rest t) in
          rw (encode_byte fuel value rest t) (
            decode_byte more value (length rest) (encode_from fuel rest) rest
              (plain_byte value (run_after value rest) t)
              (decode-encode_from fuel more rest (omega arith) (omega arith)))
    ]

-- `msa_decode_track` turns what `msa_encode_track` wrote for a track back into that track.
pub decode-encode : (src : List ℕ) → decode_track (encode_track src) (length src) ≡ some src
unfolding decode_track encode_track
decode-encode src = decode-encode_from (length src) _ src (omega arith) (omega arith)

length-map_some :
    (f : List ℕ → List ℕ) (o : Option (List ℕ)) (out : List ℕ)
    → Option.map f o ≡ some out
    → (r : List ℕ) × (o ≡ some r) × (f r ≡ out)
length-map_some f none out e = cc
length-map_some f (some r) out e = (r, refl, cc)

none-some : {out : List ℕ} → none ≡ some out → ⊥
none-some e = cc

Exact : ℕ → Type 0
Exact fuel =
    (src : List ℕ) (room : ℕ) (out : List ℕ)
    → decode_from fuel src room ≡ some out
    → length out ≡ room

byte-Exact :
    (fuel byte room : ℕ) (rest out : List ℕ)
    → Exact fuel
    → room ≢ 0
    → Option.map (λ r. byte ∷ r) (decode_from fuel rest (room - 1)) ≡ some out
    → length out ≡ room
unfolding Exact
byte-Exact fuel byte room rest out ih ne e =
    let (r, d, s) = length-map_some (λ r. byte ∷ r) (decode_from fuel rest (room - 1)) out e in
    omega (arith, ih rest (room - 1) r d, ap length s)

run-Exact :
    (fuel value n room : ℕ) (rest out : List ℕ)
    → Exact fuel
    → (n == 0 || ltb room n) ≡ false
    → Option.map (λ r. replicate n value ++ r) (decode_from fuel rest (room - n)) ≡ some out
    → length out ≡ room
unfolding Exact
run-Exact fuel value n room rest out ih t e =
    let (r, d, s) =
      length-map_some (λ r. replicate n value ++ r) (decode_from fuel rest (room - n)) out e in
    let fits : n ≤ room = ground arith in
    omega (
      arith,
      ih rest (room - n) r d,
      ap length s,
      length-append (replicate n value) r,
      length-replicate n value,
    )

decode_run-Exact :
    (fuel : ℕ) (run : Option (ℕ × ℕ × List ℕ)) (room : ℕ) (out : List ℕ)
    → Exact fuel
    → decode_run (decode_from fuel) run room ≡ some out
    → length out ≡ room
decode_run-Exact fuel none room out ih e = unfold decode_run in cc
decode_run-Exact fuel (some (value, n, rest)) room out ih e =
    elim (Bool-cases (n == 0 || ltb room n)) [
      | inl t ↦ absurd (unfold decode_run in none-some (rw t at e))
      | inr t ↦ run-Exact fuel value n room rest out ih t (unfold decode_run in rw t at e)
    ]

step-Exact :
    (fuel byte : ℕ) (rest : List ℕ) (room : ℕ) (out : List ℕ)
    → Exact fuel
    → decode_from (suc fuel) (byte ∷ rest) room ≡ some out
    → length out ≡ room
step-Exact fuel byte rest room out ih e = elim (Bool-cases (room == 0)) [
  | inl z ↦ absurd (unfold decode_from in none-some (rw z at e))
  | inr nz ↦ elim (Bool-cases (byte == marker)) [
    | inl m ↦
        decode_run-Exact fuel (take_run rest) room out ih (unfold decode_from in rw (nz, m) at e)
    | inr m ↦
        byte-Exact fuel byte room rest out ih (ground arith) (unfold decode_from in rw (nz, m) at e)
  ]
]

decode_from-Exact : (fuel : ℕ) → Exact fuel
unfolding Exact
decode_from-Exact fuel [] room out e = unfold decode_from in ground arith
decode_from-Exact zero (byte ∷ rest) room out e = unfold decode_from in cc
decode_from-Exact (suc fuel) (byte ∷ rest) room out e =
    step-Exact fuel byte rest room out (decode_from-Exact fuel) e

-- A track that `msa_decode_track` accepts fills the destination exactly, whatever the source.
pub length-decode :
    (src : List ℕ) (room : ℕ) (out : List ℕ) → decode_track src room ≡ some out → length out ≡ room
unfolding decode_track Exact
length-decode src room out e = decode_from-Exact (length src) src room out e
