-- ===== src/Msa/Capacity.antt =====
-- How much msa_encode_track (lib/msa/msa.c) writes, against the buffer that msa_write_file gives it.
use gem.Base.{
  ℕ, zero, suc, ◌+◌, ◌*◌, ◌≤◌, ◌<◌, ◌≡◌, ◌≢◌, ◌⊎◌, refl, sym, ap, ◌∙◌, Bool, true, false, List, [],
  ◌∷◌, arith, if◌then◌else◌, ◌==◌, length, drop, inl, inr, Bool-cases, All, bit, ==_iff, ltb,
}
use gem.Msa.Rle.{marker, use_run, encode_from, encode_track}
use gem.Msa.RoundTrip.{run_of, run_after, encode_run, encode_byte, length-after_run}

-- `encoded_capacity` of msa_write_file.
unfoldable pub encoded_capacity : ℕ → ℕ
encoded_capacity track_size = track_size * 2 + 4

abbrev starts_marked : List ℕ → Bool
starts_marked [] = false
starts_marked (b ∷ bs) = b == marker

-- A run that stops short of its limit stops at another byte.
run_ends :
    (value room : ℕ) (bs : List ℕ)
    → value ≡ marker
    → run_of value room bs < room
    → starts_marked (drop (run_of value room bs) bs) ≡ false
unfolding run_of
run_ends value zero bs e h = absurd (omega arith)
run_ends value (suc room) [] e h = refl
run_ends value (suc room) (b ∷ bs) e h = elim (Bool-cases (b == value)) [
  | inl t ↦ rw t (run_ends value room bs e (ground arith))
  | inr t ↦ rw t (rw e at t)
]

use_run-value : (value n : ℕ) → use_run value n ≡ true → ((value == marker) ≡ true) ⊎ (4 ≤ n)
unfolding use_run
use_run-value value n h = ground arith

abbrev slack : Bool → ℕ
slack b = if b then 3 else 0

slack-le : (b : Bool) → slack b ≤ 3
slack-le b = ground arith

slack_marked : (b : Bool) → b ≡ true → slack b ≡ 3
slack_marked b h = ground arith

slack_unmarked : (b : Bool) → b ≡ false → slack b ≡ 0
slack_unmarked b h = ground arith

-- What a run costs, counted twice, with the slack that it may need behind it.
run_cost :
    (value : ℕ) (rest : List ℕ)
    → use_run value (suc (run_after value rest)) ≡ true
    → 8 + slack (starts_marked (drop (run_after value rest) rest))
      ≤ 5 * suc (run_after value rest) + slack (value == marker)
run_cost value rest t = elim (use_run-value value (suc (run_after value rest)) t) [
  | inl m ↦ elim (Bool-cases (ltb (run_after value rest) 65534)) [
    | inl s ↦ omega (
      arith,
      slack_marked (value == marker) m,
      slack_unmarked _ (run_ends value 65534 rest ((==_iff value marker).0 m) (ground arith)),
    )
    | inr s ↦
        let long : 65534 ≤ run_after value rest = ground arith in
        omega (arith, slack-le (starts_marked (drop (run_after value rest) rest)))
  ]
  | inr long ↦ omega (arith, slack-le (starts_marked (drop (run_after value rest) rest)))
]

encode_bound :
    (fuel : ℕ) (src : List ℕ)
    → 2 * length (encode_from fuel src) ≤ 5 * length src + slack (starts_marked src)
encode_bound fuel [] = unfold encode_from in omega arith
encode_bound zero (value ∷ rest) = unfold encode_from in omega arith
encode_bound (suc fuel) (value ∷ rest) =
    elim (Bool-cases (use_run value (suc (run_after value rest)))) [
      | inl t ↦ rw (encode_run fuel value rest t) (
          omega (
            arith,
            encode_bound fuel (drop (run_after value rest) rest),
            run_cost value rest t,
            length-after_run value rest,
          ))
      | inr t ↦
          rw (encode_byte fuel value rest t)
            (omega (arith, encode_bound fuel rest, slack-le (starts_marked rest)))
    ]

-- `msa_encode_track` writes at most two and a half bytes for each byte of the track, and one and a
-- half more.
pub length-encode : (src : List ℕ) → 2 * length (encode_track src) ≤ 5 * length src + 3
unfolding encode_track
length-encode src = omega (arith, encode_bound (length src) src, slack-le (starts_marked src))

-- The number of marker bytes.
abbrev pub markers : List ℕ → ℕ
markers [] = 0
markers (b ∷ bs) = bit (b == marker) + markers bs

pub markers-drop : (n : ℕ) (bs : List ℕ) → markers (drop n bs) ≤ markers bs
markers-drop zero bs = omega arith
markers-drop (suc n) [] = omega arith
markers-drop (suc n) (b ∷ bs) = omega (arith, markers-drop n bs)

bit_marked : (b : Bool) → b ≡ true → bit b ≡ 1
bit_marked b h = ground arith

encode-le_from :
    (fuel : ℕ) (src : List ℕ) → length (encode_from fuel src) ≤ length src + 3 * markers src
encode-le_from fuel [] = unfold encode_from in omega arith
encode-le_from zero (value ∷ rest) = unfold encode_from in omega arith
encode-le_from (suc fuel) (value ∷ rest) =
    elim (Bool-cases (use_run value (suc (run_after value rest)))) [
      | inl t ↦
          let n = run_after value rest in
          let ih = encode-le_from fuel (drop n rest) in
          let fewer = markers-drop n rest in
          let shorter = length-after_run value rest in
          elim (use_run-value value (suc n) t) [
            | inl m ↦
                rw (encode_run fuel value rest t) (omega (arith, bit_marked (value == marker) m))
            | inr long ↦ rw (encode_run fuel value rest t) (omega arith)
          ]
      | inr t ↦ rw (encode_byte fuel value rest t) (omega (arith, encode-le_from fuel rest))
    ]

-- A byte that is not the marker never costs more than itself: the encoding is longer than the track
-- by three bytes at most for each marker in it.
pub length-encode_markers :
    (src : List ℕ) → length (encode_track src) ≤ length src + 3 * markers src
unfolding encode_track
length-encode_markers src = encode-le_from (length src) src

-- Each of the bytes behind a marker of its own.
unfoldable pub alternating : List ℕ → List ℕ
alternating [] = []
alternating (x ∷ xs) = marker ∷ x ∷ alternating xs

abbrev pub IsPlain : ℕ → Type 0
IsPlain b = b ≢ marker

pub length-alternating : (xs : List ℕ) → length (alternating xs) ≡ 2 * length xs
unfolding alternating
length-alternating [] = omega arith
length-alternating (x ∷ xs) = omega (arith, length-alternating xs)

pub no_run : (value room x : ℕ) (rest : List ℕ) → x ≢ value → run_of value room (x ∷ rest) ≡ 0
unfolding run_of
no_run value zero x rest h = refl
no_run value (suc room) x rest h = ground arith

alternating_run : (x : ℕ) (xs : List ℕ) → IsPlain x → run_after x (alternating xs) ≡ 0
unfolding alternating
alternating_run x [] h = unfold run_of in refl
alternating_run x (y ∷ ys) h = no_run x 65534 marker _ (λ e. h (sym e))

marked_use : (n : ℕ) → use_run marker (suc n) ≡ true
unfolding use_run
marked_use n = ground arith

plain_use : (x : ℕ) → IsPlain x → use_run x 1 ≡ false
unfolding use_run
plain_use x h = ground arith

encode-alternating :
    (fuel : ℕ) (xs : List ℕ)
    → All IsPlain xs
    → 2 * length xs ≤ fuel
    → length (encode_from fuel (alternating xs)) ≡ 5 * length xs
unfolding alternating
encode-alternating fuel [] a h = unfold encode_from in refl
encode-alternating zero (x ∷ xs) a h = absurd (omega arith)
encode-alternating (suc zero) (x ∷ xs) a h = absurd (omega arith)
encode-alternating (suc (suc fuel)) (x ∷ xs) a h = omega (
  arith,
  ap length (
      encode_run (suc fuel) marker (x ∷ alternating xs)
        (marked_use (run_after marker (x ∷ alternating xs)))),
  ap (λ n. length (encode_from (suc fuel) (drop n (x ∷ alternating xs))))
      (no_run marker 65534 x (alternating xs) a.0),
  ap length (
      encode_byte fuel x (alternating xs)
        (ap (λ n. use_run x (suc n)) (alternating_run x xs a.0) ∙ plain_use x a.0)),
  encode-alternating fuel xs a.1 (omega arith),
)

-- A track of five markers or more, each before one byte that is no marker, makes `msa_encode_track` write more
-- than the buffer that `msa_write_file` allocates for it holds.
pub encode_overflow :
    (xs : List ℕ)
    → All IsPlain xs
    → 5 ≤ length xs
    → encoded_capacity (length (alternating xs)) < length (encode_track (alternating xs))
unfolding encoded_capacity encode_track
encode_overflow xs a h = omega (
  arith,
  length-alternating xs,
  encode-alternating (length (alternating xs)) xs a (omega (arith, length-alternating xs)),
)
