-- ===== src/Visible/Exact.antt =====
-- aes_clip_layer_rects (src/aes/window_visible.c): the points of its result.
use gem.Base.{
  ℕ, ◌+◌, ◌*◌, ◌^◌, zero, suc, ◌≤◌, ◌≡◌, refl, sym, ap, ◌∙◌, Bool, false, not, ◌&&◌, ◌||◌, List, [],
  ◌∷◌, Option, none, some, arith, bit, Bool-cases, inl, inr, length, max,
}
use native.Mathlib.Nat.{pow-suc, one-le-pow, mul-le-mul_left, mul-le-mul_right}
use gem.Base.Int.{ℤ, pos, pos_part, leb_ℤ, ◌≤ℤ◌}
use gem.Rect.{Grect, min_word}
use gem.Rect.Subtract.{FitsRect, hits, holds, is_empty-FitsRect}
use gem.Window.{Window, AesState}
use gem.Visible.{cut_pending, clip_layers, clip_layer_rects, layers}
use gem.Visible.Steps.{
  RectsFit, unless, cut_free, cut_free-fits, cut_free-hits, length-cut_free, cut-fits, cut-length,
  cut-hits, cut_room,
}

-- The layers that cover something are in the range of a WORD.
abbrev pub LayersFit : List (Option Grect) → Type 0
LayersFit [] = Unit {0}
LayersFit (none ∷ ls) = LayersFit ls
LayersFit (some c ∷ ls) = FitsRect c × LayersFit ls

-- Some layer holds the point.
abbrev pub hidden : ℤ → ℤ → List (Option Grect) → Bool
hidden x y [] = false
hidden x y (none ∷ ls) = hidden x y ls
hidden x y (some c ∷ ls) = holds x y c || hidden x y ls

-- The largest number of rectangles pending after a layer, were there no limit.
abbrev pub peak : List Grect → List (Option Grect) → ℕ
peak ps [] = 0
peak ps (none ∷ ls) = peak ps ls
peak ps (some c ∷ ls) = max (length (cut_free c ps)) (peak (cut_free c ps) ls)

unless-or : (a b : Bool) (n : ℕ) → unless b (unless a n) ≡ unless (a || b) n
unless-or a b n = ground arith

unless_mono : (b : Bool) (n m : ℕ) → n ≤ m → unless b n ≤ unless b m
unless_mono b n m h = ground arith

unless-zero : (b : Bool) → unless b 0 ≡ 0
unless-zero b = ground arith

clip-hits :
    (x y : ℤ) (m : ℕ) (ps : List Grect) (ls : List (Option Grect))
    → RectsFit ps
    → LayersFit ls
    → hits x y (clip_layers m ps ls) ≤ unless (hidden x y ls) (hits x y ps)
unfolding clip_layers hits
clip-hits x y m [] [] a b = omega arith
clip-hits x y m [] (l ∷ ls) a b = omega arith
clip-hits x y m (p ∷ ps) [] a b = omega arith
clip-hits x y m (p ∷ ps) (none ∷ ls) a b = clip-hits x y m (p ∷ ps) ls a b
clip-hits x y m (p ∷ ps) (some c ∷ ls) a b = omega (
  arith,
  clip-hits x y m (cut_pending m c [] (p ∷ ps)) ls (cut-fits m c [] (p ∷ ps) b.0 tt a) b.1,
  unless_mono (hidden x y ls) _ _ (cut-hits x y m c (p ∷ ps) b.0 a),
  unless-or (holds x y c) (hidden x y ls) (hits x y (p ∷ ps)),
)

clip-length :
    (m : ℕ) (ps : List Grect) (ls : List (Option Grect))
    → length ps ≤ m
    → length (clip_layers m ps ls) ≤ m
unfolding clip_layers
clip-length m [] [] h = omega arith
clip-length m [] (l ∷ ls) h = omega arith
clip-length m (p ∷ ps) [] h = h
clip-length m (p ∷ ps) (none ∷ ls) h = clip-length m (p ∷ ps) ls h
clip-length m (p ∷ ps) (some c ∷ ls) h =
    clip-length m (cut_pending m c [] (p ∷ ps)) ls (cut-length m c [] (p ∷ ps) (omega arith))

clip-room :
    (x y : ℤ) (m : ℕ) (ps : List Grect) (ls : List (Option Grect))
    → RectsFit ps
    → LayersFit ls
    → peak ps ls ≤ m
    → hits x y (clip_layers m ps ls) ≡ unless (hidden x y ls) (hits x y ps)
unfolding clip_layers
clip-room x y m [] ls a b h = unfold hits in sym (unless-zero (hidden x y ls))
clip-room x y m (p ∷ ps) [] a b h = refl
clip-room x y m (p ∷ ps) (none ∷ ls) a b h = clip-room x y m (p ∷ ps) ls a b h
clip-room x y m (p ∷ ps) (some c ∷ ls) a b h =
    ap (λ q. hits x y (clip_layers m q ls)) (cut_room m c [] (p ∷ ps) (omega arith))
    ∙ clip-room x y m (cut_free c (p ∷ ps)) ls (cut_free-fits c (p ∷ ps) b.0 a) b.1 (omega arith)
    ∙ ap (unless (hidden x y ls)) (cut_free-hits x y c (p ∷ ps) b.0 a)
    ∙ unless-or (holds x y c) (hidden x y ls) (hits x y (p ∷ ps))

unless-bit : (a b : Bool) → unless b (bit a + 0) ≡ bit (a && not b)
unless-bit a b = ground arith

limit-le :
    (n : ℤ) → (pos_part (min_word n (pos 64)) ≤ pos_part n) × (pos_part (min_word n (pos 64)) ≤ 64)
unfolding min_word
limit-le n = ground arith

limit-pos : (n : ℤ) → leb_ℤ n (pos 0) ≡ false → 1 ≤ pos_part (min_word n (pos 64))
unfolding min_word
limit-pos n h = ground arith

-- One rectangle alone holds the point or not.
one-hits :
    (x y : ℤ) (r : Grect) (b : Bool) → unless b (hits x y (r ∷ [])) ≡ bit (holds x y r && not b)
unfolding hits
one-hits x y r b = unless-bit (holds x y r) b

-- How many layers cover something.
abbrev pub covering : List (Option Grect) → ℕ
covering [] = 0
covering (none ∷ ls) = covering ls
covering (some c ∷ ls) = suc (covering ls)

quadruple : (n l p r : ℕ) → 1 ≤ n → l ≤ p + p + p + p → r ≤ n * l → max l r ≤ n * 4 * p
quadruple n l p r a b c =
    omega
      (arith, mul-le-mul_left {m = l} {n = p + p + p + p} n b, mul-le-mul_right {m = 1} {n = n} l a)

peak-le :
    (ps : List Grect) (ls : List (Option Grect))
    → RectsFit ps
    → LayersFit ls
    → peak ps ls ≤ 4 ^ covering ls * length ps
peak-le ps [] a b = omega arith
peak-le ps (none ∷ ls) a b = peak-le ps ls a b
peak-le ps (some c ∷ ls) a b =
    let n : ℕ = 4 ^ covering ls in
    let pieces = length-cut_free c ps b.0 a in
    let rest = peak-le (cut_free c ps) ls (cut_free-fits c ps b.0 a) b.1 in
    rw (pow-suc 4 (covering ls))
      (quadruple n _ _ _ (one-le-pow (covering ls) 4 (omega arith)) pieces rest)

pow_three : (k : ℕ) → k ≤ 3 → 4 ^ k ≤ 64
pow_three zero h = omega arith
pow_three (suc zero) h = omega arith
pow_three (suc (suc zero)) h = omega arith
pow_three (suc (suc (suc zero))) h = omega arith
pow_three (suc (suc (suc (suc k)))) h = absurd (omega arith)

limit-eq : (n : ℤ) → pos 64 ≤ℤ n → 64 ≤ pos_part (min_word n (pos 64))
unfolding min_word
limit-eq n h = ground arith

four_cubed :
    (ls : List (Option Grect)) (n : ℤ) {p : ℕ}
    → pos 64 ≤ℤ n
    → covering ls ≤ 3
    → p ≤ 4 ^ covering ls * 1
    → p ≤ pos_part (min_word n (pos 64))
four_cubed ls n h k e = omega (arith, pow_three (covering ls) k, limit-eq n h)

module _ (st : AesState) (target : Option Window) (target_z : ℕ) (modal_form_target : Bool)
    (base : Grect) (max_rects : ℤ) where
  abbrev clipped : List Grect
  clipped = clip_layer_rects st target target_z modal_form_target (some base) max_rects

  abbrev covers : List (Option Grect)
  covers = layers st target target_z modal_form_target

  -- For a base and covering layers in the range of a WORD: no point lies in two rectangles of the
  -- result, each that lies in one is a point of the base that no layer holds, and there are at most
  -- `max_rects` rectangles and at most 64, however many pieces had to be dropped.
  pub clip_sound :
      (x y : ℤ)
      → FitsRect base
      → LayersFit covers
      → (hits x y clipped ≤ bit (holds x y base && not (hidden x y covers)))
        × (length clipped ≤ pos_part max_rects)
        × (length clipped ≤ 64)
  unfolding clip_layer_rects
  clip_sound x y f l = elim (Bool-cases (leb_ℤ max_rects (pos 0))) [
    | inl t ↦ rw (t) (unfold hits in omega arith, omega arith, omega arith)
    | inr t ↦
        let m = pos_part (min_word max_rects (pos 64)) in
        let few = clip-length m (base ∷ []) covers in
        let a = limit-le max_rects in
        rw (t, is_empty-FitsRect base f)
          (
            rw (← one-hits x y base (hidden x y covers))
                (clip-hits x y m (base ∷ []) covers (f, tt) l),
            omega (arith, few (limit-pos max_rects t)),
            omega (arith, few (limit-pos max_rects t)),
          )
  ]

  -- The result is exact where the limit leaves room for every piece: a point lies in exactly one
  -- rectangle if the base holds it and no layer does, and in none otherwise.
  clip-exact_room :
      (x y : ℤ)
      → FitsRect base
      → LayersFit covers
      → leb_ℤ max_rects (pos 0) ≡ false
      → peak (base ∷ []) covers ≤ pos_part (min_word max_rects (pos 64))
      → hits x y clipped ≡ bit (holds x y base && not (hidden x y covers))
  unfolding clip_layer_rects
  clip-exact_room x y f l t h =
      rw (t, is_empty-FitsRect base f)
        (clip-room x y (pos_part (min_word max_rects (pos 64))) (base ∷ []) covers (f, tt) l h
          ∙ one-hits x y base (hidden x y covers))

  -- For a base and covering layers in the range of a WORD, at most three layers that cover, and a
  -- client that asks for 64 rectangles or more: each point of the base that no layer holds lies in
  -- exactly one rectangle of the result, and no other point lies in any.
  pub clip-exact :
      (x y : ℤ)
      → FitsRect base
      → LayersFit covers
      → covering covers ≤ 3
      → pos 64 ≤ℤ max_rects
      → hits x y clipped ≡ bit (holds x y base && not (hidden x y covers))
  clip-exact x y f l k h =
      clip-exact_room x y f l (ground arith)
        (four_cubed covers max_rects h k (peak-le (base ∷ []) covers (f, tt) l))
