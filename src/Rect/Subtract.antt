-- ===== src/Rect/Subtract.antt =====
-- aes_subtract_rect and aes_intersect_rects (src/aes/aes_geometry.c) by the points that they cover.
use gem.Base.{
  ℕ, ◌+◌, ◌*◌, ◌≡◌, refl, sym, ap, ap₂, ◌∙◌, ◌⊎◌, inl, inr, Bool, true, false, not, ◌&&◌, ◌||◌,
  List, [], ◌∷◌, ◌++◌, some, arith, bit,
}
use gem.Base.Int.{ℤ, pos, ◌+ℤ◌, ◌≤ℤ◌, ◌<ℤ◌, ltb_ℤ, leb_ℤ}
use gem.Base.Int.{+ℤ_parts, -ℤ_parts}
use gem.Rect.{
  Grect, last, is_empty, point_in_rect, rects_intersect, common, intersect_rects, when, above_strip,
  below_strip, left_strip, right_strip, fragments, subtract_rect,
}
use gem.Rect.Span.{
  in_span, FitsSpan, IsCommon, Meets, split_span, common_lem, le_of_test, lt_of_test, last_parts,
}

-- Neither axis of the rectangle is empty, and neither leaves the range of a WORD.
pub record FitsRect (r : Grect) : Type 0 where
  pub across : FitsSpan r.g_x r.g_w
  pub down : FitsSpan r.g_y r.g_h

bit-&& : (a b : Bool) → bit (a && b) ≡ bit a * bit b
bit-&& a b = ground arith

-- How many of the rectangles hold the point.
unfoldable pub hits : ℤ → ℤ → List Grect → ℕ
hits x y [] = 0
hits x y (r ∷ rs) = bit (point_in_rect x y (some r)) + hits x y rs

regroup : (a b c d : Bool) → bit (a && b && c && d) ≡ bit (a && c) * bit (b && d)
regroup a b c d = ground arith

-- A point lies in a rectangle when each coordinate lies in its span.
pub point_spans :
    (x y : ℤ) (r : Grect)
    → bit (point_in_rect x y (some r)) ≡ bit (in_span r.g_x r.g_w x) * bit (in_span r.g_y r.g_h y)
unfolding point_in_rect
point_spans x y r =
    regroup (leb_ℤ r.g_x x) (leb_ℤ r.g_y y) (ltb_ℤ x (r.g_x +ℤ r.g_w)) (ltb_ℤ y (r.g_y +ℤ r.g_h))

pub hits-append : (x y : ℤ) (rs ts : List Grect) → hits x y (rs ++ ts) ≡ hits x y rs + hits x y ts
unfolding hits
hits-append x y [] ts = omega arith
hits-append x y (r ∷ rs) ts = omega (arith, hits-append x y rs ts)

-- A strip that is cut off by a test on one axis.
strip_down :
    (x y : ℤ) (t : Bool) (r : Grect)
    → hits x y (when t r) ≡ bit (in_span r.g_x r.g_w x) * bit (t && in_span r.g_y r.g_h y)
unfolding hits
strip_down x y true r = omega (arith, point_spans x y r)
strip_down x y false r = omega arith

strip_across :
    (x y : ℤ) (t : Bool) (r : Grect)
    → hits x y (when t r) ≡ bit (t && in_span r.g_x r.g_w x) * bit (in_span r.g_y r.g_h y)
unfolding hits
strip_across x y true r = omega (arith, point_spans x y r)
strip_across x y false r = omega arith

grid :
    (bx ox ax sx by oy ay sy : ℕ)
    → bx + ox + ax ≡ sx
    → by + oy + ay ≡ sy
    → sx * by + (sx * ay + (bx * oy + ax * oy)) + ox * oy ≡ sx * sy
grid bx ox ax sx by oy ay sy h k = omega (arith, ap (λ (t : ℕ). t * oy) h, ap (λ (t : ℕ). sx * t) k)

-- The overlap lies inside the source on one axis.
abbrev Within : ℤ → ℤ → ℤ → ℤ → Type 0
Within s n o k = FitsSpan o k × (s ≤ℤ o) × (last o k ≤ℤ last s n)

-- The strips and the overlap cover every point of the source once, and no other point.
hits-fragments :
    (x y : ℤ) (s o : Grect)
    → FitsRect s
    → Within s.g_x s.g_w o.g_x o.g_w
    → Within s.g_y s.g_h o.g_y o.g_h
    → hits x y (fragments s o) + bit (point_in_rect x y (some o)) ≡ bit (point_in_rect x y (some s))
unfolding fragments
hits-fragments x y s o f a d = omega (
  arith,
  hits-append x y (when up (above_strip s o)) (when down (below_strip s o) ++ sides),
  hits-append x y (when down (below_strip s o)) sides,
  hits-append x y (when left (left_strip s o)) (when right (right_strip s o)),
  strip_down x y up (above_strip s o),
  strip_down x y down (below_strip s o),
  strip_across x y left (left_strip s o),
  strip_across x y right (right_strip s o),
  point_spans x y o,
  point_spans x y s,
  grid _ _ _ _ _ _ _ _ (split_span s.g_x s.g_w o.g_x o.g_w x f.across a.0 a.1 a.2)
      (split_span s.g_y s.g_h o.g_y o.g_h y f.down d.0 d.1 d.2),
)
  where
    up : Bool
    up = ltb_ℤ s.g_y o.g_y

    down : Bool
    down = ltb_ℤ (last o.g_y o.g_h) (last s.g_y s.g_h)

    left : Bool
    left = ltb_ℤ s.g_x o.g_x

    right : Bool
    right = ltb_ℤ (last o.g_x o.g_w) (last s.g_x s.g_w)

    sides : List Grect
    sides = when left (left_strip s o) ++ when right (right_strip s o)

span_not_empty : (s n : ℤ) → FitsSpan s n → leb_ℤ n (pos 0) ≡ false
span_not_empty s n f = ground (arith, f.not_empty)

pub is_empty-FitsRect : (r : Grect) → FitsRect r → is_empty r ≡ false
unfolding is_empty
is_empty-FitsRect r f =
    ap₂ ◌||◌ (span_not_empty r.g_x r.g_w f.across) (span_not_empty r.g_y r.g_h f.down)

-- Two spans of which one ends before the other begins share no point.
apart : (s n c m p : ℤ) → FitsSpan s n → last s n <ℤ c → (in_span s n p && in_span c m p) ≡ false
apart s n c m p f h =
    ground (arith, last_parts s n f, +ℤ_parts s n, -ℤ_parts (s +ℤ n) (pos 1), +ℤ_parts c m)

apart' : (s n c m p : ℤ) → FitsSpan c m → last c m <ℤ s → (in_span s n p && in_span c m p) ≡ false
apart' s n c m p f h =
    ground (arith, last_parts c m f, +ℤ_parts s n, -ℤ_parts (c +ℤ m) (pos 1), +ℤ_parts c m)

four_tests :
    (a b c d : Bool)
    → ((not (a || b || c || d) ≡ true) × (a ≡ false) × (b ≡ false) × (c ≡ false) × (d ≡ false))
      ⊎ ((not (a || b || c || d) ≡ false) × ((a ≡ true) ⊎ ((b ≡ true) ⊎ ((c ≡ true) ⊎ (d ≡ true)))))
four_tests true b c d = inr (refl, inl refl)
four_tests false true c d = inr (refl, inr (inl refl))
four_tests false false true d = inr (refl, inr (inr (inl refl)))
four_tests false false false true = inr (refl, inr (inr (inr refl)))
four_tests false false false false = inl (refl, refl, refl, refl, refl)

-- The point lies in the rectangle.
abbrev pub holds : ℤ → ℤ → Grect → Bool
holds x y r = point_in_rect x y (some r)

swap_tests :
    (a b c d e f g h : Bool)
    → ((a && b && c && d) && (e && f && g && h))
      ≡ (((a && c) && (e && g)) && ((b && d) && (f && h)))
swap_tests a b c d e f g h = ground arith

-- The points of both rectangles, axis by axis.
pub holds_both :
    (x y : ℤ) (s c : Grect)
    → (holds x y s && holds x y c) ≡ (
        (in_span s.g_x s.g_w x && in_span c.g_x c.g_w x)
        && (in_span s.g_y s.g_h y && in_span c.g_y c.g_h y))
unfolding point_in_rect
holds_both x y s c =
    swap_tests (leb_ℤ s.g_x x) (leb_ℤ s.g_y y) (ltb_ℤ x (s.g_x +ℤ s.g_w)) (ltb_ℤ y (s.g_y +ℤ s.g_h))
      (leb_ℤ c.g_x x) (leb_ℤ c.g_y y) (ltb_ℤ x (c.g_x +ℤ c.g_w)) (ltb_ℤ y (c.g_y +ℤ c.g_h))

&&-false_right : (a b : Bool) → b ≡ false → (a && b) ≡ false
&&-false_right a b h = ground arith

&&-false_left : (a b : Bool) → a ≡ false → (a && b) ≡ false
&&-false_left a b h = ground arith

abbrev Apart : Grect → Grect → Type 0
Apart s c = (x y : ℤ) → (holds x y s && holds x y c) ≡ false

module _ (s c : Grect) (f : FitsRect s) (g : FitsRect c) where
  x-Apart : ((p : ℤ) → (in_span s.g_x s.g_w p && in_span c.g_x c.g_w p) ≡ false) → Apart s c
  x-Apart h x y = holds_both x y s c ∙ &&-false_left _ _ (h x)

  y-Apart : ((p : ℤ) → (in_span s.g_y s.g_h p && in_span c.g_y c.g_h p) ≡ false) → Apart s c
  y-Apart h x y = holds_both x y s c ∙ &&-false_right _ _ (h y)

  tests-eq :
      rects_intersect (some s) (some c)
      ≡ not (
          ltb_ℤ (last s.g_x s.g_w) c.g_x
          || ltb_ℤ (last c.g_x c.g_w) s.g_x
          || ltb_ℤ (last s.g_y s.g_h) c.g_y
          || ltb_ℤ (last c.g_y c.g_h) s.g_y)
  unfolding rects_intersect
  tests-eq = rw (is_empty-FitsRect s f, is_empty-FitsRect c g)

  -- `aes_rects_intersect` answers exactly whether the rectangles share a point.
  pub rects_intersect_cases :
      ((rects_intersect (some s) (some c) ≡ true)
        × Meets s.g_x s.g_w c.g_x c.g_w
        × Meets s.g_y s.g_h c.g_y c.g_h)
      ⊎ ((rects_intersect (some s) (some c) ≡ false) × Apart s c)
  rects_intersect_cases =
      elim (four_tests (ltb_ℤ (last s.g_x s.g_w) c.g_x) (ltb_ℤ (last c.g_x c.g_w) s.g_x)
        (ltb_ℤ (last s.g_y s.g_h) c.g_y) (ltb_ℤ (last c.g_y c.g_h) s.g_y)) [
          | inl (e, a, b, c', d) ↦ inl (
            tests-eq ∙ e,
            record {
              left = le_of_test (last c.g_x c.g_w) s.g_x b;
              right = le_of_test (last s.g_x s.g_w) c.g_x a;
            },
            record {
              left = le_of_test (last c.g_y c.g_h) s.g_y d;
              right = le_of_test (last s.g_y s.g_h) c.g_y c';
            },
          )
          | inr (e, inl t) ↦
              let l = lt_of_test (last s.g_x s.g_w) c.g_x t in
              inr (tests-eq ∙ e, x-Apart (λ p. apart s.g_x s.g_w c.g_x c.g_w p f.across l))
          | inr (e, inr (inl t)) ↦
              let l = lt_of_test (last c.g_x c.g_w) s.g_x t in
              inr (tests-eq ∙ e, x-Apart (λ p. apart' s.g_x s.g_w c.g_x c.g_w p g.across l))
          | inr (e, inr (inr (inl t))) ↦
              let l = lt_of_test (last s.g_y s.g_h) c.g_y t in
              inr (tests-eq ∙ e, y-Apart (λ p. apart s.g_y s.g_h c.g_y c.g_h p f.down l))
          | inr (e, inr (inr (inr t))) ↦
              let l = lt_of_test (last c.g_y c.g_h) s.g_y t in
              inr (tests-eq ∙ e, y-Apart (λ p. apart' s.g_y s.g_h c.g_y c.g_h p g.down l))
        ]

  module _ (across : Meets s.g_x s.g_w c.g_x c.g_w) (down : Meets s.g_y s.g_h c.g_y c.g_h) where
    pub common_x : IsCommon s.g_x s.g_w c.g_x c.g_w (common s c).g_x (common s c).g_w
    unfolding common
    common_x = common_lem _ _ _ _ f.across g.across across

    pub common_y : IsCommon s.g_y s.g_h c.g_y c.g_h (common s c).g_y (common s c).g_h
    unfolding common
    common_y = common_lem _ _ _ _ f.down g.down down

    pub common-FitsRect : FitsRect (common s c)
    common-FitsRect = record { across = common_x.fits; down = common_y.fits }

    pub holds-common : (x y : ℤ) → bit (holds x y (common s c)) ≡ bit (holds x y s && holds x y c)
    holds-common x y =
        point_spans x y (common s c)
        ∙ rw (common_x.points x, common_y.points y, holds_both x y s c) (sym (bit-&& _ _))

    common-fragments :
        (x y : ℤ)
        → hits x y (fragments s (common s c)) + bit (holds x y (common s c)) ≡ bit (holds x y s)
    common-fragments x y =
        hits-fragments x y s (common s c) f (common_x.fits, common_x.from, common_x.upto)
          (common_y.fits, common_y.from, common_y.upto)

bit_rest : (n : ℕ) (a b : Bool) → n + bit (a && b) ≡ bit a → n ≡ bit (a && not b)
bit_rest n a b h = ground arith

bit_apart : (a b : Bool) → (a && b) ≡ false → bit a + 0 ≡ bit (a && not b)
bit_apart a b h = ground arith

-- For a source and a cover that are not empty and in the range of a WORD: every point of the source
-- that the cover does not hold lies in exactly one fragment of `aes_subtract_rect`, and no other
-- point lies in any.
pub subtract-exact :
    (x y : ℤ) (s c : Grect)
    → FitsRect s
    → FitsRect c
    → hits x y (subtract_rect (some s) (some c)) ≡ bit (holds x y s && not (holds x y c))
unfolding subtract_rect intersect_rects
subtract-exact x y s c f g = elim (rects_intersect_cases s c f g) [
  | inl (e, a, d) ↦
      rw (is_empty-FitsRect s f, is_empty-FitsRect c g, e)
        (bit_rest _ (holds x y s) (holds x y c)
          (omega (arith, common-fragments s c f g a d x y, holds-common s c f g a d x y)))
  | inr (e, apart) ↦
      rw (is_empty-FitsRect s f, is_empty-FitsRect c g, e)
        (unfold hits in bit_apart (holds x y s) (holds x y c) (apart x y))
]

bit-injective : (a b : Bool) → bit a ≡ bit b → a ≡ b
bit-injective a b h = ground arith

-- For two rectangles that are not empty and in the range of a WORD: a point lies in the result of
-- `aes_intersect_rects`, which is no rectangle where the function fails, exactly when it lies in both.
pub intersect-exact :
    (x y : ℤ) (s c : Grect)
    → FitsRect s
    → FitsRect c
    → point_in_rect x y (intersect_rects (some s) (some c)) ≡ (holds x y s && holds x y c)
unfolding intersect_rects
intersect-exact x y s c f g = elim (rects_intersect_cases s c f g) [
  | inl (e, a, d) ↦ rw e (bit-injective _ _ (holds-common s c f g a d x y))
  | inr (e, apart) ↦ rw e (unfold point_in_rect in sym (apart x y))
]
