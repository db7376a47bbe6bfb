-- ===== src/Rect/Fragments.antt =====
-- The rectangles that aes_subtract_rect (src/aes/aes_geometry.c) writes: how many, and their shape.
use gem.Base.{
  ◌≤◌, ◌≡◌, inl, inr, Bool, true, false, List, [], ◌∷◌, ◌++◌, some, arith, length, length-append,
  All,
}
use gem.Base.Int.{ℤ, pos, ◌+ℤ◌, ◌-ℤ◌, ◌≤ℤ◌, ◌<ℤ◌, ltb_ℤ, to_word, to_word-id, int_laws}
use gem.Rect.{
  Grect, last, common, intersect_rects, when, above_strip, below_strip, left_strip, right_strip,
  fragments, subtract_around, subtract_rect,
}
use gem.Rect.Span.{FitsSpan, last_parts, lt_of_test}
use gem.Rect.Subtract.{FitsRect, rects_intersect_cases, is_empty-FitsRect, common_x, common_y}

before-FitsSpan :
    (s n o : ℤ) → FitsSpan s n → o ≤ℤ last s n → s <ℤ o → FitsSpan s (to_word (o -ℤ s))
before-FitsSpan s n o f a h =
    rw (to_word-id (o -ℤ s) (omega (int_laws, last_parts s n f)))
      (omega (int_laws, last_parts s n f))

after-FitsSpan :
    (s n e : ℤ)
    → FitsSpan s n
    → s ≤ℤ e
    → e <ℤ last s n
    → FitsSpan (to_word (e +ℤ pos 1)) (to_word (last s n -ℤ e))
after-FitsSpan s n e f a h =
    rw
      (
        to_word-id (e +ℤ pos 1) (omega (int_laws, last_parts s n f)),
        to_word-id (last s n -ℤ e) (omega (int_laws, last_parts s n f)),
      )
      (omega (int_laws, last_parts s n f))

module _ {ℓ κ} {T : Type ℓ} (Good : T → Type κ) where
  pub All-append : (front back : List T) → All Good front → All Good back → All Good (front ++ back)
  All-append [] back goods rest = rest
  All-append (t ∷ front) back goods rest = (goods.0, All-append front back goods.1 rest)

when-All : (t : Bool) (r : Grect) → (t ≡ true → FitsRect r) → All FitsRect (when t r)
when-All true r h = (h (λ i. true), tt)
when-All false r h = tt

length-when : (t : Bool) (r : Grect) → length (when t r) ≤ 1
length-when true r = omega arith
length-when false r = omega arith

module _ (t u v w : Bool) (a b c d : Grect) where
  four_strips : List Grect
  four_strips = when t a ++ (when u b ++ (when v c ++ when w d))

  length-four_strips : length four_strips ≤ 4
  unfolding four_strips
  length-four_strips = omega (
    arith,
    length-append (when t a) (when u b ++ (when v c ++ when w d)),
    length-append (when u b) (when v c ++ when w d),
    length-append (when v c) (when w d),
    length-when t a,
    length-when u b,
    length-when v c,
    length-when w d,
  )

  four_strips-All :
      (t ≡ true → FitsRect a)
      → (u ≡ true → FitsRect b)
      → (v ≡ true → FitsRect c)
      → (w ≡ true → FitsRect d)
      → All FitsRect four_strips
  unfolding four_strips
  four_strips-All ha hb hc hd = All-append FitsRect (when t a) _ (when-All t a ha) (
      All-append FitsRect (when u b) _ (when-All u b hb)
        (All-append FitsRect (when v c) _ (when-All v c hc) (when-All w d hd)))

length-fragments : (s o : Grect) → length (fragments s o) ≤ 4
unfolding fragments four_strips
length-fragments s o =
    length-four_strips (ltb_ℤ s.g_y o.g_y) (ltb_ℤ (last o.g_y o.g_h) (last s.g_y s.g_h))
      (ltb_ℤ s.g_x o.g_x) (ltb_ℤ (last o.g_x o.g_w) (last s.g_x s.g_w)) (above_strip s o)
      (below_strip s o) (left_strip s o) (right_strip s o)

module _ (s o : Grect) (f : FitsRect s) (g : FitsRect o) where
  module _ (ax : s.g_x ≤ℤ o.g_x) (bx : last o.g_x o.g_w ≤ℤ last s.g_x s.g_w) (ay : s.g_y ≤ℤ o.g_y)
      (by : last o.g_y o.g_h ≤ℤ last s.g_y s.g_h) where
    low_x : (o.g_x ≤ℤ last s.g_x s.g_w) × (s.g_x ≤ℤ last o.g_x o.g_w)
    low_x = omega (int_laws, last_parts o.g_x o.g_w g.across)

    low_y : (o.g_y ≤ℤ last s.g_y s.g_h) × (s.g_y ≤ℤ last o.g_y o.g_h)
    low_y = omega (int_laws, last_parts o.g_y o.g_h g.down)

    fragments-FitsRect : All FitsRect (fragments s o)
    unfolding fragments four_strips
    fragments-FitsRect =
        four_strips-All (ltb_ℤ s.g_y o.g_y) (ltb_ℤ (last o.g_y o.g_h) (last s.g_y s.g_h))
          (ltb_ℤ s.g_x o.g_x) (ltb_ℤ (last o.g_x o.g_w) (last s.g_x s.g_w)) _ _ _ _
          (λ t. record {
            across = f.across;
            down = before-FitsSpan _ _ o.g_y f.down low_y.0 (lt_of_test s.g_y o.g_y t);
          })
          (λ t. record {
            across = f.across;
            down = after-FitsSpan _ _ _ f.down low_y.1 (lt_of_test _ (last s.g_y s.g_h) t);
          })
          (λ t. record {
            across = before-FitsSpan _ _ o.g_x f.across low_x.0 (lt_of_test s.g_x o.g_x t);
            down = g.down;
          })
          (λ t. record {
            across = after-FitsSpan _ _ _ f.across low_x.1 (lt_of_test _ (last s.g_x s.g_w) t);
            down = g.down;
          })

-- For a source and a cover that are not empty and in the range of a WORD, `aes_subtract_rect` writes
-- at most four rectangles, none of them empty or out of that range.
pub subtract_shape :
    (s c : Grect)
    → FitsRect s
    → FitsRect c
    → All FitsRect (subtract_rect (some s) (some c))
      × (length (subtract_rect (some s) (some c)) ≤ 4)
unfolding subtract_rect intersect_rects subtract_around
subtract_shape s c f g = elim (rects_intersect_cases s c f g) [
  | inl (e, a, d) ↦
      let x = common_x s c f g a d in
      let y = common_y s c f g a d in
      rw (is_empty-FitsRect s f, is_empty-FitsRect c g, e)
        (
          fragments-FitsRect s (common s c) f (record { across = x.fits; down = y.fits }) x.from
              x.upto y.from y.upto,
          length-fragments s (common s c),
        )
  | inr (e, apart) ↦ rw (is_empty-FitsRect s f, is_empty-FitsRect c g, e) ((f, tt), omega arith)
]
