-- ===== src/Wind/Calc.antt =====
-- `wind_calc` and the field WF_CXYWH (src/aes/window.c) against `aes_compute_work`
-- (src/aes/window_geometry.c).
use gem.Base.{ℕ, ◌+◌, ◌≡◌, ◌∙◌, refl, ap, true, false, arith}
use gem.Base.Int.{
  ℤ, pos, negsuc, pos_part, neg_part, ◌+ℤ◌, ◌-ℤ◌, ◌≤ℤ◌, ◌<ℤ◌, to_word, to_word-id, IsWord, int_laws,
  ltb_ℤ, eq_of_parts,
}
use gem.Rect.{Grect, set_rect}
use gem.Window.{Window}
use gem.Chrome.{
  left_border, right_border, bottom_border, title_height, work_rect, floor_zero, compute_work,
  has_title, has_compact_sizer, has_vscroll, scroll_span, has_hscroll,
}
use gem.Chrome.Inside.{
  IsFont, Small, left_border-Small, right_border-Small, title_height-Small, bottom_border-Small,
}
use gem.Wind.{
  zero_window, calc_window, Borders, borders_of, grown, shrunk, wind_calc, wc_border, wc_work,
}

-- A position and a size far from the ends of a WORD.
unfoldable pub IsNear : ℤ → ℤ → Type 0
IsNear start size =
    (negsuc 13999 ≤ℤ start) × (start ≤ℤ pos 14000) × (pos 0 ≤ℤ size) × (size ≤ℤ pos 14000)

word_of : (e b : ℤ) → pos_part e + neg_part b ≡ pos_part b + neg_part e → IsWord b → to_word e ≡ b
word_of e b same word = ap to_word (eq_of_parts e b same) ∙ to_word-id b word

lt_true : (a b : ℤ) → a <ℤ b → ltb_ℤ a b ≡ true
lt_true a b h = ground arith

lt_false : (a b : ℤ) → b ≤ℤ a → ltb_ℤ a b ≡ false
lt_false a b h = ground arith

module _ (start size before after : ℤ) (near : IsNear start size) (b : Small before)
    (a : Small after) where
  first_of_span : to_word (to_word (start +ℤ before) -ℤ start) ≡ before
  unfolding IsNear Small
  first_of_span =
      rw (to_word-id (start +ℤ before) (omega int_laws))
        (word_of (start +ℤ before -ℤ start) before (omega int_laws) (omega arith))

  last_of_span :
      before +ℤ after ≤ℤ size
      → to_word (
          start
          +ℤ size
          -ℤ (to_word (start +ℤ before) +ℤ floor_zero (to_word (size -ℤ before -ℤ after))))
        ≡ after
  unfolding IsNear Small
  last_of_span room = rw (to_word-id (start +ℤ before) (omega int_laws)) (
      rw (to_word-id (size -ℤ before -ℤ after) (omega int_laws)) (
        rw (lt_false (size -ℤ before -ℤ after) (pos 0) (omega int_laws)) (
          word_of (start +ℤ size -ℤ (start +ℤ before +ℤ (size -ℤ before -ℤ after))) after
            (omega int_laws) (omega arith))))

  last_of_small :
      size <ℤ before +ℤ after
      → to_word (
          start
          +ℤ size
          -ℤ (to_word (start +ℤ before) +ℤ floor_zero (to_word (size -ℤ before -ℤ after))))
        ≡ size -ℤ before
  unfolding IsNear Small
  last_of_small small = rw (to_word-id (start +ℤ before) (omega int_laws)) (
      rw (to_word-id (size -ℤ before -ℤ after) (omega int_laws)) (
        rw (lt_true (size -ℤ before -ℤ after) (pos 0) (omega int_laws)) (
          word_of (start +ℤ size -ℤ (start +ℤ before +ℤ pos 0)) (size -ℤ before) (omega int_laws)
            (omega int_laws))))

  -- The outer span of a work span, and the work span of an outer one.
  grow_shrink :
      (to_word (to_word (start -ℤ before) +ℤ before) ≡ start)
      × (to_word (to_word (size +ℤ before +ℤ after) -ℤ before -ℤ after) ≡ size)
  unfolding IsNear Small
  grow_shrink =
      let from = to_word-id (start -ℤ before) (omega int_laws) in
      let wide = to_word-id (size +ℤ before +ℤ after) (omega int_laws) in
      (
        rw from (word_of (start -ℤ before +ℤ before) start (omega int_laws) (omega arith)),
        rw wide (
            word_of (size +ℤ before +ℤ after -ℤ before -ℤ after) size (omega int_laws)
              (omega arith)),
      )

-- The sizes of the frame of a window of this kind.
abbrev pub framed : ℕ → Window
framed kind = record zero_window { kind = kind }

abbrev pub frame : ℤ → ℕ → Borders
frame t kind = record {
  left = left_border (framed kind);
  title = title_height t (framed kind);
  right = right_border t (framed kind);
  bottom = bottom_border t (framed kind);
}

-- The frame of the kind fits around the sizes.
abbrev pub HasRoom : ℤ → ℕ → Grect → Type 0
HasRoom t kind r =
    ((frame t kind).left +ℤ (frame t kind).right ≤ℤ r.g_w)
    × ((frame t kind).title +ℤ (frame t kind).bottom ≤ℤ r.g_h)

-- What `aes_compute_work` makes of an outer rectangle, by the sizes of the frame.
abbrev pub inner : Borders → Grect → Grect
inner b r =
    set_rect (to_word (r.g_x +ℤ b.left)) (to_word (r.g_y +ℤ b.title))
      (floor_zero (to_word (r.g_w -ℤ b.left -ℤ b.right)))
      (floor_zero (to_word (r.g_h -ℤ b.title -ℤ b.bottom)))

-- The frame rests on the kind alone.
work_rect-inner : (t : ℤ) (w : Window) → work_rect t w ≡ inner (frame t w.kind) w.outer
unfolding work_rect left_border right_border title_height bottom_border has_title has_compact_sizer
    has_vscroll scroll_span has_hscroll
work_rect-inner t w = refl

module _ (t : ℤ) (kind : ℕ) (font : IsFont t) where
  calc_window-work : (r : Grect) → (calc_window kind r t).work ≡ inner (frame t kind) r
  unfolding calc_window compute_work
  calc_window-work r = work_rect-inner t (record (framed kind) { outer = r })

  calc_window-outer : (r : Grect) → (calc_window kind r t).outer ≡ r
  unfolding calc_window compute_work
  calc_window-outer r = refl

  left-Small : Small (frame t kind).left
  left-Small = left_border-Small (framed kind)

  right-Small : Small (frame t kind).right
  right-Small = right_border-Small t (framed kind) font

  title-Small : Small (frame t kind).title
  title-Small = title_height-Small t (framed kind) font

  bottom-Small : Small (frame t kind).bottom
  bottom-Small = bottom_border-Small t (framed kind) font

  module _ (r : Grect) (nx : IsNear r.g_x r.g_w) (ny : IsNear r.g_y r.g_h) where
    -- The borders that `wind_calc` computes, where the frame fits.
    borders-frame : HasRoom t kind r → borders_of (calc_window kind r t) ≡ frame t kind
    unfolding borders_of
    borders-frame room =
        rw (calc_window-work r, calc_window-outer r)
          (rw
            (
              first_of_span r.g_x r.g_w _ _ nx left-Small right-Small,
              first_of_span r.g_y r.g_h _ _ ny title-Small bottom-Small,
              last_of_span r.g_x r.g_w _ _ nx left-Small right-Small room.0,
              last_of_span r.g_y r.g_h _ _ ny title-Small bottom-Small room.1,
            )
            refl)

    pub inner-grown : HasRoom t kind r → inner (frame t kind) (grown (frame t kind) r) ≡ r
    unfolding Small IsNear
    inner-grown room =
        let across = grow_shrink r.g_x r.g_w _ _ nx left-Small right-Small in
        let down = grow_shrink r.g_y r.g_h _ _ ny title-Small bottom-Small in
        rw (across.0, across.1, down.0, down.1)
          (rw
            (lt_false r.g_w (pos 0) (omega (arith, nx)), lt_false r.g_h (pos 0) (omega (arith, ny)))
            refl)

    shrunk-grown : shrunk (frame t kind) (grown (frame t kind) r) ≡ r
    shrunk-grown =
        let across = grow_shrink r.g_x r.g_w _ _ nx left-Small right-Small in
        let down = grow_shrink r.g_y r.g_h _ _ ny title-Small bottom-Small in
        rw (across.0, across.1, down.0, down.1) refl

abbrev pub IsCloseSpan : ℤ → ℤ → Type 0
IsCloseSpan start size =
    (negsuc 9999 ≤ℤ start) × (start ≤ℤ pos 10000) × (pos 0 ≤ℤ size) × (size ≤ℤ pos 10000)

-- A rectangle whose numbers are at most 10000, and its sizes not negative.
abbrev pub IsClose : Grect → Type 0
IsClose r = IsCloseSpan r.g_x r.g_w × IsCloseSpan r.g_y r.g_h

pub close_span : (start size : ℤ) → IsCloseSpan start size → IsNear start size
unfolding IsNear
close_span start size h = omega arith

module _ (start size before after : ℤ) (b : Small before) (a : Small after) where
  grown_span :
      IsCloseSpan start size
      → IsNear (to_word (start -ℤ before)) (to_word (size +ℤ before +ℤ after))
        × (before +ℤ after ≤ℤ to_word (size +ℤ before +ℤ after))
  unfolding IsNear Small
  grown_span h =
      rw (to_word-id (start -ℤ before) (omega int_laws))
        (rw (to_word-id (size +ℤ before +ℤ after) (omega int_laws)) (omega int_laws))

module _ (t : ℤ) (kind : ℕ) (r : Grect) (font : IsFont t) (close : IsClose r) where
  pub calc_border : HasRoom t kind r → wind_calc t wc_border kind r ≡ grown (frame t kind) r
  unfolding wind_calc
  calc_border room =
      ap (λ b. grown b r)
        (borders-frame t kind font r (close_span r.g_x r.g_w close.0)
          (close_span r.g_y r.g_h close.1) room)

  calc_work : wind_calc t wc_work kind (grown (frame t kind) r) ≡ r
  unfolding wind_calc
  calc_work =
      let across =
        grown_span r.g_x r.g_w _ _ (left-Small t kind font) (right-Small t kind font) close.0 in
      let down =
        grown_span r.g_y r.g_h _ _ (title-Small t kind font) (bottom-Small t kind font) close.1 in
      ap (λ b. shrunk b (grown (frame t kind) r))
        (borders-frame t kind font (grown (frame t kind) r) across.0 down.0 (across.1, down.1))
      ∙ shrunk-grown t kind font r (close_span r.g_x r.g_w close.0) (close_span r.g_y r.g_h close.1)

-- For a font at most 1000 pixels high and a work area whose position and sizes are at most 10000 and
-- whose sizes are at least those of the frame of its kind, `wind_calc` with WC_WORK gives back the work
-- area whose outer rectangle it computed with WC_BORDER.
pub wind_calc-inverse :
    (t : ℤ) (kind : ℕ) (r : Grect)
    → IsFont t
    → IsClose r
    → HasRoom t kind r
    → wind_calc t wc_work kind (wind_calc t wc_border kind r) ≡ r
wind_calc-inverse t kind r font close room =
    ap (wind_calc t wc_work kind) (calc_border t kind r font close room)
    ∙ calc_work t kind r font close

-- For a font at most 1000 pixels high and a work area whose position and sizes are at most 10000 but
-- which is narrower than the frame of its kind, `wind_calc` with WC_BORDER answers twice the width of
-- the work area, not this width and the frame's.
pub wind_calc-narrow :
    (t : ℤ) (kind : ℕ) (r : Grect)
    → IsFont t
    → IsClose r
    → r.g_w <ℤ (frame t kind).left +ℤ (frame t kind).right
    → (wind_calc t wc_border kind r).g_w ≡ r.g_w +ℤ r.g_w
unfolding wind_calc borders_of Small
wind_calc-narrow t kind r font close narrow =
    let near = close_span r.g_x r.g_w close.0 in
    let l = left-Small t kind font in
    let a = right-Small t kind font in
    rw (calc_window-work t kind font r, calc_window-outer t kind font r)
      (rw (first_of_span r.g_x r.g_w _ _ near l a, last_of_small r.g_x r.g_w _ _ near l a narrow)
        (word_of (r.g_w +ℤ (frame t kind).left +ℤ (r.g_w -ℤ (frame t kind).left)) (r.g_w +ℤ r.g_w)
          (omega int_laws) (omega int_laws)))
