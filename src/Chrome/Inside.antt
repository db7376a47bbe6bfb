-- ===== src/Chrome/Inside.antt =====
-- Where the parts of src/aes/window_geometry.c lie: the work area in the window, the thumb in its slot.
use gem.Base.{Bool-cases}
use gem.Base.{ℕ, ◌*◌, ◌/◌, ◌≤◌, ◌≡◌, refl, Bool, true, false, arith, some}
use gem.Base.Int.{
  ℤ, pos, negsuc, pos_part, neg_part, +ℤ_parts, -ℤ_parts, ◌+ℤ◌, ◌-ℤ◌, ◌≤ℤ◌, ◌<ℤ◌, to_word,
  to_word-id, IsWord, int_laws, ltb_ℤ,
}
use gem.Rect.{Grect, point_in_rect, min_word, max_word}
use native.Mathlib.Nat.{mul-le-mul_left}
use mathlib.Core.Logic.{inl, inr}
use mathlib.Core.Path.{subst}
use mathlib.Core.Option.{some-injective}
use gem.Rect.Span.{FitsSpan}
use gem.Window.{Window}
use gem.Chrome.{
  left_border, right_border, bottom_border, title_height, scroll_span, work_rect,
  menu_chrome_height, floor_zero, compute_work, bit_at, v_slide, h_slide,
}
use gem.Chrome.Parts.{
  clamp, per_mille, thumb_size, thumb_start, vthumb_of, hthumb_of, vthumb_rect, hthumb_rect,
  vslot_rect, hslot_rect,
}

clamp_bound : (v : ℤ) → (pos_part (clamp v) ≤ 1000) × (neg_part (clamp v) ≡ 0)
unfolding clamp min_word max_word
clamp_bound v = ground arith

scaled_le : (n k : ℕ) → k ≤ 1000 → n * k / 1000 ≤ n
scaled_le n k h = let p : n * k ≤ n * 1000 = mul-le-mul_left n h in omega arith

-- A share of a size that is not negative is between zero and the size.
per_mille_bound :
    (size k : ℤ)
    → pos 0 ≤ℤ size
    → pos_part k ≤ 1000
    → (pos 0 ≤ℤ per_mille size k) × (per_mille size k ≤ℤ size)
unfolding per_mille
per_mille_bound (pos n) k ge le = let s = scaled_le n (pos_part k) le in ground arith
per_mille_bound (negsuc n) k ge le = absurd (omega arith)

thumb_size_bound :
    (span breadth slsize : ℤ)
    → IsWord span
    → pos 0 ≤ℤ span
    → pos 0 ≤ℤ breadth
    → (pos 0 ≤ℤ thumb_size span breadth slsize)
      × (min_word breadth span ≤ℤ thumb_size span breadth slsize)
      × (thumb_size span breadth slsize ≤ℤ span)
unfolding thumb_size min_word max_word
thumb_size_bound span breadth slsize word ge wide =
    let c = clamp_bound slsize in
    let b = per_mille_bound span (clamp slsize) ge c.0 in
    rw (to_word-id (per_mille span (clamp slsize)) (omega arith)) (ground arith)

thumb_start_bound :
    (start span size slide : ℤ)
    → IsWord start
    → IsWord (start +ℤ span)
    → pos 0 ≤ℤ size
    → size ≤ℤ span
    → (start ≤ℤ thumb_start start span size slide)
      × (thumb_start start span size slide +ℤ size ≤ℤ start +ℤ span)
unfolding thumb_start
thumb_start_bound start span size slide word end ge le = elim (Bool-cases (ltb_ℤ size span)) [
  | inl e ↦ rw e (
      let c = clamp_bound slide in
      let b = per_mille_bound (span -ℤ size) (clamp slide) (omega int_laws) c.0 in
      rw (to_word-id (start +ℤ per_mille (span -ℤ size) (clamp slide)) (omega int_laws))
        (omega int_laws))
  | inr e ↦ rw e (omega int_laws)
]

span_inside :
    (start size before after x : ℤ)
    → FitsSpan start size
    → pos 0 ≤ℤ before
    → before ≤ℤ pos 2000
    → pos 0 ≤ℤ after
    → after ≤ℤ pos 2000
    → to_word (start +ℤ before) ≤ℤ x
    → x <ℤ to_word (start +ℤ before) +ℤ floor_zero (to_word (size -ℤ before -ℤ after))
    → (start ≤ℤ x) × (x <ℤ start +ℤ size)
span_inside start size before after x f b b' a a' low high =
    let cast = to_word-id (size -ℤ before -ℤ after) (omega int_laws) in
    let high' = rw cast at high in
    elim (Bool-cases (ltb_ℤ (size -ℤ before -ℤ after) (pos 0))) [
      | inl e ↦ let none_left = rw e at high' in absurd (omega int_laws)
      | inr e ↦
          let upto = rw e at high' in
          let same = to_word-id (start +ℤ before) (omega int_laws) in
          let from = rw same at low in let below = rw same at upto in omega int_laws
    ]

-- A height of the font that the code meets.
unfoldable pub IsFont : ℤ → Type 0
IsFont text_height = (pos 0 ≤ℤ text_height) × (text_height ≤ℤ pos 1000)

unfoldable pub Small : ℤ → Type 0
Small n = (pos 0 ≤ℤ n) × (n ≤ℤ pos 2000)

pub title_height-Small : (t : ℤ) (w : Window) → IsFont t → Small (title_height t w)
unfolding IsFont Small title_height menu_chrome_height
title_height-Small t w h =
    let sum = +ℤ_parts t (pos 6) in rw (to_word-id (t +ℤ pos 6) (omega int_laws)) (ground arith)

scroll_span-Small : (t : ℤ) (w : Window) → IsFont t → Small (scroll_span t w)
unfolding Small scroll_span max_word
scroll_span-Small t w h =
    let s = title_height-Small t w h in
    let less = -ℤ_parts (title_height t w) (pos 1) in
    rw (to_word-id (title_height t w -ℤ pos 1) (omega int_laws)) (ground arith)

pub left_border-Small : (w : Window) → Small (left_border w)
unfolding Small left_border
left_border-Small w = ground arith

pub right_border-Small : (t : ℤ) (w : Window) → IsFont t → Small (right_border t w)
unfolding Small right_border
right_border-Small t w h =
    let s = scroll_span-Small t w h in let l = left_border-Small w in ground arith

pub bottom_border-Small : (t : ℤ) (w : Window) → IsFont t → Small (bottom_border t w)
unfolding Small bottom_border
bottom_border-Small t w h = let s = scroll_span-Small t w h in ground arith

InBox : ℤ → ℤ → Grect → Type 0
InBox x y r = (r.g_x ≤ℤ x) × (x <ℤ r.g_x +ℤ r.g_w) × (r.g_y ≤ℤ y) × (y <ℤ r.g_y +ℤ r.g_h)

in_box : (x y : ℤ) (r : Grect) → point_in_rect x y (some r) ≡ true → InBox x y r
unfolding InBox point_in_rect
in_box x y r h = ground arith

box_in : (x y : ℤ) (r : Grect) → InBox x y r → point_in_rect x y (some r) ≡ true
unfolding InBox point_in_rect
box_in x y r h = ground arith

-- For a font at most 1000 pixels high and a window whose outer rectangle is not empty and ends
-- within the words, each point of the work area that `aes_compute_work` stores is a point of the
-- outer rectangle, also where the frame leaves no room for a work area.
pub compute_work-inside :
    (text_height x y : ℤ) (w : Window)
    → IsFont text_height
    → FitsSpan w.outer.g_x w.outer.g_w
    → FitsSpan w.outer.g_y w.outer.g_h
    → point_in_rect x y (some (compute_work text_height w).work) ≡ true
    → point_in_rect x y (some w.outer) ≡ true
unfolding compute_work work_rect InBox Small
compute_work-inside t x y w font fx fy h =
    let box = in_box x y (compute_work t w).work h in
    let wide = left_border-Small w in
    let wide' = right_border-Small t w font in
    let high = title_height-Small t w font in
    let high' = bottom_border-Small t w font in
    let across =
      span_inside w.outer.g_x w.outer.g_w (left_border w) (right_border t w) x fx wide.0 wide.1
        wide'.0 wide'.1 box.0 box.1 in
    let down =
      span_inside w.outer.g_y w.outer.g_h (title_height t w) (bottom_border t w) y fy high.0 high.1
        high'.0 high'.1 box.2 box.3 in
    box_in x y w.outer (across.0, across.1, down.0, down.1)

-- A slot that has a breadth and a length, with its ends among the words.
abbrev pub IsSlot : ℤ → ℤ → ℤ → Type 0
IsSlot start span breadth =
    IsWord start × IsWord span × IsWord (start +ℤ span) × (pos 0 ≤ℤ span) × (pos 0 ≤ℤ breadth)

-- The thumb is in the slot, as broad as it, and at least as long as the shorter side of the slot.
pub InSlot : ℤ → ℤ → ℤ → ℤ → ℤ → Type 0
InSlot start span breadth thumb size =
    (start ≤ℤ thumb) × (thumb +ℤ size ≤ℤ start +ℤ span) × (min_word breadth span ≤ℤ size)

thumb_InSlot :
    (start span breadth slsize slide : ℤ)
    → IsSlot start span breadth
    → InSlot start span breadth
        (thumb_start start span (thumb_size span breadth slsize) slide)
        (thumb_size span breadth slsize)
unfolding InSlot
thumb_InSlot start span breadth slsize slide h =
    let size = thumb_size_bound span breadth slsize h.1 h.3 h.4 in
    let begin =
      thumb_start_bound start span (thumb_size span breadth slsize) slide h.0 h.2 size.0 size.2 in
    (begin.0, begin.1, size.1)

vthumb_of-InSlot :
    (shown : Bool) (slsize slide : ℤ) (s t : Grect)
    → IsSlot s.g_y s.g_h s.g_w
    → vthumb_of shown slsize slide (some s) ≡ some t
    → (t.g_x ≡ s.g_x) × (t.g_w ≡ s.g_w) × InSlot s.g_y s.g_h s.g_w t.g_y t.g_h
unfolding vthumb_of
vthumb_of-InSlot false slsize slide s t h e = cc
vthumb_of-InSlot true slsize slide s t h e =
    subst (λ t'. (t'.g_x ≡ s.g_x) × (t'.g_w ≡ s.g_w) × InSlot s.g_y s.g_h s.g_w t'.g_y t'.g_h)
      (some-injective _ _ e) (refl, refl, thumb_InSlot s.g_y s.g_h s.g_w slsize slide h)

hthumb_of-InSlot :
    (shown : Bool) (slsize slide : ℤ) (s t : Grect)
    → IsSlot s.g_x s.g_w s.g_h
    → hthumb_of shown slsize slide (some s) ≡ some t
    → (t.g_y ≡ s.g_y) × (t.g_h ≡ s.g_h) × InSlot s.g_x s.g_w s.g_h t.g_x t.g_w
unfolding hthumb_of
hthumb_of-InSlot false slsize slide s t h e = cc
hthumb_of-InSlot true slsize slide s t h e =
    subst (λ t'. (t'.g_y ≡ s.g_y) × (t'.g_h ≡ s.g_h) × InSlot s.g_x s.g_w s.g_h t'.g_x t'.g_w)
      (some-injective _ _ e) (refl, refl, thumb_InSlot s.g_x s.g_w s.g_h slsize slide h)

-- When the vertical slot is `s`, with sides that are not negative and ends among the words, a
-- vertical thumb has the slot's left edge and width, stands within the slot from top to bottom, and
-- is at least as long as the shorter side of the slot, whatever the slider's size and position.
pub vthumb-InSlot :
    (text_height : ℤ) (w : Window) (s t : Grect)
    → vslot_rect text_height w ≡ some s
    → IsSlot s.g_y s.g_h s.g_w
    → vthumb_rect text_height w ≡ some t
    → (t.g_x ≡ s.g_x) × (t.g_w ≡ s.g_w) × InSlot s.g_y s.g_h s.g_w t.g_y t.g_h
vthumb-InSlot text_height w s t slot h e =
    vthumb_of-InSlot (bit_at w.kind v_slide) w.vslsize w.vslide s t h
      (unfold vthumb_rect in rw slot at e)

-- When the horizontal slot is `s`, with sides that are not negative and ends among the words, a
-- horizontal thumb has the slot's top edge and height, stands within the slot from left to right,
-- and is at least as long as the shorter side of the slot, whatever the slider's size and position.
pub hthumb-InSlot :
    (text_height : ℤ) (w : Window) (s t : Grect)
    → hslot_rect text_height w ≡ some s
    → IsSlot s.g_x s.g_w s.g_h
    → hthumb_rect text_height w ≡ some t
    → (t.g_y ≡ s.g_y) × (t.g_h ≡ s.g_h) × InSlot s.g_x s.g_w s.g_h t.g_x t.g_w
hthumb-InSlot text_height w s t slot h e =
    hthumb_of-InSlot (bit_at w.kind h_slide) w.hslsize w.hslide s t h
      (unfold hthumb_rect in rw slot at e)
