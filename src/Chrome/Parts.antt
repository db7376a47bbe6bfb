-- ===== src/Chrome/Parts.antt =====
-- The rectangle of each part of the frame: the functions aes_window_*_rect of
-- src/aes/window_geometry.c.
use gem.Base.{◌*◌, ◌/◌, Bool, not, ◌||◌, Option, none, some, if◌then◌else◌}
use gem.Base.Int.{ℤ, pos, pos_part, neg_part, sub_ℕ, ◌+ℤ◌, ◌-ℤ◌, ltb_ℤ, to_word}
use gem.Rect.{Grect, set_rect, min_word, max_word}
use gem.Window.{Window}
use gem.Chrome.{
  bit_at, closer, fuller, sizer, up_arrow, dn_arrow, v_slide, lf_arrow, rt_arrow, h_slide,
  has_vscroll, has_hscroll, has_compact_sizer, has_title, title_height, scroll_span,
  scroll_button_side, right_border, bottom_border,
}

unfoldable pub closer_rect : ℤ → Window → Option Grect
closer_rect text_height w =
    let side = to_word (title_height text_height w -ℤ pos 2) in
    if not (bit_at w.kind closer)
    then none
    else some (
        set_rect (to_word (w.outer.g_x +ℤ pos 1)) (to_word (w.outer.g_y +ℤ pos 1))
          (to_word (side +ℤ pos 1)) side)

unfoldable pub fuller_rect : ℤ → Window → Option Grect
fuller_rect text_height w =
    let side = to_word (title_height text_height w -ℤ pos 2) in
    if not (bit_at w.kind fuller)
    then none
    else some (
        set_rect (to_word (w.outer.g_x +ℤ w.outer.g_w -ℤ side -ℤ pos 2))
          (to_word (w.outer.g_y +ℤ pos 1)) (to_word (side +ℤ pos 1)) side)

unfoldable pub title_left : Window → Option Grect → ℤ
title_left w none = to_word (w.outer.g_x +ℤ pos 2)
title_left w (some r) = to_word (r.g_x +ℤ r.g_w +ℤ pos 2)

unfoldable pub title_right : Window → Option Grect → ℤ
title_right w none = to_word (w.outer.g_x +ℤ w.outer.g_w -ℤ pos 3)
title_right w (some r) = to_word (r.g_x -ℤ pos 2)

unfoldable pub title_rect : ℤ → Window → Option Grect
title_rect text_height w =
    let left = title_left w (closer_rect text_height w) in
    let right = title_right w (fuller_rect text_height w) in
    if not (has_title w)
    then none
    else if ltb_ℤ right left
    then none
    else some (
        set_rect left (to_word (w.outer.g_y +ℤ pos 2)) (to_word (right -ℤ left +ℤ pos 1))
          (to_word (title_height text_height w -ℤ pos 4)))

unfoldable pub compact_sizer_rect : ℤ → Window → Option Grect
compact_sizer_rect text_height w =
    let size = min_word (scroll_span text_height w) (min_word w.outer.g_w w.outer.g_h) in
    if ltb_ℤ size (pos 3)
    then none
    else some (
        set_rect (to_word (w.outer.g_x +ℤ w.outer.g_w -ℤ size))
          (to_word (w.outer.g_y +ℤ w.outer.g_h -ℤ size)) size size)

unfoldable pub full_sizer_rect : ℤ → Window → Grect
full_sizer_rect text_height w =
    let right = right_border text_height w in
    let bottom = bottom_border text_height w in
    let size = to_word (min_word right bottom -ℤ pos 2) in
    set_rect (to_word (w.outer.g_x +ℤ w.outer.g_w -ℤ right +ℤ pos 2))
      (to_word (w.outer.g_y +ℤ w.outer.g_h -ℤ bottom +ℤ pos 2)) size size

unfoldable pub sizer_rect : ℤ → Window → Option Grect
unfolding compact_sizer_rect full_sizer_rect
sizer_rect text_height w =
    if not (bit_at w.kind sizer)
    then none
    else if has_compact_sizer w
    then compact_sizer_rect text_height w
    else some (full_sizer_rect text_height w)

-- The rectangle from two corners, unless it is empty.
unfoldable pub corners : ℤ → ℤ → ℤ → ℤ → Option Grect
corners left right top bottom =
    if ltb_ℤ right left || ltb_ℤ bottom top
    then none
    else some
        (set_rect left top (to_word (right -ℤ left +ℤ pos 1)) (to_word (bottom -ℤ top +ℤ pos 1)))

unfoldable pub vtrack_rect : Window → Option Grect
unfolding corners
vtrack_rect w =
    if not (has_vscroll w)
    then none
    else corners (to_word (w.work.g_x +ℤ w.work.g_w))
        (to_word (w.outer.g_x +ℤ w.outer.g_w -ℤ pos 2)) w.work.g_y
        (to_word (w.work.g_y +ℤ w.work.g_h -ℤ pos 1))

unfoldable pub htrack_rect : Window → Option Grect
unfolding corners
htrack_rect w =
    if not (has_hscroll w)
    then none
    else corners (to_word (w.outer.g_x +ℤ pos 1)) (to_word (w.work.g_x +ℤ w.work.g_w -ℤ pos 1))
        (to_word (w.work.g_y +ℤ w.work.g_h)) (to_word (w.outer.g_y +ℤ w.outer.g_h -ℤ pos 2))

-- The arrow at the start and at the end of a track, `shown` when `kind` has its bit.
unfoldable pub up_of : Bool → ℤ → Option Grect → Option Grect
up_of shown side none = none
up_of shown side (some t) =
    if not shown then none else some (set_rect t.g_x t.g_y t.g_w (min_word side t.g_h))

unfoldable pub down_of : Bool → ℤ → Option Grect → Option Grect
down_of shown side none = none
down_of shown side (some t) =
    if not shown
    then none
    else some (
        set_rect t.g_x (to_word (t.g_y +ℤ t.g_h -ℤ min_word side t.g_h)) t.g_w
          (min_word side t.g_h))

unfoldable pub left_of : Bool → ℤ → Option Grect → Option Grect
left_of shown side none = none
left_of shown side (some t) =
    if not shown then none else some (set_rect t.g_x t.g_y (min_word side t.g_w) t.g_h)

unfoldable pub right_of : Bool → ℤ → Option Grect → Option Grect
right_of shown side none = none
right_of shown side (some t) =
    if not shown
    then none
    else some (
        set_rect (to_word (t.g_x +ℤ t.g_w -ℤ min_word side t.g_w)) t.g_y (min_word side t.g_w)
          t.g_h)

unfoldable pub vup_rect : ℤ → Window → Option Grect
unfolding up_of
vup_rect text_height w =
    up_of (bit_at w.kind up_arrow) (scroll_button_side text_height w) (vtrack_rect w)

unfoldable pub vdown_rect : ℤ → Window → Option Grect
unfolding down_of
vdown_rect text_height w =
    down_of (bit_at w.kind dn_arrow) (scroll_button_side text_height w) (vtrack_rect w)

unfoldable pub hleft_rect : ℤ → Window → Option Grect
unfolding left_of
hleft_rect text_height w =
    left_of (bit_at w.kind lf_arrow) (scroll_button_side text_height w) (htrack_rect w)

unfoldable pub hright_rect : ℤ → Window → Option Grect
unfolding right_of
hright_rect text_height w =
    right_of (bit_at w.kind rt_arrow) (scroll_button_side text_height w) (htrack_rect w)

-- The track between its arrows.
unfoldable pub slot_top : Grect → Option Grect → ℤ
slot_top t none = t.g_y
slot_top t (some up) = to_word (up.g_y +ℤ up.g_h)

unfoldable pub slot_bottom : Grect → Option Grect → ℤ
slot_bottom t none = to_word (t.g_y +ℤ t.g_h -ℤ pos 1)
slot_bottom t (some down) = to_word (down.g_y -ℤ pos 1)

unfoldable pub slot_left : Grect → Option Grect → ℤ
slot_left t none = t.g_x
slot_left t (some left) = to_word (left.g_x +ℤ left.g_w)

unfoldable pub slot_right : Grect → Option Grect → ℤ
slot_right t none = to_word (t.g_x +ℤ t.g_w -ℤ pos 1)
slot_right t (some right) = to_word (right.g_x -ℤ pos 1)

unfoldable pub vslot_between : Option Grect → Option Grect → Option Grect → Option Grect
unfolding slot_top slot_bottom
vslot_between none up down = none
vslot_between (some t) up down =
    if ltb_ℤ (slot_bottom t down) (slot_top t up)
    then none
    else some (
        set_rect t.g_x (slot_top t up) t.g_w
          (to_word (slot_bottom t down -ℤ slot_top t up +ℤ pos 1)))

unfoldable pub hslot_between : Option Grect → Option Grect → Option Grect → Option Grect
unfolding slot_left slot_right
hslot_between none left right = none
hslot_between (some t) left right =
    if ltb_ℤ (slot_right t right) (slot_left t left)
    then none
    else some (
        set_rect (slot_left t left) t.g_y
          (to_word (slot_right t right -ℤ slot_left t left +ℤ pos 1)) t.g_h)

unfoldable pub vslot_rect : ℤ → Window → Option Grect
unfolding vslot_between
vslot_rect text_height w =
    vslot_between (vtrack_rect w) (vup_rect text_height w) (vdown_rect text_height w)

unfoldable pub hslot_rect : ℤ → Window → Option Grect
unfolding hslot_between
hslot_rect text_height w =
    hslot_between (htrack_rect w) (hleft_rect text_height w) (hright_rect text_height w)

-- `aes_max_word(0, aes_min_word(value, 1000))`
unfoldable pub clamp : ℤ → ℤ
clamp value = max_word (pos 0) (min_word value (pos 1000))

-- `(length * clamped) / 1000L`, for `clamped` from 0 to 1000; the quotient is cut towards zero.
unfoldable pub per_mille : ℤ → ℤ → ℤ
per_mille length clamped =
    sub_ℕ (pos_part length * pos_part clamped / 1000) (neg_part length * pos_part clamped / 1000)

-- The size and the start of the thumb in a slot `span` long and `breadth` wide.
unfoldable pub thumb_size : ℤ → ℤ → ℤ → ℤ
unfolding clamp per_mille
thumb_size span breadth slsize =
    min_word (max_word (to_word (per_mille span (clamp slsize))) (min_word breadth span)) span

unfoldable pub thumb_start : ℤ → ℤ → ℤ → ℤ → ℤ
unfolding clamp per_mille
thumb_start start span size slide =
    if ltb_ℤ size span then to_word (start +ℤ per_mille (span -ℤ size) (clamp slide)) else start

unfoldable pub vthumb_of : Bool → ℤ → ℤ → Option Grect → Option Grect
unfolding thumb_size thumb_start
vthumb_of shown slsize slide none = none
vthumb_of shown slsize slide (some s) =
    if not shown
    then none
    else some (
        set_rect s.g_x (thumb_start s.g_y s.g_h (thumb_size s.g_h s.g_w slsize) slide) s.g_w
          (thumb_size s.g_h s.g_w slsize))

unfoldable pub hthumb_of : Bool → ℤ → ℤ → Option Grect → Option Grect
unfolding thumb_size thumb_start
hthumb_of shown slsize slide none = none
hthumb_of shown slsize slide (some s) =
    if not shown
    then none
    else some (
        set_rect (thumb_start s.g_x s.g_w (thumb_size s.g_w s.g_h slsize) slide) s.g_y
          (thumb_size s.g_w s.g_h slsize) s.g_h)

unfoldable pub vthumb_rect : ℤ → Window → Option Grect
unfolding vthumb_of
vthumb_rect text_height w =
    vthumb_of (bit_at w.kind v_slide) w.vslsize w.vslide (vslot_rect text_height w)

unfoldable pub hthumb_rect : ℤ → Window → Option Grect
unfolding hthumb_of
hthumb_rect text_height w =
    hthumb_of (bit_at w.kind h_slide) w.hslsize w.hslide (hslot_rect text_height w)
