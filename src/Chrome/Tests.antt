-- ===== src/Chrome/Tests.antt =====
-- Examples for src/aes/window_geometry.c.
use gem.Base.{false}
use gem.Base.{◌≡◌, refl, true, arith, some}
use gem.Base.Int.{pos, int_laws, to_word, ◌+ℤ◌, ◌-ℤ◌}
use gem.Rect.{Grect, point_in_rect, set_rect, min_word, max_word}
use gem.Rect.Span.{FitsSpan}
use gem.Window.{Window}
use gem.Chrome.{
  compute_work, work_rect, left_border, right_border, bottom_border, title_height, has_title,
  scroll_span, has_vscroll, has_hscroll, has_compact_sizer, menu_chrome_height, scroll_button_side,
}
use gem.Chrome.Parts.{
  vslot_rect, hslot_rect, vthumb_rect, hthumb_rect, vtrack_rect, htrack_rect, vup_rect, vdown_rect,
  hleft_rect, hright_rect, corners, up_of, down_of, left_of, right_of, slot_top, slot_bottom,
  slot_left, slot_right, vslot_between, hslot_between, clamp, per_mille, thumb_size, thumb_start,
  vthumb_of, hthumb_of,
}
use gem.Chrome.Hit.{hit_part, explains, hit_part_lem}
use gem.Chrome.Inside.{compute_work-inside, IsFont, IsSlot}

-- A window with a title and a vertical slider.
abbrev sheet : Window
sheet = record {
  used = true;
  handle = pos 1;
  owner = pos 1;
  open_flag = true;
  iconified = false;
  z_order = 1;
  kind = 0x101;
  outer = set_rect (pos 40) (pos 30) (pos 300) (pos 200);
  work = set_rect (pos 41) (pos 52) (pos 278) (pos 176);
  previous_outer = set_rect (pos 40) (pos 30) (pos 300) (pos 200);
  restored_outer = set_rect (pos 40) (pos 30) (pos 300) (pos 200);
  hslide = pos 0;
  vslide = pos 500;
  hslsize = pos 0;
  vslsize = pos 300;
}

-- A window with a title and a horizontal slider.
abbrev strip : Window
strip = record {
  used = true;
  handle = pos 2;
  owner = pos 1;
  open_flag = true;
  iconified = false;
  z_order = 2;
  kind = 0x801;
  outer = set_rect (pos 40) (pos 30) (pos 300) (pos 200);
  work = set_rect (pos 41) (pos 52) (pos 298) (pos 157);
  previous_outer = set_rect (pos 40) (pos 30) (pos 300) (pos 200);
  restored_outer = set_rect (pos 40) (pos 30) (pos 300) (pos 200);
  hslide = pos 250;
  vslide = pos 0;
  hslsize = pos 100;
  vslsize = pos 0;
}

sheet_work : (compute_work (pos 16) sheet).work ≡ sheet.work
unfolding compute_work work_rect left_border right_border bottom_border title_height has_title
    scroll_span has_vscroll has_hscroll has_compact_sizer menu_chrome_height max_word to_word ◌+ℤ◌
    ◌-ℤ◌
sheet_work = refl

strip_work : (compute_work (pos 16) strip).work ≡ strip.work
unfolding compute_work work_rect left_border right_border bottom_border title_height has_title
    scroll_span has_vscroll has_hscroll has_compact_sizer menu_chrome_height max_word to_word ◌+ℤ◌
    ◌-ℤ◌
strip_work = refl

abbrev vslot : Grect
vslot = set_rect (pos 319) (pos 52) (pos 20) (pos 176)

vslot_here : vslot_rect (pos 16) sheet ≡ some vslot
unfolding vslot_rect hslot_rect vthumb_rect hthumb_rect vtrack_rect htrack_rect vup_rect vdown_rect
    hleft_rect hright_rect corners up_of down_of left_of right_of slot_top slot_bottom slot_left
    slot_right vslot_between hslot_between clamp per_mille thumb_size thumb_start vthumb_of
    hthumb_of has_vscroll has_hscroll scroll_button_side title_height has_title menu_chrome_height
    max_word min_word to_word ◌+ℤ◌ ◌-ℤ◌
vslot_here = refl

abbrev vthumb : Grect
vthumb = set_rect (pos 319) (pos 114) (pos 20) (pos 52)

vthumb_here : vthumb_rect (pos 16) sheet ≡ some vthumb
unfolding vslot_rect hslot_rect vthumb_rect hthumb_rect vtrack_rect htrack_rect vup_rect vdown_rect
    hleft_rect hright_rect corners up_of down_of left_of right_of slot_top slot_bottom slot_left
    slot_right vslot_between hslot_between clamp per_mille thumb_size thumb_start vthumb_of
    hthumb_of has_vscroll has_hscroll scroll_button_side title_height has_title menu_chrome_height
    max_word min_word to_word ◌+ℤ◌ ◌-ℤ◌
vthumb_here = refl

abbrev hslot : Grect
hslot = set_rect (pos 41) (pos 209) (pos 298) (pos 20)

hslot_here : hslot_rect (pos 16) strip ≡ some hslot
unfolding vslot_rect hslot_rect vthumb_rect hthumb_rect vtrack_rect htrack_rect vup_rect vdown_rect
    hleft_rect hright_rect corners up_of down_of left_of right_of slot_top slot_bottom slot_left
    slot_right vslot_between hslot_between clamp per_mille thumb_size thumb_start vthumb_of
    hthumb_of has_vscroll has_hscroll scroll_button_side title_height has_title menu_chrome_height
    max_word min_word to_word ◌+ℤ◌ ◌-ℤ◌
hslot_here = refl

abbrev hthumb : Grect
hthumb = set_rect (pos 108) (pos 209) (pos 29) (pos 20)

hthumb_here : hthumb_rect (pos 16) strip ≡ some hthumb
unfolding vslot_rect hslot_rect vthumb_rect hthumb_rect vtrack_rect htrack_rect vup_rect vdown_rect
    hleft_rect hright_rect corners up_of down_of left_of right_of slot_top slot_bottom slot_left
    slot_right vslot_between hslot_between clamp per_mille thumb_size thumb_start vthumb_of
    hthumb_of has_vscroll has_hscroll scroll_button_side title_height has_title menu_chrome_height
    max_word min_word to_word ◌+ℤ◌ ◌-ℤ◌
hthumb_here = refl

hit_part_lem_example :
    explains (pos 16) sheet (pos 330) (pos 190) (hit_part (pos 16) sheet (pos 330) (pos 190)) ≡ true
hit_part_lem_example = hit_part_lem (pos 16) (pos 330) (pos 190) sheet

across : FitsSpan (pos 40) (pos 300)
across = record {
  start_word = (omega arith, omega arith);
  size_word = (omega arith, omega arith);
  not_empty = omega arith;
  inside = omega int_laws;
}

down : FitsSpan (pos 30) (pos 200)
down = record {
  start_word = (omega arith, omega arith);
  size_word = (omega arith, omega arith);
  not_empty = omega arith;
  inside = omega int_laws;
}

usual-IsFont : IsFont (pos 16)
unfolding IsFont
usual-IsFont = (omega arith, omega arith)

in_work : point_in_rect (pos 100) (pos 100) (some (compute_work (pos 16) sheet).work) ≡ true
unfolding compute_work work_rect left_border right_border bottom_border title_height has_title
    scroll_span has_vscroll has_hscroll has_compact_sizer menu_chrome_height max_word to_word ◌+ℤ◌
    ◌-ℤ◌ point_in_rect
in_work = refl

compute_work-inside_example : point_in_rect (pos 100) (pos 100) (some sheet.outer) ≡ true
compute_work-inside_example =
    compute_work-inside (pos 16) (pos 100) (pos 100) sheet usual-IsFont across down in_work

vslot-IsSlot : IsSlot (pos 52) (pos 176) (pos 20)
vslot-IsSlot = omega int_laws

hslot-IsSlot : IsSlot (pos 41) (pos 298) (pos 20)
hslot-IsSlot = omega int_laws

-- The first window with arrows at its vertical slider.
abbrev scroll : Window
scroll = record {
  used = true;
  handle = pos 3;
  owner = pos 1;
  open_flag = true;
  iconified = false;
  z_order = 3;
  kind = 0x1c1;
  outer = set_rect (pos 40) (pos 30) (pos 300) (pos 200);
  work = set_rect (pos 41) (pos 52) (pos 278) (pos 176);
  previous_outer = set_rect (pos 40) (pos 30) (pos 300) (pos 200);
  restored_outer = set_rect (pos 40) (pos 30) (pos 300) (pos 200);
  hslide = pos 0;
  vslide = pos 500;
  hslsize = pos 0;
  vslsize = pos 300;
}

scroll_track : vtrack_rect scroll ≡ some vslot
unfolding vslot_rect hslot_rect vthumb_rect hthumb_rect vtrack_rect htrack_rect vup_rect vdown_rect
    hleft_rect hright_rect corners up_of down_of left_of right_of slot_top slot_bottom slot_left
    slot_right vslot_between hslot_between clamp per_mille thumb_size thumb_start vthumb_of
    hthumb_of has_vscroll has_hscroll scroll_button_side title_height has_title menu_chrome_height
    max_word min_word to_word ◌+ℤ◌ ◌-ℤ◌
scroll_track = refl

scroll_slot : vslot_rect (pos 16) scroll ≡ some (set_rect (pos 319) (pos 72) (pos 20) (pos 136))
unfolding vslot_rect hslot_rect vthumb_rect hthumb_rect vtrack_rect htrack_rect vup_rect vdown_rect
    hleft_rect hright_rect corners up_of down_of left_of right_of slot_top slot_bottom slot_left
    slot_right vslot_between hslot_between clamp per_mille thumb_size thumb_start vthumb_of
    hthumb_of has_vscroll has_hscroll scroll_button_side title_height has_title menu_chrome_height
    max_word min_word to_word ◌+ℤ◌ ◌-ℤ◌
scroll_slot = refl
