-- ===== src/Chrome.antt =====
-- Where the parts of a window's frame stand: src/aes/window_geometry.c.
-- A function that fills `rect` and returns whether it did is an `Option` here; the window is never
-- NULL. `aes_menu_chrome_height` (src/aes/aes_core.c) is the height of the font, `text_height`, plus
-- six. Products and quotients are of `long`, at which no sum of words overflows.
pub mod Parts
pub mod Inside
pub mod Hit
pub mod Slots
mod Tests
use gem.Base.{ℕ, ◌+◌, ◌*◌, ◌/◌, ◌%◌, Bool, true, false, not, ◌&&◌, ◌||◌, if◌then◌else◌, ◌==◌}
use gem.Base.Int.{ℤ, pos, ◌+ℤ◌, ◌-ℤ◌, ltb_ℤ, to_word}
use gem.Rect.{Grect, set_rect, min_word, max_word}
use gem.Window.{Window}

-- The bits of `kind`: `(kind & (1 << n)) != 0`.
abbrev pub bit_at : ℕ → ℕ → Bool
bit_at kind weight = kind / weight % 2 == 1

abbrev pub name : ℕ
name = 0x0001

abbrev pub closer : ℕ
closer = 0x0002

abbrev pub fuller : ℕ
fuller = 0x0004

abbrev pub mover : ℕ
mover = 0x0008

abbrev pub sizer : ℕ
sizer = 0x0020

abbrev pub up_arrow : ℕ
up_arrow = 0x0040

abbrev pub dn_arrow : ℕ
dn_arrow = 0x0080

abbrev pub v_slide : ℕ
v_slide = 0x0100

abbrev pub lf_arrow : ℕ
lf_arrow = 0x0200

abbrev pub rt_arrow : ℕ
rt_arrow = 0x0400

abbrev pub h_slide : ℕ
h_slide = 0x0800

unfoldable pub left_border : Window → ℤ
left_border w = if not (w.kind == 0) then pos 1 else pos 0

unfoldable pub has_vscroll : Window → Bool
has_vscroll w = bit_at w.kind up_arrow || bit_at w.kind dn_arrow || bit_at w.kind v_slide

unfoldable pub has_hscroll : Window → Bool
has_hscroll w = bit_at w.kind lf_arrow || bit_at w.kind rt_arrow || bit_at w.kind h_slide

unfoldable pub has_compact_sizer : Window → Bool
has_compact_sizer w = bit_at w.kind sizer && (not (has_vscroll w) && not (has_hscroll w))

unfoldable pub has_title : Window → Bool
has_title w =
    bit_at w.kind name || bit_at w.kind closer || bit_at w.kind fuller || bit_at w.kind mover

unfoldable pub menu_chrome_height : ℤ → ℤ
menu_chrome_height text_height = to_word (text_height +ℤ pos 6)

unfoldable pub title_height : ℤ → Window → ℤ
title_height text_height w =
    if w.kind == 0
    then pos 0
    else if not (has_title w)
    then pos 2
    else menu_chrome_height text_height

unfoldable pub scroll_span : ℤ → Window → ℤ
scroll_span text_height w = max_word (to_word (title_height text_height w -ℤ pos 1)) (pos 12)

unfoldable pub scroll_button_side : ℤ → Window → ℤ
scroll_button_side text_height w = max_word (to_word (title_height text_height w -ℤ pos 2)) (pos 10)

unfoldable pub right_border : ℤ → Window → ℤ
right_border text_height w =
    if has_compact_sizer w
    then pos 4
    else if bit_at w.kind sizer || has_vscroll w
    then scroll_span text_height w
    else left_border w

unfoldable pub bottom_border : ℤ → Window → ℤ
bottom_border text_height w =
    if has_compact_sizer w
    then pos 4
    else if bit_at w.kind sizer || has_hscroll w
    then scroll_span text_height w
    else if not (w.kind == 0)
    then pos 2
    else pos 0

-- A size below zero is set to zero.
abbrev pub floor_zero : ℤ → ℤ
floor_zero size = if ltb_ℤ size (pos 0) then pos 0 else size

-- What `aes_compute_work` stores in `window->work`.
unfoldable pub work_rect : ℤ → Window → Grect
work_rect text_height w =
    set_rect (to_word (w.outer.g_x +ℤ left_border w))
      (to_word (w.outer.g_y +ℤ title_height text_height w))
      (floor_zero (to_word (w.outer.g_w -ℤ left_border w -ℤ right_border text_height w)))
      (floor_zero
        (to_word (w.outer.g_h -ℤ title_height text_height w -ℤ bottom_border text_height w)))

unfoldable pub compute_work : ℤ → Window → Window
compute_work text_height w = record w { work = work_rect text_height w }
