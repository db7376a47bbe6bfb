-- ===== src/Chrome/Hit.antt =====
-- Which part of a window a point hits: aes_window_hit_part of src/aes/window_geometry.c, with the
-- constants AES_WINDOW_PART_* of src/aes/aes_internal.h.
use gem.Base.{◌≡◌, Bool, true, false, not, ◌&&◌, ◌||◌, Option, none, some, if◌then◌else◌, arith}
use gem.Base.Int.{ℤ, ltb_ℤ}
use gem.Rect.{Grect, point_in_rect}
use gem.Window.{Window}
use gem.Chrome.{has_compact_sizer}
use gem.Chrome.Parts.{
  closer_rect, fuller_rect, title_rect, sizer_rect, vtrack_rect, htrack_rect, vup_rect, vdown_rect,
  hleft_rect, hright_rect, vthumb_rect, hthumb_rect,
}

pub data WindowPart : Type 0 where
  part_none part_work part_title part_closer part_fuller part_sizer : WindowPart
  part_vup part_vdown part_vslide part_vpage_up part_vpage_down : WindowPart
  part_hleft part_hright part_hslide part_hpage_left part_hpage_right : WindowPart

-- Whether a point of the track is on the near side of the thumb.
abbrev pub is_above : ℤ → Option Grect → Bool
is_above y none = false
is_above y (some thumb) = ltb_ℤ y thumb.g_y

abbrev pub is_left : ℤ → Option Grect → Bool
is_left x none = false
is_left x (some thumb) = ltb_ℤ x thumb.g_x

-- The tests from the tracks on.
unfoldable pub hit_rest : ℤ → Window → ℤ → ℤ → WindowPart
hit_rest text_height w x y =
    if point_in_rect x y (vtrack_rect w)
    then if is_above y (vthumb_rect text_height w) then part_vpage_up else part_vpage_down
    else if point_in_rect x y (htrack_rect w)
    then if is_left x (hthumb_rect text_height w) then part_hpage_left else part_hpage_right
    else if point_in_rect x y (title_rect text_height w)
    then part_title
    else if point_in_rect x y (some w.work)
    then part_work
    else part_none

-- The tests from the arrows on.
unfoldable pub hit_scroll : ℤ → Window → ℤ → ℤ → WindowPart
hit_scroll text_height w x y =
    if point_in_rect x y (vup_rect text_height w)
    then part_vup
    else if point_in_rect x y (vdown_rect text_height w)
    then part_vdown
    else if point_in_rect x y (hleft_rect text_height w)
    then part_hleft
    else if point_in_rect x y (hright_rect text_height w)
    then part_hright
    else if point_in_rect x y (vthumb_rect text_height w)
    then part_vslide
    else if point_in_rect x y (hthumb_rect text_height w)
    then part_hslide
    else hit_rest text_height w x y

unfoldable pub hit_part : ℤ → Window → ℤ → ℤ → WindowPart
unfolding hit_scroll hit_rest
hit_part text_height w x y =
    if not w.open_flag || not (point_in_rect x y (some w.outer))
    then part_none
    else if point_in_rect x y (closer_rect text_height w)
    then part_closer
    else if point_in_rect x y (fuller_rect text_height w)
    then part_fuller
    else if point_in_rect x y (sizer_rect text_height w)
        && (not (has_compact_sizer w) || not (point_in_rect x y (some w.work)))
    then part_sizer
    else hit_scroll text_height w x y

-- The rectangle in which each part is drawn.
pub part_rect : ℤ → Window → WindowPart → Option Grect
part_rect t w part_none = none
part_rect t w part_work = some w.work
part_rect t w part_title = title_rect t w
part_rect t w part_closer = closer_rect t w
part_rect t w part_fuller = fuller_rect t w
part_rect t w part_sizer = sizer_rect t w
part_rect t w part_vup = vup_rect t w
part_rect t w part_vdown = vdown_rect t w
part_rect t w part_vslide = vthumb_rect t w
part_rect t w part_vpage_up = vtrack_rect w
part_rect t w part_vpage_down = vtrack_rect w
part_rect t w part_hleft = hleft_rect t w
part_rect t w part_hright = hright_rect t w
part_rect t w part_hslide = hthumb_rect t w
part_rect t w part_hpage_left = htrack_rect w
part_rect t w part_hpage_right = htrack_rect w

-- Whether a rectangle of some part, or the work area, has the point. A compact sizer has no points
-- of the work area.
unfoldable pub hits_any : ℤ → Window → ℤ → ℤ → Bool
hits_any t w x y =
    point_in_rect x y (closer_rect t w)
    || point_in_rect x y (fuller_rect t w)
    || (point_in_rect x y (sizer_rect t w) && not (has_compact_sizer w))
    || (point_in_rect x y (sizer_rect t w) && not (point_in_rect x y (some w.work)))
    || point_in_rect x y (vup_rect t w)
    || point_in_rect x y (vdown_rect t w)
    || point_in_rect x y (hleft_rect t w)
    || point_in_rect x y (hright_rect t w)
    || point_in_rect x y (vthumb_rect t w)
    || point_in_rect x y (hthumb_rect t w)
    || point_in_rect x y (vtrack_rect w)
    || point_in_rect x y (htrack_rect w)
    || point_in_rect x y (title_rect t w)
    || point_in_rect x y (some w.work)

-- A point of the track, beside the thumb, on the side that `side` tells.
unfoldable pub paging : ℤ → Window → ℤ → ℤ → Option Grect → Option Grect → Bool → Bool
paging t w x y track thumb side =
    w.open_flag
    && (point_in_rect x y (some w.outer)
        && (point_in_rect x y track && (not (point_in_rect x y thumb) && side)))

-- What may be said of a point when it hits `part`.
unfoldable pub explains : ℤ → Window → ℤ → ℤ → WindowPart → Bool
explains t w x y part_none =
    not (w.open_flag && (point_in_rect x y (some w.outer) && hits_any t w x y))
explains t w x y part_vpage_up =
    paging t w x y (vtrack_rect w) (vthumb_rect t w) (is_above y (vthumb_rect t w))
explains t w x y part_vpage_down =
    paging t w x y (vtrack_rect w) (vthumb_rect t w) (not (is_above y (vthumb_rect t w)))
explains t w x y part_hpage_left =
    paging t w x y (htrack_rect w) (hthumb_rect t w) (is_left x (hthumb_rect t w))
explains t w x y part_hpage_right =
    paging t w x y (htrack_rect w) (hthumb_rect t w) (not (is_left x (hthumb_rect t w)))
explains t w x y part =
    w.open_flag && (point_in_rect x y (some w.outer) && point_in_rect x y (part_rect t w part))

-- When `aes_window_hit_part` answers with a part, the window is open and the point is in its outer
-- rectangle and in the rectangle of that part; when it answers with paging, the point is in the track
-- but not in the thumb, above or left of the start of a thumb for paging up or left and not so for
-- paging down or right. When it answers with no part, the window is not open, or the point is not in
-- the outer rectangle, or it is in no part's rectangle and not in the work area, save that a compact
-- sizer has no points of the work area.
pub hit_part_lem :
    (text_height x y : ℤ) (w : Window)
    → explains text_height w x y (hit_part text_height w x y) ≡ true
unfolding hit_part explains paging hits_any part_rect
hit_part_lem t x y w = ground arith
