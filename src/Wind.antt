-- ===== src/Wind.antt =====
-- The window calls of the AES: src/aes/window.c, with the raise and the top of
-- src/aes/window_redraw.c, on the state of Window.
-- A call's result is a pair of what it returns and the state after it. A window that a C function
-- holds by a pointer is named here by its handle. Painting, redraw messages and texts are left out;
-- `text_height` is the height of the font, by which `aes_compute_work` sizes the frame.
pub mod Slots
pub mod Fields
pub mod Table
pub mod Top
pub mod Find
pub mod Calc
pub mod Walk
pub mod Work
mod Tests
use mathlib.Core.Option
use gem.Base.{two32}
use gem.Base.{
  ℕ, ◌+◌, ◌-◌, ◌%◌, Bool, true, false, not, ◌&&◌, ◌||◌, List, [], ◌∷◌, Option, none, some,
  if◌then◌else◌, ltb, leb, ◌==◌, length, get_elem?,
}
use gem.Base.Int.{ℤ, pos, ◌+ℤ◌, ◌-ℤ◌, eqb_ℤ, to_word}
use gem.Rect.{Grect, set_rect, point_in_rect, min_word, max_word}
use gem.Window.{Window, AesState, find_window, find_top_window, is_higher}
use gem.Chrome.{compute_work}
use gem.Chrome.Parts.{clamp}

-- The window that `find_window` finds, changed.
unfoldable pub update_window : ℤ → (Window → Window) → List Window → List Window
update_window handle change [] = []
update_window handle change (w ∷ ws) =
    if w.used && eqb_ℤ w.handle handle then change w ∷ ws else w ∷ update_window handle change ws

abbrev pub no_rect : Grect
no_rect = set_rect (pos 0) (pos 0) (pos 0) (pos 0)

abbrev pub zero_window : Window
zero_window = record {
  used = false;
  handle = pos 0;
  owner = pos 0;
  open_flag = false;
  iconified = false;
  z_order = 0;
  kind = 0;
  outer = no_rect;
  work = no_rect;
  previous_outer = no_rect;
  restored_outer = no_rect;
  hslide = pos 0;
  vslide = pos 0;
  hslsize = pos 0;
  vslsize = pos 0;
}

-- `next_window_z++` of a `uint32_t`.
abbrev pub bump_z : AesState → List Window → AesState
bump_z st ws = record st { windows = ws; next_window_z = (st.next_window_z + 1) % two32 }

unfoldable pub created : ℤ → AesState → ℕ → Grect → ℕ → Window → Window
created text_height st kind rect handle w = compute_work text_height (record w {
  used = true;
  handle = pos handle;
  owner = st.current_app_id;
  z_order = st.next_window_z;
  kind = kind;
  outer = rect;
  previous_outer = rect;
  restored_outer = rect;
  hslide = pos 0;
  vslide = pos 0;
  hslsize = pos 1000;
  vslsize = pos 1000;
})

-- The loop over the slots from the slot `i` on: the first that is free, with the handle `i + 1`.
unfoldable pub place : (ℕ → Window → Window) → ℕ → List Window → Option (ℕ × List Window)
place make i [] = none
place make i (w ∷ ws) =
    let later = Option.map (λ (handle, more). (handle, w ∷ more)) (place make (i + 1) ws) in
    if not w.used then some (i + 1, make (i + 1) w ∷ ws) else later

unfoldable pub take_place : AesState → Option (ℕ × List Window) → ℤ × AesState
take_place st none = (pos 0, st)
take_place st (some (handle, ws)) = (pos handle, bump_z st ws)

unfoldable pub wind_create : ℤ → ℕ → Grect → AesState → ℤ × AesState
unfolding created place take_place
wind_create text_height kind rect st =
    take_place st (place (created text_height st kind rect) 0 st.windows)

-- `aes_raise_window`
abbrev pub raised : ℕ → Window → Window
raised z w = record w { z_order = z }

unfoldable pub opened : ℤ → Grect → Window → Window
opened text_height rect w =
    record (compute_work text_height (record w {
      outer = rect;
      restored_outer = rect;
      iconified = false;
      previous_outer = rect;
    })) { open_flag = true }

unfoldable pub open_found : ℤ → ℤ → Grect → AesState → Option Window → Bool × AesState
unfolding opened
open_found text_height handle rect st none = (false, st)
open_found text_height handle rect st (some w) = (
  true,
  if w.open_flag
      then record st { windows = update_window handle (opened text_height rect) st.windows }
      else bump_z st (
          update_window handle (λ v. opened text_height rect (raised st.next_window_z v))
            st.windows),
)

unfoldable pub wind_open : ℤ → ℤ → Grect → AesState → Bool × AesState
unfolding open_found
wind_open text_height handle rect st =
    open_found text_height handle rect st (find_window handle st.windows)

abbrev pub closed : Window → Window
closed w = record w { open_flag = false }

abbrev pub change_found : ℤ → (Window → Window) → AesState → Option Window → Bool × AesState
change_found handle change st none = (false, st)
change_found handle change st (some w) =
    (true, record st { windows = update_window handle change st.windows })

unfoldable pub wind_close : ℤ → AesState → Bool × AesState
wind_close handle st = change_found handle closed st (find_window handle st.windows)

unfoldable pub wind_delete : ℤ → AesState → Bool × AesState
wind_delete handle st = change_found handle (λ w. zero_window) st (find_window handle st.windows)

unfoldable pub is_top : ℤ → Option Window → Bool
is_top handle none = false
is_top handle (some top) = eqb_ℤ top.handle handle

-- `aes_top_window` of the window with the handle.
unfoldable pub top_found : ℤ → AesState → Option Window → AesState
unfolding is_top
top_found handle st none = st
top_found handle st (some w) =
    if not w.used || not w.open_flag
    then st
    else if is_top handle (find_top_window st.windows)
    then st
    else bump_z st (update_window handle (raised st.next_window_z) st.windows)

unfoldable pub top_window : ℤ → AesState → AesState
unfolding top_found
top_window handle st = top_found handle st (find_window handle st.windows)

unfoldable pub find_at_from : ℤ → ℤ → Option Window → List Window → Option Window
find_at_from x y best [] = best
find_at_from x y best (w ∷ ws) =
    find_at_from x y
      (if w.used && (w.open_flag && (point_in_rect x y (some w.outer) && is_higher w best))
        then some w
        else best)
      ws

abbrev pub handle_of : Option Window → ℤ
handle_of none = pos 0
handle_of (some w) = w.handle

unfoldable pub wind_find : ℤ → ℤ → AesState → ℤ
unfolding find_at_from
wind_find x y st = handle_of (find_at_from x y none st.windows)

-- `wind_update`: the depths of the AES and of the calling program, if there is one, and whether
-- `vdi_begin_update` or `vdi_end_update` is called shows in them.
pub record Depths : Type 0 where
  pub update_depth : ℕ
  pub app_depth : Option ℕ

abbrev pub beg_update : ℕ
beg_update = 1

abbrev pub end_update : ℕ
end_update = 0

abbrev pub app_at_limit : Option ℕ → Bool
app_at_limit none = false
app_at_limit (some d) = leb 32766 d

abbrev pub app_may_end : Option ℕ → Bool
app_may_end none = true
app_may_end (some d) = ltb 0 d

unfoldable pub wind_update : ℕ → Depths → Bool × Depths
wind_update flag d =
    if flag == beg_update
    then (if leb 32766 d.update_depth || app_at_limit d.app_depth then (false, d) else (
      true,
      record { update_depth = d.update_depth + 1; app_depth = Option.map (λ n. n + 1) d.app_depth },
    ))
    else if flag == end_update && (ltb 0 d.update_depth && app_may_end d.app_depth)
    then (
      true,
      record { update_depth = d.update_depth - 1; app_depth = Option.map (λ n. n - 1) d.app_depth },
    )
    else (true, d)

-- The borders of `wind_calc`, from a window without a place whose outer rectangle is the argument.
unfoldable pub calc_window : ℕ → Grect → ℤ → Window
calc_window kind rect text_height =
    compute_work text_height (record zero_window { kind = kind; outer = rect })

pub record Borders : Type 0 where
  pub left : ℤ
  pub title : ℤ
  pub right : ℤ
  pub bottom : ℤ

unfoldable pub borders_of : Window → Borders
borders_of w = record {
  left = to_word (w.work.g_x -ℤ w.outer.g_x);
  title = to_word (w.work.g_y -ℤ w.outer.g_y);
  right = to_word (w.outer.g_x +ℤ w.outer.g_w -ℤ (w.work.g_x +ℤ w.work.g_w));
  bottom = to_word (w.outer.g_y +ℤ w.outer.g_h -ℤ (w.work.g_y +ℤ w.work.g_h));
}

abbrev pub grown : Borders → Grect → Grect
grown b r =
    set_rect (to_word (r.g_x -ℤ b.left)) (to_word (r.g_y -ℤ b.title))
      (to_word (r.g_w +ℤ b.left +ℤ b.right)) (to_word (r.g_h +ℤ b.title +ℤ b.bottom))

abbrev pub shrunk : Borders → Grect → Grect
shrunk b r =
    set_rect (to_word (r.g_x +ℤ b.left)) (to_word (r.g_y +ℤ b.title))
      (to_word (r.g_w -ℤ b.left -ℤ b.right)) (to_word (r.g_h -ℤ b.title -ℤ b.bottom))

abbrev pub wc_border : ℕ
wc_border = 0

abbrev pub wc_work : ℕ
wc_work = 1

unfoldable pub wind_calc : ℤ → ℕ → ℕ → Grect → Grect
unfolding calc_window borders_of
wind_calc text_height type kind rect =
    if type == wc_border
    then grown (borders_of (calc_window kind rect text_height)) rect
    else shrunk (borders_of (calc_window kind rect text_height)) rect
