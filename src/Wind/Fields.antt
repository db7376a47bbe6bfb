-- ===== src/Wind/Fields.antt =====
-- wind_set and wind_get of src/aes/window.c. The four words `w1` to `w4` are a rectangle.
-- The program that asks is known (`app` is not NULL); its list of rectangles is an `Enumeration`.
-- For the desktop (handle 0) `wind_get` takes the VDI to be open: where `aes_ensure_vdi` fails, the
-- program answers 0.
use gem.Base.{
  ℕ, ◌+◌, Bool, true, false, not, ◌&&◌, ◌||◌, List, [], ◌∷◌, Option, none, some, if◌then◌else◌, ltb,
  ◌==◌, length, get_elem?,
}
use gem.Base.Int.{ℤ, pos, ◌-ℤ◌, eqb_ℤ, to_word}
use gem.Rect.{Grect, set_rect, max_word}
use gem.Window.{Window, AesState, find_window, find_top_window, is_higher}
use gem.Visible.{build_visible_rects}
use gem.Chrome.{compute_work}
use gem.Chrome.Parts.{clamp}
use gem.Wind.{update_window, top_window, wind_calc, wc_border, handle_of, no_rect}

abbrev pub wf_kind : ℕ
wf_kind = 1

abbrev pub wf_name : ℕ
wf_name = 2

abbrev pub wf_info : ℕ
wf_info = 3

abbrev pub wf_wxywh : ℕ
wf_wxywh = 4

abbrev pub wf_cxywh : ℕ
wf_cxywh = 5

abbrev pub wf_pxywh : ℕ
wf_pxywh = 6

abbrev pub wf_fxywh : ℕ
wf_fxywh = 7

abbrev pub wf_hslide : ℕ
wf_hslide = 8

abbrev pub wf_vslide : ℕ
wf_vslide = 9

abbrev pub wf_top : ℕ
wf_top = 10

abbrev pub wf_firstxywh : ℕ
wf_firstxywh = 11

abbrev pub wf_nextxywh : ℕ
wf_nextxywh = 12

abbrev pub wf_hslsiz : ℕ
wf_hslsiz = 15

abbrev pub wf_vslsiz : ℕ
wf_vslsiz = 16

unfoldable pub moved : ℤ → Grect → Window → Window
moved text_height rect w = compute_work text_height (record w {
  previous_outer = w.outer;
  outer = rect;
  restored_outer =
      if w.iconified then set_rect rect.g_x rect.g_y rect.g_w w.restored_outer.g_h else rect;
})

-- What `wind_set` stores in the window for a field other than its texts and its place in the order.
unfoldable pub with_field : ℤ → ℕ → Grect → Window → Window
unfolding moved
with_field text_height field v w =
    if field == wf_cxywh
    then moved text_height (wind_calc text_height wc_border w.kind v) w
    else if field == wf_wxywh
    then moved text_height v w
    else if field == wf_hslide
    then record w { hslide = clamp v.g_x }
    else if field == wf_vslide
    then record w { vslide = clamp v.g_x }
    else if field == wf_hslsiz
    then record w { hslsize = clamp v.g_x }
    else if field == wf_vslsiz
    then record w { vslsize = clamp v.g_x }
    else w

unfoldable pub set_found : ℤ → ℤ → ℕ → Grect → AesState → Option Window → Bool × AesState
unfolding with_field
set_found text_height handle field v st none = (false, st)
set_found text_height handle field v st (some w) =
    if field == wf_name || field == wf_info
    then (not (eqb_ℤ v.g_x (pos 0)), st)
    else if field == wf_top
    then (true, top_window handle st)
    else (
      true,
      record st { windows = update_window handle (with_field text_height field v) st.windows },
    )

unfoldable pub wind_set : ℤ → ℤ → ℕ → Grect → AesState → Bool × AesState
unfolding set_found
wind_set text_height handle field v st =
    set_found text_height handle field v st (find_window handle st.windows)

-- The walk over the visible rectangles that a program keeps between calls; the count is the length.
pub record Enumeration : Type 0 where
  pub enum_handle : ℤ
  pub enum_stage : Bool
  pub enum_index : ℕ
  pub enum_rects : List Grect

unfoldable pub start_walk : ℤ → List Grect → Grect × Enumeration
start_walk handle [] =
    (no_rect, record { enum_handle = handle; enum_stage = false; enum_index = 0; enum_rects = [] })
start_walk handle (r ∷ rs) =
    (r, record { enum_handle = handle; enum_stage = true; enum_index = 0; enum_rects = r ∷ rs })

abbrev rect_or_none : Option Grect → Grect
rect_or_none none = no_rect
rect_or_none (some r) = r

-- `enum_rects` of the stopped walk is empty: only the first `enum_count` are ever read.
unfoldable pub next_of_walk : ℤ → Enumeration → Grect × Enumeration
next_of_walk handle e =
    if eqb_ℤ e.enum_handle handle && (e.enum_stage && ltb (e.enum_index + 1) (length e.enum_rects))
    then (
      rect_or_none (get_elem? e.enum_rects (e.enum_index + 1)),
      record e { enum_index = e.enum_index + 1 },
    )
    else (no_rect, record e { enum_stage = false; enum_index = 0; enum_rects = [] })

-- The highest open window but the top one.
unfoldable pub find_below_from : Window → Option Window → List Window → Option Window
find_below_from top best [] = best
find_below_from top best (w ∷ ws) =
    find_below_from top
      (if w.used && (w.open_flag && (not (eqb_ℤ w.handle top.handle) && is_higher w best))
        then some w
        else best)
      ws

unfoldable pub top_words : List Window → Option Window → Grect
unfolding find_below_from
top_words ws none = no_rect
top_words ws (some top) =
    set_rect top.handle top.owner (handle_of (find_below_from top none ws)) (pos 0)

-- The height of the screen below the menu bar, and the rectangle of the whole of it.
unfoldable pub full_rect : ℤ → ℤ → ℤ → Grect
full_rect width height menu_height =
    set_rect (pos 0) menu_height width (max_word (pos 0) (to_word (height -ℤ menu_height)))

-- The fields that only read a window; `full` is the rectangle of a full window.
unfoldable pub window_words : Grect → ℕ → Window → Grect
window_words full field w =
    if field == wf_kind
    then set_rect (to_word (pos w.kind)) (pos 0) (pos 0) (pos 0)
    else if field == wf_wxywh
    then w.outer
    else if field == wf_cxywh
    then w.work
    else if field == wf_pxywh
    then w.previous_outer
    else if field == wf_fxywh
    then full
    else if field == wf_hslide
    then set_rect w.hslide (pos 0) (pos 0) (pos 0)
    else if field == wf_vslide
    then set_rect w.vslide (pos 0) (pos 0) (pos 0)
    else if field == wf_hslsiz
    then set_rect w.hslsize (pos 0) (pos 0) (pos 0)
    else if field == wf_vslsiz
    then set_rect w.vslsize (pos 0) (pos 0) (pos 0)
    else w.work

-- `whole` is what the call answers for a field that does not walk.
unfoldable pub walk_or : AesState → ℤ → ℕ → Grect → Enumeration → Grect × Enumeration
unfolding start_walk next_of_walk
walk_or st handle field whole e =
    if field == wf_firstxywh
    then start_walk handle (build_visible_rects st handle (pos 64))
    else if field == wf_nextxywh
    then next_of_walk handle e
    else (whole, e)

unfoldable pub get_found :
    AesState → Grect → ℤ → ℕ → Enumeration → Option Window → Option (Grect × Enumeration)
unfolding walk_or window_words
get_found st full handle field e none = none
get_found st full handle field e (some w) =
    some (walk_or st handle field (window_words full field w) e)

unfoldable pub wind_get : AesState → Grect → ℤ → ℕ → Enumeration → Option (Grect × Enumeration)
unfolding get_found walk_or top_words
wind_get st full handle field e =
    if field == wf_top
    then some (top_words st.windows (find_top_window st.windows), e)
    else if eqb_ℤ handle (pos 0)
    then some (walk_or st (pos 0) field full e)
    else get_found st full handle field e (find_window handle st.windows)
