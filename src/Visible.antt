-- ===== src/Visible.antt =====
-- Which parts of a window show: src/aes/window_visible.c.
-- The array `pending` is a list, its count the length; traces are left out. `layers` is what the
-- loop over `i` meets in turn: each window, then the modal cover, then the modal form, `none` where
-- the body takes `continue`.
pub mod Steps
pub mod Exact
pub mod Windows
mod Tests
use gem.Base.{
  ℕ, ◌+◌, Bool, true, false, ◌&&◌, ◌||◌, not, List, [], ◌∷◌, ◌++◌, Option, none, some,
  if◌then◌else◌, length, ltb, leb,
}
use gem.Base.Int.{ℤ, pos, pos_part, ◌+ℤ◌, ◌-ℤ◌, leb_ℤ, eqb_ℤ, to_word}
use gem.Rect.{Grect, set_rect, is_empty, min_word, max_word, last, subtract_rect}
use gem.Window.{Window, AesState, find_window}

-- The outer rectangle with the shadow of one pixel on the right and below.
unfoldable pub window_cover_rect : Window → Grect
window_cover_rect w =
    if not w.used || not w.open_flag || is_empty w.outer
    then set_rect (pos 0) (pos 0) (pos 0) (pos 0)
    else set_rect w.outer.g_x w.outer.g_y (to_word (w.outer.g_w +ℤ pos 1))
        (to_word (w.outer.g_h +ℤ pos 1))

abbrev pub unless_empty : Grect → Option Grect
unless_empty r = if is_empty r then none else some r

-- The body's tests on one window.
unfoldable pub window_layer : ℤ → ℕ → Window → Option Grect
unfolding window_cover_rect
window_layer handle target_z w =
    if not w.used || not w.open_flag
    then none
    else if eqb_ℤ w.handle handle || leb w.z_order target_z
    then none
    else unless_empty (window_cover_rect w)

unfoldable pub modal_cover_layer : Option Grect → Option Grect
modal_cover_layer none = none
modal_cover_layer (some r) = unless_empty r

unfoldable pub modal_form_layer : AesState → ℕ → Bool → Option Grect
modal_form_layer st target_z modal_form_target =
    if modal_form_target || eqb_ℤ st.modal_form_owner_app_id (pos 0) || leb st.modal_form_z target_z
    then none
    else unless_empty st.modal_form_rect

unfoldable pub window_layers : ℤ → ℕ → List Window → List (Option Grect)
unfolding window_layer
window_layers handle target_z [] = []
window_layers handle target_z (w ∷ ws) =
    window_layer handle target_z w ∷ window_layers handle target_z ws

abbrev pub target_handle : Option Window → ℤ
target_handle none = pos 0
target_handle (some w) = w.handle

unfoldable pub layers : AesState → Option Window → ℕ → Bool → List (Option Grect)
unfolding window_layers modal_cover_layer modal_form_layer
layers st target target_z modal_form_target =
    window_layers (target_handle target) target_z st.windows
    ++ (modal_cover_layer st.modal_cover ∷ modal_form_layer st target_z modal_form_target ∷ [])

-- `for (k = 0; k < fragment_count && next_count < max_rects; ++k)`
unfoldable pub push_fragments : ℕ → List Grect → List Grect → List Grect
push_fragments max_rects next [] = next
push_fragments max_rects next (f ∷ fs) =
    let more = push_fragments max_rects (next ++ (f ∷ [])) fs in
    if ltb (length next) max_rects then more else next

-- The loop over `j`.
unfoldable pub cut_pending : ℕ → Grect → List Grect → List Grect → List Grect
unfolding push_fragments
cut_pending max_rects cover next [] = next
cut_pending max_rects cover next (p ∷ ps) =
    cut_pending max_rects cover
      (push_fragments max_rects next (subtract_rect (some p) (some cover))) ps

-- The loop over `i`: it stops when nothing is pending.
unfoldable pub clip_layers : ℕ → List Grect → List (Option Grect) → List Grect
unfolding cut_pending
clip_layers max_rects [] ls = []
clip_layers max_rects (p ∷ ps) [] = p ∷ ps
clip_layers max_rects (p ∷ ps) (none ∷ ls) = clip_layers max_rects (p ∷ ps) ls
clip_layers max_rects (p ∷ ps) (some cover ∷ ls) =
    clip_layers max_rects (cut_pending max_rects cover [] (p ∷ ps)) ls

unfoldable pub clip_layer_rects :
    AesState → Option Window → ℕ → Bool → Option Grect → ℤ → List Grect
unfolding clip_layers layers
clip_layer_rects st target target_z modal_form_target none max_rects = []
clip_layer_rects st target target_z modal_form_target (some base) max_rects =
    if leb_ℤ max_rects (pos 0) || is_empty base
    then []
    else clip_layers (pos_part (min_word max_rects (pos 64))) (base ∷ [])
        (layers st target target_z modal_form_target)

abbrev pub target_z_order : Option Window → ℕ
target_z_order none = 0
target_z_order (some w) = w.z_order

unfoldable pub clip_visible_rects : AesState → Option Window → Option Grect → ℤ → List Grect
unfolding clip_layer_rects
clip_visible_rects st target base max_rects =
    clip_layer_rects st target (target_z_order target) false base max_rects

unfoldable pub clip_modal_form_rects : AesState → Option Grect → ℤ → List Grect
unfolding clip_layer_rects
clip_modal_form_rects st base max_rects =
    clip_layer_rects st none st.modal_form_z true base max_rects

unfoldable pub build_for_window : AesState → Option Window → ℤ → List Grect
unfolding clip_visible_rects
build_for_window st none max_rects = []
build_for_window st (some w) max_rects =
    if not w.open_flag || is_empty w.work
    then []
    else clip_visible_rects st (some w) (some w.work) max_rects

unfoldable pub build_visible_rects : AesState → ℤ → ℤ → List Grect
unfolding build_for_window
build_visible_rects st handle max_rects =
    if eqb_ℤ handle (pos 0)
    then clip_visible_rects st none (some st.desktop) max_rects
    else build_for_window st (find_window handle st.windows) max_rects

unfoldable pub union_rects : Grect → Grect → Grect
union_rects l r = set_rect x0 y0 (to_word (x1 -ℤ x0 +ℤ pos 1)) (to_word (y1 -ℤ y0 +ℤ pos 1))
  where
    x0 : ℤ
    x0 = min_word l.g_x r.g_x

    y0 : ℤ
    y0 = min_word l.g_y r.g_y

    x1 : ℤ
    x1 = max_word (last l.g_x l.g_w) (last r.g_x r.g_w)

    y1 : ℤ
    y1 = max_word (last l.g_y l.g_h) (last r.g_y r.g_h)
