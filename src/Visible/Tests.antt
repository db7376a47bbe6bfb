-- ===== src/Visible/Tests.antt =====
-- Three windows, one above the other, and the theorems on what shows of the lowest.
use gem.Base.{false}
use gem.Base.{ℕ, ◌≡◌, refl, true, false, not, ◌&&◌, [], ◌∷◌, some, none, arith, bit}
use gem.Base.Int.{ℤ, pos, ◌+ℤ◌, ◌-ℤ◌, to_word}
use gem.Rect.{
  point_in_rect, is_empty, rects_intersect, Grect, set_rect, last, min_word, max_word,
  intersect_rects, subtract_rect,
}
use gem.Rect.Subtract.{FitsRect, hits, holds}
use gem.Window.{Window, AesState, find_window, find_top_window}
use gem.Visible.{layers, clip_layer_rects, clip_visible_rects, build_visible_rects}
use gem.Visible.Exact.{LayersFit, hidden, clip-exact}
use gem.Visible.Windows.{IsAbove, clip-under_window}

abbrev window : ℤ → ℕ → Grect → Grect → Window
window handle z outer work = record {
  used = true;
  handle = handle;
  owner = pos 1;
  open_flag = true;
  iconified = false;
  z_order = z;
  kind = 1;
  outer = outer;
  work = work;
  previous_outer = outer;
  restored_outer = outer;
  hslide = pos 0;
  vslide = pos 0;
  hslsize = pos 0;
  vslsize = pos 0;
}

abbrev low : Window
low =
    window (pos 1) 1 (set_rect (pos 0) (pos 0) (pos 100) (pos 100))
      (set_rect (pos 1) (pos 20) (pos 98) (pos 78))

abbrev high : Window
high =
    window (pos 2) 5 (set_rect (pos 50) (pos 50) (pos 30) (pos 20))
      (set_rect (pos 51) (pos 60) (pos 28) (pos 8))

abbrev screen : AesState
screen = record {
  windows = low ∷ high ∷ [];
  next_window_z = 10;
  current_app_id = pos 1;
  modal_cover = none;
  modal_form_owner_app_id = pos 0;
  modal_form_z = 0;
  modal_form_rect = set_rect (pos 0) (pos 0) (pos 0) (pos 0);
  desktop = set_rect (pos 0) (pos 0) (pos 640) (pos 400);
}

low-FitsRect : FitsRect low.work
unfolding ◌+ℤ◌
low-FitsRect = omega arith

layers-LayersFit : LayersFit (layers screen (some low) 1 false)
unfolding layers is_empty ◌+ℤ◌ to_word
layers-LayersFit = omega arith

high-IsAbove : IsAbove (pos 1) 1 high
unfolding ◌+ℤ◌
high-IsAbove = record {
  in_use = refl;
  is_open = refl;
  other = refl;
  higher = refl;
  outer_fits = omega arith;
  shadow_fits = omega arith;
}

-- The shadow of the upper window takes column 80 and row 70.
visible_of_low :
    build_visible_rects screen (pos 1) (pos 64)
    ≡ set_rect (pos 1) (pos 20) (pos 98) (pos 30)
      ∷ set_rect (pos 1) (pos 71) (pos 98) (pos 27)
      ∷ set_rect (pos 1) (pos 50) (pos 49) (pos 21)
      ∷ set_rect (pos 81) (pos 50) (pos 18) (pos 21)
      ∷ []
unfolding build_visible_rects find_window subtract_rect is_empty rects_intersect intersect_rects
    last min_word max_word ◌+ℤ◌ ◌-ℤ◌ to_word
visible_of_low = refl

top_is_high : find_top_window screen.windows ≡ some high
unfolding find_top_window
top_is_high = refl

clip-exact_example :
    hits (pos 60) (pos 30) (clip_layer_rects screen (some low) 1 false (some low.work) (pos 64))
    ≡ bit (
        holds (pos 60) (pos 30) low.work
        && not (hidden (pos 60) (pos 30) (layers screen (some low) 1 false)))
unfolding layers is_empty ◌+ℤ◌ to_word
clip-exact_example =
    clip-exact screen (some low) 1 false low.work (pos 64) (pos 60) (pos 30) low-FitsRect
      layers-LayersFit (omega arith) (omega arith)

clip-under_window_example :
    hits (pos 80) (pos 70) (clip_visible_rects screen (some low) (some low.work) (pos 3)) ≡ 0
unfolding point_in_rect ◌+ℤ◌
clip-under_window_example =
    clip-under_window screen (some low) low.work (pos 3) (pos 80) (pos 70) 1 high low-FitsRect
      layers-LayersFit refl high-IsAbove refl
