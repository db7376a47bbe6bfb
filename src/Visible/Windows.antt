-- ===== src/Visible/Windows.antt =====
-- What aes_clip_visible_rects and aes_build_visible_rects (src/aes/window_visible.c) say of the
-- windows on the screen.
use gem.Base.{
  ℕ, zero, suc, ◌≤◌, ◌≡◌, refl, ap, ◌∙◌, Bool, true, false, not, ◌&&◌, ◌||◌, List, [], ◌∷◌, ◌++◌,
  Option, none, some, arith, bit, get_elem?, leb,
}
use gem.Base.Int.{ℤ, pos, ◌+ℤ◌, eqb_ℤ, to_word-id}
use gem.Rect.{Grect, set_rect}
use gem.Rect.Subtract.{FitsRect, hits, holds, is_empty-FitsRect}
use gem.Window.{Window, AesState}
use gem.Visible.{
  window_layer, window_layers, layers, clip_visible_rects, target_handle, target_z_order,
}
use gem.Visible.Exact.{LayersFit, hidden, clip_sound}

-- The outer rectangle of a window with its shadow, before any cast.
abbrev pub with_shadow : Window → Grect
with_shadow w = set_rect w.outer.g_x w.outer.g_y (w.outer.g_w +ℤ pos 1) (w.outer.g_h +ℤ pos 1)

-- `w` is shown above the layer `z`, and is not the window `handle`.
pub record IsAbove (handle : ℤ) (z : ℕ) (w : Window) : Type 0 where
  pub in_use : w.used ≡ true
  pub is_open : w.open_flag ≡ true
  pub other : eqb_ℤ w.handle handle ≡ false
  pub higher : leb w.z_order z ≡ false
  pub outer_fits : FitsRect w.outer
  pub shadow_fits : FitsRect (with_shadow w)

layer_of_above :
    (handle : ℤ) (z : ℕ) (w : Window)
    → IsAbove handle z w
    → window_layer handle z w ≡ some (with_shadow w)
unfolding window_layer
layer_of_above handle z w a =
    rw
      (
        a.in_use,
        a.is_open,
        a.other,
        a.higher,
        is_empty-FitsRect w.outer a.outer_fits,
        to_word-id (w.outer.g_w +ℤ pos 1) a.shadow_fits.across.size_word,
        to_word-id (w.outer.g_h +ℤ pos 1) a.shadow_fits.down.size_word,
        is_empty-FitsRect (with_shadow w) a.shadow_fits,
      )
      refl

or_true : (a b : Bool) → b ≡ true → (a || b) ≡ true
or_true a b h = ground arith

hidden-append :
    (x y : ℤ) (ls ms : List (Option Grect))
    → hidden x y (ls ++ ms) ≡ (hidden x y ls || hidden x y ms)
hidden-append x y [] ms = refl
hidden-append x y (none ∷ ls) ms = hidden-append x y ls ms
hidden-append x y (some c ∷ ls) ms =
    rw (hidden-append x y ls ms) (or_assoc (holds x y c) (hidden x y ls) (hidden x y ms))
  where
    or_assoc : (a b c : Bool) → (a || (b || c)) ≡ ((a || b) || c)
    or_assoc a b c = ground arith

hidden_by_layer :
    (x y : ℤ) (c : Grect) (l : Option Grect) (ls : List (Option Grect))
    → l ≡ some c
    → holds x y c ≡ true
    → hidden x y (l ∷ ls) ≡ true
hidden_by_layer x y c l ls e h = rw (e, h)

hidden_cons :
    (x y : ℤ) (l : Option Grect) (ls : List (Option Grect))
    → hidden x y ls ≡ true
    → hidden x y (l ∷ ls) ≡ true
hidden_cons x y none ls h = h
hidden_cons x y (some c) ls h = or_true (holds x y c) _ h

hidden_by_window :
    (x y : ℤ) (handle : ℤ) (z : ℕ) (ws : List Window) (i : ℕ) (w : Window)
    → get_elem? ws i ≡ some w
    → IsAbove handle z w
    → holds x y (with_shadow w) ≡ true
    → hidden x y (window_layers handle z ws) ≡ true
unfolding window_layers
hidden_by_window x y handle z [] i w e a h = cc
hidden_by_window x y handle z (v ∷ ws) zero w e a h =
    let same : v ≡ w = cc in
    hidden_by_layer x y (with_shadow w) (window_layer handle z v) _
      (ap (window_layer handle z) same ∙ layer_of_above handle z w a) h
hidden_by_window x y handle z (v ∷ ws) (suc i) w e a h =
    hidden_cons x y (window_layer handle z v) _ (hidden_by_window x y handle z ws i w e a h)

or_left : (a b : Bool) → a ≡ true → (a || b) ≡ true
or_left a b h = ground arith

no_hits : (n : ℕ) (a b : Bool) → n ≤ bit (a && not b) → b ≡ true → n ≡ 0
no_hits n a b h e = ground arith

-- No rectangle that a window is told to draw in reaches under a window above it, or under that
-- window's shadow: for a base and covering layers in the range of a WORD, a point of the outer
-- rectangle, grown by one on the right and below, of a window of the list that is above the target
-- lies in none of them.
pub clip-under_window :
    (st : AesState) (target : Option Window) (base : Grect) (max_rects x y : ℤ) (i : ℕ) (w : Window)
    → FitsRect base
    → LayersFit (layers st target (target_z_order target) false)
    → get_elem? st.windows i ≡ some w
    → IsAbove (target_handle target) (target_z_order target) w
    → holds x y (with_shadow w) ≡ true
    → hits x y (clip_visible_rects st target (some base) max_rects) ≡ 0
unfolding clip_visible_rects
clip-under_window st target base max_rects x y i w f l e a h =
    no_hits _ (holds x y base) _
      (clip_sound st target (target_z_order target) false base max_rects x y f l).0
      (unfold layers in
        (hidden-append x y (window_layers (target_handle target) (target_z_order target) st.windows)
            _
          ∙ or_left _ _ (
              hidden_by_window x y (target_handle target) (target_z_order target) st.windows i w e a
                h)))
