-- ===== src/Wind/Work.antt =====
-- Setting the work area of a window (`wind_set` with WF_CXYWH, src/aes/window.c), and reading it back.
use gem.Base.{inl, inr, if_inv, if_true}
use gem.Base.{◌≡◌, ◌∙◌, refl, ap, true, false, ◌&&◌, List, [], ◌∷◌, some}
use gem.Base.Int.{ℤ, pos, eqb_ℤ}
use mathlib.Core.Option
use gem.Rect.{Grect}
use gem.Window.{Window, AesState, find_window}
use gem.Chrome.{
  left_border, right_border, bottom_border, title_height, work_rect, compute_work, has_title,
  has_compact_sizer, has_vscroll, scroll_span, has_hscroll,
}
use gem.Chrome.Inside.{IsFont}
use gem.Wind.{update_window, wind_calc, wc_border}
use gem.Wind.Fields.{
  Enumeration, moved, with_field, set_found, wind_set, get_found, wind_get, window_words, walk_or,
  wf_cxywh,
}
use gem.Wind.Calc.{frame, inner, HasRoom, IsClose, close_span, calc_border, inner-grown}

-- The work area that `aes_compute_work` makes rests on the kind and the outer rectangle alone.
moved-work :
    (t : ℤ) (rect : Grect) (w : Window) → (moved t rect w).work ≡ inner (frame t w.kind) rect
unfolding moved compute_work work_rect left_border right_border title_height bottom_border has_title
    has_compact_sizer has_vscroll scroll_span has_hscroll
moved-work t rect w = refl

with_field-work :
    (t : ℤ) (w : Window) (r : Grect)
    → IsFont t
    → IsClose r
    → HasRoom t w.kind r
    → (with_field t wf_cxywh r w).work ≡ r
unfolding with_field
with_field-work t w r font close room =
    moved-work t (wind_calc t wc_border w.kind r) w
    ∙ ap (inner (frame t w.kind)) (calc_border t w.kind r font close room)
    ∙ inner-grown t w.kind font r (close_span r.g_x r.g_w close.0) (close_span r.g_y r.g_h close.1)
        room

module _ (handle : ℤ) (change : Window → Window) (w : Window) (used : (change w).used ≡ w.used)
    (same : (change w).handle ≡ w.handle) where
  found_after :
      (ws : List Window)
      → find_window handle ws ≡ some w
      → find_window handle (update_window handle change ws) ≡ some (change w)
  unfolding find_window update_window
  found_after [] e = cc
  found_after (v ∷ vs) e =
      elim (if_inv (v.used && eqb_ℤ v.handle handle) (some v) (find_window handle vs) e) [
        | inl (t, is) ↦
            let vw = Option.some-injective _ _ is in
            let t' = rw vw at t in
            rw t (
              rw vw (
                if_true ((change w).used && eqb_ℤ (change w).handle handle) (some (change w))
                  (find_window handle vs) (rw (used, same) t')))
        | inr (t, rest) ↦ rw t (rw t (found_after vs rest))
      ]

-- For a font at most 1000 pixels high, a window in use, and a work area whose position and sizes are
-- at most 10000 and whose sizes are at least those of the frame of the window's kind: `wind_set` with
-- WF_CXYWH succeeds, and `wind_get` with WF_CXYWH then answers exactly this work area.
pub wind_get-wind_set :
    (t handle : ℤ) (full r : Grect) (e : Enumeration) (st : AesState) (w : Window)
    → find_window handle st.windows ≡ some w
    → eqb_ℤ handle (pos 0) ≡ false
    → IsFont t
    → IsClose r
    → HasRoom t w.kind r
    → ((wind_set t handle wf_cxywh r st).0 ≡ true)
      × (wind_get (wind_set t handle wf_cxywh r st).1 full handle wf_cxywh e ≡ some (r, e))
unfolding wind_set wind_get set_found get_found walk_or window_words with_field moved compute_work
wind_get-wind_set t handle full r e st w found other font close room =
    let change = with_field t wf_cxywh r in
    let after = found_after handle change w refl refl st.windows found in
    let area = with_field-work t w r font close room in
    (rw found refl, rw found (rw other (rw after (rw area refl))))
