-- ===== src/Wind/Top.antt =====
-- Which window src/aes/window.c puts on top.
use mathlib.Core.Option
use mathlib.Core.Path.{subst}
use gem.Base.{inl, inr, Bool-cases, if_both, if_inv, if_true, if_false, &&-eq-true}
use gem.Base.{
  ℕ, ◌<◌, ◌≡◌, ◌∙◌, sym, ap, refl, Bool, true, false, ◌&&◌, List, [], ◌∷◌, Option, none, some,
  if◌then◌else◌, arith, All,
}
use gem.Base.Int.{ℤ, eqb_ℤ}
use gem.Rect.{Grect}
use gem.Window.{Window, AesState, find_window, find_top_from, find_top_window, is_higher}
use gem.Chrome.{
  compute_work, work_rect, left_border, right_border, bottom_border, title_height, has_title,
  has_compact_sizer, has_vscroll, scroll_span, has_hscroll,
}
use gem.Wind.Calc.{frame, inner}
use gem.Wind.{update_window, bump_z, opened, open_found, wind_open, raised}
use gem.Wind.Slots.{Before}
use gem.Wind.Table.{IsDesk}

BestBelow : ℕ → Option Window → Type 0
BestBelow z none = Unit
BestBelow z (some w) = w.z_order < z

stays_top :
    (top : Window) (ws : List Window)
    → All (Before top.z_order) ws
    → find_top_from (some top) ws ≡ some top
unfolding find_top_from is_higher
stays_top top [] h = refl
stays_top top (w ∷ ws) h = ground (arith, stays_top top ws, h.0)

higher_best :
    (z : ℕ) (w : Window) (best : Option Window)
    → BestBelow z best
    → w.z_order ≡ z
    → is_higher w best ≡ true
unfolding BestBelow is_higher
higher_best z w none b e = refl
higher_best z w (some v) b e = ground arith

next_best :
    (z : ℕ) (w : Window) (best : Option Window)
    → BestBelow z best
    → Before z w
    → BestBelow z (if w.used && w.open_flag && is_higher w best then some w else best)
unfolding BestBelow
next_best z w best b h = elim (Bool-cases w.used) [
  | inl u ↦ if_both (BestBelow z) (w.used && w.open_flag && is_higher w best) (h u) b
  | inr u ↦ rw u b
]

all_true : (a b c : Bool) → a ≡ true → b ≡ true → c ≡ true → (a && b && c) ≡ true
all_true a b c h k l = ground arith

module _ (z : ℕ) (handle : ℤ) (change : Window → Window) (w : Window)
    (used : (change w).used ≡ true) (shown : (change w).open_flag ≡ true)
    (order : (change w).z_order ≡ z) where
  top_of_update :
      (ws : List Window) (best : Option Window)
      → All (Before z) ws
      → BestBelow z best
      → find_window handle ws ≡ some w
      → find_top_from best (update_window handle change ws) ≡ some (change w)
  unfolding find_window update_window find_top_from
  top_of_update [] best b k e = cc
  top_of_update (v ∷ vs) best b k e =
      elim (if_inv (v.used && eqb_ℤ v.handle handle) (some v) (find_window handle vs) e) [
        | inl (t, same) ↦
            let vw = Option.some-injective _ _ same in
            rw t (
              rw vw (
                ap (λ o. find_top_from o vs)
                  (if_true _ (some (change w)) best
                    (all_true _ _ _ used shown (higher_best z (change w) best k order)))
                ∙ stays_top (change w) vs (subst (λ n. All (Before n) vs) (sym order) b.1)))
        | inr (t, rest) ↦ rw t (
            top_of_update vs (if v.used && v.open_flag && is_higher v best then some v else best)
              b.1 (next_best z v best k b.0) rest)
      ]

used_of_found :
    (handle : ℤ) (ws : List Window) (w : Window) → find_window handle ws ≡ some w → w.used ≡ true
unfolding find_window
used_of_found handle [] w e = cc
used_of_found handle (v ∷ vs) w e =
    elim (if_inv (v.used && eqb_ℤ v.handle handle) (some v) (find_window handle vs) e) [
      | inl (t, same) ↦
          ap (λ (u : Window). u.used) (sym (Option.some-injective _ _ same)) ∙ (&&-eq-true _ _ t).0
      | inr (t, rest) ↦ used_of_found handle vs w rest
    ]

open_closed :
    (t handle : ℤ) (rect : Grect) (st : AesState) (w : Window)
    → w.open_flag ≡ false
    → open_found t handle rect st (some w) ≡ (
      true,
      bump_z st (update_window handle (λ v. opened t rect (raised st.next_window_z v)) st.windows),
    )
unfolding open_found
open_closed t handle rect st w o = ap (λ (s : AesState). (true, s)) (if_false w.open_flag _ _ o)

wind_open_closed :
    (t handle : ℤ) (rect : Grect) (st : AesState) (w : Window)
    → find_window handle st.windows ≡ some w
    → w.open_flag ≡ false
    → wind_open t handle rect st ≡ (
      true,
      bump_z st (update_window handle (λ v. opened t rect (raised st.next_window_z v)) st.windows),
    )
unfolding wind_open
wind_open_closed t handle rect st w e o =
    ap (open_found t handle rect st) e ∙ open_closed t handle rect st w o

-- What `opened` and `raised` leave in a window, with the work area from the sizes of its frame.
opened-raised :
    (t : ℤ) (rect : Grect) (z : ℕ) (w : Window)
    → opened t rect (raised z w) ≡ record w {
      z_order = z;
      open_flag = true;
      iconified = false;
      outer = rect;
      previous_outer = rect;
      restored_outer = rect;
      work = inner (frame t w.kind) rect;
    }
unfolding opened compute_work work_rect left_border right_border title_height bottom_border
    has_title has_compact_sizer has_vscroll scroll_span has_hscroll
opened-raised t rect z w = refl

-- A window that is opened while it is closed comes on top: when the table is in order, as `IsDesk`
-- says, the counter does not come to 2 ^ 32, and `w` is the window with the handle and not open, then
-- `wind_open` succeeds, and the top window after it is `w` changed in exactly this: it is open and not
-- iconified, its outer rectangle, the previous one and the one to restore are the rectangle passed,
-- its place in the order is the counter's value before the call, and its work area is that rectangle
-- moved in by the left border and the title, with its width less the left and right borders and its
-- height less the title and the bottom border of its kind (as 16-bit words, no size below zero).
pub find_top_window-wind_open :
    (t handle : ℤ) (rect : Grect) (st : AesState) (w : Window)
    → IsDesk st
    → find_window handle st.windows ≡ some w
    → w.open_flag ≡ false
    → ((wind_open t handle rect st).0 ≡ true)
      × (find_top_window (wind_open t handle rect st).1.windows
          ≡ some (record w {
            z_order = st.next_window_z;
            open_flag = true;
            iconified = false;
            outer = rect;
            previous_outer = rect;
            restored_outer = rect;
            work = inner (frame t w.kind) rect;
          }))
unfolding find_top_window opened compute_work BestBelow
find_top_window-wind_open t handle rect st w h e o =
    let done = wind_open_closed t handle rect st w e o in
    (
      ap (λ (p : Bool × AesState). p.0) done,
      ap (λ (p : Bool × AesState). find_top_from none p.1.windows) done
          ∙ top_of_update st.next_window_z handle (λ v. opened t rect (raised st.next_window_z v)) w
              (used_of_found handle st.windows w e) refl refl st.windows none h.before tt e
          ∙ ap some (opened-raised t rect st.next_window_z w),
    )
