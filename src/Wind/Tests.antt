-- ===== src/Wind/Tests.antt =====
-- A table of two slots, and the theorems on src/aes/window.c.
use gem.Base.{◌≡◌, ◌⊎◌, refl, inr, true, false, [], ◌∷◌, ◌++◌, none, some, arith, replicate, All}
use gem.Base.Int.{pos, ◌+ℤ◌, ◌-ℤ◌, to_word}
use gem.Rect.{
  Grect, set_rect, is_empty, rects_intersect, intersect_rects, subtract_rect, last, min_word,
  max_word,
}
use gem.Window.{Window, AesState, find_window, find_top_window}
use gem.Visible.{build_visible_rects}
use gem.Chrome.{
  left_border, right_border, bottom_border, title_height, has_title, has_compact_sizer, has_vscroll,
  scroll_span, has_hscroll, menu_chrome_height,
}
use gem.Chrome.Inside.{IsFont}
use gem.Wind.{zero_window, wind_open, wind_find, wind_calc, wc_border, wc_work, no_rect}
use gem.Wind.Fields.{Enumeration, wind_set, wind_get, wf_cxywh, wf_firstxywh}
use gem.Wind.Slots.{Placed, Apart}
use gem.Wind.Table.{IsDesk, runs, create, open_at, close, delete, top, set_field, runs-IsDesk}
use gem.Wind.Top.{find_top_window-wind_open}
use gem.Wind.Find.{IsHighest, has_point, wind_find-IsHighest}
use gem.Wind.Calc.{wind_calc-inverse, wind_calc-narrow, IsClose, HasRoom, frame, inner}
use gem.Wind.Walk.{read_on, wind_get-walk}
use gem.Wind.Work.{wind_get-wind_set}

abbrev box : Grect
box = set_rect (pos 10) (pos 20) (pos 200) (pos 100)

-- A window with a frame that is created and not open.
abbrev shut : Window
shut = record zero_window { used = true; handle = pos 1; z_order = 3; kind = 1; outer = box }

abbrev shown : Window
shown = record shut { open_flag = true; work = set_rect (pos 11) (pos 40) (pos 198) (pos 79) }

abbrev desk_with : Window → AesState
desk_with w = record {
  windows = w ∷ zero_window ∷ [];
  next_window_z = 10;
  current_app_id = pos 1;
  modal_cover = none;
  modal_form_owner_app_id = pos 0;
  modal_form_z = 0;
  modal_form_rect = no_rect;
  desktop = set_rect (pos 0) (pos 0) (pos 640) (pos 400);
}

shut-IsDesk : IsDesk (desk_with shut)
unfolding Placed Apart
shut-IsDesk = record {
  placed = (λ u. refl, (λ u. cc, tt));
  before = (λ u. omega arith, (λ u. cc, tt));
  apart = ((λ u v. cc, tt), (tt, tt));
  in_use = (λ o. cc, (λ o. cc, tt));
}

shown-IsDesk : IsDesk (desk_with shown)
unfolding Placed Apart
shown-IsDesk = record {
  placed = (λ u. refl, (λ u. cc, tt));
  before = (λ u. omega arith, (λ u. cc, tt));
  apart = ((λ u v. cc, tt), (tt, tt));
  in_use = (λ o. refl, (λ o. cc, tt));
}

runs-IsDesk_example : IsDesk (
    runs
      (pos 8)
      (create 1 box
        ∷ open_at (pos 2) box
        ∷ top (pos 1)
        ∷ set_field (pos 2) 5 box
        ∷ close (pos 2)
        ∷ delete (pos 1)
        ∷ [])
      (desk_with shut))
runs-IsDesk_example = runs-IsDesk (pos 8) _ (desk_with shut) (omega arith) shut-IsDesk

shut_found : find_window (pos 1) (desk_with shut).windows ≡ some shut
unfolding find_window
shut_found = refl

find_top_window-wind_open_example :
    ((wind_open (pos 8) (pos 1) box (desk_with shut)).0 ≡ true)
    × (find_top_window (wind_open (pos 8) (pos 1) box (desk_with shut)).1.windows
        ≡ some (record shut {
          z_order = 10;
          open_flag = true;
          iconified = false;
          outer = box;
          previous_outer = box;
          restored_outer = box;
          work = inner (frame (pos 8) 1) box;
        }))
find_top_window-wind_open_example =
    find_top_window-wind_open (pos 8) (pos 1) box (desk_with shut) shut shut-IsDesk shut_found refl

wind_find-IsHighest_example :
    ((wind_find (pos 30) (pos 40) (desk_with shown) ≡ pos 0)
      × All (λ v. has_point (pos 30) (pos 40) v ≡ false) (desk_with shown).windows)
    ⊎ IsHighest
        (pos 30)
        (pos 40)
        (desk_with shown).windows
        (wind_find (pos 30) (pos 40) (desk_with shown))
wind_find-IsHighest_example = wind_find-IsHighest (pos 30) (pos 40) (desk_with shown) shown-IsDesk

eight_is_allowed : IsFont (pos 8)
unfolding IsFont
eight_is_allowed = omega arith

box-HasRoom : HasRoom (pos 8) 1 box
unfolding left_border right_border bottom_border title_height has_title has_compact_sizer
    has_vscroll scroll_span has_hscroll menu_chrome_height ◌+ℤ◌ ◌-ℤ◌ to_word
box-HasRoom = omega arith

box-IsClose : IsClose box
box-IsClose = omega arith

wind_calc-inverse_example : wind_calc (pos 8) wc_work 1 (wind_calc (pos 8) wc_border 1 box) ≡ box
wind_calc-inverse_example = wind_calc-inverse (pos 8) 1 box eight_is_allowed box-IsClose box-HasRoom

-- A work area of one column in a frame of two.
abbrev sliver : Grect
sliver = set_rect (pos 10) (pos 20) (pos 1) (pos 100)

wind_calc-narrow_example : (wind_calc (pos 8) wc_border 1 sliver).g_w ≡ pos 1 +ℤ pos 1
unfolding left_border right_border has_compact_sizer has_vscroll ◌+ℤ◌
wind_calc-narrow_example =
    wind_calc-narrow (pos 8) 1 sliver eight_is_allowed (omega arith) (omega arith)

abbrev no_walk : Enumeration
no_walk = record { enum_handle = pos 0; enum_stage = false; enum_index = 0; enum_rects = [] }

wind_get-wind_set_example :
    ((wind_set (pos 8) (pos 1) wf_cxywh box (desk_with shut)).0 ≡ true)
    × (wind_get
          (wind_set (pos 8) (pos 1) wf_cxywh box (desk_with shut)).1
          box
          (pos 1)
          wf_cxywh
          no_walk
        ≡ some (box, no_walk))
wind_get-wind_set_example =
    wind_get-wind_set (pos 8) (pos 1) box box no_walk (desk_with shut) shut shut_found refl
      eight_is_allowed box-IsClose box-HasRoom

shown_found : find_window (pos 1) (desk_with shown).windows ≡ some shown
unfolding find_window
shown_found = refl

visible_of_shown : build_visible_rects (desk_with shown) (pos 1) (pos 64) ≡ shown.work ∷ []
unfolding build_visible_rects find_window subtract_rect is_empty rects_intersect intersect_rects
    last min_word max_word ◌+ℤ◌ ◌-ℤ◌ to_word
visible_of_shown = refl

wind_get-walk_example :
    read_on 2
      (desk_with shown)
      box
      (pos 1)
      (wind_get (desk_with shown) box (pos 1) wf_firstxywh no_walk)
    ≡ build_visible_rects (desk_with shown) (pos 1) (pos 64) ++ replicate 2 no_rect
wind_get-walk_example =
    wind_get-walk 2 2 (desk_with shown) box (pos 1) no_walk (inr (shown, shown_found))
      (rw visible_of_shown refl)
