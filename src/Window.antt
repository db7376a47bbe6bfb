-- ===== src/Window.antt =====
-- The window records of the AES and the state that decides which parts of the screen a window owns:
-- `aes_window_t` and the window fields of `aes_state_t` (src/aes/aes_internal.h), with the lookups
-- of src/aes/aes_core.c and src/aes/window_visible.c.
-- A WORD that the code reads only as `!= 0` is a `Bool`. Title and info texts are left out: no function
-- here reads them.
use gem.Base.{ℕ, Bool, true, ◌&&◌, List, [], ◌∷◌, Option, none, some, if◌then◌else◌, ltb}
use gem.Base.Int.{ℤ, eqb_ℤ}
use gem.Rect.{Grect}

pub record Window : Type 0 where
  pub used : Bool
  pub handle : ℤ
  pub owner : ℤ
  pub open_flag : Bool
  pub iconified : Bool
  pub z_order : ℕ
  pub kind : ℕ
  pub outer : Grect
  pub work : Grect
  pub previous_outer : Grect
  pub restored_outer : Grect
  pub hslide : ℤ
  pub vslide : ℤ
  pub hslsize : ℤ
  pub vslsize : ℤ

pub record AesState : Type 0 where
  pub windows : List Window
  pub next_window_z : ℕ
  pub current_app_id : ℤ
  pub modal_cover : Option Grect
  pub modal_form_owner_app_id : ℤ
  pub modal_form_z : ℕ
  pub modal_form_rect : Grect
  pub desktop : Grect

unfoldable pub find_window : ℤ → List Window → Option Window
find_window handle [] = none
find_window handle (w ∷ ws) =
    if w.used && eqb_ℤ w.handle handle then some w else find_window handle ws

-- `best == NULL || window->z_order > best->z_order`
unfoldable pub is_higher : Window → Option Window → Bool
is_higher w none = true
is_higher w (some best) = ltb best.z_order w.z_order

unfoldable pub find_top_from : Option Window → List Window → Option Window
unfolding is_higher
find_top_from best [] = best
find_top_from best (w ∷ ws) =
    find_top_from (if w.used && w.open_flag && is_higher w best then some w else best) ws

unfoldable pub find_top_window : List Window → Option Window
unfolding find_top_from
find_top_window ws = find_top_from none ws
