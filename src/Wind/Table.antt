-- ===== src/Wind/Table.antt =====
-- The calls of src/aes/window.c keep the table of windows in order.
use gem.Base.{two32}
use gem.Base.{inl, inr, if_both}
use gem.Base.{
  ℕ, ◌+◌, ◌%◌, ◌≤◌, ◌<◌, ◌≡◌, refl, Bool, not, ◌||◌, List, [], ◌∷◌, Option, none, some, arith,
  length, ◌==◌,
}
use gem.Base.Int.{ℤ}
use gem.Rect.{Grect}
use gem.Window.{Window, AesState, find_window, find_top_window}
use gem.Chrome.{compute_work}
use gem.Wind.{
  zero_window, bump_z, created, place, take_place, wind_create, opened, open_found, wind_open,
  closed, change_found, wind_close, wind_delete, raised, is_top, top_found, top_window,
}
use gem.Wind.Fields.{moved, with_field, set_found, wind_set, wf_name, wf_info, wf_top}
use gem.Wind.Slots.{IsTable, IsChange, IsMake, update-IsTable, place-TakenBy, take-IsTable}

abbrev pub IsDesk : AesState → Type 0
IsDesk st = IsTable st.next_window_z st.windows

-- The calls that change windows.
pub data Call : Type 0 where
  create : ℕ → Grect → Call
  open_at : ℤ → Grect → Call
  close delete top : ℤ → Call
  set_field : ℤ → ℕ → Grect → Call

pub run : ℤ → Call → AesState → AesState
run t (create kind rect) st = (wind_create t kind rect st).1
run t (open_at handle rect) st = (wind_open t handle rect st).1
run t (close handle) st = (wind_close handle st).1
run t (delete handle) st = (wind_delete handle st).1
run t (top handle) st = top_window handle st
run t (set_field handle field v) st = (wind_set t handle field v st).1

opened-IsChange : (t : ℤ) (rect : Grect) (z : ℕ) → IsChange z z (opened t rect)
unfolding opened compute_work
opened-IsChange t rect z = record {
  counts = omega arith;
  keeps_handle = λ w u u'. refl;
  keeps_order = λ w u u'. inl refl;
  keeps_use = λ w u o. u;
}

raised-opened-IsChange :
    (t : ℤ) (rect : Grect) (z : ℕ) → IsChange z (z + 1) (λ w. opened t rect (raised z w))
unfolding opened compute_work
raised-opened-IsChange t rect z = record {
  counts = omega arith;
  keeps_handle = λ w u u'. refl;
  keeps_order = λ w u u'. inr (refl, omega arith);
  keeps_use = λ w u o. u;
}

closed-IsChange : (z : ℕ) → IsChange z z closed
closed-IsChange z = record {
  counts = omega arith;
  keeps_handle = λ w u u'. refl;
  keeps_order = λ w u u'. inl refl;
  keeps_use = λ w u o. u;
}

delete-IsChange : (z : ℕ) → IsChange z z (λ w. zero_window)
delete-IsChange z = record {
  counts = omega arith;
  keeps_handle = λ w u u'. cc;
  keeps_order = λ w u u'. cc;
  keeps_use = λ w u o. cc;
}

raised-IsChange : (z : ℕ) → IsChange z (z + 1) (raised z)
raised-IsChange z = record {
  counts = omega arith;
  keeps_handle = λ w u u'. refl;
  keeps_order = λ w u u'. inr (refl, omega arith);
  keeps_use = λ w u o. u;
}

created-IsMake :
    (t : ℤ) (st : AesState) (kind : ℕ) (rect : Grect)
    → IsMake st.next_window_z (created t st kind rect)
unfolding created compute_work
created-IsMake t st kind rect = record {
  takes = λ i w. refl;
  names = λ i w. refl;
  orders = λ i w. refl;
}

with_field_keeps :
    (t : ℤ) (field : ℕ) (v : Grect) (w : Window)
    → ((with_field t field v w).used ≡ w.used)
      × ((with_field t field v w).handle ≡ w.handle)
      × ((with_field t field v w).z_order ≡ w.z_order)
      × ((with_field t field v w).open_flag ≡ w.open_flag)
unfolding with_field moved compute_work
with_field_keeps t field v w = ground arith

set-IsChange : (t : ℤ) (field : ℕ) (v : Grect) (z : ℕ) → IsChange z z (with_field t field v)
set-IsChange t field v z = record {
  counts = omega arith;
  keeps_handle = λ w u u'. (with_field_keeps t field v w).1;
  keeps_order = λ w u u'. inl (with_field_keeps t field v w).2;
  keeps_use = λ w u o. let k = with_field_keeps t field v w in rw k.0 u;
}

-- The counter of a table that grows stays a `uint32_t`.
bump-IsDesk :
    (st : AesState) (ws : List Window)
    → st.next_window_z + 1 < two32
    → IsTable (st.next_window_z + 1) ws
    → IsDesk (bump_z st ws)
bump-IsDesk st ws room h =
    let same : (st.next_window_z + 1) % two32 ≡ st.next_window_z + 1 = omega arith in rw same h

change-IsDesk :
    (st : AesState) (handle : ℤ) (change : Window → Window) (o : Option Window)
    → IsChange st.next_window_z st.next_window_z change
    → IsDesk st
    → IsDesk (change_found handle change st o).1
change-IsDesk st handle change none c h = h
change-IsDesk st handle change (some w) c h =
    update-IsTable st.next_window_z st.next_window_z handle change c st.windows h

take_place-IsDesk :
    (st : AesState) (make : ℕ → Window → Window) (taken : Option (ℕ × List Window))
    → IsMake st.next_window_z make
    → place make 0 st.windows ≡ taken
    → st.next_window_z + 1 < two32
    → IsDesk st
    → IsDesk (take_place st taken).1
unfolding take_place
take_place-IsDesk st make none c e room h = h
take_place-IsDesk st make (some (n, ws)) c e room h = bump-IsDesk st ws room (
    take-IsTable st.next_window_z make c n st.windows ws (place-TakenBy make 0 n st.windows ws e) h)

open_found-IsDesk :
    (t : ℤ) (handle : ℤ) (rect : Grect) (st : AesState) (o : Option Window)
    → st.next_window_z + 1 < two32
    → IsDesk st
    → IsDesk (open_found t handle rect st o).1
unfolding open_found
open_found-IsDesk t handle rect st none room h = h
open_found-IsDesk t handle rect st (some w) room h =
    if_both IsDesk w.open_flag
      (update-IsTable st.next_window_z st.next_window_z handle (opened t rect)
        (opened-IsChange t rect st.next_window_z) st.windows h)
      (bump-IsDesk st _ room (
        update-IsTable st.next_window_z (st.next_window_z + 1) handle
          (λ v. opened t rect (raised st.next_window_z v))
          (raised-opened-IsChange t rect st.next_window_z) st.windows h))

top_found-IsDesk :
    (handle : ℤ) (st : AesState) (o : Option Window)
    → st.next_window_z + 1 < two32
    → IsDesk st
    → IsDesk (top_found handle st o)
unfolding top_found
top_found-IsDesk handle st none room h = h
top_found-IsDesk handle st (some w) room h = if_both IsDesk (not w.used || not w.open_flag) h (
    if_both IsDesk (is_top handle (find_top_window st.windows)) h (
      bump-IsDesk st _ room (
        update-IsTable st.next_window_z (st.next_window_z + 1) handle (raised st.next_window_z)
          (raised-IsChange st.next_window_z) st.windows h)))

top_window-IsDesk :
    (handle : ℤ) (st : AesState)
    → st.next_window_z + 1 < two32
    → IsDesk st
    → IsDesk (top_window handle st)
unfolding top_window
top_window-IsDesk handle st room h =
    top_found-IsDesk handle st (find_window handle st.windows) room h

set_found-IsDesk :
    (t handle : ℤ) (field : ℕ) (v : Grect) (st : AesState) (o : Option Window)
    → st.next_window_z + 1 < two32
    → IsDesk st
    → IsDesk (set_found t handle field v st o).1
unfolding set_found
set_found-IsDesk t handle field v st none room h = h
set_found-IsDesk t handle field v st (some w) room h =
    if_both (λ (p : Bool × AesState). IsDesk p.1) (field == wf_name || field == wf_info) h
      (if_both (λ (p : Bool × AesState). IsDesk p.1) (field == wf_top)
        (top_window-IsDesk handle st room h)
        (change-IsDesk st handle (with_field t field v) (some w)
          (set-IsChange t field v st.next_window_z) h))

run-IsDesk :
    (t : ℤ) (c : Call) (st : AesState)
    → st.next_window_z + 1 < two32
    → IsDesk st
    → IsDesk (run t c st)
unfolding run wind_create wind_open wind_close wind_delete wind_set
run-IsDesk t (create kind rect) st room h =
    take_place-IsDesk st (created t st kind rect) (place (created t st kind rect) 0 st.windows)
      (created-IsMake t st kind rect) refl room h
run-IsDesk t (open_at handle rect) st room h =
    open_found-IsDesk t handle rect st (find_window handle st.windows) room h
run-IsDesk t (close handle) st room h =
    change-IsDesk st handle closed (find_window handle st.windows)
      (closed-IsChange st.next_window_z) h
run-IsDesk t (delete handle) st room h =
    change-IsDesk st handle (λ w. zero_window) (find_window handle st.windows)
      (delete-IsChange st.next_window_z) h
run-IsDesk t (top handle) st room h = top_window-IsDesk handle st room h
run-IsDesk t (set_field handle field v) st room h =
    set_found-IsDesk t handle field v st (find_window handle st.windows) room h

-- A call moves the counter by one at most.
abbrev Counts : AesState → AesState → Type 0
Counts st st' = st'.next_window_z ≤ st.next_window_z + 1

take_place-Counts : (st : AesState) (o : Option (ℕ × List Window)) → Counts st (take_place st o).1
unfolding take_place
take_place-Counts st none = omega arith
take_place-Counts st (some (n, ws)) = omega arith

open_found-Counts :
    (t handle : ℤ) (rect : Grect) (st : AesState) (o : Option Window)
    → Counts st (open_found t handle rect st o).1
unfolding open_found
open_found-Counts t handle rect st none = omega arith
open_found-Counts t handle rect st (some w) =
    if_both (Counts st) w.open_flag (omega arith) (omega arith)

top_found-Counts :
    (handle : ℤ) (st : AesState) (o : Option Window) → Counts st (top_found handle st o)
unfolding top_found
top_found-Counts handle st none = omega arith
top_found-Counts handle st (some w) =
    if_both (Counts st) (not w.used || not w.open_flag) (omega arith)
      (if_both (Counts st) (is_top handle (find_top_window st.windows)) (omega arith) (omega arith))

change-Counts :
    (handle : ℤ) (change : Window → Window) (st : AesState) (o : Option Window)
    → Counts st (change_found handle change st o).1
change-Counts handle change st none = omega arith
change-Counts handle change st (some w) = omega arith

set_found-Counts :
    (t handle : ℤ) (field : ℕ) (v : Grect) (st : AesState) (o : Option Window)
    → Counts st (set_found t handle field v st o).1
unfolding set_found top_window
set_found-Counts t handle field v st none = omega arith
set_found-Counts t handle field v st (some w) =
    if_both (λ (p : Bool × AesState). Counts st p.1) (field == wf_name || field == wf_info)
      (omega arith)
      (if_both (λ (p : Bool × AesState). Counts st p.1) (field == wf_top)
        (top_found-Counts handle st (find_window handle st.windows)) (omega arith))

run-Counts : (t : ℤ) (c : Call) (st : AesState) → Counts st (run t c st)
unfolding run wind_create wind_open wind_close wind_delete wind_set top_window
run-Counts t (create kind rect) st =
    take_place-Counts st (place (created t st kind rect) 0 st.windows)
run-Counts t (open_at handle rect) st =
    open_found-Counts t handle rect st (find_window handle st.windows)
run-Counts t (close handle) st = change-Counts handle closed st (find_window handle st.windows)
run-Counts t (delete handle) st =
    change-Counts handle (λ w. zero_window) st (find_window handle st.windows)
run-Counts t (top handle) st = top_found-Counts handle st (find_window handle st.windows)
run-Counts t (set_field handle field v) st =
    set_found-Counts t handle field v st (find_window handle st.windows)

unfoldable pub runs : ℤ → List Call → AesState → AesState
runs t [] st = st
runs t (c ∷ cs) st = runs t cs (run t c st)

-- Over any sequence of calls that create, open, close, delete, top or set windows, as long as the
-- counter of places does not come to 2 ^ 32: when at the start the window in each slot in use has the
-- handle of its slot, no two windows in use have the same place in the order, the counter is ahead of
-- all of them, and only windows in use are open, then so it is at the end.
pub runs-IsDesk :
    (t : ℤ) (cs : List Call) (st : AesState)
    → st.next_window_z + length cs < two32
    → IsDesk st
    → IsDesk (runs t cs st)
unfolding runs
runs-IsDesk t [] st room h = h
runs-IsDesk t (c ∷ cs) st room h =
    let n = run-Counts t c st in
    runs-IsDesk t cs (run t c st) (omega arith) (run-IsDesk t c st (omega arith) h)
