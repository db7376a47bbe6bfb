-- ===== src/Lock.antt =====
-- The sessions of the server, the applications and the update lock: src/gemd/session.c, the requests
-- of src/gemd/dispatch_aes.c and dispatch_vdi.c that change them, the deadline of the lock in
-- src/gemd/main.c, wind_update of src/aes/window.c and appl_init of src/aes/aes.c.
-- A slot that is not used, and a session that is not open, is `none`. An id is a number; a WORD that
-- is not positive is 0. Windows, menus, messages, drawing and transport are left out.
pub mod Apps
pub mod Ids
pub mod Hold
pub mod Member
pub mod Steps
pub mod Reach
mod Tests
use gem.Base.{two32}
use mathlib.Core.Option
use gem.Wind.{Depths, wind_update, beg_update, end_update}
use gem.Base.{
  ℕ, zero, suc, ◌+◌, ◌-◌, ◌%◌, Bool, true, false, not, ◌&&◌, ◌||◌, List, [], ◌∷◌, Option, none,
  some, if◌then◌else◌, ltb, leb, ◌==◌, length, get_or, set, replicate,
}

pub record App : Type 0 where
  pub id : ℕ
  pub update_depth : ℕ

pub record Session : Type 0 where
  pub app_id : ℕ
  pub standalone : Bool
  pub accepted_at : ℕ
  pub update_started : ℕ

pub record Server : Type 0 where
  pub apps : List (Option App)
  pub update_depth : ℕ
  pub next_app_id : ℕ
  pub sessions : List (Option Session)

abbrev pub max_id : ℕ
max_id = 32767

-- `aes_find_app_by_id`
unfoldable pub find_app : List (Option App) → ℕ → Option App
find_app [] id = none
find_app (none ∷ apps) id = find_app apps id
find_app (some a ∷ apps) id = if a.id == id then some a else find_app apps id

abbrev pub depth_in : Option App → ℕ
depth_in none = 0
depth_in (some a) = a.update_depth

abbrev pub is_found : Option App → Bool
is_found none = false
is_found (some a) = true

-- What an application owes of the lock; nothing when there is none.
unfoldable pub depth_of : List (Option App) → ℕ → ℕ
depth_of apps id = depth_in (find_app apps id)

-- The application that `find_app` finds, with another depth.
unfoldable pub set_depth : List (Option App) → ℕ → ℕ → List (Option App)
set_depth [] id depth = []
set_depth (none ∷ apps) id depth = none ∷ set_depth apps id depth
set_depth (some a ∷ apps) id depth =
    if a.id == id
    then some (record a { update_depth = depth }) ∷ apps
    else some a ∷ set_depth apps id depth

unfoldable pub remove_app : List (Option App) → ℕ → List (Option App)
remove_app [] id = []
remove_app (none ∷ apps) id = none ∷ remove_app apps id
remove_app (some a ∷ apps) id = if a.id == id then none ∷ apps else some a ∷ remove_app apps id

abbrev pub with_head : App → Option (List (Option App)) → Option (List (Option App))
with_head b none = none
with_head b (some more) = some (some b ∷ more)

-- `a` in the first free slot.
unfoldable pub add_app : List (Option App) → App → Option (List (Option App))
add_app [] a = none
add_app (none ∷ apps) a = some (some a ∷ apps)
add_app (some b ∷ apps) a = with_head b (add_app apps a)

abbrev pub next_id : ℕ → ℕ
next_id id = if id == max_id then 1 else id + 1

-- The first id from a candidate on that is not in use; with fuel.
unfoldable pub free_id : ℕ → List (Option App) → ℕ → ℕ
free_id zero apps candidate = candidate
free_id (suc fuel) apps candidate =
    let rest = free_id fuel apps (next_id candidate) in
    if is_found (find_app apps candidate) then rest else candidate

abbrev pub start_id : ℕ → ℕ → ℕ
start_id claim next = if not (claim == 0) then claim else if not (next == 0) then next else 1

abbrev pub started : Server → ℕ → Option (List (Option App)) → ℕ × Server
started s id none = (0, s)
started s id (some apps) = (id, record s { apps = apps; next_app_id = next_id id })

-- `appl_init`; `claim` is the id that the shell has for the caller, or 0.
unfoldable pub appl_init : ℕ → Server → ℕ × Server
appl_init claim s =
    let id = free_id (length s.apps + 1) s.apps (start_id claim s.next_app_id) in
    started s id (add_app s.apps (record { id = id; update_depth = 0 }))

abbrev pub with_depths : ℕ → ℕ → ℕ → Server → Server
with_depths id own all s = record s { apps = set_depth s.apps id own; update_depth = all }

-- `wind_update` of the current application, which Wind has on the two depths alone.
abbrev pub depths_of : List (Option App) → ℕ → ℕ → Depths
depths_of apps id depth = record {
  update_depth = depth;
  app_depth = Option.map (λ a. a.update_depth) (find_app apps id);
}

abbrev pub or_zero : Option ℕ → ℕ
or_zero none = 0
or_zero (some n) = n

abbrev pub with_update : ℕ → Server → Bool × Depths → Server
with_update id s (ok, d) = with_depths id (or_zero d.app_depth) d.update_depth s

unfoldable pub update_lock : ℕ → ℕ → Server → Server
update_lock id flag s = with_update id s (wind_update flag (depths_of s.apps id s.update_depth))

-- `gemd_cleanup_app`: what the application still owes is ended, and its slot is freed.
unfoldable pub unwind : ℕ → ℕ → Server → Server
unwind zero id s = s
unwind (suc owed) id s = unwind owed id (update_lock id end_update s)

abbrev pub drop_app : ℕ → Server → Server
drop_app id s = record s { apps = remove_app s.apps id }

unfoldable pub cleanup_app : ℕ → Server → Server
cleanup_app id s = if id == 0 then s else drop_app id (unwind (depth_of s.apps id) id s)

abbrev pub session_at : Server → ℕ → Option Session
session_at s i = get_or s.sessions i none

abbrev pub with_session : ℕ → Option Session → Server → Server
with_session i o s = record s { sessions = set s.sessions i o }

-- `gemd_close_session`
abbrev pub close_open : ℕ → Option Session → Server → Server
close_open i none s = s
close_open i (some c) s = with_session i none (cleanup_app c.app_id s)

unfoldable pub close_session : ℕ → Server → Server
close_session i s = close_open i (session_at s i) s

-- `gemd_accept_client`, of a peer that it lets in.
unfoldable pub put_session : List (Option Session) → Session → List (Option Session)
put_session [] c = []
put_session (none ∷ slots) c = some c ∷ slots
put_session (some d ∷ slots) c = some d ∷ put_session slots c

unfoldable pub accept_client : ℕ → Server → Server
accept_client now s = record s {
  sessions =
      put_session s.sessions
        (record { app_id = 0; standalone = false; accepted_at = now; update_started = 0 });
}

-- `gemd_session_may_run`
unfoldable pub may_run : Session → Server → Bool
may_run c s = s.update_depth == 0 || ltb 0 (depth_of s.apps c.app_id)

pub data Request : Type 0 where
  ask_init : ℕ → Request
  ask_exit : ℕ → Request
  ask_update : ℕ → ℕ → Request
  ask_standalone : Bool → Request

unfoldable pub any_session : (Session → Bool) → List (Option Session) → Bool
any_session test [] = false
any_session test (none ∷ slots) = any_session test slots
any_session test (some c ∷ slots) = test c || any_session test slots

-- Whether a session other than the i-th passes the test.
abbrev pub any_other : (Session → Bool) → ℕ → Server → Bool
any_other test i s = any_session test (set s.sessions i none)

abbrev pub may_update : ℕ → ℕ → List (Option App) → Bool
may_update flag id apps =
    is_found (find_app apps id)
    && ((flag == beg_update && ltb (depth_of apps id) 64)
        || (flag == end_update && ltb 0 (depth_of apps id)))

-- `gemd_authorized`. The flag of `ask_standalone` says whether it names the server's workstation.
unfoldable pub authorized : ℕ → Session → Request → Server → Bool
authorized i c (ask_init claim) s = not (any_other (λ d. d.standalone) i s)
authorized i c (ask_exit now) s = not (c.app_id == 0)
authorized i c (ask_update flag now) s = not (c.app_id == 0) && may_update flag c.app_id s.apps
authorized i c (ask_standalone same) s = not (c.app_id == 0) && same

abbrev pub with_app : ℕ → Session → ℕ × Server → Server
with_app i c (id, s) = with_session i (some (record c { app_id = id })) s

-- When the application takes the lock, its time begins.
abbrev pub stamped : Session → ℕ → ℕ → Server → Session
stamped c flag now s =
    if is_found (find_app s.apps c.app_id) && (flag == beg_update && depth_of s.apps c.app_id == 0)
    then record c { update_started = now }
    else c

-- `gemd_dispatch` of a request that is authorized.
unfoldable pub dispatch : ℕ → Session → Request → Server → Server
dispatch i c (ask_init claim) s = if c.app_id == 0 then with_app i c (appl_init claim s) else s
dispatch i c (ask_exit now) s =
    with_session i (some (record c { app_id = 0; accepted_at = now })) (cleanup_app c.app_id s)
dispatch i c (ask_update flag now) s =
    update_lock c.app_id flag (with_session i (some (stamped c flag now s)) s)
dispatch i c (ask_standalone same) s =
    if any_other (λ d. not (d.app_id == 0)) i s
    then s
    else with_session i (some (record c { standalone = true })) s

-- A request that is ready runs when the lock allows it; else it waits.
abbrev pub serve : ℕ → Option Session → Request → Server → Server
serve i none r s = s
serve i (some c) r s = if may_run c s && authorized i c r s then dispatch i c r s else s

-- Milliseconds from one time of a 32-bit clock to another.
abbrev pub elapsed : ℕ → ℕ → ℕ
elapsed now begun = (now + two32 - begun) % two32

abbrev pub is_late : ℕ → Session → Server → Bool
is_late now c s =
    (c.app_id == 0 && ltb 5000 (elapsed now c.accepted_at))
    || (ltb 0 (depth_of s.apps c.app_id) && ltb 5000 (elapsed now c.update_started))

abbrev pub expire : ℕ → ℕ → Option Session → Server → Server
expire now i none s = s
expire now i (some c) s = if is_late now c s then close_session i s else s

pub data Event : Type 0 where
  connects : ℕ → Event
  asks : ℕ → Request → Event
  leaves : ℕ → Event
  expires : ℕ → ℕ → Event

unfoldable pub step : Event → Server → Server
step (connects now) s = accept_client now s
step (asks i r) s = serve i (session_at s i) r s
step (leaves i) s = close_session i s
step (expires now i) s = expire now i (session_at s i) s

unfoldable pub run : List Event → Server → Server
run [] s = s
run (e ∷ events) s = run events (step e s)

-- The server as it starts, with 16 slots for applications and 16 for sessions.
abbrev pub new_server : Server
new_server = record {
  apps = replicate 16 none;
  update_depth = 0;
  next_app_id = 1;
  sessions = replicate 16 none;
}
