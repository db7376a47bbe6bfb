-- ===== src/Lock/Tests.antt =====
-- Two clients of the server, and the theorems on src/gemd/session.c.
use gem.Base.{◌≡◌, refl, true, false, List, [], ◌∷◌, some, arith, All}
use gem.Lock.{
  Session, Event, connects, asks, leaves, ask_init, ask_update, find_app, depth_of, set_depth,
  remove_app, add_app, free_id, appl_init, update_lock, unwind, cleanup_app, session_at,
  close_session, put_session, accept_client, may_run, any_session, authorized, dispatch, step, run,
  new_server,
}
use gem.Wind.{wind_update}
use gem.Lock.Steps.{IsServer, IsEvent}
use gem.Lock.Reach.{run-IsServer, run-excludes}

-- Both have an application; the first takes the lock, and the second asks for it in vain.
abbrev two_clients : List Event
two_clients =
    connects 10
    ∷ connects 20
    ∷ asks 0 (ask_init 0)
    ∷ asks 1 (ask_init 7)
    ∷ asks 0 (ask_update 1 100)
    ∷ asks 1 (ask_update 1 110)
    ∷ []

abbrev first : Session
first = record { app_id = 1; standalone = false; accepted_at = 10; update_started = 100 }

abbrev second : Session
second = record { app_id = 7; standalone = false; accepted_at = 20; update_started = 0 }

first_there : session_at (run two_clients new_server) 0 ≡ some first
unfolding run step accept_client put_session dispatch authorized may_run appl_init free_id add_app
    update_lock wind_update set_depth depth_of find_app any_session
first_there = refl

second_there : session_at (run two_clients new_server) 1 ≡ some second
unfolding run step accept_client put_session dispatch authorized may_run appl_init free_id add_app
    update_lock wind_update set_depth depth_of find_app any_session
second_there = refl

first_owes : depth_of (run two_clients new_server).apps 1 ≡ 1
unfolding run step accept_client put_session dispatch authorized may_run appl_init free_id add_app
    update_lock wind_update set_depth depth_of find_app any_session
first_owes = refl

-- The lock of the first is free when it leaves, and its slot too.
leaves_free : (run (leaves 0 ∷ []) (run two_clients new_server)).update_depth ≡ 0
unfolding run step accept_client put_session dispatch authorized may_run appl_init free_id add_app
    update_lock wind_update set_depth depth_of find_app any_session close_session cleanup_app unwind
    remove_app
leaves_free = refl

two_clients-IsEvent : All IsEvent two_clients
two_clients-IsEvent = (tt, (tt, (omega arith, (omega arith, (tt, (tt, tt))))))

run-IsServer_example : IsServer (run two_clients new_server)
run-IsServer_example = run-IsServer two_clients two_clients-IsEvent

run-excludes_example :
    (may_run first (run two_clients new_server) ≡ true)
    × (may_run second (run two_clients new_server) ≡ false)
run-excludes_example =
    run-excludes two_clients 0 1 first second two_clients-IsEvent (λ e. cc) first_there second_there
      (omega (arith, first_owes))
