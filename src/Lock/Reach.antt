-- ===== src/Lock/Reach.antt =====
-- What holds in every state that the server reaches: src/gemd/session.c, src/gemd/main.c.
use gem.Base.{
  ℕ, zero, suc, ◌<◌, ◌≡◌, ◌≢◌, ◌∙◌, refl, sym, ap, true, false, List, [], ◌∷◌, none, some, get_or,
  replicate, arith, inl, inr, All,
}
use mathlib.Core.Option
use mathlib.Core.Bool.{false≢true}
use gem.Lock.{
  Session, Server, Event, find_app, is_found, depth_of, session_at, may_run, step, run, new_server,
}
use gem.Lock.Hold.{alone, depth_of-held, owes-found}
use gem.Lock.Steps.{has_app, IsServer, IsEvent, step-IsServer}

no_session : (n i : ℕ) (c : Session) → get_or (replicate n none) i none ≢ some c
no_session zero i c e = Option.none-ne-some _ e
no_session (suc n) zero c e = Option.none-ne-some _ e
no_session (suc n) (suc i) c e = no_session n i c e

no_app : (n id : ℕ) → is_found (find_app (replicate n none) id) ≡ false
unfolding find_app
no_app zero id = refl
no_app (suc n) id = no_app n id

no_depth : (id : ℕ) → depth_of (replicate 16 none) id ≡ 0
unfolding depth_of find_app
no_depth id = refl

new_server-IsServer : IsServer new_server
new_server-IsServer = record {
  locked = record {
    apart = tt;
    slots = refl;
    no_zero = no_app 16 0;
    held = (0, sym (no_depth 0), λ id ne. no_depth id);
    bounded = omega arith;
  };
  member = record {
    owned = λ id used. absurd (false≢true (sym (no_app 16 id) ∙ used));
    in_use = λ i c e. absurd (no_session 16 i c e);
    single = λ i j c d ne e. absurd (no_session 16 i c e);
    exclusive = λ i j c d ne e. absurd (no_session 16 i c e);
  };
  next = omega arith;
}

steps-IsServer :
    (events : List Event) (s : Server) → IsServer s → All IsEvent events → IsServer (run events s)
unfolding run
steps-IsServer [] s valid all = valid
steps-IsServer (e ∷ events) s valid all =
    steps-IsServer events (step e s) (step-IsServer e s valid all.0) all.1

-- After any events, from the start of the server: ids are positive and distinct, at most one
-- application owes some of the update lock and the lock's depth is what it owes, at most 64; each
-- application has one session, each session's application is in use, and while a session has the screen
-- for itself no other session has an application.
pub run-IsServer : (events : List Event) → All IsEvent events → IsServer (run events new_server)
run-IsServer events all = steps-IsServer events new_server new_server-IsServer all

held_all :
    (s : Server) (c : Session)
    → IsServer s
    → 0 < depth_of s.apps c.app_id
    → s.update_depth ≡ depth_of s.apps c.app_id
held_all s c valid owes = elim (depth_of-held s.apps s.update_depth c.app_id valid.locked) [
  | inl e ↦ absurd (omega (arith, e, owes))
  | inr e ↦ sym e
]

may_run_alone :
    (s : Server) (i j : ℕ) (c d : Session)
    → IsServer s
    → i ≢ j
    → session_at s i ≡ some c
    → session_at s j ≡ some d
    → 0 < depth_of s.apps c.app_id
    → (may_run c s ≡ true) × (may_run d s ≡ false)
unfolding may_run
may_run_alone s i j c d valid ne e f owes =
    let has_one : c.app_id ≢ 0 = λ z.
      false≢true (
        sym valid.locked.no_zero ∙ ap (has_app s.apps) (sym z) ∙ owes-found s.apps c.app_id owes) in
    let apart = valid.member.single i j c d ne e f has_one in
    let none_owed =
      alone s.apps s.update_depth c.app_id valid.locked (inr owes) d.app_id (λ q. apart (sym q)) in
    let all : s.update_depth ≡ depth_of s.apps c.app_id = held_all s c valid owes in
    (ground arith, ground arith)

-- After any events: while the application of one session owes some of the lock, that session may run
-- and every other session waits.
pub run-excludes :
    (events : List Event) (i j : ℕ) (c d : Session)
    → All IsEvent events
    → i ≢ j
    → session_at (run events new_server) i ≡ some c
    → session_at (run events new_server) j ≡ some d
    → 0 < depth_of (run events new_server).apps c.app_id
    → (may_run c (run events new_server) ≡ true) × (may_run d (run events new_server) ≡ false)
run-excludes events i j c d all =
    may_run_alone (run events new_server) i j c d (run-IsServer events all)
