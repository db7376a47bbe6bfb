-- ===== src/Lock/Steps.antt =====
-- Every event of the server keeps what its tables promise: src/gemd/session.c, with the requests of
-- src/gemd/dispatch_aes.c and dispatch_vdi.c.
use gem.Base.{
  ℕ, zero, suc, ◌+◌, ◌-◌, ◌≤◌, ◌<◌, ◌≡◌, ◌≢◌, ◌⊎◌, ◌∙◌, refl, sym, ap, Bool, true, false, not, ◌&&◌,
  List, [], ◌∷◌, Option, none, some, ◌==◌, length, get_or, set, arith, inl, inr, Bool-cases,
  Option-cases, get_or-set_self, get_or-set_ne, if_both,
}
use mathlib.Core.Option
use mathlib.Core.Path.{subst}
use gem.Lock.{
  App, Session, Server, Request, ask_init, ask_exit, ask_update, ask_standalone, Event, connects,
  asks, leaves, expires, max_id, find_app, is_found, depth_of, set_depth, add_app, next_id, free_id,
  start_id, started, appl_init, with_depths, update_lock, cleanup_app, session_at, with_session,
  close_session, put_session, accept_client, may_run, any_session, any_other, may_update,
  authorized, with_app, stamped, dispatch, is_late, step,
}
use gem.Wind.{beg_update, end_update}
use gem.Lock.Apps.{found-set_depth, find_app-add_ne, find_app-add_self}
use gem.Lock.Ids.{free_id_lem}
use gem.Lock.Hold.{
  IsLocked, begin-IsLocked, end-IsLocked, update_lock-begin, update_lock-end, cleanup_app-IsCleaned,
  add_app-IsLocked,
}
use gem.Lock.Member.{IsMember, keep-IsMember, leave-IsMember, join-IsMember, accept-IsMember}

abbrev pub has_app : List (Option App) → ℕ → Bool
has_app apps id = is_found (find_app apps id)

pub record IsServer (s : Server) : Type 0 where
  pub locked : IsLocked s.apps s.update_depth
  pub member : IsMember (has_app s.apps) (session_at s)
  pub next : s.next_app_id ≤ max_id

at_length :
    (slots : List (Option Session)) (i : ℕ) (c : Session)
    → get_or slots i none ≡ some c
    → i < length slots
at_length [] i c e = absurd (Option.none-ne-some _ e)
at_length (x ∷ slots) zero c e = omega arith
at_length (x ∷ slots) (suc i) c e = omega (arith, at_length slots i c e)

put_here :
    (slots : List (Option Session)) (i : ℕ) (c : Session) (o : Option Session)
    → get_or slots i none ≡ some c
    → get_or (set slots i o) i none ≡ o
put_here slots i c o e = get_or-set_self slots i o none (at_length slots i c e)

put_there :
    (slots : List (Option Session)) (i j : ℕ) (o : Option Session)
    → j ≢ i
    → get_or (set slots i o) j none ≡ get_or slots j none
put_there slots i j o ne = get_or-set_ne slots i j o none (λ e. ne (sym e))

-- The end of a session, or of its application.
left-IsServer :
    (i : ℕ) (c : Session) (o : Option Session) (s : Server)
    → IsServer s
    → session_at s i ≡ some c
    → ((d : Session) → o ≡ some d → (d.app_id ≡ 0) × (d.standalone ≡ true → c.standalone ≡ true))
    → IsServer (with_session i o (cleanup_app c.app_id s))
left-IsServer i c o s valid e left =
    let t = cleanup_app c.app_id s in
    let clean = cleanup_app-IsCleaned c.app_id s valid.locked in
    let slots = clean.same_sessions in
    record {
      locked = clean.locked;
      member =
          leave-IsMember (has_app s.apps) (has_app t.apps) (session_at s)
            (session_at (with_session i o t)) i valid.member
            (λ j ne. put_there t.sessions i j o ne ∙ ap (λ l. get_or l j none) slots) c o e
            (put_here t.sessions i c o (ap (λ l. get_or l i none) slots ∙ e)) left clean.gone
            clean.same_found;
      next = omega (arith, clean.same_next, valid.next);
    }

close_session-IsServer : (i : ℕ) (s : Server) → IsServer s → IsServer (close_session i s)
unfolding close_session
close_session-IsServer i s valid = elim (Option-cases (session_at s i)) [
  | inl e ↦ rw e valid
  | inr (c, e) ↦ rw e (left-IsServer i c none s valid e (λ d f. absurd (Option.none-ne-some _ f)))
]

-- The session that asks goes on with its application.
kept-IsServer :
    (i : ℕ) (c d : Session) (s t : Server)
    → IsServer s
    → session_at s i ≡ some c
    → d.app_id ≡ c.app_id
    → ((j : ℕ) (b : Session) → j ≢ i → session_at s j ≡ some b → d.standalone ≡ true → b.app_id ≡ 0)
    → IsLocked t.apps t.update_depth
    → ((k : ℕ) → has_app t.apps k ≡ has_app s.apps k)
    → t.sessions ≡ set s.sessions i (some d)
    → t.next_app_id ≡ s.next_app_id
    → IsServer t
kept-IsServer i c d s t valid e same alone locked found slots next = record {
  locked = locked;
  member =
      keep-IsMember (has_app s.apps) (has_app t.apps) (session_at s) (session_at t) i valid.member
        (λ j ne. ap (λ l. get_or l j none) slots ∙ put_there s.sessions i j (some d) ne) c d e
        (ap (λ l. get_or l i none) slots ∙ put_here s.sessions i c (some d) e) same found alone;
  next = omega (arith, next, valid.next);
}

stamped-same :
    (c : Session) (flag now : ℕ) (s : Server)
    → ((stamped c flag now s).app_id ≡ c.app_id)
      × ((stamped c flag now s).standalone ≡ c.standalone)
stamped-same c flag now s =
    if_both (λ d. (d.app_id ≡ c.app_id) × (d.standalone ≡ c.standalone))
      (is_found (find_app s.apps c.app_id) && (flag == beg_update && depth_of s.apps c.app_id == 0))
      {x = record c { update_started = now }} {y = c} (refl, refl) (refl, refl)

-- What an update that is allowed does to the two depths.
updated-IsLocked :
    (id flag : ℕ) (s : Server)
    → IsLocked s.apps s.update_depth
    → (s.update_depth ≡ 0) ⊎ (0 < depth_of s.apps id)
    → may_update flag id s.apps ≡ true
    → (own all : ℕ) × (update_lock id flag s ≡ with_depths id own all s)
      × IsLocked (set_depth s.apps id own) all
updated-IsLocked id flag s locked free allowed = elim (Bool-cases (flag == beg_update)) [
  | inl e ↦
      let same : flag ≡ beg_update = ground arith in
      (
        depth_of s.apps id + 1,
        s.update_depth + 1,
        ap (λ f. update_lock id f s) same ∙ update_lock-begin id s locked (ground arith),
        begin-IsLocked s.apps s.update_depth id locked (ground arith) free (ground arith),
      )
  | inr e ↦
      let same : flag ≡ end_update = ground arith in
      let owes : 0 < depth_of s.apps id = ground arith in
      (
        depth_of s.apps id - 1,
        s.update_depth - 1,
        ap (λ f. update_lock id f s) same ∙ update_lock-end id s locked owes,
        (end-IsLocked s.apps s.update_depth id locked (ground arith) owes).1,
      )
]

update-IsServer :
    (i flag now : ℕ) (c : Session) (s : Server)
    → IsServer s
    → session_at s i ≡ some c
    → may_run c s ≡ true
    → may_update flag c.app_id s.apps ≡ true
    → IsServer (dispatch i c (ask_update flag now) s)
unfolding may_run dispatch
update-IsServer i flag now c s valid e runs allowed =
    let d = stamped c flag now s in
    let same = stamped-same c flag now s in
    let u = with_session i (some d) s in
    let free : (s.update_depth ≡ 0) ⊎ (0 < depth_of s.apps c.app_id) =
      elim (Bool-cases (s.update_depth == 0)) [
        | inl f ↦ inl (ground arith)
        | inr f ↦ inr (ground arith)
      ] in
    let (own, all, result, locked) = updated-IsLocked c.app_id flag u valid.locked free allowed in
    subst IsServer (sym result) (
      kept-IsServer i c d s (with_depths c.app_id own all u) valid e same.0
        (λ j b ne f alone.
          valid.member.exclusive i j c b (λ q. ne (sym q)) e f (sym same.1 ∙ alone))
        locked (λ k. found-set_depth s.apps c.app_id own k) refl refl)

any_session-none :
    (test : Session → Bool) (slots : List (Option Session)) (j : ℕ) (d : Session)
    → any_session test slots ≡ false
    → get_or slots j none ≡ some d
    → test d ≡ false
unfolding any_session
any_session-none test [] j d none_pass e = absurd (Option.none-ne-some _ e)
any_session-none test (none ∷ slots) zero d none_pass e = absurd (Option.none-ne-some _ e)
any_session-none test (none ∷ slots) (suc j) d none_pass e =
    any_session-none test slots j d none_pass e
any_session-none test (some c ∷ slots) zero d none_pass e =
    ap test (sym (Option.some-injective _ _ e)) ∙ ground arith
any_session-none test (some c ∷ slots) (suc j) d none_pass e =
    any_session-none test slots j d (ground arith) e

any_other-none :
    (test : Session → Bool) (i j : ℕ) (s : Server) (d : Session)
    → any_other test i s ≡ false
    → j ≢ i
    → session_at s j ≡ some d
    → test d ≡ false
any_other-none test i j s d none_pass ne e =
    any_session-none test (set s.sessions i none) j d none_pass
      (put_there s.sessions i j none ne ∙ e)

standalone-IsServer :
    (i : ℕ) (c : Session) (same : Bool) (s : Server)
    → IsServer s
    → session_at s i ≡ some c
    → IsServer (dispatch i c (ask_standalone same) s)
unfolding dispatch
standalone-IsServer i c same s valid e =
    elim (Bool-cases (any_other (λ d. not (d.app_id == 0)) i s)) [
      | inl f ↦ rw f valid
      | inr f ↦ rw f (
          kept-IsServer i c (record c { standalone = true }) s _ valid e refl
            (λ j b ne g alone.
              let none_there = any_other-none (λ d. not (d.app_id == 0)) i j s b f ne g in
              ground arith)
            valid.locked (λ k. refl) refl refl)
    ]

start_id-bounds :
    (claim next : ℕ)
    → claim ≤ max_id
    → next ≤ max_id
    → (1 ≤ start_id claim next) × (start_id claim next ≤ max_id)
start_id-bounds claim next few fewer = (ground arith, ground arith)

next_id-bound : (id : ℕ) → id ≤ max_id → next_id id ≤ max_id
next_id-bound id le = ground arith

started-IsServer :
    (i id : ℕ) (c : Session) (s : Server) (o : Option (List (Option App)))
    → IsServer s
    → session_at s i ≡ some c
    → c.app_id ≡ 0
    → any_other (λ d. d.standalone) i s ≡ false
    → (is_found (find_app s.apps id) ≡ false) × (1 ≤ id) × (id ≤ max_id)
    → add_app s.apps (record { id = id; update_depth = 0 }) ≡ o
    → IsServer (with_app i c (started s id o))
started-IsServer i id c s none valid e no_app none_alone fresh added =
    kept-IsServer i c (record c { app_id = 0 }) s _ valid e (sym no_app)
      (λ j b ne f alone. valid.member.exclusive i j c b (λ q. ne (sym q)) e f alone) valid.locked
      (λ k. refl) refl refl
started-IsServer i id c s (some more) valid e no_app none_alone (fresh, low, high) added =
    let a : App = record { id = id; update_depth = 0 } in
    let d : Session = record c { app_id = id } in
    record {
      locked = add_app-IsLocked s.apps more s.update_depth a valid.locked added fresh refl low;
      member =
          join-IsMember (has_app s.apps) (has_app more) (session_at s)
            (λ j. get_or (set s.sessions i (some d)) j none) i valid.member
            (λ j ne. put_there s.sessions i j (some d) ne) c d e no_app
            (put_here s.sessions i c (some d) e) refl valid.locked.no_zero fresh
            (ap is_found (find_app-add_self s.apps more a added fresh))
            (λ k ne. ap is_found (find_app-add_ne s.apps more a k added (not_same id k ne)))
            (λ j b ne f. any_other-none (λ d. d.standalone) i j s b none_alone ne f);
      next = next_id-bound id high;
    }
  where
    not_same : (m n : ℕ) → n ≢ m → (m == n) ≡ false
    not_same m n ne = ground arith

init-IsServer :
    (i claim : ℕ) (c : Session) (s : Server)
    → IsServer s
    → session_at s i ≡ some c
    → claim ≤ max_id
    → any_other (λ d. d.standalone) i s ≡ false
    → IsServer (dispatch i c (ask_init claim) s)
unfolding dispatch appl_init
init-IsServer i claim c s valid e few none_alone = elim (Bool-cases (c.app_id == 0)) [
  | inr f ↦ rw f valid
  | inl f ↦
      let no_app : c.app_id ≡ 0 = ground arith in
      let start = start_id-bounds claim s.next_app_id few valid.next in
      let fresh =
        free_id_lem s.apps (start_id claim s.next_app_id) (omega (arith, valid.locked.slots))
          start.0 start.1 in
      rw f (
        started-IsServer i (free_id (length s.apps + 1) s.apps (start_id claim s.next_app_id)) c s _
          valid e no_app none_alone fresh refl)
]

-- A new session takes one slot, or none.
put_session-cases :
    (slots : List (Option Session)) (c : Session)
    → (put_session slots c ≡ slots)
      ⊎ ((i : ℕ) × (get_or slots i none ≡ none)
          × (get_or (put_session slots c) i none ≡ some c)
          × ((j : ℕ) → j ≢ i → get_or (put_session slots c) j none ≡ get_or slots j none))
unfolding put_session
put_session-cases [] c = inl refl
put_session-cases (none ∷ slots) c = inr (0, refl, refl, first_only)
  where
    first_only : (j : ℕ) → j ≢ 0 → get_or (some c ∷ slots) j none ≡ get_or (none ∷ slots) j none
    first_only zero ne = absurd (ne refl)
    first_only (suc j) ne = refl
put_session-cases (some d ∷ slots) c = elim (put_session-cases slots c) [
  | inl e ↦ inl (ap (λ l. some d ∷ l) e)
  | inr (i, was, here, there) ↦ inr (suc i, was, here, later i there)
]
  where
    later :
        (i : ℕ)
        → ((j : ℕ) → j ≢ i → get_or (put_session slots c) j none ≡ get_or slots j none)
        → (j : ℕ) → j ≢ suc i
        → get_or (some d ∷ put_session slots c) j none ≡ get_or (some d ∷ slots) j none
    later i there zero ne = refl
    later i there (suc j) ne = there j (λ e. ne (ap suc e))

accept_client-IsServer : (now : ℕ) (s : Server) → IsServer s → IsServer (accept_client now s)
unfolding accept_client
accept_client-IsServer now s valid =
    let c : Session = record {
      app_id = 0;
      standalone = false;
      accepted_at = now;
      update_started = 0;
    } in
    let member : IsMember (has_app s.apps) (λ i. get_or (put_session s.sessions c) i none) =
      elim (put_session-cases s.sessions c) [
        | inl e ↦ rw e valid.member
        | inr (i, was, here, there) ↦
            accept-IsMember (has_app s.apps) (has_app s.apps) (session_at s)
              (λ j. get_or (put_session s.sessions c) j none) i valid.member there c was here refl
              refl (λ k. refl)
      ] in
    record { locked = valid.locked; member = member; next = valid.next }

-- An id that the shell gives is a WORD.
abbrev pub IsRequest : Request → Type 0
IsRequest (ask_init claim) = claim ≤ max_id
IsRequest (ask_exit now) = Unit
IsRequest (ask_update flag now) = Unit
IsRequest (ask_standalone same) = Unit

abbrev pub IsEvent : Event → Type 0
IsEvent (connects now) = Unit
IsEvent (asks i r) = IsRequest r
IsEvent (leaves i) = Unit
IsEvent (expires now i) = Unit

exit-IsServer :
    (i now : ℕ) (c : Session) (s : Server)
    → IsServer s
    → session_at s i ≡ some c
    → IsServer (dispatch i c (ask_exit now) s)
unfolding dispatch
exit-IsServer i now c s valid e =
    left-IsServer i c (some (record c { app_id = 0; accepted_at = now })) s valid e (λ d f.
      let same = Option.some-injective _ _ f in
      (ap (λ b. b.app_id) (sym same), λ g. ap (λ b. b.standalone) same ∙ g))

dispatch-IsServer :
    (i : ℕ) (c : Session) (r : Request) (s : Server)
    → IsServer s
    → IsRequest r
    → session_at s i ≡ some c
    → may_run c s ≡ true
    → authorized i c r s ≡ true
    → IsServer (dispatch i c r s)
unfolding authorized
dispatch-IsServer i c (ask_init claim) s valid few e runs may =
    init-IsServer i claim c s valid e few (ground arith)
dispatch-IsServer i c (ask_exit now) s valid few e runs may = exit-IsServer i now c s valid e
dispatch-IsServer i c (ask_update flag now) s valid few e runs may =
    update-IsServer i flag now c s valid e runs (ground arith)
dispatch-IsServer i c (ask_standalone same) s valid few e runs may =
    standalone-IsServer i c same s valid e

pub step-IsServer : (e : Event) (s : Server) → IsServer s → IsEvent e → IsServer (step e s)
unfolding step
step-IsServer (connects now) s valid few = accept_client-IsServer now s valid
step-IsServer (asks i r) s valid few = elim (Option-cases (session_at s i)) [
  | inl e ↦ rw e valid
  | inr (c, e) ↦ rw e (elim (Bool-cases (may_run c s && authorized i c r s)) [
    | inr f ↦ rw f valid
    | inl f ↦ rw f (dispatch-IsServer i c r s valid few e (ground arith) (ground arith))
  ])
]
step-IsServer (leaves i) s valid few = close_session-IsServer i s valid
step-IsServer (expires now i) s valid few = elim (Option-cases (session_at s i)) [
  | inl e ↦ rw e valid
  | inr (c, e) ↦ rw e (if_both IsServer (is_late now c s) (close_session-IsServer i s valid) valid)
]
