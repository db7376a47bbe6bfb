-- ===== src/Lock/Hold.antt =====
-- The update lock: src/gemd/session.c and wind_update of src/aes/window.c.
use gem.Base.{
  ℕ, zero, suc, ◌+◌, ◌-◌, ◌≤◌, ◌<◌, ◌≡◌, ◌≢◌, ◌⊎◌, ◌∙◌, refl, sym, ap, true, false, ◌&&◌, ◌||◌,
  List, Option, none, some, ltb, leb, ◌==◌, length, arith, inl, inr, Bool-cases, Option-cases,
  if_true, if_false,
}
use mathlib.Core.Bool.{false≢true}
use gem.Lock.{
  App, Server, find_app, is_found, depth_in, depth_of, set_depth, remove_app, add_app, with_depths,
  with_update, update_lock, unwind, cleanup_app,
}
use gem.Wind.{wind_update, beg_update, end_update}
use gem.Lock.Apps.{
  AreApart, found-set_depth, depth_of-set_ne, depth_of-set_self, set_depth-AreApart,
  find_app-remove_ne, found-remove_self, remove_app-AreApart, length-set_depth, length-remove_app,
  find_app-add_ne, find_app-add_self, add_app-AreApart, length-add_app,
}

-- Whether a number is another.
pub eq_or_ne : (m n : ℕ) → (m ≡ n) ⊎ (m ≢ n)
eq_or_ne m n = elim (Bool-cases (m == n)) [
  | inl e ↦ inl (ground arith)
  | inr e ↦ inr (λ same. ground arith)
]

-- One application at most holds the lock, and what it owes is the depth of the lock.
pub record IsLocked (apps : List (Option App)) (depth : ℕ) : Type 0 where
  pub apart : AreApart apps
  pub slots : length apps ≡ 16
  pub no_zero : is_found (find_app apps 0) ≡ false
  pub held :
      (holder : ℕ) × (depth ≡ depth_of apps holder)
      × ((id : ℕ) → id ≢ holder → depth_of apps id ≡ 0)
  pub bounded : depth ≤ 64

depth_of-absent :
    (apps : List (Option App)) (id : ℕ) → is_found (find_app apps id) ≡ false → depth_of apps id ≡ 0
unfolding depth_of
depth_of-absent apps id absent = absent_depth (find_app apps id) absent
  where
    absent_depth : (o : Option App) → is_found o ≡ false → depth_in o ≡ 0
    absent_depth none e = refl
    absent_depth (some a) e = absurd (false≢true (sym e))

-- What an application owes is at most the depth; if it owes some, it is all of it.
pub depth_of-held :
    (apps : List (Option App)) (depth id : ℕ)
    → IsLocked apps depth
    → (depth_of apps id ≡ 0) ⊎ (depth_of apps id ≡ depth)
depth_of-held apps depth id locked = elim (eq_or_ne id locked.held.0) [
  | inl e ↦ rw e (inr (sym locked.held.1))
  | inr ne ↦ inl (locked.held.2 id ne)
]

-- An application that alone may owe some is given another depth.
set_depth-IsLocked :
    (apps : List (Option App)) (depth id new : ℕ)
    → IsLocked apps depth
    → is_found (find_app apps id) ≡ true
    → ((k : ℕ) → k ≢ id → depth_of apps k ≡ 0)
    → new ≤ 64
    → IsLocked (set_depth apps id new) new
set_depth-IsLocked apps depth id new locked found alone few = record {
  apart = set_depth-AreApart apps id new locked.apart;
  slots = length-set_depth apps id new ∙ locked.slots;
  no_zero = found-set_depth apps id new 0 ∙ locked.no_zero;
  held = (
    id,
    sym (depth_of-set_self apps id new found),
    λ k ne. depth_of-set_ne apps id new k ne ∙ alone k ne,
  );
  bounded = few;
}

-- Who may run is the only one that may owe some.
pub alone :
    (apps : List (Option App)) (depth id : ℕ)
    → IsLocked apps depth
    → (depth ≡ 0) ⊎ (0 < depth_of apps id)
    → (k : ℕ) → k ≢ id
    → depth_of apps k ≡ 0
alone apps depth id locked (inl free) k ne = elim (depth_of-held apps depth k locked) [
  | inl e ↦ e
  | inr e ↦ e ∙ free
]
alone apps depth id locked (inr owes) k ne = elim (eq_or_ne k locked.held.0) [
  | inr other ↦ locked.held.2 k other
  | inl e ↦
      let none : depth_of apps id ≡ 0 = locked.held.2 id (λ same. ne (e ∙ sym same)) in
      absurd (omega (arith, none, owes))
]

pub begin-IsLocked :
    (apps : List (Option App)) (depth id : ℕ)
    → IsLocked apps depth
    → is_found (find_app apps id) ≡ true
    → (depth ≡ 0) ⊎ (0 < depth_of apps id)
    → depth_of apps id < 64
    → IsLocked (set_depth apps id (depth_of apps id + 1)) (depth + 1)
begin-IsLocked apps depth id locked found may few =
    let others = alone apps depth id locked may in
    let mine : depth_of apps id ≡ depth = elim (depth_of-held apps depth id locked) [
      | inr e ↦ e
      | inl e ↦ elim may [ inl free ↦ e ∙ sym free | inr owes ↦ absurd (omega (arith, e, owes)) ]
    ] in
    rw (← mine)
      (set_depth-IsLocked apps depth id (depth_of apps id + 1) locked found others (omega arith))

pub end-IsLocked :
    (apps : List (Option App)) (depth id : ℕ)
    → IsLocked apps depth
    → is_found (find_app apps id) ≡ true
    → 0 < depth_of apps id
    → (depth_of apps id ≡ depth) × IsLocked (set_depth apps id (depth_of apps id - 1)) (depth - 1)
end-IsLocked apps depth id locked found owes =
    let others = alone apps depth id locked (inr owes) in
    let mine : depth_of apps id ≡ depth = elim (depth_of-held apps depth id locked) [
      | inr e ↦ e
      | inl e ↦ absurd (omega (arith, e, owes))
    ] in
    (
      mine,
      rw (← mine) (
          set_depth-IsLocked apps depth id (depth_of apps id - 1) locked found others
            (omega (arith, mine, locked.bounded))),
    )

pub owes-found :
    (apps : List (Option App)) (id : ℕ) → 0 < depth_of apps id → is_found (find_app apps id) ≡ true
owes-found apps id owes = elim (Bool-cases (is_found (find_app apps id))) [
  | inl e ↦ e
  | inr e ↦ absurd (omega (arith, depth_of-absent apps id e, owes))
]

own_bound :
    (id : ℕ) (s : Server) (a : App)
    → IsLocked s.apps s.update_depth
    → find_app s.apps id ≡ some a
    → a.update_depth ≤ 64
unfolding depth_of
own_bound id s a locked e =
    let own = ap depth_in e in
    elim (depth_of-held s.apps s.update_depth id locked) [
      | inl f ↦ omega (arith, own, f)
      | inr f ↦ omega (arith, own, f, locked.bounded)
    ]

-- Neither guard against an overflow applies.
pub update_lock-begin :
    (id : ℕ) (s : Server)
    → IsLocked s.apps s.update_depth
    → is_found (find_app s.apps id) ≡ true
    → update_lock id beg_update s ≡ with_depths id (depth_of s.apps id + 1) (s.update_depth + 1) s
unfolding update_lock depth_of wind_update
update_lock-begin id s locked found = elim (Option-cases (find_app s.apps id)) [
  | inl e ↦ absurd (false≢true (ap is_found (sym e) ∙ found))
  | inr (a, e) ↦
      let own : a.update_depth ≤ 64 = own_bound id s a locked e in
      let all = locked.bounded in
      rw e (
        ap (with_update id s)
          (if_false (leb 32766 s.update_depth || leb 32766 a.update_depth) _ _ (ground arith)))
]

pub update_lock-end :
    (id : ℕ) (s : Server)
    → IsLocked s.apps s.update_depth
    → 0 < depth_of s.apps id
    → update_lock id end_update s ≡ with_depths id (depth_of s.apps id - 1) (s.update_depth - 1) s
unfolding update_lock depth_of wind_update
update_lock-end id s locked owes = elim (Option-cases (find_app s.apps id)) [
  | inl e ↦ absurd (omega (arith, ap depth_in e, owes))
  | inr (a, e) ↦
      let own : 0 < a.update_depth = omega (arith, ap depth_in e, owes) in
      let all : 0 < s.update_depth = elim (depth_of-held s.apps s.update_depth id locked) [
        | inl f ↦ absurd (omega (arith, f, owes))
        | inr f ↦ omega (arith, f, owes)
      ] in
      rw e (
        ap (with_update id s)
          (if_true (ltb 0 s.update_depth && ltb 0 a.update_depth) _ _ (ground arith)))
]

-- What ending all that an application owes leaves.
record IsUnwound (owed id : ℕ) (s t : Server) : Type 0 where
  pub spent : t.update_depth ≡ s.update_depth - owed
  pub locked : IsLocked t.apps t.update_depth
  pub owes_none : depth_of t.apps id ≡ 0
  pub same_found : (k : ℕ) → is_found (find_app t.apps k) ≡ is_found (find_app s.apps k)
  pub same_sessions : t.sessions ≡ s.sessions
  pub same_next : t.next_app_id ≡ s.next_app_id

unwind-IsUnwound :
    (owed id : ℕ) (s : Server)
    → IsLocked s.apps s.update_depth
    → depth_of s.apps id ≡ owed
    → IsUnwound owed id s (unwind owed id s)
unfolding unwind
unwind-IsUnwound zero id s locked e = record {
  spent = omega arith;
  locked = locked;
  owes_none = e;
  same_found = λ k. refl;
  same_sessions = refl;
  same_next = refl;
}
unwind-IsUnwound (suc owed) id s locked e =
    let owes : 0 < depth_of s.apps id = omega (arith, e) in
    let found = owes-found s.apps id owes in
    let at = update_lock-end id s locked owes in
    let now = (end-IsLocked s.apps s.update_depth id locked found owes).1 in
    let left : depth_of (set_depth s.apps id (depth_of s.apps id - 1)) id ≡ owed =
      depth_of-set_self s.apps id (depth_of s.apps id - 1) found ∙ omega (arith, e) in
    let after =
      unwind-IsUnwound owed id (with_depths id (depth_of s.apps id - 1) (s.update_depth - 1) s) now
        left in
    rw at (record {
      spent = omega (arith, after.spent);
      locked = after.locked;
      owes_none = after.owes_none;
      same_found = λ k. after.same_found k ∙ found-set_depth s.apps id (depth_of s.apps id - 1) k;
      same_sessions = after.same_sessions;
      same_next = after.same_next;
    })

depth_of-remove :
    (apps : List (Option App)) (id k : ℕ)
    → AreApart apps
    → depth_of apps id ≡ 0
    → depth_of (remove_app apps id) k ≡ depth_of apps k
unfolding depth_of
depth_of-remove apps id k apart owes_none = elim (eq_or_ne k id) [
  | inl e ↦
      rw e
        (depth_of-absent (remove_app apps id) id (found-remove_self apps id apart) ∙ sym owes_none)
  | inr ne ↦ ap depth_in (find_app-remove_ne apps id k ne)
]

still_absent :
    (apps : List (Option App)) (id k : ℕ)
    → AreApart apps
    → is_found (find_app apps k) ≡ false
    → is_found (find_app (remove_app apps id) k) ≡ false
still_absent apps id k apart absent = elim (eq_or_ne k id) [
  | inl e ↦ rw e (found-remove_self apps id apart)
  | inr ne ↦ ap is_found (find_app-remove_ne apps id k ne) ∙ absent
]

remove_app-IsLocked :
    (apps : List (Option App)) (depth id : ℕ)
    → IsLocked apps depth
    → depth_of apps id ≡ 0
    → IsLocked (remove_app apps id) depth
remove_app-IsLocked apps depth id locked owes_none = record {
  apart = remove_app-AreApart apps id locked.apart;
  slots = length-remove_app apps id ∙ locked.slots;
  no_zero = still_absent apps id 0 locked.apart locked.no_zero;
  held = (
    locked.held.0,
    locked.held.1 ∙ sym (depth_of-remove apps id locked.held.0 locked.apart owes_none),
    λ k ne. depth_of-remove apps id k locked.apart owes_none ∙ locked.held.2 k ne,
  );
  bounded = locked.bounded;
}

-- What `gemd_cleanup_app` leaves.
pub record IsCleaned (id : ℕ) (s t : Server) : Type 0 where
  pub spent : t.update_depth ≡ s.update_depth - depth_of s.apps id
  pub locked : IsLocked t.apps t.update_depth
  pub gone : is_found (find_app t.apps id) ≡ false
  pub same_found : (k : ℕ) → k ≢ id → is_found (find_app t.apps k) ≡ is_found (find_app s.apps k)
  pub same_sessions : t.sessions ≡ s.sessions
  pub same_next : t.next_app_id ≡ s.next_app_id

pub cleanup_app-IsCleaned :
    (id : ℕ) (s : Server) → IsLocked s.apps s.update_depth → IsCleaned id s (cleanup_app id s)
unfolding cleanup_app
cleanup_app-IsCleaned id s locked = elim (Bool-cases (id == 0)) [
  | inl e ↦
      let zero_id : id ≡ 0 = ground arith in
      rw e (record {
        spent =
            omega (arith, depth_of-absent s.apps 0 locked.no_zero, ap (depth_of s.apps) zero_id);
        locked = locked;
        gone = ap (λ k. is_found (find_app s.apps k)) zero_id ∙ locked.no_zero;
        same_found = λ k ne. refl;
        same_sessions = refl;
        same_next = refl;
      })
  | inr e ↦
      let after = unwind-IsUnwound (depth_of s.apps id) id s locked refl in
      let t = unwind (depth_of s.apps id) id s in
      rw e (record {
        spent = after.spent;
        locked = remove_app-IsLocked t.apps t.update_depth id after.locked after.owes_none;
        gone = found-remove_self t.apps id after.locked.apart;
        same_found = λ k ne. ap is_found (find_app-remove_ne t.apps id k ne) ∙ after.same_found k;
        same_sessions = after.same_sessions;
        same_next = after.same_next;
      })
]

depth_of-add :
    (apps more : List (Option App)) (a : App) (k : ℕ)
    → add_app apps a ≡ some more
    → is_found (find_app apps a.id) ≡ false
    → a.update_depth ≡ 0
    → depth_of more k ≡ depth_of apps k
unfolding depth_of
depth_of-add apps more a k e new owes_none = elim (Bool-cases (a.id == k)) [
  | inr ne ↦ ap depth_in (find_app-add_ne apps more a k e ne)
  | inl f ↦
      let same : a.id ≡ k = ground arith in
      rw (← same) (
        ap depth_in (find_app-add_self apps more a e new)
        ∙ owes_none
        ∙ sym (depth_of-absent apps a.id new))
]

-- A new application owes nothing.
pub add_app-IsLocked :
    (apps more : List (Option App)) (depth : ℕ) (a : App)
    → IsLocked apps depth
    → add_app apps a ≡ some more
    → is_found (find_app apps a.id) ≡ false
    → a.update_depth ≡ 0
    → 1 ≤ a.id
    → IsLocked more depth
add_app-IsLocked apps more depth a locked e new owes_none positive = record {
  apart = add_app-AreApart apps more a e new locked.apart;
  slots = length-add_app apps more a e ∙ locked.slots;
  no_zero = ap is_found (find_app-add_ne apps more a 0 e (ground arith)) ∙ locked.no_zero;
  held = (
    locked.held.0,
    locked.held.1 ∙ sym (depth_of-add apps more a locked.held.0 e new owes_none),
    λ k ne. depth_of-add apps more a k e new owes_none ∙ locked.held.2 k ne,
  );
  bounded = locked.bounded;
}
