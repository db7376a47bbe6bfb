-- ===== src/Wind/Slots.antt =====
-- The table of windows that src/aes/window.c keeps: handles name slots, no two windows in use have the
-- same place in the order, and the counter is ahead of them.
use mathlib.Core.Option
use gem.Base.{inl, inr, Bool-cases, if_inv, map_inv, flip_true, flip_false, sym, ap}
use gem.Base.{
  ℕ, ◌+◌, ◌≤◌, ◌<◌, ◌≡◌, ◌≢◌, ◌⊎◌, ◌∙◌, Bool, true, false, not, ◌&&◌, List, [], ◌∷◌, some, arith,
  All,
}
use gem.Base.Int.{ℤ, pos, eqb_ℤ}
use gem.Window.{Window}
use gem.Wind.{update_window, place}

unfoldable pub Placed : ℕ → List Window → Type 0
Placed i [] = Unit
Placed i (w ∷ ws) = (w.used ≡ true → w.handle ≡ pos (i + 1)) × Placed (i + 1) ws

abbrev pub Before : ℕ → Window → Type 0
Before z w = w.used ≡ true → w.z_order < z

abbrev pub Differs : Window → Window → Type 0
Differs w v = w.used ≡ true → v.used ≡ true → w.z_order ≢ v.z_order

unfoldable pub Apart : List Window → Type 0
Apart [] = Unit
Apart (w ∷ ws) = All (Differs w) ws × Apart ws

abbrev pub InUse : Window → Type 0
InUse w = w.open_flag ≡ true → w.used ≡ true

pub record IsTable (z : ℕ) (ws : List Window) : Type 0 where
  pub placed : Placed 0 ws
  pub before : All (Before z) ws
  pub apart : Apart ws
  pub in_use : All InUse ws

-- A change of one window that keeps its slot, and either keeps its place in the order, takes the new
-- place `z`, or gives the window up. The counter goes from `z` to `next`.
pub record IsChange (z next : ℕ) (change : Window → Window) : Type 0 where
  pub counts : z ≤ next
  pub keeps_handle :
      (w : Window) → w.used ≡ true → (change w).used ≡ true → (change w).handle ≡ w.handle
  pub keeps_order :
      (w : Window)
      → w.used ≡ true
      → (change w).used ≡ true
      → ((change w).z_order ≡ w.z_order) ⊎ (((change w).z_order ≡ z) × (z < next))
  pub keeps_use :
      (w : Window) → w.used ≡ true → (change w).open_flag ≡ true → (change w).used ≡ true

used_of : (u e : Bool) → (u && e) ≡ true → u ≡ true
used_of u e h = ground arith

All-map :
    {P Q : Window → Type 0} (ws : List Window) → ((w : Window) → P w → Q w) → All P ws → All Q ws
All-map [] f h = tt
All-map (w ∷ ws) f h = (f w h.0, All-map ws f h.1)

module _ (z next : ℕ) (handle : ℤ) (change : Window → Window) (c : IsChange z next change) where
  update-Placed :
      (i : ℕ) (ws : List Window) → Placed i ws → Placed i (update_window handle change ws)
  unfolding update_window Placed
  update-Placed i [] h = tt
  update-Placed i (w ∷ ws) h = elim (Bool-cases (w.used && eqb_ℤ w.handle handle)) [
    | inl t ↦
        let u = used_of w.used (eqb_ℤ w.handle handle) t in
        rw t ((λ u'. c.keeps_handle w u u' ∙ h.0 u), h.1)
    | inr t ↦ rw t (h.0, update-Placed (i + 1) ws h.1)
  ]

  update-All :
      (P Q : Window → Type 0) (ws : List Window)
      → ((w : Window) → P w → Q w)
      → ((w : Window) → w.used ≡ true → P w → Q (change w))
      → All P ws
      → All Q (update_window handle change ws)
  unfolding update_window
  update-All P Q [] keep new h = tt
  update-All P Q (w ∷ ws) keep new h = elim (Bool-cases (w.used && eqb_ℤ w.handle handle)) [
    | inl t ↦ rw t (new w (used_of w.used (eqb_ℤ w.handle handle) t) h.0, All-map ws keep h.1)
    | inr t ↦ rw t (keep w h.0, update-All P Q ws keep new h.1)
  ]

  Before-change : (w : Window) → w.used ≡ true → Before z w → Before next (change w)
  Before-change w u h u' = elim (c.keeps_order w u u') [
    | inl same ↦ let n = c.counts in rw same (omega (arith, h u))
    | inr (new, lt) ↦ rw new lt
  ]

  Differs-change : (w v : Window) → v.used ≡ true → Before z w → Differs w v → Differs w (change v)
  Differs-change w v u b d uw u' = elim (c.keeps_order v u u') [
    | inl same ↦ rw same (d uw u)
    | inr (new, lt) ↦ rw new (λ e. absurd (omega (arith, b uw, e)))
  ]

  change-Differs : (w v : Window) → w.used ≡ true → Before z v → Differs w v → Differs (change w) v
  change-Differs w v u b d u' uv = elim (c.keeps_order w u u') [
    | inl same ↦ rw same (d u uv)
    | inr (new, lt) ↦ rw new (λ e. absurd (omega (arith, b uv, e)))
  ]

  both_Differs :
      (w : Window)
      → w.used ≡ true
      → (ws : List Window) → All (Before z) ws
      → All (Differs w) ws
      → All (Differs (change w)) ws
  both_Differs w u [] b d = tt
  both_Differs w u (v ∷ vs) b d = (change-Differs w v u b.0 d.0, both_Differs w u vs b.1 d.1)

  tails :
      (w : Window) (ws : List Window)
      → Before z w
      → All (Before z) ws
      → All (Differs w) ws
      → All (Differs w) (update_window handle change ws)
  tails w ws bw b d =
      update-All (Differs w) (Differs w) ws (λ v k. k) (λ v u k. Differs-change w v u bw k) d

  update-Apart :
      (ws : List Window) → All (Before z) ws → Apart ws → Apart (update_window handle change ws)
  unfolding update_window Apart
  update-Apart [] b h = tt
  update-Apart (w ∷ ws) b h = elim (Bool-cases (w.used && eqb_ℤ w.handle handle)) [
    | inl t ↦
        let u = used_of w.used (eqb_ℤ w.handle handle) t in rw t (both_Differs w u ws b.1 h.0, h.1)
    | inr t ↦ rw t (tails w ws b.0 b.1 h.0, update-Apart ws b.1 h.1)
  ]

  pub update-IsTable :
      (ws : List Window) → IsTable z ws → IsTable next (update_window handle change ws)
  update-IsTable ws h = record {
    placed = update-Placed 0 ws h.placed;
    before =
        update-All (Before z) (Before next) ws (λ w b u. let n = c.counts in omega (arith, b u))
          Before-change h.before;
    apart = update-Apart ws h.before h.apart;
    in_use = update-All InUse InUse ws (λ w k. k) (λ w u k. c.keeps_use w u) h.in_use;
  }

-- A slot that is taken: in use, named by its number, with the next place in the order.
pub record IsMake (z : ℕ) (make : ℕ → Window → Window) : Type 0 where
  pub takes : (i : ℕ) (w : Window) → (make i w).used ≡ true
  pub names : (i : ℕ) (w : Window) → (make i w).handle ≡ pos i
  pub orders : (i : ℕ) (w : Window) → (make i w).z_order ≡ z

-- How `place` took a slot: `h` is the handle, `more` the table after.
pub TakenBy : (ℕ → Window → Window) → ℕ → List Window → ℕ → List Window → Type 0
TakenBy make i [] h more = ⊥
TakenBy make i (w ∷ ws) h more =
    ((w.used ≡ false) × (h ≡ i + 1) × (more ≡ make (i + 1) w ∷ ws))
    ⊎ ((rest : List Window) × (w.used ≡ true) × TakenBy make (i + 1) ws h rest × (more ≡ w ∷ rest))

pub place-TakenBy :
    (make : ℕ → Window → Window) (i h : ℕ) (ws more : List Window)
    → place make i ws ≡ some (h, more)
    → TakenBy make i ws h more
unfolding place TakenBy
place-TakenBy make i h [] more e = cc
place-TakenBy make i h (w ∷ ws) more e = elim (if_inv (not w.used) _ _ e) [
  | inl (u, now) ↦
      let same = Option.some-injective _ _ now in
      inl (flip_true w.used u, sym (ap (λ p. p.0) same), sym (ap (λ p. p.1) same))
  | inr (u, later) ↦
      let ((h', rest), found, same) = map_inv _ (place make (i + 1) ws) later in
      inr (
        rest,
        flip_false w.used u,
        place-TakenBy make (i + 1) h ws rest
            (found ∙ ap some (λ k. (sym (ap (λ p. p.0) same) k, rest))),
        ap (λ p. p.1) same,
      )
]

module _ (z : ℕ) (make : ℕ → Window → Window) (c : IsMake z make) where
  make-Differs :
      (i : ℕ) (w : Window) (ws : List Window) → All (Before z) ws → All (Differs (make i w)) ws
  make-Differs i w [] b = tt
  make-Differs i w (v ∷ vs) b =
      (λ u uv e. absurd (omega (arith, b.0 uv, e, c.orders i w)), make-Differs i w vs b.1)

  -- What holds of every window, of a new one too, holds after the slot is taken.
  take-All :
      (P Q : Window → Type 0) (i h : ℕ) (ws more : List Window)
      → ((w : Window) → P w → Q w)
      → ((k : ℕ) (w : Window) → Q (make k w))
      → TakenBy make i ws h more
      → All P ws
      → All Q more
  unfolding TakenBy
  take-All P Q i h [] more keep new t d = absurd t
  take-All P Q i h (w ∷ ws) more keep new (inl (u, _, e)) d =
      rw e (new (i + 1) w, All-map ws keep d.1)
  take-All P Q i h (w ∷ ws) more keep new (inr (rest, u, t, e)) d =
      rw e (keep w d.0, take-All P Q (i + 1) h ws rest keep new t d.1)

  take-Placed :
      (i h : ℕ) (ws more : List Window) → TakenBy make i ws h more → Placed i ws → Placed i more
  unfolding TakenBy Placed
  take-Placed i h [] more t d = absurd t
  take-Placed i h (w ∷ ws) more (inl (u, _, e)) d = rw e ((λ _. c.names (i + 1) w), d.1)
  take-Placed i h (w ∷ ws) more (inr (rest, u, t, e)) d =
      rw e (d.0, take-Placed (i + 1) h ws rest t d.1)

  take-Apart :
      (i h : ℕ) (ws more : List Window)
      → TakenBy make i ws h more
      → All (Before z) ws
      → Apart ws
      → Apart more
  unfolding TakenBy Apart
  take-Apart i h [] more t b d = absurd t
  take-Apart i h (w ∷ ws) more (inl (u, _, e)) b d = rw e (make-Differs (i + 1) w ws b.1, d.1)
  take-Apart i h (w ∷ ws) more (inr (rest, u, t, e)) b d = rw e (
    take-All (Differs w) (Differs w) (i + 1) h ws rest (λ v k. k)
        (λ k v u' uv same. absurd (omega (arith, b.0 u', same, c.orders k v))) t d.0,
    take-Apart (i + 1) h ws rest t b.1 d.1,
  )

  pub take-IsTable :
      (h : ℕ) (ws more : List Window)
      → TakenBy make 0 ws h more
      → IsTable z ws
      → IsTable (z + 1) more
  take-IsTable h ws more t k = record {
    placed = take-Placed 0 h ws more t k.placed;
    before =
        take-All (Before z) (Before (z + 1)) 0 h ws more (λ w b u. omega (arith, b u))
          (λ i w u. omega (arith, c.orders i w)) t k.before;
    apart = take-Apart 0 h ws more t k.before k.apart;
    in_use = take-All InUse InUse 0 h ws more (λ w b. b) (λ i w o. c.takes i w) t k.in_use;
  }
