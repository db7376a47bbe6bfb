-- ===== src/Wind/Find.antt =====
-- Which window src/aes/window.c finds at a point.
use mathlib.Core.Option
use mathlib.Core.Path.{subst}
use gem.Base.{inl, inr, Bool-cases, if_true, if_false, &&-eq-true}
use gem.Base.{
  ℕ, zero, suc, ◌+◌, ◌≤◌, ◌≡◌, ◌∙◌, ◌⊎◌, sym, ap, refl, Bool, true, false, ◌&&◌, List, [], ◌∷◌,
  Option, none, some, arith, All, get_elem?,
}
use gem.Base.Int.{ℤ, pos}
use gem.Rect.{point_in_rect}
use gem.Window.{Window, AesState, is_higher}
use gem.Wind.{find_at_from, handle_of, wind_find}
use gem.Wind.Slots.{Placed}
use gem.Wind.Table.{IsDesk}

-- `wind_find` tests a window for a point.
abbrev pub has_point : ℤ → ℤ → Window → Bool
has_point x y w = w.used && (w.open_flag && point_in_rect x y (some w.outer))

-- The highest of the windows that have the point, with its slot.
pub IsHighest : ℤ → ℤ → List Window → ℤ → Type 0
IsHighest x y ws found =
    (i : ℕ) × (w : Window) × (get_elem? ws i ≡ some w)
    × (found ≡ pos (i + 1))
    × (has_point x y w ≡ true)
    × All (λ v. has_point x y v ≡ true → v.z_order ≤ w.z_order) ws

-- What the search has so far is the highest of what it has seen.
Leads : ℤ → ℤ → Option Window → List Window → Window → Type 0
Leads x y best ws w =
    ((best ≡ some w) ⊎ ((i : ℕ) × (get_elem? ws i ≡ some w) × (has_point x y w ≡ true)))
    × All (λ v. has_point x y v ≡ true → v.z_order ≤ w.z_order) ws
    × ((v : Window) → best ≡ some v → v.z_order ≤ w.z_order)

le_of_same :
    (v w : Window) (best : Option Window) → best ≡ some v → best ≡ some w → v.z_order ≤ w.z_order
le_of_same v w best e f =
    let same = ap (λ (u : Window). u.z_order) (Option.some-injective _ _ (sym e ∙ f)) in
    omega (arith, same)

-- A window with the point that is not higher than the best so far is no higher than its leader.
not_higher :
    (x y : ℤ) (u w : Window) (best : Option Window)
    → (u.used && (u.open_flag && (point_in_rect x y (some u.outer) && is_higher u best))) ≡ false
    → ((v : Window) → best ≡ some v → v.z_order ≤ w.z_order)
    → has_point x y u ≡ true
    → u.z_order ≤ w.z_order
unfolding is_higher
not_higher x y u w none t old p = absurd (ground arith)
not_higher x y u w (some v) t old p = let le = old v refl in ground arith

parts_true :
    (a b c d : Bool) → (a && (b && (c && d))) ≡ true → ((a && (b && c)) ≡ true) × (d ≡ true)
parts_true a b c d h = ground arith

older :
    (u v : Window) (best : Option Window)
    → is_higher u best ≡ true
    → best ≡ some v
    → v.z_order ≤ u.z_order
unfolding is_higher
older u v none h e = cc
older u v (some b) h e =
    let same = ap (λ (k : Window). k.z_order) (Option.some-injective _ _ e) in ground arith

find_at_from-Leads :
    (x y : ℤ) (ws : List Window) (best : Option Window) (w : Window)
    → find_at_from x y best ws ≡ some w
    → Leads x y best ws w
unfolding find_at_from Leads
find_at_from-Leads x y [] best w e = (inl e, tt, λ v e'. le_of_same v w best e' e)
find_at_from-Leads x y (u ∷ us) best w e =
    elim (Bool-cases
      (u.used && (u.open_flag && (point_in_rect x y (some u.outer) && is_higher u best)))) [
        | inl t ↦
            let (at, higher) =
              parts_true u.used u.open_flag (point_in_rect x y (some u.outer)) (is_higher u best)
                t in
            let (from, all, old) =
              find_at_from-Leads x y us (some u) w
                (ap (λ o. find_at_from x y o us) (sym (if_true _ (some u) best t)) ∙ e) in
            (
              elim from [
                | inl same ↦ inr (
                  0,
                  same,
                  subst (λ k. has_point x y k ≡ true) (Option.some-injective _ _ same) at,
                )
                | inr (i, found, p) ↦ inr (suc i, found, p)
              ],
              (λ _. old u refl, all),
              λ v e'. let le = older u v best higher e' in let le' = old u refl in omega arith,
            )
        | inr t ↦
            let (from, all, old) =
              find_at_from-Leads x y us best w
                (ap (λ o. find_at_from x y o us) (sym (if_false _ (some u) best t)) ∙ e) in
            (
              elim from [ inl same ↦ inl same | inr (i, found, p) ↦ inr (suc i, found, p) ],
              (not_higher x y u w best t old, all),
              old,
            )
      ]

no_higher :
    (x y : ℤ) (u : Window) (b : Bool)
    → (u.used && (u.open_flag && (point_in_rect x y (some u.outer) && b))) ≡ false
    → b ≡ true
    → has_point x y u ≡ false
no_higher x y u b t h = ground arith

find_at_from-none :
    (x y : ℤ) (ws : List Window) (best : Option Window)
    → find_at_from x y best ws ≡ none
    → (best ≡ none) × All (λ v. has_point x y v ≡ false) ws
unfolding find_at_from is_higher
find_at_from-none x y [] best e = (e, tt)
find_at_from-none x y (u ∷ us) best e =
    elim (Bool-cases
      (u.used && (u.open_flag && (point_in_rect x y (some u.outer) && is_higher u best)))) [
        | inl t ↦
            let (nothing, _) =
              find_at_from-none x y us (some u)
                (ap (λ o. find_at_from x y o us) (sym (if_true _ (some u) best t)) ∙ e) in
            cc
        | inr t ↦
            let (nothing, all) =
              find_at_from-none x y us best
                (ap (λ o. find_at_from x y o us) (sym (if_false _ (some u) best t)) ∙ e) in
            (nothing, (no_higher x y u (is_higher u best) t (ap (is_higher u) nothing), all))
      ]

handle_of_slot :
    (i k : ℕ) (ws : List Window) (w : Window)
    → Placed k ws
    → get_elem? ws i ≡ some w
    → w.used ≡ true
    → w.handle ≡ pos (k + i + 1)
unfolding Placed
handle_of_slot i k [] w h e u = cc
handle_of_slot zero k (v ∷ vs) w h e u =
    let same = Option.some-injective _ _ e in
    let here : k + 0 + 1 ≡ k + 1 = omega arith in
    rw here (subst (λ (n : Window). n.used ≡ true → n.handle ≡ pos (k + 1)) same h.0 u)
handle_of_slot (suc i) k (v ∷ vs) w h e u =
    let shift : k + suc i + 1 ≡ k + 1 + i + 1 = omega arith in
    rw shift (handle_of_slot i (k + 1) vs w h.1 e u)

found_cases :
    (x y : ℤ) (ws : List Window) (o : Option Window)
    → Placed 0 ws
    → find_at_from x y none ws ≡ o
    → ((handle_of o ≡ pos 0) × All (λ v. has_point x y v ≡ false) ws)
      ⊎ IsHighest x y ws (handle_of o)
unfolding IsHighest Leads
found_cases x y ws none h e = inl (refl, (find_at_from-none x y ws none e).1)
found_cases x y ws (some w) h e =
    let (from, all, _) = find_at_from-Leads x y ws none w e in
    elim from [
      | inl nothing ↦ absurd (cc)
      | inr (i, at, p) ↦ inr (
        i,
        w,
        at,
        handle_of_slot i 0 ws w h at (&&-eq-true _ _ p).0
            ∙ ap (λ (n : ℕ). pos (n + 1)) (omega arith),
        p,
        all,
      )
    ]

-- When the table is in order, `wind_find` answers 0 and no open window has the point in its outer
-- rectangle, or it answers the handle of the slot of an open window that has the point, and no open
-- window that has it is higher.
pub wind_find-IsHighest :
    (x y : ℤ) (st : AesState)
    → IsDesk st
    → ((wind_find x y st ≡ pos 0) × All (λ v. has_point x y v ≡ false) st.windows)
      ⊎ IsHighest x y st.windows (wind_find x y st)
unfolding wind_find
wind_find-IsHighest x y st h =
    found_cases x y st.windows (find_at_from x y none st.windows) h.placed refl
