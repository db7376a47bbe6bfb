-- ===== src/Lock/Ids.antt =====
-- The search for a free id in appl_init (src/aes/aes.c) ends.
use gem.Base.{
  ℕ, zero, suc, ◌+◌, ◌-◌, ◌%◌, ◌≤◌, ◌<◌, ◌≡◌, ◌≢◌, ◌∙◌, refl, sym, ap, true, false, List, [], ◌∷◌,
  Option, none, some, ◌==◌, length, arith, inl, inr, Bool-cases,
}
use gem.Lock.{App, find_app, is_found, remove_app, max_id, next_id, free_id}
use gem.Lock.Apps.{find-tail, find_app-remove_ne}

live : List (Option App) → ℕ
live [] = 0
live (none ∷ apps) = live apps
live (some a ∷ apps) = 1 + live apps

live-length : (apps : List (Option App)) → live apps ≤ length apps
unfolding live
live-length [] = omega arith
live-length (none ∷ apps) = omega (arith, live-length apps)
live-length (some a ∷ apps) = omega (arith, live-length apps)

live-remove :
    (apps : List (Option App)) (id : ℕ)
    → is_found (find_app apps id) ≡ true
    → live (remove_app apps id) + 1 ≡ live apps
unfolding live find_app remove_app
live-remove [] id found = absurd cc
live-remove (none ∷ apps) id found = live-remove apps id found
live-remove (some a ∷ apps) id found = elim (Bool-cases (a.id == id)) [
  | inl e ↦ rw e (omega arith)
  | inr e ↦
      let later = live-remove apps id (ap is_found (sym (find-tail a apps id e)) ∙ found) in
      rw e (omega (arith, later))
]

-- The same ids are in use, of the `n` ids from one on.
abbrev Agree : List (Option App) → List (Option App) → ℕ → ℕ → Type 0
Agree apps rest c n =
    (id : ℕ)
    → 1 ≤ id
    → id ≤ max_id
    → (id + max_id - c) % max_id < n
    → is_found (find_app apps id) ≡ is_found (find_app rest id)

next_near :
    (c id n : ℕ)
    → n < max_id
    → 1 ≤ c
    → c ≤ max_id
    → 1 ≤ id
    → id ≤ max_id
    → (id + max_id - next_id c) % max_id < n
    → ((id + max_id - c) % max_id < suc n) × (id ≢ c)
next_near c id n small low high id_low id_high near = elim (Bool-cases (c == max_id)) [
  | inl e ↦
      let last : c ≡ max_id = ground arith in
      let at = rw e at near in (omega (arith, at), λ same. omega (arith, at))
  | inr e ↦ let at = rw e at near in (omega (arith, at), λ same. omega (arith, at))
]

next-Agree :
    (apps rest : List (Option App)) (c n : ℕ)
    → n < max_id
    → 1 ≤ c
    → c ≤ max_id
    → Agree apps rest c (suc n)
    → Agree apps (remove_app rest c) (next_id c) n
next-Agree apps rest c n small low high same id id_low id_high near =
    let (near', other) = next_near c id n small low high id_low id_high near in
    same id id_low id_high near' ∙ sym (ap is_found (find_app-remove_ne rest c id other))

free_id-new :
    (n : ℕ) (apps rest : List (Option App)) (c : ℕ)
    → n ≤ max_id
    → 1 ≤ c
    → c ≤ max_id
    → live rest < n
    → Agree apps rest c n
    → (is_found (find_app apps (free_id n apps c)) ≡ false)
      × (1 ≤ free_id n apps c)
      × (free_id n apps c ≤ max_id)
unfolding free_id
free_id-new zero apps rest c small low high few same = absurd (omega arith)
free_id-new (suc n) apps rest c small low high few same =
    elim (Bool-cases (is_found (find_app apps c))) [
      | inr e ↦ rw e (e, low, high)
      | inl e ↦
          let used : is_found (find_app rest c) ≡ true = sym (same c low high (omega arith)) ∙ e in
          let fewer = live-remove rest c used in
          rw e (
            free_id-new n apps (remove_app rest c) (next_id c) (omega arith) (ground arith)
              (ground arith) (omega arith) (next-Agree apps rest c n (omega arith) low high same))
    ]

-- The search of appl_init, with as many rounds as slots and one, finds an id that is not in use.
pub free_id_lem :
    (apps : List (Option App)) (c : ℕ)
    → length apps < max_id
    → 1 ≤ c
    → c ≤ max_id
    → (is_found (find_app apps (free_id (length apps + 1) apps c)) ≡ false)
      × (1 ≤ free_id (length apps + 1) apps c)
      × (free_id (length apps + 1) apps c ≤ max_id)
free_id_lem apps c few low high =
    free_id-new (length apps + 1) apps apps c (omega arith) low high
      (omega (arith, live-length apps)) (λ id id_low id_high near. refl)
