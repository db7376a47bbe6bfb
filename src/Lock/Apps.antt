-- ===== src/Lock/Apps.antt =====
-- The table of applications in src/aes/aes_core.c: how a change of one is found by its id.
use gem.Base.{
  ℕ, suc, ◌≡◌, ◌≢◌, ◌∙◌, refl, sym, ap, true, false, List, [], ◌∷◌, Option, none, some,
  if◌then◌else◌, ◌==◌, length, arith, inl, inr, Bool-cases, if_false, if_true,
}
use mathlib.Core.Option
use mathlib.Core.Bool.{false≢true}
use gem.Lock.{
  depth_in, App, find_app, is_found, depth_of, set_depth, remove_app, add_app, with_head,
}

pub find-head :
    (a : App) (apps : List (Option App)) (k : ℕ)
    → (a.id == k) ≡ true
    → find_app (some a ∷ apps) k ≡ some a
unfolding find_app
find-head a apps k e = if_true (a.id == k) (some a) (find_app apps k) e

pub find-tail :
    (a : App) (apps : List (Option App)) (k : ℕ)
    → (a.id == k) ≡ false
    → find_app (some a ∷ apps) k ≡ find_app apps k
unfolding find_app
find-tail a apps k e = if_false (a.id == k) (some a) (find_app apps k) e

sym_ne : (m n : ℕ) → (m == n) ≡ false → (n == m) ≡ false
sym_ne m n e = ground arith

other_id :
    (b : App) (apps : List (Option App)) (k : ℕ)
    → is_found (find_app (some b ∷ apps) k) ≡ false
    → (b.id == k) ≡ false
other_id b apps k new = elim (Bool-cases (b.id == k)) [
  | inl e ↦ absurd (false≢true (sym new ∙ ap is_found (find-head b apps k e)))
  | inr e ↦ e
]

-- No two applications have the same id.
abbrev pub AreApart : List (Option App) → Type 0
AreApart [] = Unit
AreApart (none ∷ apps) = AreApart apps
AreApart (some a ∷ apps) = (is_found (find_app apps a.id) ≡ false) × AreApart apps

pub found-set_depth :
    (apps : List (Option App)) (id depth k : ℕ)
    → is_found (find_app (set_depth apps id depth) k) ≡ is_found (find_app apps k)
unfolding find_app set_depth
found-set_depth [] id depth k = refl
found-set_depth (none ∷ apps) id depth k = found-set_depth apps id depth k
found-set_depth (some a ∷ apps) id depth k = ground (arith, found-set_depth apps id depth k)

pub depth_of-set_ne :
    (apps : List (Option App)) (id depth k : ℕ)
    → k ≢ id
    → depth_of (set_depth apps id depth) k ≡ depth_of apps k
unfolding find_app set_depth depth_of
depth_of-set_ne [] id depth k ne = refl
depth_of-set_ne (none ∷ apps) id depth k ne = depth_of-set_ne apps id depth k ne
depth_of-set_ne (some a ∷ apps) id depth k ne = elim (Bool-cases (a.id == id)) [
  | inl e ↦ rw e (
      ap depth_in (
        find-tail (record a { update_depth = depth }) apps k (ground arith)
        ∙ sym (find-tail a apps k (ground arith))))
  | inr e ↦ rw e (elim (Bool-cases (a.id == k)) [
    | inl f ↦ ap depth_in (find-head a (set_depth apps id depth) k f ∙ sym (find-head a apps k f))
    | inr f ↦
        ap depth_in (find-tail a (set_depth apps id depth) k f)
        ∙ depth_of-set_ne apps id depth k ne
        ∙ sym (ap depth_in (find-tail a apps k f))
  ])
]

pub depth_of-set_self :
    (apps : List (Option App)) (id depth : ℕ)
    → is_found (find_app apps id) ≡ true
    → depth_of (set_depth apps id depth) id ≡ depth
unfolding find_app set_depth depth_of
depth_of-set_self [] id depth found = absurd cc
depth_of-set_self (none ∷ apps) id depth found = depth_of-set_self apps id depth found
depth_of-set_self (some a ∷ apps) id depth found = elim (Bool-cases (a.id == id)) [
  | inl e ↦ rw e (ap depth_in (find-head (record a { update_depth = depth }) apps id e))
  | inr e ↦ rw e (
      ap depth_in (find-tail a (set_depth apps id depth) id e)
      ∙ depth_of-set_self apps id depth (ap is_found (sym (find-tail a apps id e)) ∙ found))
]

pub set_depth-AreApart :
    (apps : List (Option App)) (id depth : ℕ) → AreApart apps → AreApart (set_depth apps id depth)
unfolding find_app set_depth
set_depth-AreApart [] id depth apart = tt
set_depth-AreApart (none ∷ apps) id depth apart = set_depth-AreApart apps id depth apart
set_depth-AreApart (some a ∷ apps) id depth apart = elim (Bool-cases (a.id == id)) [
  | inl e ↦ let same : a.id ≡ id = ground arith in rw e apart
  | inr e ↦
      rw e (found-set_depth apps id depth a.id ∙ apart.0, set_depth-AreApart apps id depth apart.1)
]

pub find_app-remove_ne :
    (apps : List (Option App)) (id k : ℕ)
    → k ≢ id
    → find_app (remove_app apps id) k ≡ find_app apps k
unfolding find_app remove_app
find_app-remove_ne [] id k ne = refl
find_app-remove_ne (none ∷ apps) id k ne = find_app-remove_ne apps id k ne
find_app-remove_ne (some a ∷ apps) id k ne = elim (Bool-cases (a.id == id)) [
  | inl e ↦ rw e (sym (if_false (a.id == k) (some a) (find_app apps k) (ground arith)))
  | inr e ↦ rw e (ap (λ o. if a.id == k then some a else o) (find_app-remove_ne apps id k ne))
]

pub found-remove_self :
    (apps : List (Option App)) (id : ℕ)
    → AreApart apps
    → is_found (find_app (remove_app apps id) id) ≡ false
unfolding find_app remove_app
found-remove_self [] id apart = refl
found-remove_self (none ∷ apps) id apart = found-remove_self apps id apart
found-remove_self (some a ∷ apps) id apart = elim (Bool-cases (a.id == id)) [
  | inl e ↦
      let same : a.id ≡ id = ground arith in
      rw e (ap (λ i. is_found (find_app apps i)) (sym same) ∙ apart.0)
  | inr e ↦
      rw e (ap is_found (find-tail a (remove_app apps id) id e) ∙ found-remove_self apps id apart.1)
]

pub remove_app-AreApart :
    (apps : List (Option App)) (id : ℕ) → AreApart apps → AreApart (remove_app apps id)
unfolding find_app remove_app
remove_app-AreApart [] id apart = tt
remove_app-AreApart (none ∷ apps) id apart = remove_app-AreApart apps id apart
remove_app-AreApart (some a ∷ apps) id apart = elim (Bool-cases (a.id == id)) [
  | inl e ↦ rw e apart.1
  | inr e ↦ rw e (
    ap is_found (find_app-remove_ne apps id a.id (ground arith)) ∙ apart.0,
    remove_app-AreApart apps id apart.1,
  )
]

head_inv :
    (b : App) (o : Option (List (Option App))) (more : List (Option App))
    → with_head b o ≡ some more
    → (rest : List (Option App)) × (o ≡ some rest) × (more ≡ some b ∷ rest)
head_inv b none more e = absurd (Option.none-ne-some _ e)
head_inv b (some rest) more e = (rest, refl, sym (Option.some-injective _ _ e))

pub find_app-add_ne :
    (apps more : List (Option App)) (a : App) (k : ℕ)
    → add_app apps a ≡ some more
    → (a.id == k) ≡ false
    → find_app more k ≡ find_app apps k
unfolding find_app add_app
find_app-add_ne [] more a k e ne = absurd (Option.none-ne-some _ e)
find_app-add_ne (none ∷ apps) more a k e ne =
    rw (← Option.some-injective _ _ e) (find-tail a apps k ne)
find_app-add_ne (some b ∷ apps) more a k e ne =
    let (rest, found, same) = head_inv b (add_app apps a) more e in
    rw same (ap (λ o. if b.id == k then some b else o) (find_app-add_ne apps rest a k found ne))

pub find_app-add_self :
    (apps more : List (Option App)) (a : App)
    → add_app apps a ≡ some more
    → is_found (find_app apps a.id) ≡ false
    → find_app more a.id ≡ some a
unfolding find_app add_app
find_app-add_self [] more a e new = absurd (Option.none-ne-some _ e)
find_app-add_self (none ∷ apps) more a e new =
    rw (← Option.some-injective _ _ e) (find-head a apps a.id (ground arith))
find_app-add_self (some b ∷ apps) more a e new =
    let (rest, found, same) = head_inv b (add_app apps a) more e in
    let other : (b.id == a.id) ≡ false = other_id b apps a.id new in
    rw same (
      find-tail b rest a.id other
      ∙ find_app-add_self apps rest a found (ap is_found (sym (find-tail b apps a.id other)) ∙ new))

pub add_app-AreApart :
    (apps more : List (Option App)) (a : App)
    → add_app apps a ≡ some more
    → is_found (find_app apps a.id) ≡ false
    → AreApart apps
    → AreApart more
unfolding find_app add_app
add_app-AreApart [] more a e new apart = absurd (Option.none-ne-some _ e)
add_app-AreApart (none ∷ apps) more a e new apart = rw (← Option.some-injective _ _ e) (new, apart)
add_app-AreApart (some b ∷ apps) more a e new apart =
    let (rest, found, same) = head_inv b (add_app apps a) more e in
    let other : (b.id == a.id) ≡ false = other_id b apps a.id new in
    rw same (
      ap is_found (find_app-add_ne apps rest a b.id found (sym_ne b.id a.id other)) ∙ apart.0,
      add_app-AreApart apps rest a found (ap is_found (sym (find-tail b apps a.id other)) ∙ new)
          apart.1,
    )

pub length-set_depth :
    (apps : List (Option App)) (id depth : ℕ) → length (set_depth apps id depth) ≡ length apps
unfolding set_depth
length-set_depth [] id depth = refl
length-set_depth (none ∷ apps) id depth = ap suc (length-set_depth apps id depth)
length-set_depth (some a ∷ apps) id depth = ground (arith, length-set_depth apps id depth)

pub length-remove_app :
    (apps : List (Option App)) (id : ℕ) → length (remove_app apps id) ≡ length apps
unfolding remove_app
length-remove_app [] id = refl
length-remove_app (none ∷ apps) id = ap suc (length-remove_app apps id)
length-remove_app (some a ∷ apps) id = ground (arith, length-remove_app apps id)

pub length-add_app :
    (apps more : List (Option App)) (a : App)
    → add_app apps a ≡ some more
    → length more ≡ length apps
unfolding add_app
length-add_app [] more a e = absurd (Option.none-ne-some _ e)
length-add_app (none ∷ apps) more a e = rw (← Option.some-injective _ _ e) refl
length-add_app (some b ∷ apps) more a e =
    let (rest, found, same) = head_inv b (add_app apps a) more e in
    rw same (ap suc (length-add_app apps rest a found))
