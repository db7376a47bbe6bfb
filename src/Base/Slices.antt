-- ===== src/Base/Slices.antt =====
-- Parts of lists taken from parts of lists.
use Prim.Native.Nat.{ℕ, zero, suc, ◌+◌, ◌-◌, ◌≤◌, ◌<◌}
use mathlib.Core.Path.{◌≡◌, refl, sym, ap, ◌∙◌}
use mathlib.Core.List.{List, [], ◌∷◌, ◌++◌}
use native.Mathlib.Omega.{arith}
use gem.Base.Lists.{get_or, take, drop}

module _ {ℓ} {A : Type ℓ} where
  take_nil : (n : ℕ) → take {A = A} n [] ≡ []
  take_nil zero = refl
  take_nil (suc n) = refl

  drop_nil : (n : ℕ) → drop {A = A} n [] ≡ []
  drop_nil zero = refl
  drop_nil (suc n) = refl

  pub drop-drop : (a b : ℕ) (xs : List A) → drop a (drop b xs) ≡ drop (b + a) xs
  drop-drop a zero xs = ap (λ n. drop n xs) (omega arith)
  drop-drop a (suc b) [] = drop_nil a ∙ sym (drop_nil (suc b + a))
  drop-drop a (suc b) (x ∷ xs) =
      drop-drop a b xs ∙ ap (λ n. drop n (x ∷ xs)) {x = suc (b + a)} (omega arith)

  pub drop-take : (a n : ℕ) (xs : List A) → drop a (take n xs) ≡ take (n - a) (drop a xs)
  drop-take zero n xs = ap (λ m. take m xs) (omega arith)
  drop-take (suc a) zero xs = ap (λ m. take m (drop (suc a) xs)) {x = 0} (omega arith)
  drop-take (suc a) (suc n) [] = sym (take_nil (suc n - suc a))
  drop-take (suc a) (suc n) (x ∷ xs) = drop-take a n xs ∙ ap (λ m. take m (drop a xs)) (omega arith)

  pub take-take : (a n : ℕ) (xs : List A) → a ≤ n → take a (take n xs) ≡ take a xs
  take-take zero n xs le = refl
  take-take (suc a) zero xs le = absurd (omega arith)
  take-take (suc a) (suc n) [] le = refl
  take-take (suc a) (suc n) (x ∷ xs) le = ap (λ t. x ∷ t) (take-take a n xs (omega arith))

  pub take-append-take : (a b : ℕ) (xs : List A) → take a xs ++ take b (drop a xs) ≡ take (a + b) xs
  take-append-take zero b xs = ap (λ n. take n xs) (omega arith)
  take-append-take (suc a) b [] = take_nil b ∙ sym (take_nil (suc a + b))
  take-append-take (suc a) b (x ∷ xs) =
      ap (λ t. x ∷ t) (take-append-take a b xs)
      ∙ ap (λ n. take n (x ∷ xs)) {x = suc (a + b)} (omega arith)

  pub get_or-drop : (n i : ℕ) (xs : List A) (d : A) → get_or (drop n xs) i d ≡ get_or xs (n + i) d
  get_or-drop zero i xs d = ap (λ m. get_or xs m d) (omega arith)
  get_or-drop (suc n) i [] d = refl
  get_or-drop (suc n) i (x ∷ xs) d =
      get_or-drop n i xs d ∙ ap (λ m. get_or (x ∷ xs) m d) {x = suc (n + i)} (omega arith)

  pub get_or-take : (n i : ℕ) (xs : List A) (d : A) → i < n → get_or (take n xs) i d ≡ get_or xs i d
  get_or-take zero i xs d lt = absurd (omega arith)
  get_or-take (suc n) i [] d lt = refl
  get_or-take (suc n) zero (x ∷ xs) d lt = refl
  get_or-take (suc n) (suc i) (x ∷ xs) d lt = get_or-take n i xs d (omega arith)
