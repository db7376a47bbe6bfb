-- ===== src/Base/Inversion.antt =====
-- What a successful result tells of the steps that made it.
use mathlib.Core.Path.{◌≡◌, refl, sym}
use mathlib.Core.Logic.{◌⊎◌, inl, inr}
use mathlib.Core.Bool.{Bool, true, false, not}
use mathlib.Core.Option.{Option, none, some}
use mathlib.Core.Option
use native.Mathlib.Omega.{arith}
use gem.Base.Tests.{if◌then◌else◌}

module _ {ℓ} {A : Type ℓ} where
  pub if_inv :
      (b : Bool) (x y : A) {r : A}
      → (if b then x else y) ≡ r
      → ((b ≡ true) × (x ≡ r)) ⊎ ((b ≡ false) × (y ≡ r))
  if_inv true x y e = inl (refl, e)
  if_inv false x y e = inr (refl, e)

pub map_inv {ℓ κ} :
    {A : Type ℓ} {B : Type κ} (f : A → B) (o : Option A) {r : B}
    → Option.map f o ≡ some r
    → (a : A) × (o ≡ some a) × (r ≡ f a)
map_inv f none e = cc
map_inv f (some a) e = (a, refl, sym (Option.some-injective _ _ e))

pub flip_true : (b : Bool) → not b ≡ true → b ≡ false
flip_true b h = ground arith

pub flip_false : (b : Bool) → not b ≡ false → b ≡ true
flip_false b h = ground arith

pub if_both {ℓ κ} :
    {A : Type ℓ} (P : A → Type κ) (b : Bool) {x y : A} → P x → P y → P (if b then x else y)
if_both P true px py = px
if_both P false px py = py

pub if_true {ℓ} : {A : Type ℓ} (b : Bool) (x y : A) → b ≡ true → (if b then x else y) ≡ x
if_true b x y e = rw e

pub if_false {ℓ} : {A : Type ℓ} (b : Bool) (x y : A) → b ≡ false → (if b then x else y) ≡ y
if_false b x y e = rw e
