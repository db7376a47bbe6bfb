-- ===== src/Rect/Span.antt =====
-- One axis of the rectangle arithmetic: which points a span covers, and how the common part of two
-- spans splits the first.
use gem.Base.{◌+◌, ◌⊎◌, ◌≡◌, sym, ap, ap₂, ◌∙◌, Bool, true, false, ◌&&◌, arith, bit}
use gem.Base.{inl, inr, Bool-cases}
use gem.Base.Int.{ℤ, pos, ◌+ℤ◌, ◌-ℤ◌, ◌≤ℤ◌, ◌<ℤ◌, ltb_ℤ, leb_ℤ}
use gem.Base.Int.{
  int_laws, +ℤ_parts, -ℤ_parts, eq_of_parts, parts_of_eq, pos_part, neg_part, IsWord, to_word,
  to_word-id,
}
use gem.Rect.{min_word, max_word, last, common_start, common_size}

-- The points from `start` on, `size` many.
abbrev pub in_span : ℤ → ℤ → ℤ → Bool
in_span start size p = leb_ℤ start p && ltb_ℤ p (start +ℤ size)

-- The points from `lo` to `hi`, both included.
in_range : ℤ → ℤ → ℤ → Bool
in_range lo hi p = leb_ℤ lo p && leb_ℤ p hi

-- A span of words that is not empty, and whose last point is a word.
pub record FitsSpan (start size : ℤ) : Type 0 where
  pub start_word : IsWord start
  pub size_word : IsWord size
  pub not_empty : pos 0 <ℤ size
  pub inside : start +ℤ size ≤ℤ pos 32768

pub last-eq : (s n : ℤ) → FitsSpan s n → last s n ≡ s +ℤ n -ℤ pos 1
unfolding last
last-eq s n f = to_word-id _ (omega int_laws)

pub last_parts :
    (s n : ℤ)
    → FitsSpan s n
    → pos_part (last s n) + neg_part (s +ℤ n -ℤ pos 1)
      ≡ pos_part (s +ℤ n -ℤ pos 1) + neg_part (last s n)
last_parts s n f = parts_of_eq _ _ (last-eq s n f)

in_span-in_range : (s n e p : ℤ) → e ≡ s +ℤ n -ℤ pos 1 → in_span s n p ≡ in_range s e p
unfolding in_range
in_span-in_range s n e p h =
    ground (arith, +ℤ_parts s n, -ℤ_parts (s +ℤ n) (pos 1), ap (λ (t : ℤ). leb_ℤ p t) h)

split_range :
    (s lo hi e p : ℤ)
    → s ≤ℤ lo
    → lo ≤ℤ hi
    → hi ≤ℤ e
    → bit (in_range s (lo -ℤ pos 1) p) + bit (in_range lo hi p) + bit (in_range (hi +ℤ pos 1) e p)
      ≡ bit (in_range s e p)
unfolding in_range
split_range s lo hi e p a b c = ground (arith, +ℤ_parts hi (pos 1), -ℤ_parts lo (pos 1))

empty_range : (lo hi p : ℤ) → hi <ℤ lo → in_range lo hi p ≡ false
unfolding in_range
empty_range lo hi p h = ground arith

-- The piece of a span in front of `lo`, and the one behind `hi`, as the code cuts them off.
abbrev pub before : ℤ → ℤ → ℤ → Bool
before s lo p = ltb_ℤ s lo && in_span s (to_word (lo -ℤ s)) p

abbrev pub after : ℤ → ℤ → ℤ → Bool
after hi e p = ltb_ℤ hi e && in_span (to_word (hi +ℤ pos 1)) (to_word (e -ℤ hi)) p

test-true : (a b : ℤ) → a <ℤ b → ltb_ℤ a b ≡ true
test-true a b h = ground arith

test-false : (a b : ℤ) → b ≤ℤ a → ltb_ℤ a b ≡ false
test-false a b h = ground arith

pub lt_of_test : (a b : ℤ) → ltb_ℤ a b ≡ true → a <ℤ b
lt_of_test a b h = ground arith

pub le_of_test : (a b : ℤ) → ltb_ℤ a b ≡ false → b ≤ℤ a
le_of_test a b h = ground arith

before_range :
    (s lo p : ℤ) → IsWord (lo -ℤ s) → s ≤ℤ lo → before s lo p ≡ in_range s (lo -ℤ pos 1) p
before_range s lo p w h = elim (Bool-cases (ltb_ℤ s lo)) [
  | inl t ↦
      rw (t, to_word-id _ w)
        (in_span-in_range s (lo -ℤ s) (lo -ℤ pos 1) p (eq_of_parts _ _ (omega int_laws)))
  | inr t ↦ rw (t) (sym (empty_range s (lo -ℤ pos 1) p (omega (int_laws, le_of_test s lo t))))
]

after_range :
    (hi e p : ℤ)
    → IsWord e
    → IsWord hi
    → IsWord (e -ℤ hi)
    → hi ≤ℤ e
    → after hi e p ≡ in_range (hi +ℤ pos 1) e p
after_range hi e p we wh w h = elim (Bool-cases (ltb_ℤ hi e)) [
  | inl t ↦
      rw (t, to_word-id (hi +ℤ pos 1) (omega (int_laws, lt_of_test hi e t)), to_word-id _ w)
        (in_span-in_range (hi +ℤ pos 1) (e -ℤ hi) e p (eq_of_parts _ _ (omega int_laws)))
  | inr t ↦ rw (t) (sym (empty_range (hi +ℤ pos 1) e p (omega (int_laws, le_of_test hi e t))))
]

-- A part of a span that fits splits it in three.
pub split_span :
    (s n o k p : ℤ)
    → FitsSpan s n
    → FitsSpan o k
    → s ≤ℤ o
    → last o k ≤ℤ last s n
    → bit (before s o p) + bit (in_span o k p) + bit (after (last o k) (last s n) p)
      ≡ bit (in_span s n p)
split_span s n o k p f g a b = omega (
  arith,
  split_range s o (last o k) (last s n) p a (omega (int_laws, last_parts o k g)) b,
  ap bit (before_range s o p (omega (int_laws, last_parts s n f, last_parts o k g)) a),
  ap bit (in_span-in_range o k (last o k) p (last-eq o k g)),
  ap bit (
      after_range (last o k) (last s n) p (omega (int_laws, last_parts s n f))
        (omega (int_laws, last_parts o k g)) (omega (int_laws, last_parts s n f, last_parts o k g))
        b),
  ap bit (in_span-in_range s n (last s n) p (last-eq s n f)),
)

max_word_lem :
    (a b : ℤ)
    → (a ≤ℤ max_word a b) × (b ≤ℤ max_word a b) × ((max_word a b ≤ℤ a) ⊎ (max_word a b ≤ℤ b))
unfolding max_word
max_word_lem a b = elim (Bool-cases (ltb_ℤ b a)) [
  | inl t ↦ rw t (omega arith, omega (arith, lt_of_test b a t), inl (omega arith))
  | inr t ↦ rw t (le_of_test b a t, omega arith, inr (omega arith))
]

min_word_lem :
    (a b : ℤ)
    → (min_word a b ≤ℤ a) × (min_word a b ≤ℤ b) × ((a ≤ℤ min_word a b) ⊎ (b ≤ℤ min_word a b))
unfolding min_word
min_word_lem a b = elim (Bool-cases (ltb_ℤ a b)) [
  | inl t ↦ rw t (omega arith, omega (arith, lt_of_test a b t), inl (omega arith))
  | inr t ↦ rw t (le_of_test a b t, omega arith, inr (omega arith))
]

-- The two spans have a point in common.
pub record Meets (s n c m : ℤ) : Type 0 where
  pub left : s ≤ℤ last c m
  pub right : c ≤ℤ last s n

-- What the common part of two spans is.
pub record IsCommon (s n c m o k : ℤ) : Type 0 where
  pub fits : FitsSpan o k
  pub from : s ≤ℤ o
  pub upto : last o k ≤ℤ last s n
  pub points : (p : ℤ) → in_span o k p ≡ (in_span s n p && in_span c m p)

common_range :
    (s e c d o h p : ℤ)
    → (s ≤ℤ o) × (c ≤ℤ o) × ((o ≤ℤ s) ⊎ (o ≤ℤ c))
    → (h ≤ℤ e) × (h ≤ℤ d) × ((e ≤ℤ h) ⊎ (d ≤ℤ h))
    → in_range o h p ≡ (in_range s e p && in_range c d p)
unfolding in_range
common_range s e c d o h p a b = ground arith

module _ (s n c m : ℤ) (f : FitsSpan s n) (g : FitsSpan c m) (t : Meets s n c m) where
  highest : ℤ
  highest = min_word (last s n) (last c m)

  size-eq : common_size s n c m ≡ highest -ℤ max_word s c +ℤ pos 1
  unfolding common_size common_start highest
  size-eq = to_word-id _ (
      omega (
        int_laws,
        t.left,
        t.right,
        last_parts s n f,
        last_parts c m g,
        max_word_lem s c,
        min_word_lem (last s n) (last c m),
      ))

  common_fits : FitsSpan (common_start s c) (common_size s n c m)
  unfolding common_start highest
  common_fits = omega (
    int_laws,
    parts_of_eq _ _ size-eq,
    t.left,
    t.right,
    last_parts s n f,
    last_parts c m g,
    max_word_lem s c,
    min_word_lem (last s n) (last c m),
  )

  last-common : last (common_start s c) (common_size s n c m) ≡ highest
  unfolding common_start
  last-common = eq_of_parts _ _ (
      omega (
        int_laws,
        parts_of_eq _ _ size-eq,
        last_parts (common_start s c) (common_size s n c m) common_fits,
      ))

  pub common_lem : IsCommon s n c m (common_start s c) (common_size s n c m)
  unfolding common_start highest
  common_lem = record {
    fits = common_fits;
    from = (max_word_lem s c).0;
    upto = rw last-common (min_word_lem (last s n) (last c m)).0;
    points = λ p.
        in_span-in_range (max_word s c) (common_size s n c m) highest p
          (sym last-common ∙ last-eq _ _ common_fits)
        ∙ common_range s (last s n) c (last c m) (max_word s c) highest p (max_word_lem s c)
            (min_word_lem (last s n) (last c m))
        ∙ ap₂ ◌&&◌ (sym (in_span-in_range s n (last s n) p (last-eq s n f)))
            (sym (in_span-in_range c m (last c m) p (last-eq c m g)));
  }
