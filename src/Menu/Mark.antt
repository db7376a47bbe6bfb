-- ===== src/Menu/Mark.antt =====
-- Marking the objects of a menu (`valid_menu_tree`, src/gem/protocol.c): what a walk satisfies, and
-- the loop over the children of one object.
use mathlib.Core.Path.{subst}
use gem.Base.{
  ℕ, zero, suc, ◌+◌, ◌-◌, ◌≤◌, ◌<◌, ◌≡◌, ◌∙◌, refl, sym, Bool, true, false, List, [], ◌∷◌, ◌++◌,
  ◌==◌, get_or, set, replicate, length, arith, All, length-append, length-set, if_both, Bool-cases,
  inl, inr, bit, get_or-set_ne, ==_iff,
}
use gem.Base.Int.{ℤ, pos, negsuc, eqb_ℤ}
use gem.Menu.{
  MenuObject, object_at, Walk, Outcome, spent, rejected, went, enqueue, is_refused_child, children,
}

-- An object that the links lead to from the root: by a head, or by a next sibling.
pub data IsReached (objects : List MenuObject) : ℕ → Type 0 where
  at_root : IsReached objects 0
  by_head :
      (parent child : ℕ)
      → IsReached objects parent
      → (object_at objects parent).ob_head ≡ pos child
      → IsReached objects child
  by_next :
      (sibling child : ℕ)
      → IsReached objects sibling
      → (object_at objects sibling).ob_next ≡ pos child
      → IsReached objects child

pub trues : List Bool → ℕ
trues [] = 0
trues (b ∷ bs) = bit b + trues bs

pub trues_le : (bs : List Bool) → trues bs ≤ length bs
unfolding trues
trues_le [] = omega arith
trues_le (true ∷ bs) = omega (arith, trues_le bs)
trues_le (false ∷ bs) = omega (arith, trues_le bs)

pub trues-set :
    (bs : List Bool) (i : ℕ) → get_or bs i true ≡ false → trues (set bs i true) ≡ trues bs + 1
unfolding trues
trues-set [] i e = cc
trues-set (b ∷ bs) zero e = rw e (omega arith)
trues-set (b ∷ bs) (suc i) e = omega (arith, trues-set bs i e)

pub all_true :
    (bs : List Bool) (i : ℕ) → trues bs ≡ length bs → i < length bs → get_or bs i true ≡ true
unfolding trues
all_true [] i e lt = refl
all_true (true ∷ bs) zero e lt = refl
all_true (true ∷ bs) (suc i) e lt = all_true bs i (omega (arith, e)) (omega arith)
all_true (false ∷ bs) i e lt = absurd (omega (arith, e, trues_le bs))

pub trues-replicate : (n : ℕ) → trues (replicate n false) ≡ 0
unfolding trues
trues-replicate zero = refl
trues-replicate (suc n) = omega (arith, trues-replicate n)

module _ (objects : List MenuObject) (count : ℕ) where
  -- What is marked and what is in the queue is reached, and `used` counts the marks.
  pub record IsWalk (w : Walk) : Type 0 where
    pub sized : length w.seen ≡ count
    pub counted : w.used ≡ trues w.seen
    pub queued : All (IsReached objects) w.queue
    pub marked : (i : ℕ) → i < count → get_or w.seen i true ≡ true → IsReached objects i

  -- The objects that are still to be marked or taken from the queue.
  unfoldable pub left : Walk → ℕ
  left w = length w.queue + (count - trues w.seen)

  -- The outcome of a loop that is not out of fuel and leaves `m` objects.
  unfoldable pub Ends : ℕ → Outcome → Type 0
  Ends m spent = false ≡ true
  Ends m rejected = Unit
  Ends m (went w) = IsWalk w × (left w ≡ m)

All-snoc : (P : ℕ → Type 0) (xs : List ℕ) (x : ℕ) → All P xs → P x → All P (xs ++ x ∷ [])
All-snoc P [] x h p = (p, tt)
All-snoc P (y ∷ xs) x h p = (h.0, All-snoc P xs x h.1 p)

module _ (objects : List MenuObject) (count : ℕ) where
  marked_after :
      (child : ℕ) (w : Walk)
      → IsWalk objects count w
      → IsReached objects child
      → (i : ℕ) → i < count
      → get_or (set w.seen child true) i true ≡ true
      → IsReached objects i
  marked_after child w v reached i lt h = elim (Bool-cases (child == i)) [
    | inl e ↦ subst (IsReached objects) ((==_iff child i).0 e) reached
    | inr e ↦ v.marked i lt (sym (get_or-set_ne w.seen child i true true (ground arith)) ∙ h)
  ]

  enqueue-IsWalk :
      (child : ℕ) (w : Walk)
      → IsWalk objects count w
      → get_or w.seen child true ≡ false
      → IsReached objects child
      → IsWalk objects count (enqueue child w)
  enqueue-IsWalk child w v fresh reached = record {
    sized = length-set w.seen child true ∙ v.sized;
    counted = let more = trues-set w.seen child fresh in omega (arith, more, v.counted);
    queued = All-snoc (IsReached objects) w.queue child v.queued reached;
    marked = marked_after child w v reached;
  }

  enqueue-left :
      (child : ℕ) (w : Walk)
      → IsWalk objects count w
      → get_or w.seen child true ≡ false
      → left objects count (enqueue child w) ≡ left objects count w
  unfolding left
  enqueue-left child w v fresh =
      let more = trues-set w.seen child fresh in
      let le = trues_le (set w.seen child true) in
      let size = length-set w.seen child true in
      let longer = length-append w.queue (child ∷ []) in let sized = v.sized in omega arith

  -- The link names an object that is reached, if it names one.
  unfoldable pub Leads : ℤ → Type 0
  Leads link = (k : ℕ) → link ≡ pos k → IsReached objects k

  pub children-Ends :
      (n parent : ℕ) (tail child : ℤ) (w : Walk)
      → IsWalk objects count w
      → Leads child
      → count < trues w.seen + n
      → Ends objects count (left objects count w) (children n objects count parent tail child w)
  unfolding children Ends Leads
  children-Ends zero parent tail child w v leads fuel =
      absurd (let le = trues_le w.seen in let sized = v.sized in omega arith)
  children-Ends (suc n) parent tail (pos k) w v leads fuel =
      elim (Bool-cases (is_refused_child count (pos k) w)) [
        | inl e ↦ rw e tt
        | inr e ↦ rw e (
            let fresh : get_or w.seen k true ≡ false = ground arith in
            let v' = enqueue-IsWalk k w v fresh (leads k refl) in
            let same = enqueue-left k w v fresh in
            let more = trues-set w.seen k fresh in
            if_both (Ends objects count (left objects count w)) (eqb_ℤ (pos k) tail)
              (if_both (Ends objects count (left objects count w))
                (eqb_ℤ (object_at objects k).ob_next (pos parent)) (v', same) tt)
              (subst
                (λ m. Ends objects count m (
                  children n objects count parent tail (object_at objects k).ob_next (enqueue k w)))
                same
                (children-Ends n parent tail (object_at objects k).ob_next (enqueue k w) v'
                  (λ j link. by_next k j (leads k refl) link) (omega arith))))
      ]
  children-Ends (suc n) parent tail (negsuc k) w v leads fuel =
      let e : is_refused_child count (negsuc k) w ≡ true = ground arith in rw e tt
