-- ===== src/Menu/Reach.antt =====
-- The loops of `valid_menu_tree` (src/gem/protocol.c) end, and in a tree that it accepts every object
-- is reached from the root.
use mathlib.Core.Path.{subst}
use gem.Base.{
  ℕ, zero, suc, ◌<◌, ◌≡◌, refl, ap, Bool, true, false, not, ◌&&◌, ◌||◌, List, [], ◌∷◌, Option, some,
  ◌==◌, get_or, set, replicate, length, arith, All, length-set, length-replicate, if_both,
  get_or-set_ne, ==_iff,
}
use gem.Base.Int.{eqb_ℤ}
use gem.Menu.{
  MenuObject, nil, object_at, Walk, Outcome, spent, rejected, went, then_go, visit, visit_all,
  verdict, start, valid_menu_tree,
}
use gem.Menu.Mark.{
  IsReached, at_root, by_head, IsWalk, left, Ends, Leads, children-Ends, all_true, trues-set,
  trues-replicate,
}

module _ (objects : List MenuObject) (count : ℕ) where
  visit-Ends :
      (parent : ℕ) (w : Walk)
      → IsWalk objects count w
      → IsReached objects parent
      → Ends objects count (left objects count w) (visit objects count parent w)
  unfolding visit Ends Leads
  visit-Ends parent w v reached =
      let m = left objects count w in
      let obj = object_at objects parent in
      if_both (Ends objects count m)
        (not (eqb_ℤ obj.ob_head nil) && eqb_ℤ obj.ob_tail nil
          || (eqb_ℤ obj.ob_head nil && not (eqb_ℤ obj.ob_tail nil)))
        tt
        (if_both (Ends objects count m) (eqb_ℤ obj.ob_head nil) (v, refl)
          (children-Ends objects count (suc count) parent obj.ob_tail obj.ob_head w v
            (λ k link. by_head parent k reached link) (omega arith)))

  -- The whole loop is not out of fuel, and keeps what a walk satisfies.
  Done : Outcome → Type 0
  Done spent = false ≡ true
  Done rejected = Unit
  Done (went w) = IsWalk objects count w

  go-Done :
      (m : ℕ) (o : Outcome) (go : Walk → Outcome)
      → Ends objects count m o
      → ((w : Walk) → IsWalk objects count w → left objects count w ≡ m → Done (go w))
      → Done (then_go o go)
  unfolding Ends Done
  go-Done m spent go e f = e
  go-Done m rejected go e f = tt
  go-Done m (went w) go (v, same) f = f w v same

  visit_all-step :
      (n : ℕ) (w : Walk) (q : List ℕ)
      → IsWalk objects count w
      → left objects count w < suc n
      → w.queue ≡ q
      → ((u : Walk)
          → IsWalk objects count u
          → left objects count u < n
          → Done (visit_all n objects count u))
      → Done (visit_all (suc n) objects count w)
  unfolding visit_all Done left
  visit_all-step n w [] v fuel e later =
      rw e (record { sized = v.sized; counted = v.counted; queued = tt; marked = v.marked })
  visit_all-step n w (parent ∷ rest) v fuel e later =
      let q = subst (λ xs. All (IsReached objects) xs) e v.queued in
      let w' : Walk = record w { queue = rest } in
      let v' : IsWalk objects count w' = record {
        sized = v.sized;
        counted = v.counted;
        queued = q.1;
        marked = v.marked;
      } in
      let size = ap (length {A = ℕ}) e in
      rw e (
        go-Done (left objects count w') (visit objects count parent w') (visit_all n objects count)
          (visit-Ends parent w' v' q.0) (λ u z same. later u z (omega arith)))

  visit_all-Done :
      (n : ℕ) (w : Walk)
      → IsWalk objects count w
      → left objects count w < n
      → Done (visit_all n objects count w)
  visit_all-Done zero w v fuel = absurd (omega arith)
  visit_all-Done (suc n) w v fuel = visit_all-step n w w.queue v fuel refl (visit_all-Done n)

  get_or-replicate : (n i : ℕ) → i < n → get_or (replicate n false) i true ≡ false
  get_or-replicate zero i lt = absurd (omega arith)
  get_or-replicate (suc n) zero lt = refl
  get_or-replicate (suc n) (suc i) lt = get_or-replicate n i (omega arith)

  marked_at_start :
      0 < count
      → (i : ℕ) → i < count
      → get_or (set (replicate count false) 0 true) i true ≡ true
      → IsReached objects i
  marked_at_start some_object zero lt h = at_root
  marked_at_start some_object (suc i) lt h =
      let other = get_or-set_ne (replicate count false) 0 (suc i) true true (ground arith) in
      let free = get_or-replicate count (suc i) lt in cc

  start-IsWalk : 0 < count → IsWalk objects count (start count)
  start-IsWalk some_object =
      let size = length-set (replicate count false) 0 true in
      let n = length-replicate count false in
      let none_yet = trues-replicate count in
      let one = trues-set (replicate count false) 0 (get_or-replicate count 0 some_object) in
      record {
        sized = omega arith;
        counted = omega arith;
        queued = (at_root, tt);
        marked = marked_at_start some_object;
      }

  Judged : Option Bool → Type 0
  Judged o = (b : Bool) × (o ≡ some b) × (b ≡ true → (i : ℕ) → i < count → IsReached objects i)

  verdict-Judged : (o : Outcome) → Done o → Judged (verdict count o)
  unfolding Done Judged
  verdict-Judged spent d = cc
  verdict-Judged rejected d = (false, refl, λ e. cc)
  verdict-Judged (went w) d = (
    w.used == count,
    refl,
    λ e i lt. d.marked i lt (
        all_true w.seen i
          (let same = (==_iff w.used count).0 e in omega (arith, d.counted, d.sized))
          (omega (arith, d.sized, lt))),
  )

-- For a request with at least one object, whatever its links are, `valid_menu_tree` ends with an
-- answer; and when it accepts, every object of the request is reached from the root by heads and next
-- siblings.
pub valid_menu_tree-IsReached :
    (objects : List MenuObject) (count : ℕ)
    → 0 < count
    → (b : Bool) × (valid_menu_tree objects count ≡ some b)
      × (b ≡ true → (i : ℕ) → i < count → IsReached objects i)
unfolding valid_menu_tree Judged left
valid_menu_tree-IsReached objects count some_object =
    if_both (Judged objects count) (not (eqb_ℤ (object_at objects 0).ob_next nil))
      (false, refl, λ e. cc)
      (verdict-Judged objects count _ (
        visit_all-Done objects count (suc (suc count)) (start count)
          (start-IsWalk objects count some_object) (omega arith)))
