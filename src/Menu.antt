-- ===== src/Menu.antt =====
-- The check of a menu's links before the server walks them: `valid_menu_tree` of src/gem/protocol.c.
-- `seen` has one entry for each object of the request; `queue` is what is left of the queue,
-- from `first` on. The loops have fuel, and `spent` is where it does not suffice.
pub mod Mark
pub mod Reach
pub mod Request
pub mod Accept
mod Tests
use gem.Base.{
  ℕ, zero, suc, ◌+◌, Bool, true, false, not, ◌&&◌, ◌||◌, List, [], ◌∷◌, ◌++◌, Option, none, some,
  if◌then◌else◌, ◌==◌, get_or, set, replicate,
}
use gem.Base.Int.{ℤ, pos, negsuc, pos_part, ltb_ℤ, eqb_ℤ}

-- The fields of an OBJECT that the checks read.
pub record MenuObject : Type 0 where
  pub ob_next : ℤ
  pub ob_head : ℤ
  pub ob_tail : ℤ
  pub ob_type : ℕ
  pub ob_flags : ℕ

abbrev pub nil : ℤ
nil = negsuc 0

abbrev pub no_object : MenuObject
no_object = record { ob_next = nil; ob_head = nil; ob_tail = nil; ob_type = 0; ob_flags = 0 }

abbrev pub object_at : List MenuObject → ℕ → MenuObject
object_at objects i = get_or objects i no_object

pub record Walk : Type 0 where
  pub seen : List Bool
  pub queue : List ℕ
  pub used : ℕ

pub data Outcome : Type 0 where
  spent rejected : Outcome
  went : Walk → Outcome

abbrev pub enqueue : ℕ → Walk → Walk
enqueue child w = record {
  seen = set w.seen child true;
  queue = w.queue ++ child ∷ [];
  used = w.used + 1;
}

abbrev pub is_refused_child : ℕ → ℤ → Walk → Bool
is_refused_child count child w =
    ltb_ℤ child (pos 0) || (not (ltb_ℤ child (pos count)) || get_or w.seen (pos_part child) true)

-- The loop over the children of `parent`.
unfoldable pub children : ℕ → List MenuObject → ℕ → ℕ → ℤ → ℤ → Walk → Outcome
children zero objects count parent tail child w = spent
children (suc n) objects count parent tail child w =
    let next = (object_at objects (pos_part child)).ob_next in
    let w' = enqueue (pos_part child) w in
    let later = children n objects count parent tail next w' in
    if is_refused_child count child w
    then rejected
    else if eqb_ℤ child tail
    then (if eqb_ℤ next (pos parent) then went w' else rejected)
    else later

abbrev pub then_go : Outcome → (Walk → Outcome) → Outcome
then_go spent go = spent
then_go rejected go = rejected
then_go (went w) go = go w

-- One parent: both its ends are missing, or neither is.
unfoldable pub visit : List MenuObject → ℕ → ℕ → Walk → Outcome
unfolding children
visit objects count parent w =
    let obj = object_at objects parent in
    if not (eqb_ℤ obj.ob_head nil) && eqb_ℤ obj.ob_tail nil
      || (eqb_ℤ obj.ob_head nil && not (eqb_ℤ obj.ob_tail nil))
    then rejected
    else if eqb_ℤ obj.ob_head nil
    then went w
    else children (suc count) objects count parent obj.ob_tail obj.ob_head w

-- The loop over the queue.
unfoldable pub visit_all : ℕ → List MenuObject → ℕ → Walk → Outcome
unfolding visit
visit_all zero objects count w = spent
visit_all (suc n) objects count w = elim w.queue [
  | [] ↦ went w
  | parent ∷ rest ↦
      then_go (visit objects count parent (record w { queue = rest })) (visit_all n objects count)
]

abbrev pub verdict : ℕ → Outcome → Option Bool
verdict count spent = none
verdict count rejected = some false
verdict count (went w) = some (w.used == count)

abbrev pub start : ℕ → Walk
start count = record { seen = set (replicate count false) 0 true; queue = 0 ∷ []; used = 1 }

unfoldable pub valid_menu_tree : List MenuObject → ℕ → Option Bool
unfolding visit_all
valid_menu_tree objects count =
    if not (eqb_ℤ (object_at objects 0).ob_next nil)
    then some false
    else verdict count (visit_all (suc (suc count)) objects count (start count))
