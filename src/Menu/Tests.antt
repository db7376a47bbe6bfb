-- ===== src/Menu/Tests.antt =====
-- A menu of a root with two children, and the theorem on src/gem/protocol.c.
use gem.Base.{ℕ, ◌<◌, ◌≡◌, refl, Bool, true, false, [], ◌∷◌, List, some}
use gem.Base.Int.{ℤ, pos}
use gem.Menu.{MenuObject, nil, valid_menu_tree, visit_all, visit, children}
use gem.Menu.Request.{MenuBar, claim_strings, objects_ok, check_objects, has_counts, valid_menu_bar}
use gem.Menu.Accept.{IsSafe, valid_menu_bar-IsSafe}

abbrev object : ℤ → ℤ → ℤ → MenuObject
object next head tail = record {
  ob_next = next;
  ob_head = head;
  ob_tail = tail;
  ob_type = 20;
  ob_flags = 0;
}

abbrev menu : List MenuObject
menu = object nil (pos 1) (pos 2) ∷ object (pos 2) nil nil ∷ object (pos 0) nil nil ∷ []

-- Its second child points to the first in place of the root.
abbrev ring : List MenuObject
ring = object nil (pos 1) (pos 2) ∷ object (pos 2) nil nil ∷ object (pos 1) nil nil ∷ []

accepts_menu : valid_menu_tree menu 3 ≡ some true
unfolding valid_menu_tree visit_all visit children
accepts_menu = refl

rejects_ring : valid_menu_tree ring 3 ≡ some false
unfolding valid_menu_tree visit_all visit children
rejects_ring = refl

-- The same menu in a request, with a title as its last object.
abbrev bar : MenuBar
bar = record {
  show = pos 1;
  object_count = pos 3;
  string_count = pos 1;
  objects =
      object nil (pos 1) (pos 2)
      ∷ object (pos 2) nil nil
      ∷ record { ob_next = pos 0; ob_head = nil; ob_tail = nil; ob_type = 32; ob_flags = 32 }
      ∷ [];
  strings = pos 2 ∷ [];
}

accepts_bar : valid_menu_bar bar ≡ some true
unfolding valid_menu_bar check_objects objects_ok claim_strings valid_menu_tree visit_all visit
    children
accepts_bar = refl

valid_menu_bar-IsSafe_example :
    (b : Bool) × (valid_menu_bar bar ≡ some b)
    × (b ≡ true → has_counts bar ≡ true)
    × (b ≡ true → (i : ℕ) → i < 3 → IsSafe bar i)
valid_menu_bar-IsSafe_example = valid_menu_bar-IsSafe bar refl
