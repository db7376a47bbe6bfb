-- ===== src/Menu/Request.antt =====
-- The checks of a request MENU_BAR in `gem_rpc_valid_request` of src/gem/protocol.c.
-- Of a string entry only the object that it names is kept.
use gem.Base.{
  ℕ, zero, suc, ◌+◌, ◌%◌, ◌/◌, Bool, true, false, not, ◌&&◌, ◌||◌, List, [], ◌∷◌, Option, none,
  some, if◌then◌else◌, ◌==◌, get_or, set, replicate, take,
}
use gem.Base.Int.{ℤ, pos, pos_part, ltb_ℤ, leb_ℤ, eqb_ℤ}
use gem.Menu.{MenuObject, nil, object_at, valid_menu_tree}

pub record MenuBar : Type 0 where
  pub show : ℤ
  pub object_count : ℤ
  pub string_count : ℤ
  pub objects : List MenuObject
  pub strings : List ℤ

abbrev pub max_objects : ℕ
max_objects = 64

abbrev pub max_strings : ℕ
max_strings = 32

abbrev pub g_box : ℕ
g_box = 20

abbrev pub g_ibox : ℕ
g_ibox = 25

abbrev pub g_boxchar : ℕ
g_boxchar = 27

abbrev pub g_string : ℕ
g_string = 28

abbrev pub g_title : ℕ
g_title = 32

abbrev pub is_indirect : MenuObject → Bool
is_indirect obj = obj.ob_flags / 256 % 2 == 1

abbrev pub is_last : MenuObject → Bool
is_last obj = obj.ob_flags / 32 % 2 == 1

-- An object of these types carries a string.
abbrev pub is_text : MenuObject → Bool
is_text obj = obj.ob_type % 256 == g_title || obj.ob_type % 256 == g_string

abbrev pub is_box : MenuObject → Bool
is_box obj =
    obj.ob_type % 256 == g_box || (obj.ob_type % 256 == g_ibox || obj.ob_type % 256 == g_boxchar)

-- The loop over the strings: each names an object of its own.
unfoldable pub claim_strings : ℕ → List ℤ → List Bool → Option (List Bool)
claim_strings count [] marks = some marks
claim_strings count (object ∷ rest) marks =
    let later = claim_strings count rest (set marks (pos_part object) true) in
    if ltb_ℤ object (pos 0)
      || (not (ltb_ℤ object (pos count)) || get_or marks (pos_part object) true)
    then none
    else later

abbrev pub is_link : ℕ → ℤ → Bool
is_link count link = not (ltb_ℤ link nil) && ltb_ℤ link (pos count)

abbrev pub has_links : ℕ → MenuObject → Bool
has_links count obj =
    is_link count obj.ob_next && (is_link count obj.ob_head && is_link count obj.ob_tail)

abbrev pub same_bool : Bool → Bool → Bool
same_bool true b = b
same_bool false b = not b

-- The type of the object, and that it has a string just when the type carries one.
abbrev pub is_typed : MenuObject → Bool → Bool
is_typed obj marked = if is_text obj then marked else is_box obj && not marked

abbrev pub object_ok : ℕ → ℕ → Bool → MenuObject → Bool
object_ok count i marked obj =
    has_links count obj
    && (not (is_indirect obj) && (is_typed obj marked && same_bool (i + 1 == count) (is_last obj)))

-- The loop over the objects from `i` on, of which `n` are left.
unfoldable pub objects_ok : ℕ → ℕ → ℕ → List Bool → List MenuObject → Bool
objects_ok zero count i marks objects = true
objects_ok (suc n) count i marks objects =
    object_ok count i (get_or marks i false) (object_at objects i)
    && objects_ok n count (i + 1) marks objects

unfoldable pub check_objects : List MenuObject → ℕ → Option (List Bool) → Option Bool
unfolding objects_ok
check_objects objects count none = some false
check_objects objects count (some marks) =
    if objects_ok count count 0 marks objects then valid_menu_tree objects count else some false

abbrev pub has_counts : MenuBar → Bool
has_counts req =
    ltb_ℤ (pos 0) req.object_count
    && (leb_ℤ req.object_count (pos max_objects)
        && (leb_ℤ (pos 0) req.string_count && leb_ℤ req.string_count (pos max_strings)))

unfoldable pub valid_menu_bar : MenuBar → Option Bool
unfolding check_objects claim_strings
valid_menu_bar req =
    if eqb_ℤ req.show (pos 0)
    then some true
    else if has_counts req
    then check_objects req.objects (pos_part req.object_count) (
        claim_strings (pos_part req.object_count) (take (pos_part req.string_count) req.strings)
          (replicate max_objects false))
    else some false
