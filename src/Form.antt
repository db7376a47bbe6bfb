-- ===== src/Form.antt =====
-- The editable fields of a form: src/aes/form_edit.c.
-- A field is the characters of its text without the NUL, the size of the buffer (`te_txtlen`) and the
-- caller's index; a pointer is not NULL. Memory that would be moved from behind the text is `none`.
-- Drawing is left out.
pub mod Safe
pub mod Back
mod Tests
use gem.Base.{
  ℕ, zero, suc, ◌+◌, ◌-◌, ◌*◌, ◌/◌, ◌%◌, Bool, true, false, not, ◌&&◌, ◌||◌, List, [], ◌∷◌, ◌++◌,
  Option, none, some, if◌then◌else◌, ltb, leb, ◌==◌, length, take, drop,
}

-- `object` is the number of the field in its tree.
pub record Field : Type 0 where
  pub object : ℕ
  pub text : List ℕ
  pub txtlen : ℕ
  pub idx : ℕ

-- Where the AES shows its caret: `edit_object` and `edit_index`, in the tree that is edited.
pub record Caret : Type 0 where
  pub edit_object : ℕ
  pub edit_index : ℕ

pub record Edit : Type 0 where
  pub field : Field
  pub caret : Option Caret

pub data EditKind : Type 0 where
  ed_start ed_init ed_char ed_end : EditKind

abbrev pub show_caret : Edit → Edit
show_caret e = record e {
  caret = some (record { edit_object = e.field.object; edit_index = e.field.idx });
}

abbrev hide_caret : ℕ → Option Caret → Option Caret
hide_caret object none = none
hide_caret object (some c) = if c.edit_object == object then none else some c

abbrev pub put_text : List ℕ → ℕ → Edit → Edit
put_text text idx e = record e { field = record e.field { text = text; idx = idx } }

abbrev pub is_printable : ℕ → Bool
is_printable c = leb 32 c && leb c 126

-- The character before those from `i` on.
abbrev pub insert_at : List ℕ → ℕ → ℕ → List ℕ
insert_at text i c = take i text ++ c ∷ drop i text

-- The case EDCHAR of `objc_edit`, at the index `i` in the text.
abbrev pub type_at : ℕ → ℕ → Edit → Edit
type_at i c e =
    let text = e.field.text in
    let last = e.field.txtlen - 1 in
    if ltb (length text) last
    then put_text (insert_at text i c) (i + 1) e
    else if ltb i (length text)
    then put_text (take last (insert_at text i c)) (i + 1) e
    else put_text (take i text ++ c ∷ []) (i + 1) e

abbrev pub within : List ℕ → ℕ → ℕ
within text idx = if ltb (length text) idx then length text else idx

unfoldable pub objc_edit : EditKind → ℕ → Edit → Edit
objc_edit ed_start c e = show_caret e
objc_edit ed_init c e = show_caret e
objc_edit ed_end c e = record e { caret = hide_caret e.field.object e.caret }
objc_edit ed_char c e =
    if ltb (e.field.idx + 1) e.field.txtlen && is_printable c
    then show_caret (type_at (within e.field.text e.field.idx) c e)
    else show_caret e

-- The text without its i-th character.
abbrev pub remove_at : List ℕ → ℕ → List ℕ
remove_at text i = take i text ++ drop (i + 1) text

abbrev pub caret_to : ℕ → Edit → Edit
caret_to idx e = objc_edit ed_init 0 (put_text e.field.text idx e)

-- `aes_form_delete_backward`
unfoldable pub delete_backward : Edit → Option Edit
unfolding objc_edit
delete_backward e =
    let i = e.field.idx - 1 in
    if e.field.idx == 0
    then some e
    else if ltb (length e.field.text) i
    then none
    else some (objc_edit ed_init 0 (put_text (remove_at e.field.text i) i e))

-- `aes_form_delete_forward`
unfoldable pub delete_forward : Edit → Edit
unfolding objc_edit
delete_forward e =
    if leb (length e.field.text) e.field.idx
    then e
    else objc_edit ed_init 0 (put_text (remove_at e.field.text e.field.idx) e.field.idx e)

abbrev pub handled : Option Edit → Option (Bool × Edit)
handled none = none
handled (some f) = some (true, f)

-- `aes_form_apply_key`: whether the key is one of the field's, and the field after it.
unfoldable pub apply_key : ℕ → Edit → Option (Bool × Edit)
unfolding objc_edit
apply_key key e =
    let ascii = key % 256 in
    let scancode = key / 256 % 256 in
    if ascii == 8 || (ascii == 0 && (scancode == 42 || scancode == 14))
    then handled (delete_backward e)
    else if scancode == 76 || scancode == 83
    then some (true, delete_forward e)
    else if scancode == 80 || scancode == 75
    then some (true, if ltb 0 e.field.idx then caret_to (e.field.idx - 1) e else e)
    else if scancode == 79
    then some
        (true, if ltb e.field.idx (length e.field.text) then caret_to (e.field.idx + 1) e else e)
    else if scancode == 74 || scancode == 71
    then some (true, caret_to 0 e)
    else if scancode == 77
    then some (true, caret_to (length e.field.text) e)
    else if leb 32 ascii && leb ascii 126
    then some (true, objc_edit ed_char ascii e)
    else some (false, e)

abbrev pub then_keys : (Edit → Option Edit) → Option (Bool × Edit) → Option Edit
then_keys rest none = none
then_keys rest (some (used, e)) = rest e

-- The keys of form_do, one after another.
unfoldable pub apply_keys : List ℕ → Edit → Option Edit
apply_keys [] e = some e
apply_keys (key ∷ keys) e = then_keys (apply_keys keys) (apply_key key e)
