-- ===== src/Form/Tests.antt =====
-- A field of five bytes, and the theorems on src/aes/form_edit.c.
use gem.Base.{ℕ, ◌≡◌, refl, List, [], ◌∷◌, none, some, arith}
use gem.Form.{Edit, ed_char, show_caret, objc_edit, delete_backward, apply_keys}
use gem.Form.Safe.{IsEdit, apply_keys-IsEdit}
use gem.Form.Back.{delete_backward-typed}

abbrev edit_of : List ℕ → ℕ → Edit
edit_of text idx = record {
  field = record { object = 3; text = text; txtlen = 5; idx = idx };
  caret = none;
}

abbrev two_chars : Edit
two_chars = edit_of (65 ∷ 66 ∷ []) 1

-- In a full field the last character gives way.
types_over :
    (objc_edit ed_char 90 (edit_of (65 ∷ 66 ∷ 67 ∷ 68 ∷ []) 1)).field.text ≡ 65 ∷ 90 ∷ 66 ∷ 67 ∷ []
unfolding objc_edit
types_over = refl

-- An index behind the text makes Backspace move memory from behind it.
backspace_behind : delete_backward (edit_of (65 ∷ []) 3) ≡ none
unfolding delete_backward
backspace_behind = refl

two_chars-IsEdit : IsEdit two_chars
two_chars-IsEdit = record { fits = omega arith; inside = omega arith; chars = ground arith }

apply_keys-IsEdit_example :
    (f : Edit) × (apply_keys (90 ∷ 8 ∷ 20224 ∷ 8 ∷ []) two_chars ≡ some f)
    × IsEdit f
    × (f.field.txtlen ≡ 5)
apply_keys-IsEdit_example = apply_keys-IsEdit (90 ∷ 8 ∷ 20224 ∷ 8 ∷ []) two_chars two_chars-IsEdit

delete_backward-typed_example :
    ((objc_edit ed_char 90 two_chars).field.text ≡ 65 ∷ 90 ∷ 66 ∷ [])
    × ((objc_edit ed_char 90 two_chars).field.idx ≡ 2)
    × (delete_backward (objc_edit ed_char 90 two_chars) ≡ some (show_caret two_chars))
delete_backward-typed_example =
    delete_backward-typed 90 two_chars two_chars-IsEdit (omega arith) refl
