-- ===== src/Line/Tests.antt =====
-- A control over eight bytes, and the theorems on lib/gemctl/text_edit.c.
use gem.Base.{◌≡◌, refl, true, false, [], ◌∷◌, arith}
use gem.Line.{TextEdit, init_text, focus, insert_text, key_mod}
use gem.Line.Fit.{IsFit, press, insert_string, set_focus, lose_focus, act_all, act_all-init_text}
use gem.Line.Typing.{key_mod-insert_text}

-- "ab" and garbage behind the NUL.
abbrev control : TextEdit
control = init_text (97 ∷ 98 ∷ 0 ∷ 255 ∷ 255 ∷ 255 ∷ 255 ∷ 255 ∷ []) 8

act_all-init_text_example : IsFit (
    act_all
      (set_focus false
        ∷ press 99 0
        ∷ insert_string (100 ∷ 101 ∷ 102 ∷ 103 ∷ [])
        ∷ press 8 0
        ∷ press 0x5000 1
        ∷ press 104 0
        ∷ lose_focus
        ∷ [])
      control)
act_all-init_text_example = act_all-init_text _ 8 _ (omega arith)

key_mod-insert_text_example :
    key_mod 0x1e61 1 (focus true control) ≡ insert_text (97 ∷ []) (focus true control)
key_mod-insert_text_example =
    key_mod-insert_text 0x1e61 1 (focus true control) (omega arith) (omega arith) (omega arith) refl
      refl

-- The typed character replaces the selected text.
replaces : (key_mod 0x1e63 0 (focus true control)).1.text ≡ 99 ∷ []
unfolding key_mod gem.Ted.replaced init_text gem.Ted.strlen
replaces = refl
