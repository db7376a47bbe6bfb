-- ===== src/Line/Typing.antt =====
-- Typing a character in the control of lib/gemctl/text_edit.c, and inserting it as a string.
use gem.Base.{
  ℕ, ◌+◌, ◌-◌, ◌/◌, ◌%◌, ◌≤◌, ◌<◌, ◌≡◌, ◌≢◌, ◌∙◌, ap, refl, false, not, ◌||◌, [], ◌∷◌,
  if◌then◌else◌, ltb, leb, ◌==◌, length, arith, if_false,
}
use gem.Line.{
  TextEdit, EditResult, edit_ignored, in_text, first_in, last_in, has_unprintable, insert_in,
  insert_text, typed, key_in, key_mod, bit_set, is_ctrl, is_accept, is_all, is_arrow, is_delete,
}

-- The guards of the two ways agree.
same_room : (k m : ℕ) → (leb k 1 || leb (k - 1) m) ≡ leb k (m + 1)
same_room k m = ground arith

printable : (ascii : ℕ) → 32 ≤ ascii → ascii < 127 → has_unprintable (ascii ∷ []) ≡ false
unfolding has_unprintable
printable ascii low high = ground arith

module _ (ascii scan modifiers : ℕ) (c : TextEdit) (low : 32 ≤ ascii) (high : ascii < 127)
    (ctrl : is_ctrl modifiers ≡ false) (alt : bit_set modifiers 8 ≡ false) where
  no_accept : is_accept ascii scan ≡ false
  no_accept = ground arith

  no_all : is_all ascii scan modifiers ≡ false
  no_all = rw ctrl refl

  no_arrow : is_arrow ascii scan ≡ false
  no_arrow = ground arith

  no_delete : scan ≢ 76 → is_delete ascii scan ≡ false
  no_delete other = ground arith

  no_escape : (ascii == 27) ≡ false
  no_escape = ground arith

  in_range : (ltb ascii 32 || leb 127 ascii) ≡ false
  in_range = ground arith

  key_in-typed : scan ≢ 76 → key_in ascii scan modifiers c ≡ typed ascii modifiers c
  key_in-typed other =
      if_false _ _ _ no_escape
      ∙ if_false _ _ _ no_accept
      ∙ if_false _ _ _ no_all
      ∙ if_false _ _ _ no_arrow
      ∙ if_false _ _ _ (no_delete other)

  typed-insert_in : typed ascii modifiers c ≡ insert_in (ascii ∷ []) c
  typed-insert_in = rw ctrl (
      rw alt (
        rw in_range (
          rw (same_room c.capacity (length c.text - (last_in c - first_in c)))
            (rw (printable ascii low high) refl))))

-- The key of a printable character, with no Ctrl and no Alt, and whose scan code is not that of delete,
-- does exactly what inserting the string of this one character does, its result included.
pub key_mod-insert_text :
    (key modifiers : ℕ) (c : TextEdit)
    → 32 ≤ key % 256
    → key % 256 < 127
    → key / 256 ≢ 76
    → is_ctrl modifiers ≡ false
    → bit_set modifiers 8 ≡ false
    → key_mod key modifiers c ≡ insert_text (key % 256 ∷ []) c
unfolding key_mod insert_text
key_mod-insert_text key modifiers c low high other ctrl alt =
    ap (λ (r : EditResult × TextEdit). if not c.active then (edit_ignored, c) else r)
      (key_in-typed (key % 256) (key / 256) modifiers (in_text c) low high ctrl alt other
        ∙ typed-insert_in (key % 256) (key / 256) modifiers (in_text c) low high ctrl alt)
