-- ===== src/Form/Back.antt =====
-- A character that is typed and deleted again: src/aes/form_edit.c.
use gem.Base.{
  ℕ, zero, suc, ◌+◌, ◌-◌, ◌≤◌, ◌<◌, ◌≡◌, ◌∙◌, refl, ap, true, false, ◌&&◌, List, [], ◌∷◌, none,
  some, ltb, ◌==◌, length, arith, if_true, if_false,
}
use gem.Form.{
  Edit, ed_char, show_caret, put_text, is_printable, insert_at, objc_edit, remove_at,
  delete_backward,
}
use gem.Form.Safe.{IsEdit, length-insert_at}

remove_at-insert_at :
    (text : List ℕ) (i c : ℕ) → i ≤ length text → remove_at (insert_at text i c) i ≡ text
remove_at-insert_at text zero c le = refl
remove_at-insert_at [] (suc i) c le = absurd (omega arith)
remove_at-insert_at (b ∷ text) (suc i) c le =
    let next : suc i + 1 ≡ suc (i + 1) = omega arith in
    rw next (ap (λ t. b ∷ t) (remove_at-insert_at text i c (omega arith)))

typed_char :
    (c : ℕ) (e : Edit)
    → IsEdit e
    → length e.field.text + 1 < e.field.txtlen
    → is_printable c ≡ true
    → objc_edit ed_char c e
      ≡ show_caret (put_text (insert_at e.field.text e.field.idx c) (e.field.idx + 1) e)
unfolding objc_edit
typed_char c e valid room printable =
    let inside = valid.inside in
    let at : ltb (length e.field.text) e.field.idx ≡ false = ground arith in
    let free : ltb (length e.field.text) (e.field.txtlen - 1) ≡ true = ground arith in
    if_true (ltb (e.field.idx + 1) e.field.txtlen && is_printable c) _ (show_caret e) (ground arith)
    ∙ rw at (rw free refl)

-- In a field with room for one more character, whose index lies in the text: a printable character
-- that is typed is inserted at the index, which moves on by one, and deleting backwards then gives
-- the text and the index as they were.
pub delete_backward-typed :
    (c : ℕ) (e : Edit)
    → IsEdit e
    → length e.field.text + 1 < e.field.txtlen
    → is_printable c ≡ true
    → ((objc_edit ed_char c e).field.text ≡ insert_at e.field.text e.field.idx c)
      × ((objc_edit ed_char c e).field.idx ≡ e.field.idx + 1)
      × (delete_backward (objc_edit ed_char c e) ≡ some (show_caret e))
unfolding delete_backward objc_edit
delete_backward-typed c e valid room printable =
    let back : e.field.idx + 1 - 1 ≡ e.field.idx = omega arith in
    let size = length-insert_at e.field.text e.field.idx c valid.inside in
    rw (typed_char c e valid room printable) (
      refl,
      refl,
      if_false (e.field.idx + 1 == 0) _ _ (ground arith)
          ∙ rw back (
              if_false (ltb (length (insert_at e.field.text e.field.idx c)) e.field.idx) none _
                (ground (arith, valid.inside))
              ∙ ap (λ t. some (show_caret (put_text t e.field.idx e)))
                  (remove_at-insert_at e.field.text e.field.idx c valid.inside)),
    )
