-- ===== src/Ted/Tests.antt =====
-- Documents in the editor, and the theorems on them.
use gem.Base.{
  ℕ, ◌+◌, ◌≤◌, ◌<◌, ◌≡◌, ◌⊎◌, refl, inr, true, false, [], ◌∷◌, none, some, arith, get_or,
}
use gem.Ted.{
  Document, init, has_nul, continues, insert, undo_edit, step_on, step_back, position, line_start,
  first_of, last_of, replaced,
}
use gem.Ted.Valid.{IsValid, IsKept}
use gem.Ted.Undo.{restored, HasNothing, MustFail, undo_edit-insert}
use gem.Ted.Chars.{step_back-step_on}
use gem.Ted.Lines.{line_start-position}
use gem.Ted.Keys.{ted_column, Editor, act_undo, act_cut, act_paste, act_all}
use gem.Ted.Follow.{View, ted_follow, Shows, ted_follow-Shows}
use gem.Ted.Session.{key, edge, command, handle_all, handle_all-IsValid}

-- "a", "é" in two bytes, a newline, "b"; the newline is selected, and "a" is kept for the undo.
abbrev note : Document
note = record {
  text = 97 ∷ 195 ∷ 169 ∷ 10 ∷ 98 ∷ [];
  undo = some (97 ∷ []);
  size = 5;
  cursor = 4;
  anchor = 3;
  undo_cursor = 1;
  dirty = true;
  undo_dirty = false;
}

note-IsValid : IsValid note
unfolding has_nul IsKept
note-IsValid = record {
  sized = refl;
  is_text = (refl, omega arith);
  cursor_in = omega arith;
  anchor_in = omega arith;
  kept = ((refl, omega arith), omega arith);
}

abbrev editor : Editor
editor = record { doc = note; clipboard = none; crlf = true; rows = 20 }

undo_edit-insert_example :
    (HasNothing 1 note × (insert true (some (120 ∷ [])) 1 note ≡ (true, note)))
    ⊎ (((¬ HasNothing 1 note)
          × MustFail true (some (120 ∷ [])) 1 note
          × (insert true (some (120 ∷ [])) 1 note ≡ (false, note)))
        ⊎ ((¬ HasNothing 1 note)
            × ((insert true (some (120 ∷ [])) 1 note).0 ≡ true)
            × ((insert true (some (120 ∷ [])) 1 note).1.text
                ≡ replaced note.text (first_of note) (last_of note) (120 ∷ []))
            × ((insert true (some (120 ∷ [])) 1 note).1.dirty ≡ true)
            × (undo_edit (insert true (some (120 ∷ [])) 1 note).1
                ≡ restored note (insert true (some (120 ∷ [])) 1 note).1)))
undo_edit-insert_example = undo_edit-insert true (some (120 ∷ [])) 1 note note-IsValid

step_back-step_on_example :
    (1 < step_on note 1)
    × (step_on note 1 ≤ 5)
    × (continues (get_or note.text (step_on note 1) 0) ≡ false)
    × (step_back note (step_on note 1) ≡ 1)
step_back-step_on_example = step_back-step_on note 1 note-IsValid (omega arith) (inr refl)

line_start-position_example : line_start note (position note 5).0 + (position note 5).1 ≡ 5
line_start-position_example = line_start-position note 5 note-IsValid (omega arith)

handle_all-IsValid_example :
    (after : Editor) × (handle_all
        (key true 80 0 false
          ∷ command true true act_cut
          ∷ key false 0 120 false
          ∷ key true 81 0 true
          ∷ key true 40 0 false
          ∷ edge true false
          ∷ command true true act_paste
          ∷ command true true act_undo
          ∷ command true true act_all
          ∷ [])
        editor
      ≡ some after)
    × IsValid after.doc
handle_all-IsValid_example = handle_all-IsValid _ editor note-IsValid

-- The step over "é", and the insertion in place of the newline.
step_over : step_on note 1 ≡ 3
unfolding step_on gem.Ted.on_from
step_over = refl

ted_follow-Shows_example :
    (column : ℕ) × (after : View) × (ted_column note (line_start note (position note 4).0) 4
      ≡ some column)
    × (ted_follow 1 2 note (record { top = 5; left = 7 }) ≡ some after)
    × Shows after.top 1 (position note 4).0
    × Shows after.left 2 column
ted_follow-Shows_example = ted_follow-Shows 1 2 note (record { top = 5; left = 7 }) note-IsValid
