-- ===== src/Ted/Keys.antt =====
-- The keys and the editing commands of src/apps/ted/ted.c, with the columns of src/apps/ted/view.c.
-- The loops have fuel; where it does not suffice the result is none.
use mathlib.Core.Option
use gem.Base.{
  ℕ, zero, suc, ◌+◌, ◌-◌, ◌%◌, Bool, not, ◌&&◌, ◌||◌, List, [], ◌∷◌, Option, none, some,
  if◌then◌else◌, ltb, leb, ◌==◌, get_or, take, drop,
}
use gem.Ted.{
  Document, first_of, last_of, strlen, insert, undo_edit, step_back, step_on, newline, line_start,
  position,
}

-- The column after a character that starts with the byte.
abbrev pub column_after : ℕ → ℕ → ℕ
column_after col b = if b == 9 then col + (4 - col % 4) else if b == 13 then col else col + 1

unfoldable pub column_from : ℕ → Document → ℕ → ℕ → ℕ → Option ℕ
column_from zero doc p end col = none
column_from (suc n) doc p end col =
    let later = column_from n doc (step_on doc p) end (column_after col (get_or doc.text p 0)) in
    if ltb p end then later else some col

unfoldable pub ted_column : Document → ℕ → ℕ → Option ℕ
unfolding column_from
ted_column doc start end = column_from (suc end) doc start end 0

unfoldable pub offset_from : ℕ → Document → ℕ → ℕ → ℕ → Option ℕ
offset_from zero doc column p col = none
offset_from (suc n) doc column p col =
    let later = offset_from n doc column (step_on doc p) (column_after col (get_or doc.text p 0)) in
    if ltb p doc.size && (not (get_or doc.text p 0 == newline) && ltb col column)
    then later
    else some p

unfoldable pub ted_offset : Document → ℕ → ℕ → Option ℕ
unfolding offset_from
ted_offset doc line column = offset_from (suc doc.size) doc column (line_start doc line) 0

unfoldable pub line_end_from : List ℕ → ℕ → ℕ
line_end_from [] pos = pos
line_end_from (b ∷ bs) pos =
    let later = line_end_from bs (pos + 1) in if not (b == newline) then later else pos

unfoldable pub line_end : Document → ℕ → ℕ
unfolding line_end_from
line_end doc start = line_end_from (drop start (take doc.size doc.text)) start

pub record Editor : Type 0 where
  pub doc : Document
  pub clipboard : Option (List ℕ)
  pub crlf : Bool
  pub rows : ℕ

-- The cursor at the offset, with the selection extended or given up.
abbrev pub moved_to : Editor → Bool → ℕ → Editor
moved_to ed extend pos = record ed {
  doc = record ed.doc { cursor = pos; anchor = if extend then ed.doc.anchor else pos };
}

-- Up, down, page up, page down, home, end, left and right.
abbrev pub is_move : ℕ → Bool
is_move scan =
    scan == 80
    || (scan == 79
        || (scan == 82
            || (scan == 81 || (scan == 74 || (scan == 77 || (scan == 75 || scan == 78))))))

unfoldable pub target : Editor → ℕ → ℕ → ℕ → Option ℕ
unfolding ted_offset line_end
target ed scan line col =
    if scan == 80
    then some (step_back ed.doc ed.doc.cursor)
    else if scan == 79
    then some (step_on ed.doc ed.doc.cursor)
    else if scan == 82
    then ted_offset ed.doc (line - 1) col
    else if scan == 81
    then ted_offset ed.doc (line + 1) col
    else if scan == 74
    then some (line_start ed.doc line)
    else if scan == 77
    then some (line_end ed.doc (line_start ed.doc line))
    else ted_offset ed.doc (if scan == 75 then line - ed.rows else line + ed.rows) col

-- Backspace and delete take the character beside the cursor when nothing is selected.
abbrev pub selecting : ℕ → Document → Document
selecting scan doc =
    if doc.cursor == doc.anchor
    then record doc {
      anchor = if scan == 42 then step_back doc doc.cursor else step_on doc doc.cursor;
    }
    else doc

abbrev pub edit_key : Bool → ℕ → ℕ → Editor → Document
edit_key memory scan ascii ed =
    if scan == 42 || scan == 76
    then (insert memory (some []) 0 (selecting scan ed.doc)).1
    else if scan == 40
    then (if ed.crlf
        then (insert memory (some (13 ∷ 10 ∷ [])) 2 ed.doc).1
        else (insert memory (some (10 ∷ [])) 1 ed.doc).1)
    else if scan == 43
    then (insert memory (some (9 ∷ [])) 1 ed.doc).1
    else if leb 32 ascii && ltb ascii 127
    then (insert memory (some (ascii ∷ [])) 1 ed.doc).1
    else ed.doc

abbrev pub key_at : Bool → ℕ → ℕ → Bool → Editor → ℕ → Option Editor
key_at memory scan ascii extend ed col =
    if is_move scan
    then Option.map (moved_to ed extend) (target ed scan (position ed.doc ed.doc.cursor).0 col)
    else some (record ed { doc = edit_key memory scan ascii ed })

-- `ted_key` without K_CTRL.
unfoldable pub ted_key : Bool → ℕ → ℕ → Bool → Editor → Option Editor
unfolding target ted_column
ted_key memory scan ascii extend ed =
    Option.bind
      (ted_column ed.doc (line_start ed.doc (position ed.doc ed.doc.cursor).0) ed.doc.cursor)
      (key_at memory scan ascii extend ed)

-- `ted_key` with K_CTRL and home or end.
abbrev pub edge_key : Bool → Bool → Editor → Editor
edge_key home extend ed = moved_to ed extend (if home then 0 else ed.doc.size)

-- The commands that edit; the commands on files are left out.
pub data Command : Type 0 where
  act_undo act_cut act_copy act_paste act_all : Command

abbrev pub selected : Document → List ℕ
selected doc = take (last_of doc - first_of doc) (drop (first_of doc) doc.text)

abbrev pub copied : Bool → Editor → Editor
copied memory ed =
    if ltb (first_of ed.doc) (last_of ed.doc) && memory
    then record ed { clipboard = some (selected ed.doc) }
    else ed

abbrev pub pasted : Bool → Editor → Option (List ℕ) → Editor
pasted memory ed none = ed
pasted memory ed (some bytes) = record ed {
  doc = (insert memory (some bytes) (strlen bytes) ed.doc).1;
}

-- `memory` is for the copy, `more` for the insertion.
unfoldable pub ted_action : Bool → Bool → Command → Editor → Editor
ted_action memory more act_undo ed = record ed { doc = undo_edit ed.doc }
ted_action memory more act_copy ed = copied memory ed
ted_action memory more act_cut ed =
    if ltb (first_of ed.doc) (last_of ed.doc) && memory
    then record ed { clipboard = some (selected ed.doc); doc = (insert more (some []) 0 ed.doc).1 }
    else ed
ted_action memory more act_paste ed = pasted more ed ed.clipboard
ted_action memory more act_all ed = record ed {
  doc = record ed.doc { anchor = 0; cursor = ed.doc.size };
}
