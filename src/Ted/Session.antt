-- ===== src/Ted/Session.antt =====
-- Every key and every editing command of src/apps/ted/ted.c ends and keeps the document valid.
use mathlib.Core.Option
use gem.Base.{
  ℕ, ◌+◌, ◌-◌, ◌≤◌, ◌≡◌, refl, Bool, true, false, ◌&&◌, ◌||◌, List, [], ◌∷◌, Option, none, some,
  if◌then◌else◌, ltb, leb, ◌==◌, arith, inl, inr, Bool-cases, if_both,
}
use gem.Ted.{Document, first_of, last_of, step_back, step_on, line_start, position, insert, strlen}
use gem.Ted.Valid.{IsValid, insert-IsValid, undo_edit-IsValid}
use gem.Ted.Keys.{
  line_end, Editor, moved_to, is_move, target, selecting, edit_key, key_at, ted_key, edge_key,
  Command, act_undo, act_cut, act_copy, act_paste, act_all, selected, pasted, ted_action,
}
use gem.Ted.Cursor.{
  step_back_le, step_on_le, line_start_le, line_end_le, ted_offset-total, ted_column-total,
}

place-IsValid :
    (doc : Document) (c a : ℕ)
    → IsValid doc
    → c ≤ doc.size
    → a ≤ doc.size
    → IsValid (record doc { cursor = c; anchor = a })
place-IsValid doc c a v cin ain = record {
  sized = v.sized;
  is_text = v.is_text;
  cursor_in = cin;
  anchor_in = ain;
  kept = v.kept;
}

moved_to-IsValid :
    (ed : Editor) (extend : Bool) (pos : ℕ)
    → IsValid ed.doc
    → pos ≤ ed.doc.size
    → IsValid (moved_to ed extend pos).doc
moved_to-IsValid ed true pos v le = place-IsValid ed.doc pos ed.doc.anchor v le v.anchor_in
moved_to-IsValid ed false pos v le = place-IsValid ed.doc pos pos v le le

selecting-IsValid : (scan : ℕ) (doc : Document) → IsValid doc → IsValid (selecting scan doc)
selecting-IsValid scan doc v =
    let back = step_back_le doc v doc.cursor in
    let on = step_on_le doc v doc.cursor v.cursor_in in
    let cin = v.cursor_in in
    if_both IsValid (doc.cursor == doc.anchor)
      (place-IsValid doc doc.cursor _ v v.cursor_in (
        if_both (λ a. a ≤ doc.size) (scan == 42) {x = step_back doc doc.cursor}
          {y = step_on doc doc.cursor} (omega arith) on))
      v

edit_key-IsValid :
    (memory : Bool) (scan ascii : ℕ) (ed : Editor)
    → IsValid ed.doc
    → IsValid (edit_key memory scan ascii ed)
edit_key-IsValid memory scan ascii ed v =
    let typed = λ (bytes : List ℕ) (n : ℕ). insert-IsValid memory (some bytes) n ed.doc v in
    if_both IsValid (scan == 42 || scan == 76)
      (insert-IsValid memory (some []) 0 (selecting scan ed.doc) (selecting-IsValid scan ed.doc v))
      (if_both IsValid (scan == 40)
        (if_both IsValid ed.crlf (typed (13 ∷ 10 ∷ []) 2) (typed (10 ∷ []) 1))
        (if_both IsValid (scan == 43) (typed (9 ∷ []) 1)
          (if_both IsValid (leb 32 ascii && ltb ascii 127) (typed (ascii ∷ []) 1) v)))

-- A result within the text.
Within : Document → Option ℕ → Type 0
Within doc o = (p : ℕ) × (o ≡ some p) × (p ≤ doc.size)

target-Within :
    (ed : Editor) (scan line col : ℕ) → IsValid ed.doc → Within ed.doc (target ed scan line col)
unfolding target Within
target-Within ed scan line col v =
    let doc = ed.doc in
    let back = step_back_le doc v doc.cursor in
    let cin = v.cursor_in in
    let start = line_start_le doc v line in
    let to = λ (l : ℕ). ted_offset-total doc v l col in
    if_both (Within doc) (scan == 80) (step_back doc doc.cursor, refl, omega arith)
      (if_both (Within doc) (scan == 79)
        (step_on doc doc.cursor, refl, step_on_le doc v doc.cursor v.cursor_in)
        (if_both (Within doc) (scan == 82) (to (line - 1)) (
          if_both (Within doc) (scan == 81) (to (line + 1)) (
            if_both (Within doc) (scan == 74) (line_start doc line, refl, start)
              (if_both (Within doc) (scan == 77)
                (line_end doc (line_start doc line), refl, line_end_le doc v _ start)
                (to (if scan == 75 then line - ed.rows else line + ed.rows)))))))

key_at-total :
    (memory : Bool) (scan ascii : ℕ) (extend : Bool) (ed : Editor) (col : ℕ)
    → IsValid ed.doc
    → Within ed.doc (target ed scan (position ed.doc ed.doc.cursor).0 col)
    → (after : Editor) × (key_at memory scan ascii extend ed col ≡ some after) × IsValid after.doc
unfolding Within
key_at-total memory scan ascii extend ed col v (pos, goal, le) = elim (Bool-cases (is_move scan)) [
  | inl e ↦ (moved_to ed extend pos, rw e (rw goal refl), moved_to-IsValid ed extend pos v le)
  | inr e ↦ (
    record ed { doc = edit_key memory scan ascii ed },
    rw e refl,
    edit_key-IsValid memory scan ascii ed v,
  )
]

ted_key-total :
    (memory : Bool) (scan ascii : ℕ) (extend : Bool) (ed : Editor)
    → IsValid ed.doc
    → (after : Editor) × (ted_key memory scan ascii extend ed ≡ some after) × IsValid after.doc
unfolding ted_key Option.bind
ted_key-total memory scan ascii extend ed v =
    let line = (position ed.doc ed.doc.cursor).0 in
    let (col, same) =
      ted_column-total ed.doc v (line_start ed.doc line) ed.doc.cursor v.cursor_in in
    let (after, one, w) =
      key_at-total memory scan ascii extend ed col v (target-Within ed scan line col v) in
    (after, rw same one, w)

pasted-IsValid :
    (memory : Bool) (ed : Editor) (clip : Option (List ℕ))
    → IsValid ed.doc
    → IsValid (pasted memory ed clip).doc
pasted-IsValid memory ed none v = v
pasted-IsValid memory ed (some bytes) v = insert-IsValid memory (some bytes) (strlen bytes) ed.doc v

ted_action-IsValid :
    (memory more : Bool) (command : Command) (ed : Editor)
    → IsValid ed.doc
    → IsValid (ted_action memory more command ed).doc
unfolding ted_action
ted_action-IsValid memory more act_undo ed v = undo_edit-IsValid ed.doc v
ted_action-IsValid memory more act_copy ed v =
    if_both (λ (e : Editor). IsValid e.doc) (ltb (first_of ed.doc) (last_of ed.doc) && memory)
      {x = record ed { clipboard = some (selected ed.doc) }} {y = ed} v v
ted_action-IsValid memory more act_cut ed v =
    if_both (λ (e : Editor). IsValid e.doc) (ltb (first_of ed.doc) (last_of ed.doc) && memory)
      {x = record ed {
        clipboard = some (selected ed.doc);
        doc = (insert more (some []) 0 ed.doc).1;
      }}
      {y = ed} (insert-IsValid more (some []) 0 ed.doc v) v
ted_action-IsValid memory more act_paste ed v = pasted-IsValid more ed ed.clipboard v
ted_action-IsValid memory more act_all ed v =
    place-IsValid ed.doc ed.doc.size 0 v (omega arith) (omega arith)

-- What the user does, with whether the allocations that it asks for succeed.
pub data Event : Type 0 where
  key : Bool → ℕ → ℕ → Bool → Event
  edge : Bool → Bool → Event
  command : Bool → Bool → Command → Event

pub handle : Event → Editor → Option Editor
handle (key memory scan ascii extend) ed = ted_key memory scan ascii extend ed
handle (edge home extend) ed = some (edge_key home extend ed)
handle (command memory more c) ed = some (ted_action memory more c ed)

pub handle_all : List Event → Editor → Option Editor
handle_all [] ed = some ed
handle_all (e ∷ es) ed = Option.bind (handle e ed) (handle_all es)

handle-total :
    (e : Event) (ed : Editor)
    → IsValid ed.doc
    → (after : Editor) × (handle e ed ≡ some after) × IsValid after.doc
unfolding handle
handle-total (key memory scan ascii extend) ed v = ted_key-total memory scan ascii extend ed v
handle-total (edge home extend) ed v = (
  edge_key home extend ed,
  refl,
  moved_to-IsValid ed extend (if home then 0 else ed.doc.size) v
      (if_both (λ p. p ≤ ed.doc.size) home {x = 0} {y = ed.doc.size} (omega arith) (omega arith)),
)
handle-total (command memory more c) ed v =
    (ted_action memory more c ed, refl, ted_action-IsValid memory more c ed v)

-- From a valid document, any sequence of keys and editing commands, whether or not the allocations
-- succeed, runs to its end: every loop has enough fuel. The document after it is valid: the size is
-- that of the text, which is at most 1 MiB and has no NUL, and the cursor, the selection and the
-- cursor for the next undo lie in their texts.
pub handle_all-IsValid :
    (es : List Event) (ed : Editor)
    → IsValid ed.doc
    → (after : Editor) × (handle_all es ed ≡ some after) × IsValid after.doc
unfolding handle_all Option.bind
handle_all-IsValid [] ed v = (ed, refl, v)
handle_all-IsValid (e ∷ es) ed v =
    let (next, one, w) = handle-total e ed v in
    let (after, rest, x) = handle_all-IsValid es next w in (after, rw one rest, x)
