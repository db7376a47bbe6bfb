-- ===== src/Ted/Undo.antt =====
-- Undoing an edit, and undoing the undo (src/apps/ted/document.c).
use gem.Base.{
  ℕ, ◌+◌, ◌-◌, ◌<◌, ◌≤◌, ◌≡◌, ◌⊎◌, ◌∙◌, refl, sym, ap, ap₂, Bool, true, false, ◌&&◌, ◌||◌, List,
  Option, some, inl, inr, ltb, ◌==◌, take, arith, Bool-cases,
}
use gem.Ted.{
  Document, ted_limit, is_bad, bytes_of, first_of, last_of, replaced, edited, insert, undo_edit,
  swap_with,
}
use gem.Ted.Valid.{IsValid, strlen-has_nul}

-- The document with its selection collapsed at the cursor, and `u` kept for the next undo.
abbrev pub restored : Document → Document → Document
restored doc after = record doc {
  anchor = doc.cursor;
  undo = some after.text;
  undo_cursor = after.cursor;
  undo_dirty = after.dirty;
}

-- There is no selection and no byte to insert.
abbrev pub HasNothing : ℕ → Document → Type 0
HasNothing n doc = (first_of doc ≡ last_of doc) × (n ≡ 0)

-- The reasons to fail: there are bytes that are NULL or hold a NUL, the text gets too long, or there
-- is no memory.
abbrev pub MustFail : Bool → Option (List ℕ) → ℕ → Document → Type 0
MustFail memory source n doc =
    ((0 < n) × (is_bad source n ≡ true))
    ⊎ ((ted_limit < doc.size - (last_of doc - first_of doc) + n) ⊎ (memory ≡ false))

fits : (size last : ℕ) → last ≤ size → ltb size last ≡ false
fits size last h = ground arith

end_in_text : (doc : Document) → IsValid doc → last_of doc ≤ doc.size
end_in_text doc v = ground (arith, v.cursor_in, v.anchor_in)

nothing_or_not :
    (n : ℕ) (doc : Document)
    → (HasNothing n doc × ((first_of doc == last_of doc && n == 0) ≡ true))
      ⊎ ((¬ HasNothing n doc) × ((first_of doc == last_of doc && n == 0) ≡ false))
nothing_or_not n doc = elim (Bool-cases (first_of doc == last_of doc && n == 0)) [
  | inl e ↦ inl ((ground arith, ground arith), e)
  | inr e ↦ inr (λ h. ground (arith, h.0, h.1), e)
]

failing :
    (a b n : ℕ) (bad : Bool)
    → (ltb a n || (ltb (a - n) b || (ltb 0 n && bad))) ≡ true
    → ((0 < n) × (bad ≡ true)) ⊎ (a < b + n)
failing a b n bad h = ground arith

insert_three :
    (memory : Bool) (source : Option (List ℕ)) (n : ℕ) (doc : Document)
    → IsValid doc
    → (HasNothing n doc × (insert memory source n doc ≡ (true, doc)))
      ⊎ (((¬ HasNothing n doc)
            × MustFail memory source n doc
            × (insert memory source n doc ≡ (false, doc)))
          ⊎ ((¬ HasNothing n doc)
              × (insert memory source n doc
                  ≡ (true, edited doc (first_of doc) (last_of doc) (take n (bytes_of source))))))
unfolding insert
insert_three memory source n doc v =
    let end = fits doc.size (last_of doc) (end_in_text doc v) in
    elim (nothing_or_not n doc) [
      | inl (h, f) ↦ inl (h, rw end (rw f refl))
      | inr (h, f) ↦
          elim (Bool-cases (
            ltb ted_limit n
            || (ltb (ted_limit - n) (doc.size - (last_of doc - first_of doc))
                || (ltb 0 n && is_bad source n)))) [
                  | inl g ↦ inr (
                      inl (
                        h,
                        elim (failing ted_limit (doc.size - (last_of doc - first_of doc)) n
                            (is_bad source n) g) [ inl bad ↦ inl bad | inr long ↦ inr (inl long) ],
                        rw end (rw f (rw g refl)),
                      ))
                  | inr g ↦ elim (Bool-cases memory) [
                    | inl m ↦ inr (inr (h, rw end (rw f (rw g (rw m refl)))))
                    | inr m ↦ inr (inl (h, inr (inr m), rw end (rw f (rw g (rw m refl)))))
                  ]
                ]
    ]

-- An insertion in a valid document ends in one of three ways. With no selection and no byte to insert
-- it succeeds and changes nothing at all. Else, when it fails, the bytes are NULL or one of them is
-- NUL, the text would be longer than the limit, or there is no memory, and nothing at all is changed.
-- Else it succeeds, the text is the old one with the selection replaced by the bytes, it is marked as
-- having unsaved changes, and one undo takes it back: the text, the size, the cursor and the mark are
-- those before it, the selection is collapsed at the cursor, and what is kept for the next undo is the
-- text, the cursor and the mark after it.
pub undo_edit-insert :
    (memory : Bool) (source : Option (List ℕ)) (n : ℕ) (doc : Document)
    → IsValid doc
    → (HasNothing n doc × (insert memory source n doc ≡ (true, doc)))
      ⊎ (((¬ HasNothing n doc)
            × MustFail memory source n doc
            × (insert memory source n doc ≡ (false, doc)))
          ⊎ ((¬ HasNothing n doc)
              × ((insert memory source n doc).0 ≡ true)
              × ((insert memory source n doc).1.text
                  ≡ replaced doc.text (first_of doc) (last_of doc) (take n (bytes_of source)))
              × ((insert memory source n doc).1.dirty ≡ true)
              × (undo_edit (insert memory source n doc).1
                  ≡ restored doc (insert memory source n doc).1)))
unfolding undo_edit
undo_edit-insert memory source n doc v = elim (insert_three memory source n doc v) [
  | inl h ↦ inl h
  | inr (inl h) ↦ inr (inl h)
  | inr (inr (h, e)) ↦
      let size = strlen-has_nul doc.text v.is_text.0 ∙ sym v.sized in
      inr (inr (h, rw e refl, rw e refl, rw e refl, rw e (rw size refl)))
]

-- Undoing twice gives back a valid document that has something to undo, with its selection collapsed
-- at the cursor.
pub undo_edit_twice :
    (doc : Document) (previous : List ℕ)
    → IsValid doc
    → doc.undo ≡ some previous
    → undo_edit (undo_edit doc) ≡ record doc { anchor = doc.cursor }
unfolding undo_edit
undo_edit_twice doc previous v e =
    let size = strlen-has_nul doc.text v.is_text.0 ∙ sym v.sized in
    ap undo_edit (ap (swap_with doc) e)
    ∙ ap₂ (λ (s : ℕ) (u : Option (List ℕ)). record doc { anchor = doc.cursor; size = s; undo = u })
        size (sym e)
