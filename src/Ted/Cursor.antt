-- ===== src/Ted/Cursor.antt =====
-- The cursor of src/apps/ted/ted.c stays in the text, and the loops that find it end.
use gem.Base.{
  ℕ, zero, suc, ◌+◌, ◌-◌, ◌≤◌, ◌<◌, ◌≡◌, refl, not, ◌&&◌, List, [], ◌∷◌, some, if◌then◌else◌, ltb,
  ◌==◌, length, get_or, take, drop, arith, inl, inr, Bool-cases, if_false, ltb→lt, lt→ltb,
  length-drop, &&-eq-true,
}
use gem.Ted.{Document, step_back, step_on, back_from, on_from, newline, line_from, line_start}
use gem.Ted.Valid.{IsValid, whole_text}
use gem.Ted.Keys.{
  column_after, column_from, ted_column, offset_from, ted_offset, line_end_from, line_end,
}

back_from_le : (text : List ℕ) (n : ℕ) → back_from text n ≤ n
unfolding back_from
back_from_le text zero = omega arith
back_from_le text (suc n) = ground (arith, back_from_le text n)

on_from_bound :
    (bytes : List ℕ) (p : ℕ) → (p ≤ on_from bytes p) × (on_from bytes p ≤ p + length bytes)
unfolding on_from
on_from_bound [] p = (omega arith, omega arith)
on_from_bound (b ∷ bs) p = let later = on_from_bound bs (p + 1) in ground arith

module _ (doc : Document) (v : IsValid doc) where
  pub step_back_le : (p : ℕ) → step_back doc p ≤ p
  unfolding step_back
  step_back_le p = let le = back_from_le doc.text (p - 1) in omega (arith, le)

  step_on-past : (p : ℕ) → p < doc.size → (p < step_on doc p) × (step_on doc p ≤ doc.size)
  unfolding step_on
  step_on-past p lt =
      let b = on_from_bound (drop (p + 1) doc.text) (p + 1) in
      let size = length-drop (p + 1) doc.text in
      let sized = v.sized in
      rw (lt→ltb p doc.size lt) (rw (whole_text doc v) (omega arith, omega arith))

  pub step_on_le : (p : ℕ) → p ≤ doc.size → step_on doc p ≤ doc.size
  unfolding step_on
  step_on_le p le = elim (Bool-cases (ltb p doc.size)) [
    | inl e ↦ (step_on-past p (ltb→lt p doc.size e)).1
    | inr e ↦
        rw (if_false (ltb p doc.size) (on_from (drop (p + 1) (take doc.size doc.text)) (p + 1)) p e)
          le
  ]

  column-total :
      (n p end col : ℕ)
      → end ≤ doc.size
      → 0 < n
      → end < p + n
      → (c : ℕ) × (column_from n doc p end col ≡ some c)
  unfolding column_from
  column-total zero p end col le some_fuel fuel = absurd (omega arith)
  column-total (suc n) p end col le some_fuel fuel = elim (Bool-cases (ltb p end)) [
    | inl e ↦
        let past = step_on-past p (omega (arith, ltb→lt p end e)) in
        let (c, same) =
          column-total n (step_on doc p) end (column_after col (get_or doc.text p 0)) le
            (omega (arith, ltb→lt p end e)) (omega arith) in
        (c, rw e same)
    | inr e ↦ (col, rw e refl)
  ]

  offset-total :
      (n column p col : ℕ)
      → p ≤ doc.size
      → doc.size < p + n
      → (o : ℕ) × (offset_from n doc column p col ≡ some o) × (o ≤ doc.size)
  unfolding offset_from
  offset-total zero column p col le fuel = absurd (omega arith)
  offset-total (suc n) column p col le fuel =
      elim (Bool-cases
        (ltb p doc.size && (not (get_or doc.text p 0 == newline) && ltb col column))) [
          | inl e ↦
              let inside = ltb→lt p doc.size (&&-eq-true _ _ e).0 in
              let past = step_on-past p inside in
              let (o, same, in_text) =
                offset-total n column (step_on doc p) (column_after col (get_or doc.text p 0))
                  past.1 (omega arith) in
              (o, rw e same, in_text)
          | inr e ↦ (p, rw e refl, le)
        ]

  line_from_le : (bytes : List ℕ) (i line : ℕ) → line_from bytes i line ≤ i + length bytes
  unfolding line_from
  line_from_le [] i line = omega arith
  line_from_le (b ∷ bs) i zero = omega arith
  line_from_le (b ∷ bs) i (suc line) =
      let later = line_from_le bs (i + 1) (if b == newline then line else suc line) in
      omega (arith, later)

  pub line_start_le : (line : ℕ) → line_start doc line ≤ doc.size
  unfolding line_start
  line_start_le line = rw (whole_text doc v) (omega (arith, line_from_le doc.text 0 line, v.sized))

  line_end_from_le : (bytes : List ℕ) (p : ℕ) → line_end_from bytes p ≤ p + length bytes
  unfolding line_end_from
  line_end_from_le [] p = omega arith
  line_end_from_le (b ∷ bs) p = let later = line_end_from_le bs (p + 1) in ground arith

  pub line_end_le : (p : ℕ) → p ≤ doc.size → line_end doc p ≤ doc.size
  unfolding line_end
  line_end_le p le =
      let end = line_end_from_le (drop p doc.text) p in
      let rest = length-drop p doc.text in
      let sized = v.sized in rw (whole_text doc v) (omega arith)

  pub ted_offset-total :
      (line col : ℕ) → (o : ℕ) × (ted_offset doc line col ≡ some o) × (o ≤ doc.size)
  unfolding ted_offset
  ted_offset-total line col =
      offset-total (suc doc.size) col (line_start doc line) 0 (line_start_le line) (omega arith)

  pub ted_column-total :
      (start end : ℕ) → end ≤ doc.size → (c : ℕ) × (ted_column doc start end ≡ some c)
  unfolding ted_column
  ted_column-total start end le = column-total (suc end) start end 0 le (omega arith) (omega arith)
