-- ===== src/Ted/Lines.antt =====
-- Lines and columns in the document of src/apps/ted/document.c.
use mathlib.Core.Path.{subst}
use gem.Base.{
  ℕ, zero, suc, ◌+◌, ◌-◌, ◌≤◌, ◌≡◌, ◌⊎◌, ◌∙◌, refl, sym, ap, ap₂, true, false, List, [], ◌∷◌, ◌==◌,
  length, take, arith, inl, inr, Bool-cases, bit,
}
use gem.Ted.{Document, newline, line_from, line_start, position_from, column_of, position}
use gem.Ted.Valid.{IsValid, whole_text}

unfoldable pub newlines : List ℕ → ℕ
newlines [] = 0
newlines (b ∷ bs) = bit (b == newline) + newlines bs

line_from_zero : (bytes : List ℕ) (i : ℕ) → line_from bytes i 0 ≡ i
unfolding line_from
line_from_zero [] i = refl
line_from_zero (b ∷ bs) i = refl

pair_eq : (a b c d : ℕ) → a ≡ c → b ≡ d → ◌≡◌ {A = ℕ × ℕ} (a, b) (c, d)
pair_eq a b c d e f = ap₂ (λ (x y : ℕ). (x, y)) e f

-- Where the search for a line stops, and that the position there is its start.
StopsAt : List ℕ → ℕ → ℕ → ℕ → ℕ → Type 0
StopsAt bytes i line start k =
    (m : ℕ) × (line_from bytes i k ≡ i + m)
    × (m ≤ length bytes)
    × (position_from (take m bytes) i line start ≡ (line + k, i + m))

found_on :
    (b : ℕ) (bs : List ℕ) (i line start k : ℕ)
    → b == newline ≡ false
    → StopsAt bs (i + 1) line start (suc k)
    → StopsAt (b ∷ bs) i line start (suc k)
unfolding line_from position_from StopsAt
found_on b bs i line start k e (m, at, le, pos) = (
  suc m,
  rw e (omega (arith, at)),
  omega (arith, le),
  rw (e, position_from) (pos ∙ pair_eq _ _ _ _ refl (omega arith)),
)

found_line :
    (b : ℕ) (bs : List ℕ) (i line start k : ℕ)
    → b == newline ≡ true
    → StopsAt bs (i + 1) (line + 1) (i + 1) (suc k)
    → StopsAt (b ∷ bs) i line start (suc (suc k))
unfolding line_from position_from StopsAt
found_line b bs i line start k e (m, at, le, pos) = (
  suc m,
  rw e (omega (arith, at)),
  omega (arith, le),
  rw (e, position_from) (pos ∙ pair_eq _ _ _ _ (omega arith) (omega arith)),
)

found_last :
    (b : ℕ) (bs : List ℕ) (i line start : ℕ) → b == newline ≡ true → StopsAt (b ∷ bs) i line start 1
unfolding position_from StopsAt line_from
found_last b bs i line start e = (1, rw e (line_from_zero bs (i + 1)), omega arith, rw e refl)

found_there :
    (b : ℕ) (bs : List ℕ) (i line start k : ℕ)
    → b == newline ≡ true
    → ((j : ℕ) → suc j ≤ newlines bs → StopsAt bs (i + 1) (line + 1) (i + 1) (suc j))
    → suc k ≤ 1 + newlines bs
    → StopsAt (b ∷ bs) i line start (suc k)
found_there b bs i line start zero e later le = found_last b bs i line start e
found_there b bs i line start (suc k) e later le =
    found_line b bs i line start k e (later k (omega (arith, le)))

found_from :
    (bytes : List ℕ) (i line start k : ℕ)
    → suc k ≤ newlines bytes
    → StopsAt bytes i line start (suc k)
unfolding newlines
found_from [] i line start k le = absurd (omega arith)
found_from (b ∷ bs) i line start k le = elim (Bool-cases (b == newline)) [
  | inl e ↦
      found_there b bs i line start k e (λ j. found_from bs (i + 1) (line + 1) (i + 1) j)
        (rw e at le)
  | inr e ↦
      let le' = rw e at le in
      found_on b bs i line start k e (found_from bs (i + 1) line start k (omega (arith, le')))
]

-- In a valid document, a line that exists, that is, whose number is at most the number of newlines,
-- has its start at its column 0: `ted_document_position` at `ted_document_line` answers that line and 0.
pub position-line_start :
    (doc : Document) (line : ℕ)
    → IsValid doc
    → line ≤ newlines doc.text
    → position doc (line_start doc line) ≡ (line, 0)
unfolding position line_start position_from StopsAt
position-line_start doc zero v le = rw (whole_text doc v) (rw (line_from_zero doc.text 0) refl)
position-line_start doc (suc line) v le =
    let (m, at, short, pos) = found_from doc.text 0 0 0 line le in
    let at' : line_from doc.text 0 (suc line) ≡ m = omega (arith, at) in
    rw (whole_text doc v)
      (rw at' (ap (column_of m) pos ∙ pair_eq _ _ _ _ (omega arith) (omega arith)))

-- What the loop of `ted_document_position` has found: no new line, or some, at whose start the search
-- for the line stops.
CameTo : List ℕ → ℕ → ℕ → ℕ → ℕ × ℕ → Type 0
CameTo bytes i line start found =
    ((found.0 ≡ line) × (found.1 ≡ start))
    ⊎ ((k : ℕ) × (found.0 ≡ line + suc k) × (line_from bytes i (suc k) ≡ found.1))

reached_on :
    (b : ℕ) (bs : List ℕ) (i line start : ℕ) (found : ℕ × ℕ)
    → b == newline ≡ false
    → CameTo bs (i + 1) line start found
    → CameTo (b ∷ bs) i line start found
unfolding CameTo line_from
reached_on b bs i line start found e (inl same) = inl same
reached_on b bs i line start found e (inr (k, lines, at)) = inr (k, lines, rw e at)

reached_line :
    (b : ℕ) (bs : List ℕ) (i line start : ℕ) (found : ℕ × ℕ)
    → b == newline ≡ true
    → CameTo bs (i + 1) (line + 1) (i + 1) found
    → CameTo (b ∷ bs) i line start found
unfolding CameTo line_from
reached_line b bs i line start found e (inl (lines, at)) =
    inr (0, omega (arith, lines), rw e (line_from_zero bs (i + 1) ∙ sym at))
reached_line b bs i line start found e (inr (k, lines, at)) =
    inr (suc k, omega (arith, lines), rw e at)

after_line :
    (b : ℕ) (bs : List ℕ) (i line start : ℕ)
    → b == newline ≡ true
    → position_from (b ∷ bs) i line start ≡ position_from bs (i + 1) (line + 1) (i + 1)
unfolding position_from
after_line b bs i line start e = rw (e, position_from) refl

after_other :
    (b : ℕ) (bs : List ℕ) (i line start : ℕ)
    → b == newline ≡ false
    → position_from (b ∷ bs) i line start ≡ position_from bs (i + 1) line start
unfolding position_from
after_other b bs i line start e = rw (e, position_from) refl

reached_from :
    (bytes : List ℕ) (i line start n : ℕ)
    → CameTo bytes i line start (position_from (take n bytes) i line start)
unfolding position_from CameTo
reached_from [] i line start zero = inl (refl, refl)
reached_from [] i line start (suc n) = inl (refl, refl)
reached_from (b ∷ bs) i line start zero = inl (refl, refl)
reached_from (b ∷ bs) i line start (suc n) = elim (Bool-cases (b == newline)) [
  | inl e ↦
      subst (CameTo (b ∷ bs) i line start) (sym (after_line b (take n bs) i line start e))
        (reached_line b bs i line start _ e (reached_from bs (i + 1) (line + 1) (i + 1) n))
  | inr e ↦
      subst (CameTo (b ∷ bs) i line start) (sym (after_other b (take n bs) i line start e))
        (reached_on b bs i line start _ e (reached_from bs (i + 1) line start n))
]

start_bound :
    (bytes : List ℕ) (i line start n : ℕ)
    → start ≤ i
    → (position_from (take n bytes) i line start).1 ≤ i + n
unfolding position_from
start_bound [] i line start zero le = omega arith
start_bound [] i line start (suc n) le = omega arith
start_bound (b ∷ bs) i line start zero le = omega arith
start_bound (b ∷ bs) i line start (suc n) le = elim (Bool-cases (b == newline)) [
  | inl e ↦
      let later = start_bound bs (i + 1) (line + 1) (i + 1) n (omega arith) in
      rw (after_line b (take n bs) i line start e) (omega (arith, later))
  | inr e ↦
      let later = start_bound bs (i + 1) line start n (omega arith) in
      rw (after_other b (take n bs) i line start e) (omega (arith, later))
]

back_to :
    (text : List ℕ) (offset : ℕ) (found : ℕ × ℕ)
    → CameTo text 0 0 0 found
    → found.1 ≤ offset
    → line_from text 0 found.0 + (offset - found.1) ≡ offset
unfolding CameTo
back_to text offset (lines, start) (inl (z, s)) le =
    rw z (let at = line_from_zero text 0 in omega (arith, at, s))
back_to text offset (lines, start) (inr (k, l, at)) le =
    let l' : lines ≡ suc k = omega (arith, l) in rw l' (omega (arith, at, le))

-- In a valid document, for an offset within the text: the start of the line that
-- `ted_document_position` answers, with the column added, is the offset.
pub line_start-position :
    (doc : Document) (offset : ℕ)
    → IsValid doc
    → offset ≤ doc.size
    → line_start doc (position doc offset).0 + (position doc offset).1 ≡ offset
unfolding position line_start
line_start-position doc offset v le = rw (whole_text doc v) (
    back_to doc.text offset _ (reached_from doc.text 0 0 0 offset)
      (omega (arith, start_bound doc.text 0 0 0 offset (omega arith))))
