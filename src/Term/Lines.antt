-- ===== src/Term/Lines.antt =====
-- The length of a line of the terminal: src/apps/terminal/screen.c.
use gem.Base.{
  ℕ, zero, suc, ◌≤◌, ◌<◌, ◌≡◌, ◌∙◌, ap, true, false, List, [], ◌∷◌, if◌then◌else◌, ltb, ◌==◌, arith,
  inl, inr, Bool-cases, All,
}
use gem.Term.{Line, max_cols, is_blank, length_from, line_length, longest}

upto :
    (n : ℕ) (line : Line)
    → ((i : ℕ) → length_from n line ≤ i → i < n → is_blank line i ≡ true)
    → is_blank line n ≡ true
    → (i : ℕ) → length_from n line ≤ i
    → i < suc n
    → is_blank line i ≡ true
upto n line blank e i le lt = elim (Bool-cases (i == n)) [
  | inl f ↦ let at : i ≡ n = ground arith in ap (is_blank line) at ∙ e
  | inr f ↦ blank i le (ground arith)
]

same : (n i : ℕ) (line : Line) → suc n ≡ suc i → is_blank line n ≡ false → is_blank line i ≡ false
same n i line f e = let at : i ≡ n = omega arith in ap (is_blank line) at ∙ e

length_from_lem :
    (n : ℕ) (line : Line)
    → (length_from n line ≤ n)
      × ((i : ℕ) → length_from n line ≤ i → i < n → is_blank line i ≡ true)
      × ((i : ℕ) → length_from n line ≡ suc i → is_blank line i ≡ false)
unfolding length_from
length_from_lem zero line =
    (omega arith, (λ i le lt. absurd (omega arith)), (λ i e. absurd (omega arith)))
length_from_lem (suc n) line = elim (Bool-cases (is_blank line n)) [
  | inl e ↦
      let (short, blank, last) = length_from_lem n line in
      rw e (omega arith, (λ i le lt. upto n line blank e i le lt), last)
  | inr e ↦ rw e (omega arith, (λ i le lt. absurd (omega arith)), (λ i f. same n i line f e))
]

-- A line of the terminal has at most 512 cells; behind the length of a line they are blank, and the
-- last cell within the length is not.
pub line_length_lem :
    (line : Line)
    → (line_length line ≤ max_cols)
      × ((i : ℕ) → line_length line ≤ i → i < max_cols → is_blank line i ≡ true)
      × ((i : ℕ) → line_length line ≡ suc i → is_blank line i ≡ false)
unfolding line_length
line_length_lem line = length_from_lem max_cols line

larger :
    (best n : ℕ)
    → (best ≤ (if ltb best n then n else best)) × (n ≤ (if ltb best n then n else best))
larger best n = (ground arith, ground arith)

le_trans : {a b c : ℕ} → a ≤ b → b ≤ c → a ≤ c
le_trans p q = omega arith

-- The longest line is as long as every line.
pub longest-bound :
    (best : ℕ) (lines : List Line)
    → (best ≤ longest best lines) × All (λ line. line_length line ≤ longest best lines) lines
unfolding longest
longest-bound best [] = (omega arith, tt)
longest-bound best (line ∷ lines) =
    let next = if ltb best (line_length line) then line_length line else best in
    let (more, all) = longest-bound next lines in
    let (above, covers) = larger best (line_length line) in
    (le_trans above more, (le_trans covers more, all))
