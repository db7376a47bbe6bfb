-- ===== src/Ted/Chars.antt =====
-- The steps from character to character of src/apps/ted/document.c.
use gem.Base.{
  ℕ, zero, suc, ◌+◌, ◌-◌, ◌≤◌, ◌<◌, ◌≡◌, ◌⊎◌, ◌∙◌, refl, sym, ap, true, false, List, [], ◌∷◌,
  length, get_or, take, drop, arith, inl, inr, Bool-cases, if_true, if_false, lt→ltb, length-drop,
}
use gem.Ted.{Document, continues, back_from, on_from, step_back, step_on}
use gem.Ted.Valid.{IsValid, whole_text}

-- A character starts at the offset, or the text does.
abbrev pub IsStart : List ℕ → ℕ → Type 0
IsStart text offset = (offset ≡ 0) ⊎ (continues (get_or text offset 0) ≡ false)

Run : List ℕ → ℕ → Type 0
Run bytes k = (i : ℕ) → i < k → continues (get_or bytes i 0) ≡ true

Run-cons :
    (b : ℕ) (bytes : List ℕ) (k : ℕ) → continues b ≡ true → Run bytes k → Run (b ∷ bytes) (suc k)
unfolding Run
Run-cons b bytes k h run zero lt = h
Run-cons b bytes k h run (suc i) lt = run i (omega arith)

on_from-Run :
    (bytes : List ℕ) (p : ℕ)
    → (k : ℕ) × (on_from bytes p ≡ p + k)
      × (k ≤ length bytes)
      × Run bytes k
      × (continues (get_or bytes k 0) ≡ false)
unfolding on_from Run
on_from-Run [] p = (0, omega arith, omega arith, λ i h. absurd (omega arith), refl)
on_from-Run (b ∷ bs) p = elim (Bool-cases (continues b)) [
  | inl e ↦
      let (k, same, le, run, stop) = on_from-Run bs (p + 1) in
      (suc k, rw e (omega (arith, same)), omega (arith, le), Run-cons b bs k e run, stop)
  | inr e ↦ (0, rw e (omega arith), omega arith, λ i h. absurd (omega arith), e)
]

get_or-drop : (n i : ℕ) (xs : List ℕ) → get_or (drop n xs) i 0 ≡ get_or xs (i + n) 0
get_or-drop zero i xs = ap (λ m. get_or xs m 0) (omega arith)
get_or-drop (suc n) i [] = refl
get_or-drop (suc n) i (x ∷ xs) =
    get_or-drop n i xs ∙ ap (λ m. get_or (x ∷ xs) m 0) {x = suc (i + n)} (omega arith)

back_from-start : (text : List ℕ) (o : ℕ) → IsStart text o → back_from text o ≡ o
unfolding back_from
back_from-start text zero start = refl
back_from-start text (suc o) (inl z) = absurd (omega (arith, z))
back_from-start text (suc o) (inr e) = if_false _ (back_from text o) (suc o) e

back_from-Run :
    (text : List ℕ) (o k m : ℕ)
    → m ≡ o + k
    → Run (drop (o + 1) text) k
    → IsStart text o
    → back_from text m ≡ o
unfolding back_from Run
back_from-Run text o zero m e run start =
    let same : m ≡ o = omega (arith, e) in ap (back_from text) same ∙ back_from-start text o start
back_from-Run text o (suc k) zero e run start = absurd (omega (arith, e))
back_from-Run text o (suc k) (suc m) e run start =
    let last = run k (omega arith) in
    let at : k + (o + 1) ≡ suc m = omega (arith, e) in
    let here =
      sym (ap (λ n. continues (get_or text n 0)) at)
      ∙ sym (ap continues (get_or-drop (o + 1) k text))
      ∙ last in
    if_true _ (back_from text m) (suc m) here
    ∙ back_from-Run text o k m (omega (arith, e)) (λ i h. run i (omega arith)) start

-- In a valid document, for an offset before the end at which a character starts: the step forward
-- comes to an offset after it and within the text, where again a character or the end is, and the step
-- back from there comes to the first offset.
pub step_back-step_on :
    (doc : Document) (offset : ℕ)
    → IsValid doc
    → offset < doc.size
    → IsStart doc.text offset
    → (offset < step_on doc offset)
      × (step_on doc offset ≤ doc.size)
      × (continues (get_or doc.text (step_on doc offset) 0) ≡ false)
      × (step_back doc (step_on doc offset) ≡ offset)
unfolding step_on step_back
step_back-step_on doc offset v lt start =
    let all : take doc.size doc.text ≡ doc.text = whole_text doc v in
    let (k, same, le, run, stop) = on_from-Run (drop (offset + 1) doc.text) (offset + 1) in
    let size = length-drop (offset + 1) doc.text in
    let v' = v.sized in
    rw (lt→ltb offset doc.size lt) (
      rw all (
        rw same (
          omega arith,
          omega arith,
          ap (λ n. continues (get_or doc.text n 0)) (omega arith)
              ∙ sym (ap continues (get_or-drop (offset + 1) k doc.text))
              ∙ stop,
          back_from-Run doc.text offset k (offset + 1 + k - 1) (omega arith) run start,
        )))
