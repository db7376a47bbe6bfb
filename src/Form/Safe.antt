-- ===== src/Form/Safe.antt =====
-- The keys of a field and the size of its buffer: src/aes/form_edit.c.
use gem.Base.{
  ℕ, zero, suc, ◌+◌, ◌-◌, ◌/◌, ◌%◌, ◌≤◌, ◌<◌, ◌≡◌, ◌∙◌, refl, Bool, true, false, ◌&&◌, ◌||◌, List,
  [], ◌∷◌, ◌++◌, Option, some, if◌then◌else◌, ltb, leb, ◌==◌, length, take, drop, arith, inl, inr,
  Bool-cases, All, if_both, length-take, length-drop, length-append,
}
use gem.Form.{
  Edit, ed_char, show_caret, put_text, is_printable, insert_at, type_at, objc_edit, remove_at,
  caret_to, delete_backward, delete_forward, handled, apply_key, apply_keys,
}

-- A NUL does not stand in the text.
abbrev pub IsText : List ℕ → Type 0
IsText = All (λ c. 0 < c)

take-IsText : (n : ℕ) (t : List ℕ) → IsText t → IsText (take n t)
take-IsText zero t all = tt
take-IsText (suc n) [] all = tt
take-IsText (suc n) (c ∷ t) all = (all.0, take-IsText n t all.1)

drop-IsText : (n : ℕ) (t : List ℕ) → IsText t → IsText (drop n t)
drop-IsText zero t all = all
drop-IsText (suc n) [] all = tt
drop-IsText (suc n) (c ∷ t) all = drop-IsText n t all.1

append-IsText : (t u : List ℕ) → IsText t → IsText u → IsText (t ++ u)
append-IsText [] u all more = more
append-IsText (c ∷ t) u all more = (all.0, append-IsText t u all.1 more)

-- The text fits in its buffer with its NUL, and the index is in it.
pub record IsEdit (e : Edit) : Type 0 where
  pub fits : length e.field.text < e.field.txtlen
  pub inside : e.field.idx ≤ length e.field.text
  pub chars : IsText e.field.text

put_text-IsEdit :
    (text : List ℕ) (idx : ℕ) (e : Edit)
    → length text < e.field.txtlen
    → idx ≤ length text
    → IsText text
    → IsEdit (put_text text idx e)
put_text-IsEdit text idx e fits inside chars = record {
  fits = fits;
  inside = inside;
  chars = chars;
}

remove_at-IsEdit :
    (i : ℕ) (e : Edit)
    → IsEdit e
    → i < length e.field.text
    → IsEdit (put_text (remove_at e.field.text i) i e)
remove_at-IsEdit i e valid lt =
    let sizes = length-append (take i e.field.text) (drop (i + 1) e.field.text) in
    put_text-IsEdit (remove_at e.field.text i) i e
      (omega
        (arith, sizes, length-take i e.field.text, length-drop (i + 1) e.field.text, valid.fits))
      (omega (arith, sizes, length-take i e.field.text, length-drop (i + 1) e.field.text))
      (append-IsText (take i e.field.text) (drop (i + 1) e.field.text)
        (take-IsText i e.field.text valid.chars) (drop-IsText (i + 1) e.field.text valid.chars))

insert_at-IsText : (text : List ℕ) (i c : ℕ) → IsText text → 0 < c → IsText (insert_at text i c)
insert_at-IsText text i c all positive =
    append-IsText (take i text) (c ∷ drop i text) (take-IsText i text all)
      (positive, drop-IsText i text all)

pub length-insert_at :
    (text : List ℕ) (i c : ℕ) → i ≤ length text → length (insert_at text i c) ≡ length text + 1
length-insert_at text i c le =
    omega
      (arith, length-append (take i text) (c ∷ drop i text), length-take i text, length-drop i text)

type_at-IsEdit :
    (i c : ℕ) (e : Edit)
    → IsEdit e
    → i ≤ length e.field.text
    → i + 1 < e.field.txtlen
    → 0 < c
    → IsEdit (type_at i c e)
type_at-IsEdit i c e valid le room positive =
    let text = e.field.text in
    let size = length-insert_at text i c le in
    let chars = insert_at-IsText text i c valid.chars positive in
    elim (Bool-cases (ltb (length text) (e.field.txtlen - 1))) [
      | inl f ↦
          rw f (put_text-IsEdit (insert_at text i c) (i + 1) e (ground arith) (omega arith) chars)
      | inr f ↦
          let full : length text + 1 ≡ e.field.txtlen = ground (arith, valid.fits) in
          let short : ltb i (length text) ≡ true = ground arith in
          let cut = length-take (e.field.txtlen - 1) (insert_at text i c) in
          rw f (
            rw short (
              put_text-IsEdit (take (e.field.txtlen - 1) (insert_at text i c)) (i + 1) e
                (omega arith) (omega arith)
                (take-IsText (e.field.txtlen - 1) (insert_at text i c) chars)))
    ]

show_caret-IsEdit : (e : Edit) → IsEdit e → IsEdit (show_caret e)
show_caret-IsEdit e valid = record { fits = valid.fits; inside = valid.inside; chars = valid.chars }

-- A key that succeeds, and leaves a field with the same buffer.
abbrev Succeeds : Edit → Option (Bool × Edit) → Type 0
Succeeds e o =
    (used : Bool) × (f : Edit) × (o ≡ some (used, f)) × IsEdit f × (f.field.txtlen ≡ e.field.txtlen)

goes_on :
    (used : Bool) (e f : Edit)
    → IsEdit f
    → f.field.txtlen ≡ e.field.txtlen
    → Succeeds e (some (used, f))
goes_on used e f valid same = (used, f, refl, valid, same)

caret_to-Succeeds :
    (idx : ℕ) (e : Edit)
    → IsEdit e
    → idx ≤ length e.field.text
    → Succeeds e (some (true, caret_to idx e))
unfolding objc_edit
caret_to-Succeeds idx e valid le =
    goes_on true e (caret_to idx e)
      (show_caret-IsEdit (put_text e.field.text idx e)
        (put_text-IsEdit e.field.text idx e valid.fits le valid.chars))
      refl

delete_backward-Succeeds : (e : Edit) → IsEdit e → Succeeds e (handled (delete_backward e))
unfolding delete_backward objc_edit
delete_backward-Succeeds e valid = elim (Bool-cases (e.field.idx == 0)) [
  | inl f ↦ rw f (goes_on true e e valid refl)
  | inr f ↦
      let inside = valid.inside in
      let at : ltb (length e.field.text) (e.field.idx - 1) ≡ false = ground arith in
      let some_before : e.field.idx - 1 < length e.field.text = ground arith in
      rw f (
        rw at (
          goes_on true e
            (show_caret (put_text (remove_at e.field.text (e.field.idx - 1)) (e.field.idx - 1) e))
            (show_caret-IsEdit _ (remove_at-IsEdit (e.field.idx - 1) e valid some_before)) refl))
]

delete_forward-IsEdit : (e : Edit) → IsEdit e → Succeeds e (some (true, delete_forward e))
unfolding delete_forward objc_edit
delete_forward-IsEdit e valid = elim (Bool-cases (leb (length e.field.text) e.field.idx)) [
  | inl f ↦ rw f (goes_on true e e valid refl)
  | inr f ↦ rw f (
      goes_on true e (show_caret (put_text (remove_at e.field.text e.field.idx) e.field.idx e))
        (show_caret-IsEdit _ (remove_at-IsEdit e.field.idx e valid (ground arith))) refl)
]

type_at-same : (i c : ℕ) (e : Edit) → (type_at i c e).field.txtlen ≡ e.field.txtlen
type_at-same i c e = ground arith

typed-Succeeds : (c : ℕ) (e : Edit) → IsEdit e → Succeeds e (some (true, objc_edit ed_char c e))
unfolding objc_edit
typed-Succeeds c e valid =
    elim (Bool-cases (ltb (e.field.idx + 1) e.field.txtlen && is_printable c)) [
      | inr f ↦ rw f (goes_on true e (show_caret e) (show_caret-IsEdit e valid) refl)
      | inl f ↦
          let inside = valid.inside in
          let at : ltb (length e.field.text) e.field.idx ≡ false = ground arith in
          let room : e.field.idx + 1 < e.field.txtlen = ground arith in
          let positive : 0 < c = ground arith in
          rw f (
            rw at (
              goes_on true e (show_caret (type_at e.field.idx c e))
                (show_caret-IsEdit (type_at e.field.idx c e)
                  (type_at-IsEdit e.field.idx c e valid inside room positive))
                (type_at-same e.field.idx c e)))
    ]

move_if-Succeeds :
    (test : Bool) (idx : ℕ) (e : Edit)
    → IsEdit e
    → (test ≡ true → idx ≤ length e.field.text)
    → Succeeds e (some (true, if test then caret_to idx e else e))
move_if-Succeeds true idx e valid le = caret_to-Succeeds idx e valid (le refl)
move_if-Succeeds false idx e valid le = goes_on true e e valid refl

apply_key-Succeeds : (key : ℕ) (e : Edit) → IsEdit e → Succeeds e (apply_key key e)
unfolding apply_key
apply_key-Succeeds key e valid =
    let ascii = key % 256 in
    let scancode = key / 256 % 256 in
    let inside = valid.inside in
    if_both (Succeeds e) (ascii == 8 || (ascii == 0 && (scancode == 42 || scancode == 14)))
      (delete_backward-Succeeds e valid)
      (if_both (Succeeds e) (scancode == 76 || scancode == 83) (delete_forward-IsEdit e valid) (
        if_both (Succeeds e) (scancode == 80 || scancode == 75)
          (move_if-Succeeds (ltb 0 e.field.idx) (e.field.idx - 1) e valid (λ t. omega arith))
          (if_both (Succeeds e) (scancode == 79)
            (move_if-Succeeds (ltb e.field.idx (length e.field.text)) (e.field.idx + 1) e valid
              (λ t. ground arith))
            (if_both (Succeeds e) (scancode == 74 || scancode == 71)
              (caret_to-Succeeds 0 e valid (omega arith))
              (if_both (Succeeds e) (scancode == 77)
                (caret_to-Succeeds (length e.field.text) e valid (omega arith))
                (if_both (Succeeds e) (leb 32 ascii && leb ascii 126) (typed-Succeeds ascii e valid)
                  (goes_on false e e valid refl)))))))

-- From a field whose text fits in its buffer with its NUL and whose index lies in the text, every
-- sequence of keys succeeds: no memory is moved from behind the text, and the text still fits
-- in the same buffer, without a NUL in it, with the index in it.
pub apply_keys-IsEdit :
    (keys : List ℕ) (e : Edit)
    → IsEdit e
    → (f : Edit) × (apply_keys keys e ≡ some f) × IsEdit f × (f.field.txtlen ≡ e.field.txtlen)
unfolding apply_keys
apply_keys-IsEdit [] e valid = (e, refl, valid, refl)
apply_keys-IsEdit (key ∷ keys) e valid =
    let (used, f, done, good, same) = apply_key-Succeeds key e valid in
    let (g, ends, fine, kept) = apply_keys-IsEdit keys f good in
    (g, rw done ends, fine, kept ∙ same)
