-- ===== src/Ted/Valid.antt =====
-- What the document of src/apps/ted/document.c always satisfies.
use gem.Base.{
  ℕ, zero, suc, ◌+◌, ◌-◌, ◌≤◌, ◌≡◌, ◌⊎◌, ◌∙◌, refl, ap, Bool, true, false, not, ◌&&◌, ◌||◌, List,
  [], ◌∷◌, ◌++◌, Option, none, some, ltb, ◌==◌, length, take, drop, arith, length-append,
  length-take, length-drop, inl, inr, Bool-cases, ltb→le,
}
use gem.Ted.{
  Document, ted_limit, has_nul, strlen, is_bad, bytes_of, first_of, last_of, replaced, edited,
  insert, swap_with, undo_edit,
}

abbrev pub IsText : List ℕ → Type 0
IsText bytes = (has_nul bytes ≡ false) × (length bytes ≤ ted_limit)

unfoldable pub IsKept : Option (List ℕ) → ℕ → Type 0
IsKept none n = Unit
IsKept (some bytes) n = IsText bytes × (n ≤ length bytes)

pub record IsValid (doc : Document) : Type 0 where
  pub sized : doc.size ≡ length doc.text
  pub is_text : IsText doc.text
  pub cursor_in : doc.cursor ≤ doc.size
  pub anchor_in : doc.anchor ≤ doc.size
  pub kept : IsKept doc.undo doc.undo_cursor

take_all : (xs : List ℕ) → take (length xs) xs ≡ xs
take_all [] = refl
take_all (x ∷ xs) = ap (λ t. x ∷ t) (take_all xs)

pub whole_text : (doc : Document) → IsValid doc → take doc.size doc.text ≡ doc.text
whole_text doc v = ap (λ n. take n doc.text) v.sized ∙ take_all doc.text

or_false : (a b : Bool) → (a || b) ≡ false → (a ≡ false) × (b ≡ false)
or_false a b h = ground arith

has_nul-append :
    (xs ys : List ℕ) → has_nul xs ≡ false → has_nul ys ≡ false → has_nul (xs ++ ys) ≡ false
unfolding has_nul
has_nul-append [] ys h k = k
has_nul-append (x ∷ xs) ys h k =
    let p = or_false (x == 0) (has_nul xs) h in rw p.0 (has_nul-append xs ys p.1 k)

has_nul-take : (n : ℕ) (xs : List ℕ) → has_nul xs ≡ false → has_nul (take n xs) ≡ false
unfolding has_nul
has_nul-take zero xs h = refl
has_nul-take (suc n) [] h = refl
has_nul-take (suc n) (x ∷ xs) h =
    let p = or_false (x == 0) (has_nul xs) h in rw p.0 (has_nul-take n xs p.1)

has_nul-drop : (n : ℕ) (xs : List ℕ) → has_nul xs ≡ false → has_nul (drop n xs) ≡ false
unfolding has_nul
has_nul-drop zero xs h = h
has_nul-drop (suc n) [] h = refl
has_nul-drop (suc n) (x ∷ xs) h = has_nul-drop n xs (or_false (x == 0) (has_nul xs) h).1

pub strlen-has_nul : (xs : List ℕ) → has_nul xs ≡ false → strlen xs ≡ length xs
unfolding has_nul strlen
strlen-has_nul [] h = refl
strlen-has_nul (x ∷ xs) h =
    let p = or_false (x == 0) (has_nul xs) h in rw p.0 (ap suc (strlen-has_nul xs p.1))

pub length-replaced :
    (text source : List ℕ) (first last : ℕ)
    → first ≤ last
    → last ≤ length text
    → length (replaced text first last source) ≡ length text - (last - first) + length source
unfolding replaced
length-replaced text source first last le end =
    let a = length-append (take first text) (source ++ drop last text) in
    let b = length-append source (drop last text) in
    let c = length-take first text in let d = length-drop last text in omega arith

pub has_nul-replaced :
    (text source : List ℕ) (first last : ℕ)
    → has_nul text ≡ false
    → has_nul source ≡ false
    → has_nul (replaced text first last source) ≡ false
unfolding replaced
has_nul-replaced text source first last h k =
    has_nul-append _ _ (has_nul-take first text h)
      (has_nul-append source _ k (has_nul-drop last text h))

first_last : (doc : Document) → first_of doc ≤ last_of doc
first_last doc = ground arith

pub edited-IsValid :
    (doc : Document) (source : List ℕ)
    → IsValid doc
    → last_of doc ≤ doc.size
    → has_nul source ≡ false
    → doc.size - (last_of doc - first_of doc) + length source ≤ ted_limit
    → IsValid (edited doc (first_of doc) (last_of doc) source)
unfolding IsKept
edited-IsValid doc source v end clean room =
    let le = first_last doc in
    let n =
      length-replaced doc.text source (first_of doc) (last_of doc) le (omega (arith, v.sized)) in
    record {
      sized = omega arith;
      is_text = (has_nul-replaced doc.text source _ _ v.is_text.0 clean, omega arith);
      cursor_in = omega arith;
      anchor_in = omega arith;
      kept = (v.is_text, omega arith);
    }

-- The guards of the insertion: the two sizes fit together, and no byte is NUL.
room_of :
    (a b n : ℕ) (bad : Bool)
    → (ltb a n || (ltb (a - n) b || (ltb 0 n && bad))) ≡ false
    → (n ≤ a) × (b + n ≤ a) × ((n ≡ 0) ⊎ (bad ≡ false))
room_of a b n bad h = ground arith

clean_source :
    (source : Option (List ℕ)) (n : ℕ)
    → (n ≡ 0) ⊎ (is_bad source n ≡ false)
    → has_nul (take n (bytes_of source)) ≡ false
unfolding is_bad has_nul
clean_source source n (inl e) = rw e refl
clean_source none zero (inr e) = refl
clean_source none (suc n) (inr e) = cc
clean_source (some bytes) n (inr e) = e

-- What an insertion comes to: no change, or the edit, whose parts then fit.
abbrev pub IsEdit : Bool → Option (List ℕ) → ℕ → Document → Type 0
IsEdit memory source n doc =
    (insert memory source n doc
      ≡ (true, edited doc (first_of doc) (last_of doc) (take n (bytes_of source))))
    × (last_of doc ≤ doc.size)
    × (has_nul (take n (bytes_of source)) ≡ false)
    × (doc.size - (last_of doc - first_of doc) + length (take n (bytes_of source)) ≤ ted_limit)

pub insert-cases :
    (memory : Bool) (source : Option (List ℕ)) (n : ℕ) (doc : Document)
    → ((b : Bool) × (insert memory source n doc ≡ (b, doc))) ⊎ IsEdit memory source n doc
unfolding insert
insert-cases memory source n doc = elim (Bool-cases (ltb doc.size (last_of doc))) [
  | inl e ↦ inl (false, rw e refl)
  | inr e ↦ elim (Bool-cases (first_of doc == last_of doc && n == 0)) [
    | inl f ↦ inl (true, rw e (rw f refl))
    | inr f ↦
        elim (Bool-cases (
          ltb ted_limit n
          || (ltb (ted_limit - n) (doc.size - (last_of doc - first_of doc))
              || (ltb 0 n && is_bad source n)))) [
                | inl g ↦ inl (false, rw e (rw f (rw g refl)))
                | inr g ↦ elim (Bool-cases (not memory)) [
                  | inl m ↦ inl (false, rw e (rw f (rw g (rw m refl))))
                  | inr m ↦
                      let room =
                        room_of ted_limit (doc.size - (last_of doc - first_of doc)) n
                          (is_bad source n) g in
                      let short = length-take n (bytes_of source) in
                      inr (
                        rw e (rw f (rw g (rw m refl))),
                        ltb→le doc.size (last_of doc) e,
                        clean_source source n room.2,
                        omega arith,
                      )
                ]
              ]
  ]
]

pub insert-IsValid :
    (memory : Bool) (source : Option (List ℕ)) (n : ℕ) (doc : Document)
    → IsValid doc
    → IsValid (insert memory source n doc).1
insert-IsValid memory source n doc v = elim (insert-cases memory source n doc) [
  | inl (b, e) ↦ rw e v
  | inr (e, end, clean, room) ↦ rw e (edited-IsValid doc _ v end clean room)
]

swap_with-IsValid :
    (doc : Document) (u : Option (List ℕ))
    → IsValid doc
    → IsKept u doc.undo_cursor
    → IsValid (swap_with doc u)
unfolding IsKept
swap_with-IsValid doc none v k = v
swap_with-IsValid doc (some previous) v k =
    let size = strlen-has_nul previous k.0.0 in
    record {
      sized = size;
      is_text = k.0;
      cursor_in = omega arith;
      anchor_in = omega arith;
      kept = (v.is_text, omega (arith, v.cursor_in, v.sized));
    }

pub undo_edit-IsValid : (doc : Document) → IsValid doc → IsValid (undo_edit doc)
unfolding undo_edit
undo_edit-IsValid doc v = swap_with-IsValid doc doc.undo v v.kept
