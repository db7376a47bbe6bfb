-- ===== src/Wind/Walk.antt =====
-- The walk over the visible rectangles that src/aes/window.c offers by WF_FIRSTXYWH and WF_NEXTXYWH.
use gem.Base.{inl, inr, Bool-cases, replicate, ◌++◌, append_assoc, ltb}
use gem.Base.{
  ℕ, zero, suc, ◌+◌, ◌≡◌, ◌∙◌, refl, ap, true, false, ◌⊎◌, List, [], ◌∷◌, Option, none, some, arith,
  length, length-append, get_elem?,
}
use gem.Base.Int.{ℤ, pos, eqb_ℤ, eq_of_parts}
use gem.Rect.{Grect}
use gem.Window.{Window, AesState, find_window}
use gem.Visible.{build_visible_rects}
use gem.Wind.{no_rect}
use gem.Wind.Fields.{
  Enumeration, start_walk, next_of_walk, walk_or, get_found, wind_get, wf_firstxywh, wf_nextxywh,
}

-- What is read when `wind_get` has answered, and `n` times more for the next rectangle; a call
-- that fails ends it.
unfoldable pub read_on : ℕ → AesState → Grect → ℤ → Option (Grect × Enumeration) → List Grect
read_on n st full handle none = []
read_on zero st full handle (some (r, e)) = r ∷ []
read_on (suc n) st full handle (some (r, e)) =
    r ∷ read_on n st full handle (wind_get st full handle wf_nextxywh e)

abbrev at : ℤ → List Grect → ℕ → Enumeration
at handle rects i = record {
  enum_handle = handle;
  enum_stage = true;
  enum_index = i;
  enum_rects = rects;
}

abbrev ended : ℤ → Enumeration
ended handle = record { enum_handle = handle; enum_stage = false; enum_index = 0; enum_rects = [] }

-- The handle is the desktop's or that of a window in use.
abbrev pub IsKnown : ℤ → AesState → Type 0
IsKnown handle st = (handle ≡ pos 0) ⊎ ((w : Window) × (find_window handle st.windows ≡ some w))

same_handle : (h : ℤ) → eqb_ℤ h h ≡ true
same_handle h = ground arith

zero_handle : (h : ℤ) → h ≡ pos 0 → eqb_ℤ h (pos 0) ≡ true
zero_handle h e = rw e refl

-- A handle that is not known by being the desktop's is that of a window.
known_cases :
    (st : AesState) (handle : ℤ)
    → IsKnown handle st
    → (handle ≡ pos 0)
      ⊎ ((eqb_ℤ handle (pos 0) ≡ false) × ((w : Window) × (find_window handle st.windows ≡ some w)))
known_cases st handle (inl z) = inl z
known_cases st handle (inr found) = elim (Bool-cases (eqb_ℤ handle (pos 0))) [
  | inl e ↦ inl (eq_of_parts _ _ (ground arith))
  | inr e ↦ inr (e, found)
]

-- For a known handle, the first rectangle starts the walk and the next one goes on with it.
first_of_walk :
    (st : AesState) (full : Grect) (handle : ℤ) (e : Enumeration)
    → IsKnown handle st
    → wind_get st full handle wf_firstxywh e
      ≡ some (start_walk handle (build_visible_rects st handle (pos 64)))
unfolding wind_get get_found walk_or
first_of_walk st full handle e known = elim (known_cases st handle known) [
  | inl z ↦ rw z refl
  | inr (other, (w, found)) ↦ rw other (rw found refl)
]

step_of_walk :
    (st : AesState) (full : Grect) (handle : ℤ) (e : Enumeration)
    → IsKnown handle st
    → wind_get st full handle wf_nextxywh e ≡ some (next_of_walk handle e)
unfolding wind_get get_found walk_or
step_of_walk st full handle e known = elim (known_cases st handle known) [
  | inl z ↦ rw z refl
  | inr (other, (w, found)) ↦ rw other (rw found refl)
]

next_of_ended : (handle : ℤ) → next_of_walk handle (ended handle) ≡ (no_rect, ended handle)
unfolding next_of_walk
next_of_ended handle = rw (same_handle handle) refl

ended_on :
    (n : ℕ) (st : AesState) (full : Grect) (handle : ℤ)
    → IsKnown handle st
    → read_on n st full handle (some (no_rect, ended handle)) ≡ replicate (suc n) no_rect
unfolding read_on
ended_on zero st full handle known = refl
ended_on (suc n) st full handle known =
    ap (λ t. no_rect ∷ t)
      (rw (step_of_walk st full handle (ended handle) known)
        (rw (next_of_ended handle) (ended_on n st full handle known)))

ended_for :
    (n k : ℕ) (st : AesState) (full : Grect) (handle : ℤ)
    → IsKnown handle st
    → suc n ≡ k
    → read_on n st full handle (some (no_rect, ended handle)) ≡ replicate k no_rect
ended_for n k st full handle known e =
    ended_on n st full handle known ∙ ap (λ m. replicate m no_rect) e

get_elem?-middle {ℓ} :
    {A : Type ℓ} (before : List A) (a : A) (after : List A)
    → get_elem? (before ++ a ∷ after) (length before) ≡ some a
get_elem?-middle [] a after = refl
get_elem?-middle (b ∷ before) a after = get_elem?-middle before a after

-- The walk that stands at the rectangle after `before`.
abbrev standing : ℤ → List Grect → List Grect → Enumeration
standing handle before rest = at handle (before ++ rest) (length before)

no_more :
    (before : List Grect) (r : Grect) → ltb (length before + 1) (length (before ++ r ∷ [])) ≡ false
no_more before r = let size = length-append before (r ∷ []) in ground arith

one_more :
    (before : List Grect) (r s : Grect) (rest : List Grect)
    → ltb (length before + 1) (length (before ++ r ∷ s ∷ rest)) ≡ true
one_more before r s rest = let size = length-append before (r ∷ s ∷ rest) in ground arith

next_at_end :
    (handle : ℤ) (before : List Grect) (r : Grect)
    → next_of_walk handle (standing handle before (r ∷ [])) ≡ (no_rect, ended handle)
unfolding next_of_walk
next_at_end handle before r = rw (same_handle handle) (rw (no_more before r) refl)

length-after : (before : List Grect) (r : Grect) → length (before ++ r ∷ []) ≡ length before + 1
length-after before r = omega (arith, length-append before (r ∷ []))

after_append :
    (before : List Grect) (r : Grect) (rest : List Grect)
    → (before ++ r ∷ []) ++ rest ≡ before ++ r ∷ rest
after_append before r rest = append_assoc before (r ∷ []) rest

next_on :
    (handle : ℤ) (before : List Grect) (r s : Grect) (rest : List Grect)
    → next_of_walk handle (standing handle before (r ∷ s ∷ rest))
      ≡ (s, standing handle (before ++ r ∷ []) (s ∷ rest))
unfolding next_of_walk
next_on handle before r s rest =
    let found = get_elem?-middle (before ++ r ∷ []) s rest in
    let found' = rw (length-after before r, after_append before r (s ∷ rest)) at found in
    rw (length-after before r, after_append before r (s ∷ rest))
      (rw (same_handle handle) (rw (one_more before r s rest) (rw found' refl)))

read_on-standing :
    (n k : ℕ) (st : AesState) (full : Grect) (handle : ℤ) (before : List Grect) (r : Grect)
    (rest : List Grect)
    → IsKnown handle st
    → n ≡ length rest + k
    → read_on n st full handle (some (r, standing handle before (r ∷ rest)))
      ≡ (r ∷ rest) ++ replicate k no_rect
unfolding read_on
read_on-standing zero zero st full handle before r [] known e = refl
read_on-standing zero (suc k) st full handle before r [] known e = absurd (omega (arith, e))
read_on-standing zero k st full handle before r (s ∷ rest) known e = absurd (omega (arith, e))
read_on-standing (suc n) k st full handle before r [] known e =
    ap (λ t. r ∷ t)
      (rw (step_of_walk st full handle (standing handle before (r ∷ [])) known)
        (rw (next_at_end handle before r) (ended_for n k st full handle known (omega (arith, e)))))
read_on-standing (suc n) k st full handle before r (s ∷ rest) known e =
    ap (λ t. r ∷ t)
      (rw (step_of_walk st full handle (standing handle before (r ∷ s ∷ rest)) known) (
        rw (next_on handle before r s rest)
          (read_on-standing n k st full handle (before ++ r ∷ []) s rest known (omega (arith, e)))))

pub start_on :
    (n k : ℕ) (st : AesState) (full : Grect) (handle : ℤ) (rects : List Grect)
    → IsKnown handle st
    → suc n ≡ length rects + k
    → read_on n st full handle (some (start_walk handle rects)) ≡ rects ++ replicate k no_rect
unfolding start_walk
start_on n k st full handle [] known e = ended_for n k st full handle known (omega (arith, e))
start_on n k st full handle (r ∷ rest) known e =
    read_on-standing n k st full handle [] r rest known (omega (arith, e))

-- A program that asks for the first rectangle of the desktop or of a window in use and then
-- `n` times for the next, while no window changes, reads all the rectangles that
-- `aes_build_visible_rects` lists, in their order, and empty rectangles after the last, whatever
-- walk was under way; `n` is at least one less than their number.
pub wind_get-walk :
    (n k : ℕ) (st : AesState) (full : Grect) (handle : ℤ) (e : Enumeration)
    → IsKnown handle st
    → suc n ≡ length (build_visible_rects st handle (pos 64)) + k
    → read_on n st full handle (wind_get st full handle wf_firstxywh e)
      ≡ build_visible_rects st handle (pos 64) ++ replicate k no_rect
wind_get-walk n k st full handle e known enough =
    rw (first_of_walk st full handle e known)
      (start_on n k st full handle (build_visible_rects st handle (pos 64)) known enough)
