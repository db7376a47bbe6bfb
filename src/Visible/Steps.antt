-- ===== src/Visible/Steps.antt =====
-- One layer of the loop of aes_clip_layer_rects (src/aes/window_visible.c), point by point.
use gem.Base.{
  ℕ, ◌+◌, ◌≤◌, ◌≡◌, sym, ap, ◌∙◌, Bool, not, ◌&&◌, List, [], ◌∷◌, ◌++◌, some, arith, bit,
  Bool-cases, inl, inr, length, length-append, All, append-nil, append_assoc, if◌then◌else◌, ltb,
}
use gem.Base.Int.{ℤ}
use gem.Rect.{Grect, subtract_rect}
use gem.Rect.Subtract.{FitsRect, hits, hits-append, holds, subtract-exact}
use gem.Rect.Fragments.{All-append, subtract_shape}
use gem.Visible.{push_fragments, cut_pending}

abbrev pub RectsFit : List Grect → Type 0
RectsFit rs = All FitsRect rs

-- What is left of a count where the point is not hidden.
abbrev pub unless : Bool → ℕ → ℕ
unless hidden n = if hidden then 0 else n

pub push-fits :
    (m : ℕ) (next fs : List Grect)
    → RectsFit next
    → RectsFit fs
    → RectsFit (push_fragments m next fs)
unfolding push_fragments
push-fits m next [] a b = a
push-fits m next (f ∷ fs) a b = elim (Bool-cases (ltb (length next) m)) [
  | inl t ↦
      rw t (push-fits m (next ++ (f ∷ [])) fs (All-append FitsRect next (f ∷ []) a (b.0, tt)) b.1)
  | inr t ↦ rw t a
]

push-length :
    (m : ℕ) (next fs : List Grect) → length next ≤ m → length (push_fragments m next fs) ≤ m
unfolding push_fragments
push-length m next [] h = h
push-length m next (f ∷ fs) h = elim (Bool-cases (ltb (length next) m)) [
  | inl t ↦ rw t (push-length m (next ++ (f ∷ [])) fs (ground (arith, length-append next (f ∷ []))))
  | inr t ↦ rw t h
]

push-hits :
    (x y : ℤ) (m : ℕ) (next fs : List Grect)
    → hits x y (push_fragments m next fs) ≤ hits x y next + hits x y fs
unfolding push_fragments
push-hits x y m next [] = omega arith
push-hits x y m next (f ∷ fs) = elim (Bool-cases (ltb (length next) m)) [
  | inl t ↦ rw t (
      omega (
        arith,
        push-hits x y m (next ++ (f ∷ [])) fs,
        hits-append x y next (f ∷ []),
        hits-append x y (f ∷ []) fs,
      ))
  | inr t ↦ rw t (omega arith)
]

push_all :
    (m : ℕ) (next fs : List Grect)
    → length next + length fs ≤ m
    → push_fragments m next fs ≡ next ++ fs
unfolding push_fragments
push_all m next [] h = sym (append-nil next)
push_all m next (f ∷ fs) h = elim (Bool-cases (ltb (length next) m)) [
  | inl t ↦ rw t (
      push_all m (next ++ (f ∷ [])) fs (omega (arith, length-append next (f ∷ [])))
      ∙ append_assoc next (f ∷ []) fs)
  | inr t ↦ absurd (ground arith)
]

-- The pieces of all pending rectangles outside the cover, with no limit on their number.
unfoldable pub cut_free : Grect → List Grect → List Grect
cut_free c [] = []
cut_free c (p ∷ ps) = subtract_rect (some p) (some c) ++ cut_free c ps

pub cut_free-fits :
    (c : Grect) (ps : List Grect) → FitsRect c → RectsFit ps → RectsFit (cut_free c ps)
unfolding cut_free
cut_free-fits c [] g a = tt
cut_free-fits c (p ∷ ps) g a =
    All-append FitsRect _ (cut_free c ps) (subtract_shape p c a.0 g).0 (cut_free-fits c ps g a.1)

pub length-cut_free :
    (c : Grect) (ps : List Grect)
    → FitsRect c
    → RectsFit ps
    → length (cut_free c ps) ≤ length ps + length ps + length ps + length ps
unfolding cut_free
length-cut_free c [] g a = omega arith
length-cut_free c (p ∷ ps) g a = omega (
  arith,
  length-append (subtract_rect (some p) (some c)) (cut_free c ps),
  (subtract_shape p c a.0 g).1,
  length-cut_free c ps g a.1,
)

bit-unless : (a b : Bool) (n : ℕ) → bit (a && not b) + unless b n ≡ unless b (bit a + n)
bit-unless a b n = ground arith

unless_zero : (b : Bool) → 0 ≡ unless b 0
unless_zero b = ground arith

pub cut_free-hits :
    (x y : ℤ) (c : Grect) (ps : List Grect)
    → FitsRect c
    → RectsFit ps
    → hits x y (cut_free c ps) ≡ unless (holds x y c) (hits x y ps)
unfolding cut_free hits
cut_free-hits x y c [] g a = unless_zero (holds x y c)
cut_free-hits x y c (p ∷ ps) g a =
    hits-append x y (subtract_rect (some p) (some c)) (cut_free c ps)
    ∙ rw (subtract-exact x y p c a.0 g, cut_free-hits x y c ps g a.1)
        (bit-unless (holds x y p) (holds x y c) (hits x y ps))

pub cut-fits :
    (m : ℕ) (c : Grect) (next ps : List Grect)
    → FitsRect c
    → RectsFit next
    → RectsFit ps
    → RectsFit (cut_pending m c next ps)
unfolding cut_pending
cut-fits m c next [] g a b = a
cut-fits m c next (p ∷ ps) g a b =
    cut-fits m c (push_fragments m next (subtract_rect (some p) (some c))) ps g
      (push-fits m next _ a (subtract_shape p c b.0 g).0) b.1

pub cut-length :
    (m : ℕ) (c : Grect) (next ps : List Grect)
    → length next ≤ m
    → length (cut_pending m c next ps) ≤ m
unfolding cut_pending
cut-length m c next [] h = h
cut-length m c next (p ∷ ps) h =
    cut-length m c (push_fragments m next (subtract_rect (some p) (some c))) ps
      (push-length m next (subtract_rect (some p) (some c)) h)

cut-hits_free :
    (x y : ℤ) (m : ℕ) (c : Grect) (next ps : List Grect)
    → hits x y (cut_pending m c next ps) ≤ hits x y next + hits x y (cut_free c ps)
unfolding cut_pending cut_free
cut-hits_free x y m c next [] = omega arith
cut-hits_free x y m c next (p ∷ ps) = omega (
  arith,
  cut-hits_free x y m c (push_fragments m next (subtract_rect (some p) (some c))) ps,
  push-hits x y m next (subtract_rect (some p) (some c)),
  hits-append x y (subtract_rect (some p) (some c)) (cut_free c ps),
)

-- Whatever the limit, a cut adds no point, and keeps none that the cover holds.
pub cut-hits :
    (x y : ℤ) (m : ℕ) (c : Grect) (ps : List Grect)
    → FitsRect c
    → RectsFit ps
    → hits x y (cut_pending m c [] ps) ≤ unless (holds x y c) (hits x y ps)
unfolding hits
cut-hits x y m c ps g a = omega (arith, cut-hits_free x y m c [] ps, cut_free-hits x y c ps g a)

-- Where the limit has room for every piece, none is dropped.
pub cut_room :
    (m : ℕ) (c : Grect) (next ps : List Grect)
    → length next + length (cut_free c ps) ≤ m
    → cut_pending m c next ps ≡ next ++ cut_free c ps
unfolding cut_pending cut_free
cut_room m c next [] h = sym (append-nil next)
cut_room m c next (p ∷ ps) h =
    let fs = subtract_rect (some p) (some c) in
    let room = length-append fs (cut_free c ps) in
    ap (λ n. cut_pending m c n ps) (push_all m next fs (omega (arith, room)))
    ∙ cut_room m c (next ++ fs) ps (omega (arith, room, length-append next fs))
    ∙ append_assoc next fs (cut_free c ps)
