-- ===== src/Rect.antt =====
-- Rectangle arithmetic of the AES: src/aes/aes_geometry.c, function by function.
-- A `WORD` is an integer of `Base.Int`; a sum that the code casts to `(WORD)` goes through `to_word`,
-- one that it compares as an `int` does not. A pointer that may be NULL is an `Option`; what a
-- function writes through `out` is its result.
pub mod Span
pub mod Subtract
pub mod Fragments
mod Tests
use gem.Base.{
  ℕ, Bool, true, false, not, ◌&&◌, ◌||◌, List, [], ◌∷◌, ◌++◌, Option, none, some, if◌then◌else◌,
}
use gem.Base.Int.{ℤ, pos, ◌+ℤ◌, ◌-ℤ◌, ltb_ℤ, leb_ℤ, to_word}

pub record Grect : Type 0 where
  pub g_x : ℤ
  pub g_y : ℤ
  pub g_w : ℤ
  pub g_h : ℤ

unfoldable pub min_word : ℤ → ℤ → ℤ
min_word left right = if ltb_ℤ left right then left else right

unfoldable pub max_word : ℤ → ℤ → ℤ
max_word left right = if ltb_ℤ right left then left else right

abbrev pub set_rect : ℤ → ℤ → ℤ → ℤ → Grect
set_rect x y w h = record { g_x = x; g_y = y; g_w = w; g_h = h }

unfoldable pub point_in_rect : ℤ → ℤ → Option Grect → Bool
point_in_rect x y none = false
point_in_rect x y (some r) =
    leb_ℤ r.g_x x && leb_ℤ r.g_y y && ltb_ℤ x (r.g_x +ℤ r.g_w) && ltb_ℤ y (r.g_y +ℤ r.g_h)

-- The last coordinate of a span: `(WORD)(x + w - 1)`.
unfoldable pub last : ℤ → ℤ → ℤ
last start size = to_word (start +ℤ size -ℤ pos 1)

unfoldable pub is_empty : Grect → Bool
is_empty r = leb_ℤ r.g_w (pos 0) || leb_ℤ r.g_h (pos 0)

unfoldable pub rects_intersect : Option Grect → Option Grect → Bool
unfolding is_empty
rects_intersect none right = false
rects_intersect (some l) none = false
rects_intersect (some l) (some r) =
    if is_empty l || is_empty r
    then false
    else not (
        ltb_ℤ (last l.g_x l.g_w) r.g_x
        || ltb_ℤ (last r.g_x r.g_w) l.g_x
        || ltb_ℤ (last l.g_y l.g_h) r.g_y
        || ltb_ℤ (last r.g_y r.g_h) l.g_y)

-- The start and the size of the common part of two spans.
unfoldable pub common_start : ℤ → ℤ → ℤ
common_start left right = max_word left right

unfoldable pub common_size : ℤ → ℤ → ℤ → ℤ → ℤ
unfolding common_start
common_size left left_size right right_size =
    to_word
      (min_word (last left left_size) (last right right_size) -ℤ common_start left right +ℤ pos 1)

unfoldable pub common : Grect → Grect → Grect
unfolding common_start common_size
common l r =
    set_rect (common_start l.g_x r.g_x) (common_start l.g_y r.g_y)
      (common_size l.g_x l.g_w r.g_x r.g_w) (common_size l.g_y l.g_h r.g_y r.g_h)

unfoldable pub intersect_rects : Option Grect → Option Grect → Option Grect
unfolding common
intersect_rects none right = none
intersect_rects (some l) none = none
intersect_rects (some l) (some r) =
    if rects_intersect (some l) (some r) then some (common l r) else none

abbrev pub when : Bool → Grect → List Grect
when test r = if test then r ∷ [] else []

-- The strips of `source` round `overlap`.
abbrev pub above_strip : Grect → Grect → Grect
above_strip s o = set_rect s.g_x s.g_y s.g_w (to_word (o.g_y -ℤ s.g_y))

abbrev pub below_strip : Grect → Grect → Grect
below_strip s o =
    set_rect s.g_x (to_word (last o.g_y o.g_h +ℤ pos 1)) s.g_w
      (to_word (last s.g_y s.g_h -ℤ last o.g_y o.g_h))

abbrev pub left_strip : Grect → Grect → Grect
left_strip s o = set_rect s.g_x o.g_y (to_word (o.g_x -ℤ s.g_x)) o.g_h

abbrev pub right_strip : Grect → Grect → Grect
right_strip s o =
    set_rect (to_word (last o.g_x o.g_w +ℤ pos 1)) o.g_y
      (to_word (last s.g_x s.g_w -ℤ last o.g_x o.g_w)) o.g_h

unfoldable pub fragments : Grect → Grect → List Grect
fragments s o =
    when (ltb_ℤ s.g_y o.g_y) (above_strip s o)
    ++ (when (ltb_ℤ (last o.g_y o.g_h) (last s.g_y s.g_h)) (below_strip s o)
        ++ (when (ltb_ℤ s.g_x o.g_x) (left_strip s o)
            ++ when (ltb_ℤ (last o.g_x o.g_w) (last s.g_x s.g_w)) (right_strip s o)))

unfoldable pub subtract_around : Grect → Option Grect → List Grect
unfolding fragments
subtract_around source none = source ∷ []
subtract_around source (some overlap) = fragments source overlap

unfoldable pub subtract_rect : Option Grect → Option Grect → List Grect
unfolding subtract_around
subtract_rect none cover = []
subtract_rect (some source) none = if is_empty source then [] else subtract_around source none
subtract_rect (some source) (some cover) =
    if is_empty source
    then []
    else if is_empty cover
    then subtract_around source none
    else subtract_around source (intersect_rects (some source) (some cover))
