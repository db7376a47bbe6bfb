-- ===== src/Rect/Tests.antt =====
-- Runs of the rectangle arithmetic, and its theorems at concrete rectangles.
use gem.Base.{◌≡◌, refl, not, ◌&&◌, [], ◌∷◌, some, arith, bit}
use gem.Base.Int.{pos, negsuc, ◌+ℤ◌, ◌-ℤ◌, to_word}
use gem.Rect.{
  is_empty, rects_intersect, Grect, set_rect, min_word, max_word, last, point_in_rect,
  intersect_rects, subtract_rect,
}
use gem.Rect.Subtract.{FitsRect, hits, holds, subtract-exact, intersect-exact}

abbrev page : Grect
page = set_rect (pos 0) (pos 0) (pos 100) (pos 80)

abbrev note : Grect
note = set_rect (pos 30) (negsuc 9) (pos 20) (pos 30)

page-FitsRect : FitsRect page
unfolding ◌+ℤ◌
page-FitsRect = omega arith

note-FitsRect : FitsRect note
unfolding ◌+ℤ◌
note-FitsRect = omega arith

cut_page :
    subtract_rect (some page) (some note)
    ≡ set_rect (pos 0) (pos 20) (pos 100) (pos 60)
      ∷ set_rect (pos 0) (pos 0) (pos 30) (pos 20)
      ∷ set_rect (pos 50) (pos 0) (pos 50) (pos 20)
      ∷ []
unfolding subtract_rect intersect_rects is_empty rects_intersect last min_word max_word ◌+ℤ◌ ◌-ℤ◌
    to_word
cut_page = refl

-- A cast wraps.
last_wraps : last (pos 32767) (pos 2) ≡ negsuc 32767
unfolding last ◌+ℤ◌ ◌-ℤ◌ to_word
last_wraps = refl

subtract-exact_example :
    hits (pos 40) (pos 30) (subtract_rect (some page) (some note))
    ≡ bit (holds (pos 40) (pos 30) page && not (holds (pos 40) (pos 30) note))
subtract-exact_example = subtract-exact (pos 40) (pos 30) page note page-FitsRect note-FitsRect

intersect-exact_example :
    point_in_rect (pos 40) (pos 10) (intersect_rects (some page) (some note))
    ≡ (holds (pos 40) (pos 10) page && holds (pos 40) (pos 10) note)
intersect-exact_example = intersect-exact (pos 40) (pos 10) page note page-FitsRect note-FitsRect
