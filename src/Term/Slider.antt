-- ===== src/Term/Slider.antt =====
-- The slider of a scroll bar against the offset of the view: src/apps/terminal/screen.c.
use gem.Base.{ℕ, ◌+◌, ◌-◌, ◌*◌, ◌/◌, ◌≤◌, ◌<◌, ◌≡◌, ◌==◌, arith, inl, inr, Bool-cases}
use gem.Term.{clamp_word, max_offset, slider_pos, offset_from_slider}
use native.Mathlib.Nat.{div-add-mod', mod-lt, div-lt_iff_lt-mul}

-- The arithmetic, for a view that can be moved by `limit`.
there_and_back :
    (offset limit : ℕ)
    → 0 < limit
    → offset ≤ limit
    → (1000 * offset / limit ≤ 1000)
      × ((1000 * offset / limit * limit + 500) / 1000 ≤ offset)
      × (1000 * (offset - (1000 * offset / limit * limit + 500) / 1000) < limit + 499)
there_and_back offset limit some_room le =
    let whole = div-add-mod' (1000 * offset) limit in
    let rest = mod-lt (1000 * offset) some_room in
    let bound : 1000 * offset / limit < 1001 = (div-lt_iff_lt-mul some_room).1 (omega arith) in
    (omega arith, omega arith, omega arith)

clamped : (value : ℕ) → value ≤ 1000 → clamp_word value 0 1000 ≡ value
clamped value le = ground arith

-- For an offset in the range of the view: the slider that shows it is at most 1000, and the offset
-- read back from the slider is the offset itself when the range is at most 501, and at most the 1000th
-- part of the range and a half below it when the range is larger.
pub offset_from_slider-slider_pos :
    (offset total visible : ℕ)
    → offset ≤ max_offset total visible
    → (slider_pos offset total visible ≤ 1000)
      × (offset_from_slider (slider_pos offset total visible) total visible ≤ offset)
      × (1000 * (offset - offset_from_slider (slider_pos offset total visible) total visible)
          ≤ max_offset total visible + 499)
      × (max_offset total visible ≤ 501
          → offset_from_slider (slider_pos offset total visible) total visible ≡ offset)
unfolding slider_pos offset_from_slider
offset_from_slider-slider_pos offset total visible le =
    elim (Bool-cases (max_offset total visible == 0)) [
      | inl e ↦
          let none : max_offset total visible ≡ 0 = ground arith in
          rw e (omega arith, omega arith, omega arith, λ small. omega (arith, none, le))
      | inr e ↦
          let some_room : 0 < max_offset total visible = ground arith in
          let b = there_and_back offset (max_offset total visible) some_room le in
          rw e (
            rw (clamped (1000 * offset / max_offset total visible) b.0)
              (b.0, b.1, omega (arith, b.2), λ small. omega (arith, b.1, b.2)))
    ]
