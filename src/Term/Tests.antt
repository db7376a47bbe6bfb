-- ===== src/Term/Tests.antt =====
-- A terminal of 24 rows, and the theorems on src/apps/terminal/screen.c.
use gem.Base.{ℕ, suc, ◌-◌, ◌*◌, ◌≤◌, ◌<◌, ◌≡◌, refl, true, false, [], ◌∷◌, arith}
use gem.Term.{
  Line, max_cols, is_blank, max_offset, slider_size, slider_pos, offset_from_slider, line_length,
}
use gem.Term.Slider.{offset_from_slider-slider_pos}
use gem.Term.Lines.{line_length_lem}

shows_slider : slider_size 2048 24 ≡ 32
unfolding slider_size
shows_slider = refl

-- With all 2048 lines, the slider of the first row below the top shows the top.
falls_back : offset_from_slider (slider_pos 1 2048 24) 2048 24 ≡ 0
unfolding slider_pos offset_from_slider max_offset
falls_back = refl

offset_from_slider-slider_pos_example :
    (slider_pos 77 500 24 ≤ 1000)
    × (offset_from_slider (slider_pos 77 500 24) 500 24 ≤ 77)
    × (1000 * (77 - offset_from_slider (slider_pos 77 500 24) 500 24) ≤ 975)
    × (476 ≤ 501 → offset_from_slider (slider_pos 77 500 24) 500 24 ≡ 77)
unfolding max_offset
offset_from_slider-slider_pos_example = offset_from_slider-slider_pos 77 500 24 (omega arith)

abbrev prompt : Line
prompt = record { chars = 36 ∷ 32 ∷ 0 ∷ []; attrs = 0 ∷ 0 ∷ 7 ∷ [] }

line_length_lem_example :
    (line_length prompt ≤ max_cols)
    × ((i : ℕ) → line_length prompt ≤ i → i < max_cols → is_blank prompt i ≡ true)
    × ((i : ℕ) → line_length prompt ≡ suc i → is_blank prompt i ≡ false)
line_length_lem_example = line_length_lem prompt
