-- ===== src/Term.antt =====
-- The scroll bars and the line lengths of the terminal: src/apps/terminal/screen.c.
-- Sizes and offsets are not negative, as the program keeps them. A line is its cells: the characters
-- and their attributes.
pub mod Slider
pub mod Lines
mod Tests
use gem.Base.{
  ℕ, zero, suc, ◌+◌, ◌-◌, ◌*◌, ◌/◌, Bool, true, false, ◌&&◌, ◌||◌, List, [], ◌∷◌, if◌then◌else◌,
  ltb, leb, ◌==◌, get_or,
}

abbrev pub clamp_word : ℕ → ℕ → ℕ → ℕ
clamp_word value low high = if ltb value low then low else if ltb high value then high else value

unfoldable pub max_offset : ℕ → ℕ → ℕ
max_offset total visible = if leb total visible then 0 else total - visible

unfoldable pub slider_size : ℕ → ℕ → ℕ
slider_size total visible =
    let size = 1000 * visible / total in
    if total == 0 || leb total visible
    then 1000
    else (let widened = if ltb size 32 then 32 else size in
        if ltb 1000 widened then 1000 else widened)

unfoldable pub slider_pos : ℕ → ℕ → ℕ → ℕ
slider_pos offset total visible =
    let limit = max_offset total visible in if limit == 0 then 0 else 1000 * offset / limit

unfoldable pub offset_from_slider : ℕ → ℕ → ℕ → ℕ
offset_from_slider slider total visible =
    let limit = max_offset total visible in
    if limit == 0 then 0 else (clamp_word slider 0 1000 * limit + 500) / 1000

pub record Line : Type 0 where
  pub chars : List ℕ
  pub attrs : List ℕ

abbrev pub max_cols : ℕ
max_cols = 512

abbrev pub is_blank : Line → ℕ → Bool
is_blank line i = get_or line.chars i 0 == 0 && get_or line.attrs i 0 == 0

-- The loop of `line_length`, with `length` cells left.
unfoldable pub length_from : ℕ → Line → ℕ
length_from zero line = 0
length_from (suc length) line =
    let rest = length_from length line in if is_blank line length then rest else suc length

unfoldable pub line_length : Line → ℕ
line_length line = length_from max_cols line

-- The loop of `recompute_max_line_len` over the rows.
unfoldable pub longest : ℕ → List Line → ℕ
unfolding line_length
longest best [] = best
longest best (line ∷ lines) =
    let rest = if ltb best (line_length line) then line_length line else best in longest rest lines
