-- ===== src/Ted/Follow.antt =====
-- `ted_follow` of src/apps/ted/view.c scrolls the view to the cursor.
-- `rows` and `cols` are how many characters fit in the body of the window.
use mathlib.Core.Option
use gem.Base.{ℕ, ◌+◌, ◌-◌, ◌≤◌, ◌<◌, ◌≡◌, refl, Option, some, if◌then◌else◌, ltb, leb, ◌==◌, arith}
use gem.Ted.{Document, line_start, position}
use gem.Ted.Valid.{IsValid}
use gem.Ted.Keys.{ted_column}
use gem.Ted.Cursor.{ted_column-total}

pub record View : Type 0 where
  pub top : ℕ
  pub left : ℕ

-- The first line or column that is shown, so that `at` is among the `count` shown.
unfoldable pub scrolled : ℕ → ℕ → ℕ → ℕ
scrolled first count at =
    if leb ((if ltb at first then at else first) + (if count == 0 then 1 else count)) at
    then at - (if count == 0 then 1 else count) + 1
    else if ltb at first
    then at
    else first

abbrev pub followed : ℕ → ℕ → ℕ → View → ℕ → View
followed rows cols line view column = record {
  top = scrolled view.top rows line;
  left = scrolled view.left cols column;
}

unfoldable pub ted_follow : ℕ → ℕ → Document → View → Option View
unfolding scrolled
ted_follow rows cols doc view =
    Option.map (followed rows cols (position doc doc.cursor).0 view)
      (ted_column doc (line_start doc (position doc doc.cursor).0) doc.cursor)

-- Shown from `first` on, where at least one is shown.
abbrev pub Shows : ℕ → ℕ → ℕ → Type 0
Shows first count at = (first ≤ at) × (at < first + (if count == 0 then 1 else count))

scrolled-Shows : (first count at : ℕ) → Shows (scrolled first count at) count at
unfolding scrolled
scrolled-Shows first count at = ground arith

-- For a valid document, `ted_follow` ends, and in the view after it the line of the cursor is among the
-- lines shown, and the column that `ted_column` counts up to the cursor among the columns shown.
pub ted_follow-Shows :
    (rows cols : ℕ) (doc : Document) (view : View)
    → IsValid doc
    → (column : ℕ) × (after : View) × (ted_column doc
          (line_start doc (position doc doc.cursor).0)
          doc.cursor
        ≡ some column)
      × (ted_follow rows cols doc view ≡ some after)
      × Shows after.top rows (position doc doc.cursor).0
      × Shows after.left cols column
unfolding ted_follow
ted_follow-Shows rows cols doc view v =
    let line = (position doc doc.cursor).0 in
    let (column, same) = ted_column-total doc v (line_start doc line) doc.cursor v.cursor_in in
    (
      column,
      followed rows cols line view column,
      same,
      rw same refl,
      scrolled-Shows view.top rows line,
      scrolled-Shows view.left cols column,
    )
