-- ===== src/Ted.antt =====
-- The document of the text editor: src/apps/ted/document.c, document.h.
-- `text` and `undo` are the bytes of the C strings without the terminating NUL; `memory` says whether
-- the allocation succeeds. The source of an insertion may be NULL, and its first bytes are taken.
pub mod Valid
pub mod Undo
pub mod Chars
pub mod Lines
pub mod Keys
pub mod Cursor
pub mod Session
pub mod Follow
mod Tests
use gem.Base.{
  ℕ, zero, suc, ◌+◌, ◌-◌, ◌/◌, ◌%◌, min, max, Bool, true, false, not, ◌&&◌, ◌||◌, List, [], ◌∷◌,
  ◌++◌, Option, none, some, if◌then◌else◌, ltb, leb, ◌==◌, length, get_or, take, drop,
}

pub record Document : Type 0 where
  pub text : List ℕ
  pub undo : Option (List ℕ)
  pub size : ℕ
  pub cursor : ℕ
  pub anchor : ℕ
  pub undo_cursor : ℕ
  pub dirty : Bool
  pub undo_dirty : Bool

abbrev pub ted_limit : ℕ
ted_limit = 1048576

abbrev pub init : Document
init = record {
  text = [];
  undo = none;
  size = 0;
  cursor = 0;
  anchor = 0;
  undo_cursor = 0;
  dirty = false;
  undo_dirty = false;
}

-- `memchr(text, 0, length)`
unfoldable pub has_nul : List ℕ → Bool
has_nul [] = false
has_nul (b ∷ bs) = b == 0 || has_nul bs

-- The bytes before the first NUL.
unfoldable pub strlen : List ℕ → ℕ
strlen [] = 0
strlen (b ∷ bs) = if b == 0 then 0 else suc (strlen bs)

-- `!text || memchr(text, 0, length)`
unfoldable pub is_bad : Option (List ℕ) → ℕ → Bool
unfolding has_nul
is_bad none n = true
is_bad (some bytes) n = has_nul (take n bytes)

abbrev pub bytes_of : Option (List ℕ) → List ℕ
bytes_of none = []
bytes_of (some bytes) = bytes

abbrev pub first_of : Document → ℕ
first_of doc = if ltb doc.cursor doc.anchor then doc.cursor else doc.anchor

abbrev pub last_of : Document → ℕ
last_of doc = if ltb doc.anchor doc.cursor then doc.cursor else doc.anchor

-- The text with the bytes from `first` to `last` replaced.
unfoldable pub replaced : List ℕ → ℕ → ℕ → List ℕ → List ℕ
replaced text first last source = take first text ++ (source ++ drop last text)

abbrev pub edited : Document → ℕ → ℕ → List ℕ → Document
edited doc first last source = record {
  text = replaced doc.text first last source;
  undo = some doc.text;
  size = doc.size - (last - first) + length source;
  cursor = first + length source;
  anchor = first + length source;
  undo_cursor = doc.cursor;
  dirty = true;
  undo_dirty = doc.dirty;
}

-- `source` has at least `n` bytes, or is NULL.
unfoldable pub insert : Bool → Option (List ℕ) → ℕ → Document → Bool × Document
insert memory source n doc =
    if ltb doc.size (last_of doc)
    then (false, doc)
    else if first_of doc == last_of doc && n == 0
    then (true, doc)
    else if ltb ted_limit n
        || (ltb (ted_limit - n) (doc.size - (last_of doc - first_of doc))
            || (ltb 0 n && is_bad source n))
    then (false, doc)
    else if not memory
    then (false, doc)
    else (true, edited doc (first_of doc) (last_of doc) (take n (bytes_of source)))

abbrev pub swapped : Document → List ℕ → Document
swapped doc previous = record {
  text = previous;
  undo = some doc.text;
  size = strlen previous;
  cursor = doc.undo_cursor;
  anchor = doc.undo_cursor;
  undo_cursor = doc.cursor;
  dirty = doc.undo_dirty;
  undo_dirty = doc.dirty;
}

abbrev pub swap_with : Document → Option (List ℕ) → Document
swap_with doc none = doc
swap_with doc (some previous) = swapped doc previous

unfoldable pub undo_edit : Document → Document
undo_edit doc = swap_with doc doc.undo

-- A continuation byte of UTF-8, `(byte & 0xc0) == 0x80`.
abbrev pub continues : ℕ → Bool
continues b = b / 64 % 4 == 2

-- The loops of `ted_document_step`: down to the start of a character, and over the bytes that are left.
unfoldable pub back_from : List ℕ → ℕ → ℕ
back_from text zero = 0
back_from text (suc n) =
    let before = back_from text n in if continues (get_or text (suc n) 0) then before else suc n

unfoldable pub on_from : List ℕ → ℕ → ℕ
on_from [] offset = offset
on_from (b ∷ bs) offset =
    let later = on_from bs (offset + 1) in if continues b then later else offset

unfoldable pub step_back : Document → ℕ → ℕ
step_back doc offset = back_from doc.text (offset - 1)

unfoldable pub step_on : Document → ℕ → ℕ
step_on doc offset =
    if ltb offset doc.size
    then on_from (drop (offset + 1) (take doc.size doc.text)) (offset + 1)
    else offset

abbrev pub newline : ℕ
newline = 10

unfoldable pub line_from : List ℕ → ℕ → ℕ → ℕ
line_from [] pos line = pos
line_from (b ∷ bs) pos zero = pos
line_from (b ∷ bs) pos (suc line) = line_from bs (pos + 1) (if b == newline then line else suc line)

unfoldable pub line_start : Document → ℕ → ℕ
line_start doc line = line_from (take doc.size doc.text) 0 line

-- The loop at the index `i`: the lines so far and the start of the last.
unfoldable pub position_from : List ℕ → ℕ → ℕ → ℕ → ℕ × ℕ
position_from [] i line start = (line, start)
position_from (b ∷ bs) i line start =
    position_from bs (i + 1) (if b == newline then line + 1 else line)
      (if b == newline then i + 1 else start)

abbrev pub column_of : ℕ → ℕ × ℕ → ℕ × ℕ
column_of offset (line, start) = (line, offset - start)

unfoldable pub position : Document → ℕ → ℕ × ℕ
position doc offset = column_of offset (position_from (take offset (take doc.size doc.text)) 0 0 0)
