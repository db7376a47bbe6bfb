-- ===== src/Line.antt =====
-- The single-line text control: lib/gemctl/text_edit.c, with its record of include/gem/gemctl.h.
-- The control and its text are not NULL. `text` is the bytes of the C string without the NUL that
-- ends it; `capacity` is the size of its buffer.
pub mod Fit
pub mod Typing
mod Tests
use gem.Base.{
  ℕ, zero, suc, ◌+◌, ◌-◌, ◌/◌, ◌%◌, Bool, true, false, not, ◌&&◌, ◌||◌, List, [], ◌∷◌, Option, none,
  some, if◌then◌else◌, ltb, leb, ◌==◌, length, get_or, take, drop,
}
use gem.Ted.{replaced, strlen}

pub record TextEdit : Type 0 where
  pub text : List ℕ
  pub capacity : ℕ
  pub cursor : ℕ
  pub anchor : ℕ
  pub active : Bool
  pub replace_pending : Bool

pub data EditResult : Type 0 where
  edit_ignored edit_changed edit_accept edit_cancel : EditResult

-- The string in a buffer of `capacity` bytes whose last byte `init` sets to NUL.
unfoldable pub terminated : List ℕ → ℕ → List ℕ
terminated buffer capacity = take (strlen (take (capacity - 1) buffer)) (take (capacity - 1) buffer)

unfoldable pub init_text : List ℕ → ℕ → TextEdit
unfolding terminated
init_text buffer capacity = record {
  text = terminated buffer capacity;
  capacity = capacity;
  cursor = 0;
  anchor = 0;
  active = false;
  replace_pending = false;
}

abbrev pub focus : Bool → TextEdit → TextEdit
focus replace c = if c.capacity == 0 then c else record c {
  active = true;
  cursor = length c.text;
  anchor = if replace then 0 else length c.text;
  replace_pending = replace;
}

abbrev pub blur : TextEdit → TextEdit
blur c = record c { active = false; replace_pending = false; anchor = c.cursor }

abbrev pub at_most : ℕ → ℕ → ℕ
at_most p n = if ltb p n then p else n

abbrev pub position_at : ℕ → Bool → TextEdit → TextEdit
position_at pos extend c =
    let cursor = at_most pos (length c.text) in
    let anchor = if extend then c.anchor else cursor in
    record c {
      cursor = cursor;
      anchor = anchor;
      replace_pending = not (anchor == cursor);
      active = true;
    }

-- The cursor and the anchor cut to the length of the text.
abbrev pub in_text : TextEdit → TextEdit
in_text c = record c {
  cursor = if ltb (length c.text) c.cursor then length c.text else c.cursor;
  anchor = if ltb (length c.text) c.anchor then length c.text else c.anchor;
}

abbrev pub first_in : TextEdit → ℕ
first_in c = if ltb c.cursor c.anchor then c.cursor else c.anchor

abbrev pub last_in : TextEdit → ℕ
last_in c = if ltb c.anchor c.cursor then c.cursor else c.anchor

abbrev pub put : List ℕ → ℕ → ℕ → TextEdit → TextEdit
put bytes first last c =
    position_at (first + length bytes) false (record c { text = replaced c.text first last bytes })

unfoldable pub has_unprintable : List ℕ → Bool
has_unprintable [] = false
has_unprintable (b ∷ bs) = ltb b 32 || (leb 127 b || has_unprintable bs)

abbrev pub insert_in : List ℕ → TextEdit → EditResult × TextEdit
insert_in bytes c =
    if leb c.capacity (length bytes)
      || leb (c.capacity - length bytes) (length c.text - (last_in c - first_in c))
    then (edit_ignored, c)
    else if has_unprintable bytes
    then (edit_ignored, c)
    else (edit_changed, put bytes (first_in c) (last_in c) c)

-- `gemctl_text_edit_insert` of a string.
unfoldable pub insert_text : List ℕ → TextEdit → EditResult × TextEdit
unfolding has_unprintable
insert_text bytes c = if not c.active then (edit_ignored, c) else insert_in bytes (in_text c)

-- The loops of the keys left and right with Ctrl: to the byte after a slash, and to a slash.
unfoldable pub slash_before : List ℕ → ℕ → ℕ
slash_before text zero = 0
slash_before text (suc n) =
    let before = slash_before text n in if not (get_or text n 0 == 47) then before else suc n

unfoldable pub slash_after : List ℕ → ℕ → ℕ
slash_after [] n = n
slash_after (b ∷ bs) n = let later = slash_after bs (n + 1) in if not (b == 47) then later else n

unfoldable pub left_of_cursor : Bool → Bool → TextEdit → ℕ
unfolding slash_before
left_of_cursor extend ctrl c =
    if not extend && not (first_in c == last_in c)
    then first_in c
    else if ltb 0 c.cursor
    then (if ctrl then slash_before c.text (c.cursor - 1) else c.cursor - 1)
    else c.cursor

unfoldable pub right_of_cursor : Bool → Bool → TextEdit → ℕ
unfolding slash_after
right_of_cursor extend ctrl c =
    if not extend && not (first_in c == last_in c)
    then last_in c
    else if ltb c.cursor (length c.text)
    then (if ctrl then slash_after (drop (c.cursor + 1) c.text) (c.cursor + 1) else c.cursor + 1)
    else c.cursor

unfoldable pub key_target : ℕ → Bool → Bool → TextEdit → ℕ
unfolding left_of_cursor right_of_cursor
key_target scan extend ctrl c =
    if scan == 74
    then 0
    else if scan == 77
    then length c.text
    else if scan == 80
    then left_of_cursor extend ctrl c
    else right_of_cursor extend ctrl c

-- Backspace and, with the scan code 76, delete.
abbrev pub delete_first : ℕ → TextEdit → ℕ
delete_first scan c =
    if first_in c == last_in c && (not (scan == 76) && ltb 0 (first_in c))
    then first_in c - 1
    else first_in c

abbrev pub delete_last : ℕ → TextEdit → ℕ
delete_last scan c =
    if first_in c == last_in c && (scan == 76 && ltb (last_in c) (length c.text))
    then last_in c + 1
    else last_in c

abbrev pub bit_set : ℕ → ℕ → Bool
bit_set modifiers weight = modifiers / weight % 2 == 1

abbrev pub is_extend : ℕ → Bool
is_extend modifiers = bit_set modifiers 2 || bit_set modifiers 1

abbrev pub is_ctrl : ℕ → Bool
is_ctrl modifiers = bit_set modifiers 4

abbrev pub is_accept : ℕ → ℕ → Bool
is_accept ascii scan = ascii == 13 || (ascii == 10 || (ascii == 0 && (scan == 28 || scan == 40)))

abbrev pub is_all : ℕ → ℕ → ℕ → Bool
is_all ascii scan modifiers =
    is_ctrl modifiers && (scan == 4 || (ascii == 1 || (ascii == 97 || ascii == 65)))

abbrev pub is_arrow : ℕ → ℕ → Bool
is_arrow ascii scan = ascii == 0 && (scan == 74 || (scan == 77 || (scan == 79 || scan == 80)))

abbrev pub is_delete : ℕ → ℕ → Bool
is_delete ascii scan = ascii == 8 || ((ascii == 0 && (scan == 14 || scan == 42)) || scan == 76)

abbrev pub typed : ℕ → ℕ → TextEdit → EditResult × TextEdit
typed ascii modifiers c =
    if is_ctrl modifiers || (bit_set modifiers 8 || (ltb ascii 32 || leb 127 ascii))
    then (edit_ignored, c)
    else if leb c.capacity (length c.text - (last_in c - first_in c) + 1)
    then (edit_ignored, c)
    else (edit_changed, put (ascii ∷ []) (first_in c) (last_in c) c)

abbrev pub key_in : ℕ → ℕ → ℕ → TextEdit → EditResult × TextEdit
key_in ascii scan modifiers c =
    if ascii == 27
    then (edit_cancel, c)
    else if is_accept ascii scan
    then (edit_accept, c)
    else if is_all ascii scan modifiers
    then (edit_changed, focus true c)
    else if is_arrow ascii scan
    then (
      edit_changed,
      position_at (key_target scan (is_extend modifiers) (is_ctrl modifiers) c)
          (is_extend modifiers) c,
    )
    else if is_delete ascii scan
    then (edit_changed, put [] (delete_first scan c) (delete_last scan c) c)
    else typed ascii modifiers c

-- `gemctl_text_edit_key_mod`
unfoldable pub key_mod : ℕ → ℕ → TextEdit → EditResult × TextEdit
unfolding key_target
key_mod key modifiers c =
    if not c.active then (edit_ignored, c) else key_in (key % 256) (key / 256) modifiers (in_text c)
