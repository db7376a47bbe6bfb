-- ===== src/Line/Fit.antt =====
-- The text of lib/gemctl/text_edit.c always fits in its buffer.
use gem.Base.{
  ℕ, ◌+◌, ◌-◌, ◌/◌, ◌%◌, ◌≤◌, ◌<◌, ◌≡◌, refl, Bool, true, false, not, ◌||◌, List, [], ◌∷◌, ltb, leb,
  ◌==◌, length, arith, if_both, Bool-cases, inl, inr, length-take, take,
}
use gem.Ted.{has_nul, strlen, replaced}
use gem.Ted.Valid.{length-replaced, has_nul-replaced}
use gem.Line.{
  TextEdit, EditResult, init_text, terminated, focus, blur, position_at, in_text, first_in, last_in,
  put, has_unprintable, insert_in, insert_text, delete_first, delete_last, bit_set, typed, key_in,
  key_mod, is_extend, is_ctrl, is_accept, is_all, is_arrow, is_delete,
}

-- The text and its NUL fit in the buffer, no byte of the text is NUL, and the selection lies in it.
pub record IsFit (c : TextEdit) : Type 0 where
  pub fits : length c.text < c.capacity
  pub no_nul : has_nul c.text ≡ false
  pub cursor_in : c.cursor ≤ length c.text
  pub anchor_in : c.anchor ≤ length c.text

position_at-IsFit :
    (pos : ℕ) (extend : Bool) (c : TextEdit)
    → length c.text < c.capacity
    → has_nul c.text ≡ false
    → (extend ≡ true → c.anchor ≤ length c.text)
    → IsFit (position_at pos extend c)
position_at-IsFit pos true c f n a = record {
  fits = f;
  no_nul = n;
  cursor_in = ground arith;
  anchor_in = a refl;
}
position_at-IsFit pos false c f n a = record {
  fits = f;
  no_nul = n;
  cursor_in = ground arith;
  anchor_in = ground arith;
}

focus-IsFit : (replace : Bool) (c : TextEdit) → IsFit c → IsFit (focus replace c)
focus-IsFit replace c v =
    if_both IsFit (c.capacity == 0) v (record {
      fits = v.fits;
      no_nul = v.no_nul;
      cursor_in = omega arith;
      anchor_in = ground arith;
    })

blur-IsFit : (c : TextEdit) → IsFit c → IsFit (blur c)
blur-IsFit c v = record {
  fits = v.fits;
  no_nul = v.no_nul;
  cursor_in = v.cursor_in;
  anchor_in = v.cursor_in;
}

in_text-IsFit : (c : TextEdit) → IsFit c → IsFit (in_text c)
in_text-IsFit c v = record {
  fits = v.fits;
  no_nul = v.no_nul;
  cursor_in = ground (arith, v.cursor_in);
  anchor_in = ground (arith, v.anchor_in);
}

put-IsFit :
    (bytes : List ℕ) (first last : ℕ) (c : TextEdit)
    → IsFit c
    → has_nul bytes ≡ false
    → first ≤ last
    → last ≤ length c.text
    → length c.text - (last - first) + length bytes < c.capacity
    → IsFit (put bytes first last c)
put-IsFit bytes first last c v clean le end room =
    let n = length-replaced c.text bytes first last le end in
    position_at-IsFit (first + length bytes) false
      (record c { text = replaced c.text first last bytes }) (omega arith)
      (has_nul-replaced c.text bytes first last v.no_nul clean) (λ e. cc)

selection : (c : TextEdit) → IsFit c → (first_in c ≤ last_in c) × (last_in c ≤ length c.text)
selection c v = let a = v.cursor_in in let b = v.anchor_in in (ground arith, ground arith)

printable_no_nul : (bytes : List ℕ) → has_unprintable bytes ≡ false → has_nul bytes ≡ false
unfolding has_unprintable has_nul
printable_no_nul [] h = refl
printable_no_nul (b ∷ bs) h = ground (arith, printable_no_nul bs)

insert_in-IsFit : (bytes : List ℕ) (c : TextEdit) → IsFit c → IsFit (insert_in bytes c).1
insert_in-IsFit bytes c v =
    let s = selection c v in
    elim (Bool-cases (
      leb c.capacity (length bytes)
      || leb (c.capacity - length bytes) (length c.text - (last_in c - first_in c)))) [
        | inl e ↦ rw e v
        | inr e ↦ rw e (elim (Bool-cases (has_unprintable bytes)) [
          | inl u ↦ rw u v
          | inr u ↦ rw u (
              put-IsFit bytes (first_in c) (last_in c) c v (printable_no_nul bytes u) s.0 s.1
                (room (length bytes) c.capacity (length c.text - (last_in c - first_in c)) e))
        ])
      ]
  where
    room : (n k m : ℕ) → (leb k n || leb (k - n) m) ≡ false → m + n < k
    room n k m h = ground arith

delete-IsFit :
    (scan : ℕ) (c : TextEdit)
    → IsFit c
    → IsFit (put [] (delete_first scan c) (delete_last scan c) c)
unfolding has_nul
delete-IsFit scan c v =
    let s = selection c v in
    let f = v.fits in
    let lo : delete_first scan c ≤ first_in c = ground arith in
    let hi : last_in c ≤ delete_last scan c = ground arith in
    let end : delete_last scan c ≤ length c.text = ground (arith, s.1) in
    put-IsFit [] (delete_first scan c) (delete_last scan c) c v refl (omega arith) end (omega arith)

letter_no_nul :
    (ctrl alt : Bool) (ascii : ℕ)
    → (ctrl || (alt || (ltb ascii 32 || leb 127 ascii))) ≡ false
    → has_nul (ascii ∷ []) ≡ false
unfolding has_nul
letter_no_nul ctrl alt ascii h = ground arith

typed-IsFit : (ascii modifiers : ℕ) (c : TextEdit) → IsFit c → IsFit (typed ascii modifiers c).1
typed-IsFit ascii modifiers c v =
    let s = selection c v in
    elim (Bool-cases
      (is_ctrl modifiers || (bit_set modifiers 8 || (ltb ascii 32 || leb 127 ascii)))) [
        | inl e ↦ rw e v
        | inr e ↦
            rw e
              (elim (Bool-cases (leb c.capacity (length c.text - (last_in c - first_in c) + 1))) [
                | inl f ↦ rw f v
                | inr f ↦ rw f (
                    put-IsFit (ascii ∷ []) (first_in c) (last_in c) c v
                      (letter_no_nul (is_ctrl modifiers) (bit_set modifiers 8) ascii e) s.0 s.1
                      (le_false _ _ f))
              ])
      ]
  where
    le_false : (k m : ℕ) → leb k m ≡ false → m < k
    le_false k m h = ground arith

Fits : EditResult × TextEdit → Type 0
Fits r = IsFit r.1

key_in-IsFit :
    (ascii scan modifiers : ℕ) (c : TextEdit) → IsFit c → IsFit (key_in ascii scan modifiers c).1
unfolding Fits
key_in-IsFit ascii scan modifiers c v = if_both Fits (ascii == 27) v (
    if_both Fits (is_accept ascii scan) v (
      if_both Fits (is_all ascii scan modifiers) (focus-IsFit true c v) (
        if_both Fits (is_arrow ascii scan)
          (position_at-IsFit _ (is_extend modifiers) c v.fits v.no_nul (λ e. v.anchor_in))
          (if_both Fits (is_delete ascii scan) (delete-IsFit scan c v)
            (typed-IsFit ascii modifiers c v)))))

-- What a program and the user do with a control.
pub data Action : Type 0 where
  press : ℕ → ℕ → Action
  insert_string : List ℕ → Action
  set_focus : Bool → Action
  lose_focus : Action
  set_position : ℕ → Bool → Action

pub act : Action → TextEdit → TextEdit
act (press key modifiers) c = (key_mod key modifiers c).1
act (insert_string bytes) c = (insert_text bytes c).1
act (set_focus replace) c = focus replace c
act lose_focus c = blur c
act (set_position pos extend) c = position_at pos extend c

pub act_all : List Action → TextEdit → TextEdit
act_all [] c = c
act_all (a ∷ rest) c = act_all rest (act a c)

act-IsFit : (a : Action) (c : TextEdit) → IsFit c → IsFit (act a c)
unfolding act key_mod insert_text Fits
act-IsFit (press key modifiers) c v =
    if_both Fits (not c.active) v
      (key_in-IsFit (key % 256) (key / 256) modifiers (in_text c) (in_text-IsFit c v))
act-IsFit (insert_string bytes) c v =
    if_both Fits (not c.active) v (insert_in-IsFit bytes (in_text c) (in_text-IsFit c v))
act-IsFit (set_focus replace) c v = focus-IsFit replace c v
act-IsFit lose_focus c v = blur-IsFit c v
act-IsFit (set_position pos extend) c v =
    position_at-IsFit pos extend c v.fits v.no_nul (λ e. v.anchor_in)

act_all-IsFit : (actions : List Action) (c : TextEdit) → IsFit c → IsFit (act_all actions c)
unfolding act_all
act_all-IsFit [] c v = v
act_all-IsFit (a ∷ rest) c v = act_all-IsFit rest (act a c) (act-IsFit a c v)

no_nul_before : (bytes : List ℕ) → has_nul (take (strlen bytes) bytes) ≡ false
unfolding has_nul strlen
no_nul_before [] = refl
no_nul_before (b ∷ bs) = elim (Bool-cases (b == 0)) [
  | inl e ↦ rw e refl
  | inr e ↦ rw e (rw e (no_nul_before bs))
]

strlen_le : (bytes : List ℕ) → strlen bytes ≤ length bytes
unfolding strlen
strlen_le [] = omega arith
strlen_le (b ∷ bs) = ground (arith, strlen_le bs)

init_text-IsFit :
    (buffer : List ℕ) (capacity : ℕ) → 0 < capacity → IsFit (init_text buffer capacity)
unfolding init_text terminated
init_text-IsFit buffer capacity some_room =
    let m = capacity - 1 in
    let k = strlen_le (take m buffer) in
    let a = length-take m buffer in
    let b = length-take (strlen (take m buffer)) (take m buffer) in
    record {
      fits = omega arith;
      no_nul = no_nul_before (take m buffer);
      cursor_in = omega arith;
      anchor_in = omega arith;
    }

-- From a control that is initialised over a buffer of at least one byte, whatever it holds, any
-- sequence of keys with modifiers, inserted strings, changes of focus and positions keeps the text and
-- its NUL within the buffer, without a NUL in the text, and the cursor and the anchor within the text.
pub act_all-init_text :
    (buffer : List ℕ) (capacity : ℕ) (actions : List Action)
    → 0 < capacity
    → IsFit (act_all actions (init_text buffer capacity))
act_all-init_text buffer capacity actions some_room =
    act_all-IsFit actions (init_text buffer capacity) (init_text-IsFit buffer capacity some_room)
