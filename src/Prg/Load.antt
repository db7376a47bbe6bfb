-- ===== src/Prg/Load.antt =====
-- prg_read_memory, prg_read_file, prg_find_symbol and prg_file_kind of lib/prg/prg.c.
-- Memory is a list of bytes, and a pointer that may be NULL an `Option`; an index out of bounds reads
-- 0, which no call meets that the code's tests let through. Allocation does not fail, seeks and reads
-- of an open file do not fail, and a text is the list of its bytes before the NUL.
use gem.Base.{two32}
use gem.Base.{
  ℕ, zero, suc, ◌+◌, ◌-◌, ◌*◌, ◌/◌, ◌%◌, Bool, true, false, not, ◌&&◌, ◌||◌, List, [], ◌∷◌, Option,
  none, some, if◌then◌else◌, ltb, ◌==◌, length, take, drop, get_or, set,
}

pub data PrgError : Type 0 where
  invalid_arguments open_failed too_small truncated_image truncated_symbols : PrgError
  missing_stream out_of_range unterminated_stream : PrgError

pub data Outcome {ℓ} (T : Type ℓ) : Type ℓ where
  failed : PrgError → Outcome T
  loaded : T → Outcome T

pub record Header : Type 0 where
  pub branch : ℕ
  pub text_size : ℕ
  pub data_size : ℕ
  pub bss_size : ℕ
  pub symbol_size : ℕ
  pub reserved : ℕ
  pub flags : ℕ
  pub absflag : ℕ

pub record Symbol : Type 0 where
  pub symbol_name : List ℕ
  pub symbol_type : ℕ
  pub symbol_value : ℕ

pub record Program : Type 0 where
  pub file_header : Header
  pub image : List ℕ
  pub symbols : List Symbol

unfoldable pub read_be16 : List ℕ → ℕ → ℕ
read_be16 bytes offset = get_or bytes offset 0 * 256 + get_or bytes (offset + 1) 0

unfoldable pub read_be32 : List ℕ → ℕ → ℕ
read_be32 bytes offset =
    get_or bytes offset 0 * 16777216
    + get_or bytes (offset + 1) 0 * 65536
    + get_or bytes (offset + 2) 0 * 256
    + get_or bytes (offset + 3) 0

unfoldable pub write_be32 : List ℕ → ℕ → ℕ → List ℕ
write_be32 bytes offset value =
    set
      (set (set (set bytes offset (value / 16777216 % 256)) (offset + 1) (value / 65536 % 256))
        (offset + 2) (value / 256 % 256))
      (offset + 3) (value % 256)

unfoldable pub parse_header : List ℕ → Header
unfolding read_be16 read_be32
parse_header bytes = record {
  branch = read_be16 bytes 0;
  text_size = read_be32 bytes 2;
  data_size = read_be32 bytes 6;
  bss_size = read_be32 bytes 10;
  symbol_size = read_be32 bytes 14;
  reserved = read_be32 bytes 18;
  flags = read_be32 bytes 22;
  absflag = read_be16 bytes 26;
}

-- The bytes before the NUL.
unfoldable pub c_string : List ℕ → List ℕ
c_string [] = []
c_string (b ∷ bs) = let more = c_string bs in if b == 0 then [] else b ∷ more

-- The blanks at the end are cut off.
unfoldable pub trim_cons : ℕ → List ℕ → List ℕ
trim_cons b [] = if b == 32 then [] else b ∷ []
trim_cons b (c ∷ cs) = b ∷ c ∷ cs

unfoldable pub trim : List ℕ → List ℕ
unfolding trim_cons
trim [] = []
trim (b ∷ bs) = trim_cons b (trim bs)

unfoldable pub symbol_at : List ℕ → Symbol
unfolding c_string trim read_be16 read_be32
symbol_at bytes = record {
  symbol_name = trim (c_string (take 8 bytes));
  symbol_type = read_be16 bytes 8;
  symbol_value = read_be32 bytes 10;
}

unfoldable pub symbols_from : ℕ → List ℕ → List Symbol
unfolding symbol_at
symbols_from zero bytes = []
symbols_from (suc n) bytes = symbol_at bytes ∷ symbols_from n (drop 14 bytes)

unfoldable pub parse_symbols : List ℕ → ℕ → List Symbol
unfolding symbols_from
parse_symbols bytes size = if not (size % 14 == 0) then [] else symbols_from (size / 14) bytes

unfoldable pub apply_relocation : List ℕ → ℕ → ℕ → Outcome (List ℕ)
unfolding read_be32 write_be32
apply_relocation image offset load_address =
    if ltb (length image) offset || ltb (length image - offset) 4
    then failed out_of_range
    else loaded (write_be32 image offset ((read_be32 image offset + load_address) % two32))

-- What follows a relocation that may have failed.
unfoldable pub and_then : Outcome (List ℕ) → (List ℕ → Outcome (List ℕ)) → Outcome (List ℕ)
and_then (failed e) next = failed e
and_then (loaded image) next = next image

-- The loop over the rest of the stream; `offset` is a `uint32_t`.
unfoldable pub apply_deltas : List ℕ → ℕ → ℕ → List ℕ → Outcome (List ℕ)
unfolding apply_relocation and_then
apply_deltas image offset load_address [] = failed unterminated_stream
apply_deltas image offset load_address (delta ∷ stream) =
    let skipped = apply_deltas image ((offset + 254) % two32) load_address stream in
    let patched =
      and_then (apply_relocation image ((offset + delta) % two32) load_address)
        (λ next. apply_deltas next ((offset + delta) % two32) load_address stream) in
    if delta == 0 then loaded image else if delta == 1 then skipped else patched

unfoldable pub apply_stream : List ℕ → ℕ → ℕ → List ℕ → Outcome (List ℕ)
unfolding apply_deltas
apply_stream image offset load_address stream =
    if offset == 0
    then loaded image
    else and_then (apply_relocation image offset load_address)
        (λ next. apply_deltas next offset load_address stream)

unfoldable pub apply_relocations : ℕ → List ℕ → List ℕ → ℕ → Outcome (List ℕ)
unfolding apply_stream read_be32
apply_relocations absflag image bytes load_address =
    if not (absflag == 0)
    then loaded image
    else if ltb (length bytes) 4
    then failed missing_stream
    else apply_stream image (read_be32 bytes 0) load_address (drop 4 bytes)

unfoldable pub with_image : Header → List Symbol → Outcome (List ℕ) → Outcome Program
with_image h names (failed e) = failed e
with_image h names (loaded bytes) =
    loaded (record { file_header = h; image = bytes; symbols = names })

-- Once the header is read; `rest` is what follows it.
unfoldable pub read_parts : Header → List ℕ → ℕ → Outcome Program
unfolding parse_symbols apply_relocations with_image
read_parts h rest load_address =
    let after = drop (h.text_size + h.data_size) rest in
    if ltb (length rest) (h.text_size + h.data_size)
    then failed truncated_image
    else if ltb (length after) h.symbol_size
    then failed truncated_symbols
    else with_image h (parse_symbols after h.symbol_size) (
        apply_relocations h.absflag (take (h.text_size + h.data_size) rest)
          (drop h.symbol_size after) load_address)

unfoldable pub read_memory : Option (List ℕ) → ℕ → Outcome Program
unfolding parse_header read_parts
read_memory none load_address = failed invalid_arguments
read_memory (some bytes) load_address =
    if ltb (length bytes) 28
    then failed too_small
    else read_parts (parse_header bytes) (drop 28 bytes) load_address

-- `prg_read_whole_file` leaves NULL for an empty file.
unfoldable pub read_file : Option (List ℕ) → ℕ → Outcome Program
unfolding read_memory
read_file none load_address = failed open_failed
read_file (some []) load_address = read_memory none load_address
read_file (some (b ∷ bs)) load_address = read_memory (some (b ∷ bs)) load_address

-- `strcmp(left, right) == 0`
unfoldable pub same_text : List ℕ → List ℕ → Bool
same_text [] [] = true
same_text [] (d ∷ ds) = false
same_text (c ∷ cs) [] = false
same_text (c ∷ cs) (d ∷ ds) = c == d && same_text cs ds

unfoldable pub find_symbol : List Symbol → List ℕ → Option Symbol
unfolding same_text
find_symbol [] name = none
find_symbol (s ∷ ss) name =
    let later = find_symbol ss name in if same_text s.symbol_name name then some s else later
