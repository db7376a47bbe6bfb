-- ===== src/Prg/Tests.antt =====
-- A small program, loaded.
use gem.Base.{ℕ, ◌≡◌, refl, arith, List, [], ◌∷◌, some, length, drop, All}
use gem.Prg.Load.{
  Program, Header, loaded, read_memory, read_parts, parse_header, parse_symbols, apply_relocations,
  apply_stream, apply_deltas, apply_relocation, and_then, with_image, read_be16, read_be32,
  write_be32,
}
use gem.Base.{◌≢◌}
use gem.Prg.Bytes.{IsByte}
use gem.Prg.Targets.{targets, move_all, Within, apply_relocations-move_all}

-- Text of eight bytes, of which the last four are a long word to be moved.
abbrev tool : List ℕ
tool =
    0x60 ∷ 0x1a ∷ 0 ∷ 0 ∷ 0 ∷ 8 ∷ 0 ∷ 0 ∷ 0 ∷ 0 ∷ 0 ∷ 0 ∷ 0 ∷ 0 ∷ 0 ∷ 0 ∷ 0 ∷ 0 ∷ 0 ∷ 0 ∷ 0 ∷ 0 ∷ 0
    ∷ 0 ∷ 0 ∷ 0 ∷ 0 ∷ 0 ∷ 78 ∷ 113 ∷ 78 ∷ 117 ∷ 0 ∷ 0 ∷ 0 ∷ 2 ∷ 0 ∷ 0 ∷ 0 ∷ 4 ∷ 0 ∷ []

abbrev tool_header : Header
tool_header = record {
  branch = 0x601a;
  text_size = 8;
  data_size = 0;
  bss_size = 0;
  symbol_size = 0;
  reserved = 0;
  flags = 0;
  absflag = 0;
}

abbrev tool_at_zero : Program
tool_at_zero = record {
  file_header = tool_header;
  image = 78 ∷ 113 ∷ 78 ∷ 117 ∷ 0 ∷ 0 ∷ 0 ∷ 2 ∷ [];
  symbols = [];
}

abbrev tool_moved : Program
tool_moved = record {
  file_header = tool_header;
  image = 78 ∷ 113 ∷ 78 ∷ 117 ∷ 0 ∷ 1 ∷ 0 ∷ 2 ∷ [];
  symbols = [];
}

load_zero : read_memory (some tool) 0 ≡ loaded tool_at_zero
unfolding read_memory read_parts parse_header parse_symbols apply_relocations apply_stream
    apply_deltas apply_relocation and_then with_image read_be16 read_be32 write_be32
load_zero = refl

load_moved : read_memory (some tool) 65536 ≡ loaded tool_moved
unfolding read_memory read_parts parse_header parse_symbols apply_relocations apply_stream
    apply_deltas apply_relocation and_then with_image read_be16 read_be32 write_be32
load_moved = refl

tool_bytes : All IsByte tool
tool_bytes = ground arith

abbrev words : List ℕ
words = 78 ∷ 113 ∷ 78 ∷ 117 ∷ 0 ∷ 0 ∷ 0 ∷ 2 ∷ []

abbrev stream : List ℕ
stream = 0 ∷ 0 ∷ 0 ∷ 4 ∷ 0 ∷ []

not_zero : read_be32 stream 0 ≢ 0
unfolding read_be32
not_zero = omega arith

one_target : targets (read_be32 stream 0) (drop 4 stream) ≡ some []
unfolding targets read_be32
one_target = refl

in_words : All (Within (length words)) (read_be32 stream 0 ∷ [])
unfolding read_be32
in_words = ground arith

apply_relocations-move_all_example :
    apply_relocations 0 words stream 65536 ≡ loaded (move_all 65536 (read_be32 stream 0 ∷ []) words)
apply_relocations-move_all_example =
    apply_relocations-move_all words stream [] 65536 (omega arith) not_zero one_target in_words
