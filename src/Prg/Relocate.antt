-- ===== src/Prg/Relocate.antt =====
-- What the relocation of lib/prg/prg.c does to the bytes of a program.
use mathlib.Core.Path.{subst}
use gem.Base.{two32}
use gem.Base.{inl, inr, Bool-cases, sym, ap, ◌∙◌}
use gem.Base.{
  ℕ, zero, suc, ◌+◌, ◌-◌, ◌%◌, ◌≤◌, ◌≡◌, refl, ◌||◌, arith, List, [], ◌∷◌, some, ltb, ◌==◌, length,
  take, drop, All, length-take, length-drop,
}
use gem.Prg.Load.{
  Symbol, Outcome, failed, loaded, Program, Header, read_be32, write_be32, apply_relocation,
  and_then, apply_deltas, apply_stream, apply_relocations, with_image, read_parts, read_memory,
  parse_header,
}
use gem.Prg.Bytes.{IsByte, length-write_be32, write-read}

loaded-injective {ℓ} : {T : Type ℓ} {a b : T} → loaded a ≡ loaded b → a ≡ b
loaded-injective {T = T} {a = a} e = ap unwrap e
  where
    unwrap : Outcome T → T
    unwrap (failed why) = a
    unwrap (loaded x) = x

both_loaded :
    (first : Outcome (List ℕ)) (next : List ℕ → Outcome (List ℕ)) {result : List ℕ}
    → and_then first next ≡ loaded result
    → (middle : List ℕ) × (first ≡ loaded middle) × (next middle ≡ loaded result)
unfolding and_then
both_loaded (failed why) next e = cc
both_loaded (loaded middle) next e = (middle, refl, e)

-- One long word moved by the address.
abbrev patched : List ℕ → ℕ → ℕ → List ℕ
patched image offset load_address =
    write_be32 image offset ((read_be32 image offset + load_address) % two32)

-- A relation that patches keep holds between the image before and after.
module _ (load_address : ℕ) (Rel : List ℕ → List ℕ → Type 0)
    (same : (image : List ℕ) → Rel image image)
    (chain : (a b c : List ℕ) → Rel a b → Rel b c → Rel a c)
    (step : (image : List ℕ) (offset : ℕ) → Rel image (patched image offset load_address)) where
  relocation_keeps :
      (image result : List ℕ) (offset : ℕ)
      → apply_relocation image offset load_address ≡ loaded result
      → Rel image result
  unfolding apply_relocation
  relocation_keeps image result offset e =
      elim (Bool-cases (ltb (length image) offset || ltb (length image - offset) 4)) [
        | inl t ↦ let no = rw t at e in cc
        | inr t ↦
            let yes = rw t at e in subst (Rel image) (loaded-injective yes) (step image offset)
      ]

  deltas_keep :
      (image result : List ℕ) (offset : ℕ) (stream : List ℕ)
      → apply_deltas image offset load_address stream ≡ loaded result
      → Rel image result
  unfolding apply_deltas
  deltas_keep image result offset [] e = cc
  deltas_keep image result offset (delta ∷ stream) e = elim (Bool-cases (delta == 0)) [
    | inl z ↦ let done = rw z at e in subst (Rel image) (loaded-injective done) (same image)
    | inr z ↦ elim (Bool-cases (delta == 1)) [
      | inl o ↦
          let skipped = rw (z, o) at e in
          deltas_keep image result ((offset + 254) % two32) stream skipped
      | inr o ↦
          let patched_first = rw (z, o) at e in
          let (next, first, later) =
            both_loaded (apply_relocation image ((offset + delta) % two32) load_address) _
              patched_first in
          chain image next result (relocation_keeps image next ((offset + delta) % two32) first)
            (deltas_keep next result ((offset + delta) % two32) stream later)
    ]
  ]

  stream_keeps :
      (image result : List ℕ) (offset : ℕ) (stream : List ℕ)
      → apply_stream image offset load_address stream ≡ loaded result
      → Rel image result
  unfolding apply_stream
  stream_keeps image result offset stream e = elim (Bool-cases (offset == 0)) [
    | inl z ↦ let done = rw z at e in subst (Rel image) (loaded-injective done) (same image)
    | inr z ↦
        let patched_first = rw z at e in
        let (next, first, later) =
          both_loaded (apply_relocation image offset load_address) _ patched_first in
        chain image next result (relocation_keeps image next offset first)
          (deltas_keep next result offset stream later)
  ]

  relocations_keep :
      (absflag : ℕ) (image result bytes : List ℕ)
      → apply_relocations absflag image bytes load_address ≡ loaded result
      → Rel image result
  unfolding apply_relocations
  relocations_keep absflag image result bytes e = elim (Bool-cases (absflag == 0)) [
    | inr z ↦ let done = rw z at e in subst (Rel image) (loaded-injective done) (same image)
    | inl z ↦ elim (Bool-cases (ltb (length bytes) 4)) [
      | inl short ↦ let no = rw (z, short) at e in cc
      | inr long ↦
          let stream = rw (z, long) at e in
          stream_keeps image result (read_be32 bytes 0) (drop 4 bytes) stream
    ]
  ]

length-apply_relocations :
    (absflag load_address : ℕ) (image result bytes : List ℕ)
    → apply_relocations absflag image bytes load_address ≡ loaded result
    → length result ≡ length image
length-apply_relocations absflag load_address image result bytes e =
    relocations_keep load_address (λ before after. length after ≡ length before) (λ i. refl)
      (λ a b c h k. k ∙ h) (λ i o. length-write_be32 i o ((read_be32 i o + load_address) % two32))
      absflag image result bytes e

apply_relocations-zero :
    (absflag : ℕ) (image result bytes : List ℕ)
    → All IsByte image
    → apply_relocations absflag image bytes 0 ≡ loaded result
    → result ≡ image
apply_relocations-zero absflag image result bytes h e =
    relocations_keep 0 (λ before after. All IsByte before → after ≡ before) (λ i h. refl)
      (λ a b c f g h. g (subst (All IsByte) (sym (f h)) h) ∙ f h) (λ i o h. write-read i o h)
      absflag image result bytes e h

with_image_inv :
    (h : Header) (names : List Symbol) (o : Outcome (List ℕ)) (p : Program)
    → with_image h names o ≡ loaded p
    → (p.file_header ≡ h) × (o ≡ loaded p.image)
unfolding with_image
with_image_inv h names (failed why) p e = cc
with_image_inv h names (loaded bytes) p e =
    subst (λ q. (q.file_header ≡ h) × (loaded bytes ≡ loaded q.image)) (loaded-injective e)
      (refl, refl)

take-All : (n : ℕ) (xs : List ℕ) → All IsByte xs → All IsByte (take n xs)
take-All zero xs h = tt
take-All (suc n) [] h = tt
take-All (suc n) (x ∷ xs) h = (h.0, take-All n xs h.1)

drop-All : (n : ℕ) (xs : List ℕ) → All IsByte xs → All IsByte (drop n xs)
drop-All zero xs h = h
drop-All (suc n) [] h = tt
drop-All (suc n) (x ∷ xs) h = drop-All n xs h.1

-- What the sizes of a header cut the rest of the file into.
image_bytes : Header → List ℕ → List ℕ
image_bytes h rest = take (h.text_size + h.data_size) rest

stream_bytes : Header → List ℕ → List ℕ
stream_bytes h rest = drop h.symbol_size (drop (h.text_size + h.data_size) rest)

read_parts_inv :
    (h : Header) (rest : List ℕ) (load_address : ℕ) (p : Program)
    → read_parts h rest load_address ≡ loaded p
    → (p.file_header ≡ h)
      × (h.text_size + h.data_size + h.symbol_size ≤ length rest)
      × (apply_relocations h.absflag (image_bytes h rest) (stream_bytes h rest) load_address
          ≡ loaded p.image)
unfolding read_parts image_bytes stream_bytes
read_parts_inv h rest load_address p e =
    elim (Bool-cases (ltb (length rest) (h.text_size + h.data_size))) [
      | inl t ↦ let no = rw t at e in cc
      | inr t ↦
          elim (Bool-cases (ltb (length (drop (h.text_size + h.data_size) rest)) h.symbol_size)) [
            | inl u ↦ let no = rw (t, u) at e in cc
            | inr u ↦
                let (same_header, moved) = with_image_inv h _ _ p (rw (t, u) at e) in
                let left = length-drop (h.text_size + h.data_size) rest in
                (same_header, ground arith, moved)
          ]
    ]

read_memory_inv :
    (input : List ℕ) (load_address : ℕ) (p : Program)
    → read_memory (some input) load_address ≡ loaded p
    → (28 ≤ length input)
      × (read_parts (parse_header input) (drop 28 input) load_address ≡ loaded p)
unfolding read_memory
read_memory_inv input load_address p e = elim (Bool-cases (ltb (length input) 28)) [
  | inl t ↦ let no = rw t at e in cc
  | inr t ↦ let parts = rw t at e in (ground arith, parts)
]

-- When `prg_read_memory` loads a file at whatever address, the program has the header that the file
-- starts with, its image is as long as the text and the data that the header states, and the header,
-- the image and the symbols lie within the file.
pub read_memory-sizes :
    (input : List ℕ) (load_address : ℕ) (p : Program)
    → read_memory (some input) load_address ≡ loaded p
    → (p.file_header ≡ parse_header input)
      × (length p.image ≡ p.file_header.text_size + p.file_header.data_size)
      × (28 + (p.file_header.text_size + p.file_header.data_size + p.file_header.symbol_size)
          ≤ length input)
unfolding image_bytes
read_memory-sizes input load_address p e =
    let (whole, parts) = read_memory_inv input load_address p e in
    let (same_header, fits, moved) =
      read_parts_inv (parse_header input) (drop 28 input) load_address p parts in
    let h : Header = parse_header input in
    let size = length-apply_relocations h.absflag load_address _ p.image _ moved in
    let cut = length-take (h.text_size + h.data_size) (drop 28 input) in
    let left = length-drop 28 input in
    (same_header, rw same_header (omega arith), rw same_header (omega arith))

-- When `prg_read_memory` loads a file of bytes at address 0, the image is the text and the data just
-- as they stand in the file behind the header of 28 bytes: relocation changes no byte of it.
pub read_memory-zero :
    (input : List ℕ) (p : Program)
    → All IsByte input
    → read_memory (some input) 0 ≡ loaded p
    → p.image ≡ take (p.file_header.text_size + p.file_header.data_size) (drop 28 input)
unfolding image_bytes
read_memory-zero input p all e =
    let (whole, parts) = read_memory_inv input 0 p e in
    let (same_header, fits, moved) =
      read_parts_inv (parse_header input) (drop 28 input) 0 p parts in
    let h : Header = parse_header input in
    rw same_header (
      apply_relocations-zero h.absflag (image_bytes h (drop 28 input)) p.image _
        (take-All (h.text_size + h.data_size) (drop 28 input) (drop-All 28 input all)) moved)
