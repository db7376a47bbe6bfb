-- ===== src/Prg/Targets.antt =====
-- The relocation stream of lib/prg/prg.c read as the list of the long words that it moves.
use mathlib.Core.Option
use mathlib.Core.Path.{subst}
use gem.Base.{two32}
use gem.Base.{inl, inr, Bool-cases}
use gem.Base.{
  ℕ, ◌+◌, ◌%◌, ◌≤◌, ◌≡◌, ◌≢◌, refl, sym, ◌∙◌, false, arith, List, [], ◌∷◌, Option, none, some,
  if◌then◌else◌, ltb, ◌==◌, length, drop, All,
}
use gem.Prg.Load.{
  loaded, read_be32, write_be32, apply_relocation, and_then, apply_deltas, apply_stream,
  apply_relocations,
}
use gem.Prg.Bytes.{length-write_be32}

-- The offsets that a stream names after `offset`, up to its end mark; `none` without one.
unfoldable pub targets : ℕ → List ℕ → Option (List ℕ)
targets offset [] = none
targets offset (delta ∷ stream) =
    let skipped = targets ((offset + 254) % two32) stream in
    let named =
      Option.map (λ os. ((offset + delta) % two32) ∷ os)
        (targets ((offset + delta) % two32) stream) in
    if delta == 0 then some [] else if delta == 1 then skipped else named

-- The image with each of the long words moved, in turn.
unfoldable pub move_all : ℕ → List ℕ → List ℕ → List ℕ
move_all load_address [] image = image
move_all load_address (o ∷ os) image =
    move_all load_address os (write_be32 image o ((read_be32 image o + load_address) % two32))

-- A long word at the offset lies within `size` bytes.
abbrev pub Within : ℕ → ℕ → Type 0
Within size offset = offset + 4 ≤ size

relocate-Within :
    (image : List ℕ) (offset load_address : ℕ)
    → Within (length image) offset
    → apply_relocation image offset load_address
      ≡ loaded (write_be32 image offset ((read_be32 image offset + load_address) % two32))
unfolding apply_relocation
relocate-Within image offset load_address h = ground arith

lt_false : {a b : ℕ} → a ≤ b → ltb b a ≡ false
lt_false h = ground arith

eq_false : {n : ℕ} → n ≢ 0 → n == 0 ≡ false
eq_false h = ground arith

map-some :
    (o : ℕ) (found : Option (List ℕ)) (os : List ℕ)
    → Option.map (λ more. o ∷ more) found ≡ some os
    → (more : List ℕ) × (found ≡ some more) × (os ≡ o ∷ more)
map-some o none os e = cc
map-some o (some more) os e = (more, refl, sym (Option.some-injective _ _ e))

deltas-targets :
    (image : List ℕ) (offset load_address : ℕ) (stream os : List ℕ) (size : ℕ)
    → length image ≡ size
    → targets offset stream ≡ some os
    → All (Within size) os
    → apply_deltas image offset load_address stream ≡ loaded (move_all load_address os image)
unfolding apply_deltas targets move_all and_then
deltas-targets image offset load_address [] os size full e h = cc
deltas-targets image offset load_address (delta ∷ stream) os size full e h =
    elim (Bool-cases (delta == 0)) [
      | inl z ↦
          let done = rw z at e in
          rw z (
            subst (λ os'. loaded image ≡ loaded (move_all load_address os' image))
              (Option.some-injective _ _ done) refl)
      | inr z ↦ elim (Bool-cases (delta == 1)) [
        | inl o ↦
            let skipped = rw (z, o) at e in
            rw (z, o)
              (deltas-targets image ((offset + 254) % two32) load_address stream os size full
                skipped h)
        | inr o ↦
            let named = rw (z, o) at e in
            let (more, later, same) = map-some _ _ os named in
            let within = rw same at h in
            let patched =
              write_be32 image ((offset + delta) % two32)
                ((read_be32 image ((offset + delta) % two32) + load_address) % two32) in
            rw
              (
                z,
                o,
                same,
                relocate-Within image ((offset + delta) % two32) load_address (rw full within.0),
              )
              (deltas-targets patched ((offset + delta) % two32) load_address stream more size
                (length-write_be32 image ((offset + delta) % two32) _ ∙ full) later within.1)
      ]
    ]

-- The offset of the first long word is the first four bytes of `bytes`, and `stream` what follows.
-- When `absflag` is 0, `bytes` has four bytes at least, the first offset is not 0, the stream has its
-- end mark, and each long word that it names lies within the image, then relocation succeeds, and its
-- result is the image with the load address added, modulo 2 ^ 32, to these long words in turn.
pub apply_relocations-move_all :
    (image bytes os : List ℕ) (load_address : ℕ)
    → 4 ≤ length bytes
    → read_be32 bytes 0 ≢ 0
    → targets (read_be32 bytes 0) (drop 4 bytes) ≡ some os
    → All (Within (length image)) (read_be32 bytes 0 ∷ os)
    → apply_relocations 0 image bytes load_address
      ≡ loaded (move_all load_address (read_be32 bytes 0 ∷ os) image)
unfolding apply_relocations apply_stream and_then move_all
apply_relocations-move_all image bytes os load_address long first ends within =
    let first_word = read_be32 bytes 0 in
    let patched =
      write_be32 image first_word ((read_be32 image first_word + load_address) % two32) in
    rw
      (
        lt_false long,
        eq_false first,
        relocate-Within image (read_be32 bytes 0) load_address within.0,
      )
      (deltas-targets patched (read_be32 bytes 0) load_address (drop 4 bytes) os (length image)
        (length-write_be32 image (read_be32 bytes 0) _) ends within.1)
