-- ===== src/Prg/Bytes.antt =====
-- Long words written into a list of bytes.
use gem.Base.{two32}
use gem.Base.{
  ℕ, zero, suc, ◌+◌, ◌*◌, ◌/◌, ◌%◌, ◌<◌, ◌≡◌, refl, ap, arith, List, [], ◌∷◌, length, get_or, set,
  All, length-set,
}
use gem.Prg.Load.{read_be32, write_be32}

abbrev pub IsByte : ℕ → Type 0
IsByte b = b < 256

pub length-write_be32 :
    (bytes : List ℕ) (offset value : ℕ) → length (write_be32 bytes offset value) ≡ length bytes
unfolding write_be32
length-write_be32 bytes offset value =
    rw
      (
        length-set (set (set (set bytes offset _) (offset + 1) _) (offset + 2) _) (offset + 3) _,
        length-set (set (set bytes offset _) (offset + 1) _) (offset + 2) _,
        length-set (set bytes offset _) (offset + 1) _,
        length-set bytes offset _,
      )
      refl

set-get_or : (xs : List ℕ) (i : ℕ) → set xs i (get_or xs i 0) ≡ xs
set-get_or [] i = refl
set-get_or (x ∷ xs) zero = refl
set-get_or (x ∷ xs) (suc i) = ap (λ t. x ∷ t) (set-get_or xs i)

get_or-IsByte : (xs : List ℕ) (i : ℕ) → All IsByte xs → IsByte (get_or xs i 0)
get_or-IsByte [] i h = omega arith
get_or-IsByte (x ∷ xs) zero h = h.0
get_or-IsByte (x ∷ xs) (suc i) h = get_or-IsByte xs i h.1

-- The four digits of a long word, at no address added.
digits :
    (a b c d : ℕ)
    → IsByte a
    → IsByte b
    → IsByte c
    → IsByte d
    → ((a * 16777216 + b * 65536 + c * 256 + d + 0) % two32 / 16777216 % 256 ≡ a)
      × ((a * 16777216 + b * 65536 + c * 256 + d + 0) % two32 / 65536 % 256 ≡ b)
      × ((a * 16777216 + b * 65536 + c * 256 + d + 0) % two32 / 256 % 256 ≡ c)
      × ((a * 16777216 + b * 65536 + c * 256 + d + 0) % two32 % 256 ≡ d)
digits a b c d ha hb hc hd = (omega arith, omega arith, omega arith, omega arith)

pub write-read :
    (bytes : List ℕ) (offset : ℕ)
    → All IsByte bytes
    → write_be32 bytes offset ((read_be32 bytes offset + 0) % two32) ≡ bytes
unfolding write_be32 read_be32
write-read bytes offset h =
    let e =
      digits (get_or bytes offset 0) (get_or bytes (offset + 1) 0) (get_or bytes (offset + 2) 0)
        (get_or bytes (offset + 3) 0) (get_or-IsByte bytes offset h)
        (get_or-IsByte bytes (offset + 1) h) (get_or-IsByte bytes (offset + 2) h)
        (get_or-IsByte bytes (offset + 3) h) in
    rw
      (
        e.0,
        e.1,
        e.2,
        e.3,
        set-get_or bytes offset,
        set-get_or bytes (offset + 1),
        set-get_or bytes (offset + 2),
      )
      (set-get_or bytes (offset + 3))
