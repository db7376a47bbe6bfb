-- ===== src/Msa/Geometry.antt =====
-- The guess of a geometry and the addressing of tracks in lib/msa/msa.c.
use mathlib.Core.Path.{subst}
use gem.Base.{
  ℕ, suc, ◌+◌, ◌-◌, ◌*◌, ◌/◌, ◌%◌, ◌≤◌, ◌<◌, ◌≡◌, ◌≢◌, ◌↔◌, refl, sym, ap, ◌∙◌, false, not, ◌||◌,
  List, [], ◌∷◌, Option, none, some, arith, ltb, leb, ◌==◌, inl, inr, Bool-cases, get_or, ◌^◌, All,
  two32,
}
use native.Mathlib.Nat.{div-add-mod, mul-le-mul_right}
use gem.Msa.FileRoundTrip.{err_ok}
use gem.Msa.Image.{
  not_sector_aligned, ok, Geometry, track_count, track_index, bpb_geometry, boot_geometry,
  try_geometry, try_all, decide_guess, guess_from, guess_geometry, read_le16,
}

-- The geometry has tracks, and they make up exactly `size` bytes.
pub record Describes (g : Geometry) (size : ℕ) : Type 0 where
  pub has_tracks : g.start_track ≤ g.end_track
  pub total : (g.end_track - g.start_track + 1) * (g.sectors_per_track * g.sides) * 512 ≡ size

exact_parts :
    (total step : ℕ)
    → total ≢ 0
    → total / step ≤ 65536
    → total % step ≡ 0
    → ((total / step - 1) % 65536 + 1) * step ≡ total
exact_parts total step ne small z =
    let q : ℕ = total / step in
    let whole : q * step ≡ total = omega (arith, div-add-mod total step) in
    let some_part : q ≢ 0 = λ e. ne (omega (arith, ap (λ (t : ℕ). t * step) e)) in
    let back : (q - 1) % 65536 + 1 ≡ q = omega arith in rw back whole

-- The geometry of `total` sectors in `total / (sectors * sides)` tracks.
made : ℕ → ℕ → ℕ → Geometry
made total sectors sides = record {
  sectors_per_track = sectors;
  sides = sides;
  start_track = 0;
  end_track = (total / (sectors * sides) - 1) % 65536;
}

made-Describes :
    (total sectors sides size : ℕ)
    → total ≢ 0
    → total / (sectors * sides) ≤ 65536
    → total % (sectors * sides) ≡ 0
    → total * 512 ≡ size
    → Describes (made total sectors sides) size
unfolding made
made-Describes total sectors sides size ne small z e = record {
  has_tracks = omega arith;
  total =
      let last : ℕ = (total / (sectors * sides) - 1) % 65536 in
      let all : last - 0 ≡ last = omega arith in
      rw all (ap (λ (t : ℕ). t * 512) (exact_parts total (sectors * sides) ne small z) ∙ e);
}

bpb_tests :
    (total sectors sides size : ℕ) (g : Geometry)
    → bpb_geometry total sectors sides size ≡ some g
    → (made total sectors sides ≡ g)
      × (total ≢ 0)
      × (total % (sectors * sides) ≡ 0)
      × (total * 512 ≡ size)
unfolding bpb_geometry made
bpb_tests total sectors sides size g e = ground arith

bpb-Describes :
    (total sectors sides size : ℕ) (g : Geometry)
    → total < 65536
    → bpb_geometry total sectors sides size ≡ some g
    → Describes g size
bpb-Describes total sectors sides size g small e =
    let (same, ne, z, s) = bpb_tests total sectors sides size g e in
    subst (λ h. Describes h size) same
      (made-Describes total sectors sides size ne (omega arith) z s)

-- What the loops have found so far.
abbrev Found : ℕ → Option Geometry × ℕ → Type 0
Found size (none, n) = n ≡ 0
Found size (some g, n) = Describes g size × (1 ≤ n)

try-Found :
    (size sectors sides : ℕ) (f : Option Geometry × ℕ)
    → size % 512 ≡ 0
    → size / 512 / (sectors * sides) < two32
    → Found size f
    → Found size (try_geometry size sectors sides f)
unfolding try_geometry
try-Found size sectors sides (last, n) aligned uncut h =
    let whole : size / 512 / (sectors * sides) % two32 ≡ size / 512 / (sectors * sides) =
      omega arith in
    elim (Bool-cases (not (size / 512 % (sectors * sides) == 0))) [
      | inl t ↦ rw t h
      | inr t ↦
          elim (Bool-cases
            (size / 512 / (sectors * sides) == 0 || ltb 85 (size / 512 / (sectors * sides)))) [
              | inl u ↦ rw (t, whole, u) h
              | inr u ↦
                  let step : ℕ = sectors * sides in
                  let z : size / 512 % step ≡ 0 = ground arith in
                  let some_tracks : size / 512 / step ≢ 0 = ground arith in
                  let few : size / 512 / step ≤ 85 = ground arith in
                  let described =
                    made-Describes (size / 512) sectors sides size (omega arith) (omega arith) z
                      (omega arith) in
                  rw (t, whole, u) (unfold made in (described, omega arith))
            ]
    ]

-- The counts of tracks on one and on two sides fit in an unsigned int.
abbrev Uncut : ℕ → ℕ → Type 0
Uncut size sectors = (size / 512 / (sectors * 1) < two32) × (size / 512 / (sectors * 2) < two32)

sizes-Uncut : (size : ℕ) → size < 2 ^ 44 → All (Uncut size) (8 ∷ 9 ∷ 10 ∷ 11 ∷ [])
sizes-Uncut size small = (
  (omega arith, omega arith),
  ((omega arith, omega arith), ((omega arith, omega arith), ((omega arith, omega arith), tt))),
)

try_all-Found :
    (size : ℕ) (sectors : List ℕ) (f : Option Geometry × ℕ)
    → size % 512 ≡ 0
    → All (Uncut size) sectors
    → Found size f
    → Found size (try_all size sectors f)
unfolding try_all
try_all-Found size [] f aligned uncut h = h
try_all-Found size (n ∷ ns) f aligned uncut h = try_all-Found size ns _ aligned uncut.1 (
    try-Found size n 2 (try_geometry size n 1 f) aligned uncut.0.1
      (try-Found size n 1 f aligned uncut.0.0 h))

decide-Describes :
    (size : ℕ) (f : Option Geometry × ℕ) (g : Geometry)
    → Found size f
    → decide_guess f ≡ ok g
    → Describes g size
unfolding decide_guess
decide-Describes size (none, n) g h e = ground arith
decide-Describes size (some k, n) g h e =
    let same : k ≡ g = ground arith in subst (λ t. Describes t size) same h.0

-- A boot sector holds bytes.
abbrev pub AreBytes : Option (List ℕ) → Type 0
AreBytes none = Unit {0}
AreBytes (some raw) = (i : ℕ) → get_or raw i 0 < 256

none-some : {g : Geometry} → none ≡ some g → ⊥
none-some e = cc

boot-Describes :
    (raw : Option (List ℕ)) (size : ℕ) (g : Geometry)
    → AreBytes raw
    → boot_geometry raw size ≡ some g
    → Describes g size
unfolding boot_geometry
boot-Describes none size g b e = cc
boot-Describes (some raw) size g b e = elim (Bool-cases (leb 32 size)) [
  | inl t ↦
      bpb-Describes (read_le16 raw 19) (read_le16 raw 24) (read_le16 raw 26) size g
        (omega (arith, b 19, b 20)) (rw t at e)
  | inr t ↦ absurd (none-some {g = g} (rw t at e))
]

guess_from-Describes :
    (found : Option Geometry) (size : ℕ) (g : Geometry)
    → ((k : Geometry) → found ≡ some k → Describes k size)
    → size % 512 ≡ 0
    → size < 2 ^ 44
    → guess_from found size ≡ ok g
    → Describes g size
unfolding guess_from
guess_from-Describes (some k) size g h aligned small e =
    let same : k ≡ g = cc in subst (λ t. Describes t size) same (h k refl)
guess_from-Describes none size g h aligned small e =
    decide-Describes size (try_all size (8 ∷ 9 ∷ 10 ∷ 11 ∷ []) (none, 0)) g
      (try_all-Found size (8 ∷ 9 ∷ 10 ∷ 11 ∷ []) (none, 0) aligned (sizes-Uncut size small) refl) e

-- A geometry that `msa_guess_geometry` settles on, from the boot sector or from the size alone, has
-- at least one track and accounts for exactly the size of the raw image, when that size is below 2 ^ 44.
pub guess-Describes :
    (raw : Option (List ℕ)) (size : ℕ) (g : Geometry)
    → AreBytes raw
    → size < 2 ^ 44
    → guess_geometry raw size ≡ ok g
    → Describes g size
unfolding guess_geometry
guess-Describes raw size g b small e = elim (Bool-cases (size == 0 || not (size % 512 == 0))) [
  | inl t ↦ absurd (err_ok not_sector_aligned {a = g} (rw t at e))
  | inr t ↦
      guess_from-Describes (boot_geometry raw size) size g (λ k h. boot-Describes raw size k b h)
        (ground arith) small (rw t at e)
]

not_later : (x y m s v : ℕ) → s < m → x * m + s ≡ y * m + v → ¬ (x < y)
not_later x y m s v h e lt = omega (arith, mul-le-mul_right {m = suc x} {n = y} m lt)

same_row : (x y m s v : ℕ) → s < m → v < m → x * m + s ≡ y * m + v → x ≡ y
same_row x y m s v h k e =
    let a = not_later x y m s v h e in let b = not_later y x m v s k (sym e) in omega arith

below :
    (g : Geometry) (row s : ℕ)
    → g.start_track ≤ g.end_track
    → row ≤ g.end_track - g.start_track
    → s < g.sides
    → row * g.sides + s < track_count g
unfolding track_count
below g row s order h k =
    let a : (g.sides == 0) ≡ false = ground arith in
    let b : ltb g.end_track g.start_track ≡ false = ground arith in
    rw (a, b)
      (omega (
        arith,
        mul-le-mul_right {m = suc row} {n = g.end_track - g.start_track + 1} g.sides (omega arith),
      ))

-- For tracks and sides of the geometry: the place of a track side is below the number of track sides,
-- and two of them have the same place exactly when they are the same track and side.
pub track_index-injective :
    (g : Geometry) (t s u v : ℕ)
    → (g.start_track ≤ t) × (t ≤ g.end_track) × (s < g.sides)
    → (g.start_track ≤ u) × (u ≤ g.end_track) × (v < g.sides)
    → (track_index g t s < track_count g)
      × ((track_index g t s ≡ track_index g u v) ↔ ((t ≡ u) × (s ≡ v)))
unfolding track_index
track_index-injective g t s u v a b = (
  below g (t - g.start_track) s (omega arith) (omega arith) a.2,
  (
    λ e.
        let row = same_row (t - g.start_track) (u - g.start_track) g.sides s v a.2 b.2 e in
        let shifted : (t - g.start_track) * g.sides ≡ (u - g.start_track) * g.sides =
          ap (λ (r : ℕ). r * g.sides) row in
        (omega arith, omega arith),
    λ e. rw (e.0, e.1) refl,
  ),
)
