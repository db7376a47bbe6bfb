-- ===== src/Chrome/Slots.antt =====
-- How the arrows and the slot of src/aes/window_geometry.c share the track of a slider.
use mathlib.Core.Option.{some-injective}
use gem.Base.{
  ◌+◌, ◌≡◌, refl, Bool, true, false, ◌&&◌, Option, some, arith, bit, inl, inr, Bool-cases,
  if◌then◌else◌,
}
use gem.Base.Int.{
  ℤ, pos, negsuc, ◌+ℤ◌, ◌-ℤ◌, ◌≤ℤ◌, ◌<ℤ◌, ltb_ℤ, leb_ℤ, int_laws, to_word, to_word-id, IsWord,
  eq_of_parts,
}
use gem.Window.{Window}
use gem.Chrome.{bit_at, up_arrow, dn_arrow, scroll_button_side}
use gem.Chrome.Parts.{vtrack_rect, vslot_rect, vup_rect, vdown_rect}
use gem.Rect.{max_word}
use gem.Rect.{Grect, set_rect, point_in_rect, min_word}
use gem.Chrome.Parts.{up_of, down_of, vslot_between, slot_top, slot_bottom}

-- A track whose end is a word, and the side of its arrows.
Fits : ℤ → ℤ → ℤ → Type 0
Fits start size side =
    (negsuc 32766 ≤ℤ start)
    × IsWord size
    × IsWord (start +ℤ size)
    × (pos 0 <ℤ size)
    × (pos 0 <ℤ side)

arrow_bound :
    (size side : ℤ)
    → pos 0 <ℤ size
    → pos 0 <ℤ side
    → (pos 0 <ℤ min_word side size) × (min_word side size ≤ℤ size)
unfolding min_word
arrow_bound size side p q = ground arith

-- The points from `start` on, `size` many.
abbrev among : ℤ → ℤ → ℤ → Bool
among start size y = leb_ℤ start y && ltb_ℤ y (start +ℤ size)

-- The first and the last point of the slot, with arrows of `m` points.
abbrev top : Bool → ℤ → ℤ → ℤ
top up start m = if up then to_word (start +ℤ m) else start

abbrev bottom : Bool → ℤ → ℤ → ℤ → ℤ
bottom down start size m =
    if down
    then to_word (to_word (start +ℤ size -ℤ m) -ℤ pos 1)
    else to_word (start +ℤ size -ℤ pos 1)

first : Bool → ℤ → ℤ → ℤ
first up start m = if up then start +ℤ m else start

final : Bool → ℤ → ℤ → ℤ → ℤ
final down start size m = if down then start +ℤ size -ℤ m -ℤ pos 1 else start +ℤ size -ℤ pos 1

le_of_test : (a b : ℤ) → ltb_ℤ b a ≡ false → a ≤ℤ b
le_of_test a b h = ground arith

top_id :
    (up : Bool) (start size m : ℤ)
    → negsuc 32766 ≤ℤ start
    → IsWord (start +ℤ size)
    → pos 0 <ℤ m
    → m ≤ℤ size
    → top up start m ≡ first up start m
unfolding first
top_id true start size m s e p q = to_word-id (start +ℤ m) (omega int_laws)
top_id false start size m s e p q = refl

bottom_id :
    (down : Bool) (start size m : ℤ)
    → negsuc 32766 ≤ℤ start
    → IsWord (start +ℤ size)
    → pos 0 <ℤ m
    → m ≤ℤ size
    → bottom down start size m ≡ final down start size m
unfolding final
bottom_id true start size m s e p q =
    rw (to_word-id (start +ℤ size -ℤ m) (omega int_laws))
      (to_word-id (start +ℤ size -ℤ m -ℤ pos 1) (omega int_laws))
bottom_id false start size m s e p q = to_word-id (start +ℤ size -ℤ pos 1) (omega int_laws)

share :
    (a s f e n y : ℤ)
    → a ≤ℤ s
    → s ≤ℤ f
    → f ≤ℤ e
    → s +ℤ n ≤ℤ f
    → f ≤ℤ s +ℤ n
    → bit (among s n y) + (bit (leb_ℤ a y && ltb_ℤ y s) + bit (leb_ℤ f y && ltb_ℤ y e))
      ≡ bit (leb_ℤ a y && ltb_ℤ y e)
share a s f e n y h1 h2 h3 h4 h5 = ground arith

up_share :
    (up : Bool) (a m s y : ℤ)
    → first up a m ≡ s
    → bit (up && among a m y) ≡ bit (leb_ℤ a y && ltb_ℤ y s)
unfolding first
up_share true a m s y e = rw (← e) refl
up_share false a m s y e = rw (← e) (ground arith)

first_bound :
    (up : Bool) (start m : ℤ)
    → pos 0 <ℤ m
    → (start ≤ℤ first up start m) × (first up start m ≤ℤ start +ℤ m)
unfolding first
first_bound true start m p = omega int_laws
first_bound false start m p = omega int_laws

final_bound :
    (down : Bool) (start size m : ℤ)
    → pos 0 <ℤ m
    → (start +ℤ size ≤ℤ final down start size m +ℤ m +ℤ pos 1)
      × (final down start size m +ℤ pos 1 ≤ℤ start +ℤ size)
unfolding final
final_bound true start size m p = omega int_laws
final_bound false start size m p = omega int_laws

down_share :
    (down : Bool) (start size m y : ℤ)
    → bit (down && among (start +ℤ size -ℤ m) m y)
      ≡ bit (leb_ℤ (final down start size m +ℤ pos 1) y && ltb_ℤ y (start +ℤ size))
unfolding final
down_share true start size m y =
    let begins : start +ℤ size -ℤ m -ℤ pos 1 +ℤ pos 1 ≡ start +ℤ size -ℤ m =
      eq_of_parts _ _ (omega int_laws) in
    let ends : start +ℤ size -ℤ m +ℤ m ≡ start +ℤ size = eq_of_parts _ _ (omega int_laws) in
    rw (begins, ends) refl
down_share false start size m y =
    let none_left : start +ℤ size -ℤ pos 1 +ℤ pos 1 ≡ start +ℤ size =
      eq_of_parts _ _ (omega int_laws) in
    rw none_left (ground arith)

parts :
    (up down : Bool) (start size m y : ℤ)
    → negsuc 32766 ≤ℤ start
    → IsWord size
    → IsWord (start +ℤ size)
    → pos 0 <ℤ m
    → m ≤ℤ size
    → ltb_ℤ (bottom down start size m) (top up start m) ≡ false
    → bit (among (top up start m) (to_word (bottom down start size m -ℤ top up start m +ℤ pos 1)) y)
        + (bit (up && among start m y) + bit (down && among (to_word (start +ℤ size -ℤ m)) m y))
      ≡ bit (among start size y)
unfolding first
parts up down start size m y s z e p q h =
    let t : top up start m ≡ first up start m = top_id up start size m s e p q in
    let b : bottom down start size m ≡ final down start size m =
      bottom_id down start size m s e p q in
    let h' = le_of_test (first up start m) (final down start size m) (rw (t, b) at h) in
    let f = first_bound up start m p in
    let g = final_bound down start size m p in
    let n = to_word-id (final down start size m -ℤ first up start m +ℤ pos 1) (omega int_laws) in
    let d = to_word-id (start +ℤ size -ℤ m) (omega int_laws) in
    rw (t, b, n, d, up_share up start m (first up start m) y refl, down_share down start size m y)
      (share start (first up start m) (final down start size m +ℤ pos 1) (start +ℤ size)
        (final down start size m -ℤ first up start m +ℤ pos 1) y f.0 (omega int_laws) g.1
        (omega int_laws) (omega int_laws))

inside : ℤ → ℤ → Grect → Bool
inside x y r = among r.g_x r.g_w x && among r.g_y r.g_h y

point_inside : (x y : ℤ) (r : Grect) → point_in_rect x y (some r) ≡ inside x y r
unfolding point_in_rect inside
point_inside x y r = ground arith

up_inside :
    (up : Bool) (side x y : ℤ) (t : Grect)
    → point_in_rect x y (up_of up side (some t))
      ≡ (among t.g_x t.g_w x && (up && among t.g_y (min_word side t.g_h) y))
unfolding up_of inside
up_inside true side x y t = point_inside x y (set_rect t.g_x t.g_y t.g_w (min_word side t.g_h))
up_inside false side x y t = unfold point_in_rect in ground arith

down_inside :
    (down : Bool) (side x y : ℤ) (t : Grect)
    → point_in_rect x y (down_of down side (some t)) ≡ (
        among t.g_x t.g_w x
        && (down
            && among (to_word (t.g_y +ℤ t.g_h -ℤ min_word side t.g_h)) (min_word side t.g_h) y))
unfolding down_of inside
down_inside true side x y t =
    point_inside x y
      (set_rect t.g_x (to_word (t.g_y +ℤ t.g_h -ℤ min_word side t.g_h)) t.g_w (min_word side t.g_h))
down_inside false side x y t = unfold point_in_rect in ground arith

slot_of : Bool → Bool → ℤ → Grect → Option Grect
slot_of up down side t =
    vslot_between (some t) (up_of up side (some t)) (down_of down side (some t))

slot_top-up :
    (up : Bool) (side : ℤ) (t : Grect)
    → slot_top t (up_of up side (some t)) ≡ top up t.g_y (min_word side t.g_h)
unfolding slot_top up_of
slot_top-up true side t = refl
slot_top-up false side t = refl

slot_bottom-down :
    (down : Bool) (side : ℤ) (t : Grect)
    → slot_bottom t (down_of down side (some t)) ≡ bottom down t.g_y t.g_h (min_word side t.g_h)
unfolding slot_bottom down_of
slot_bottom-down true side t = refl
slot_bottom-down false side t = refl

sum_across :
    (across : Bool) (a b c d : Bool)
    → bit a + (bit b + bit c) ≡ bit d
    → bit (across && a) + (bit (across && b) + bit (across && c)) ≡ bit (across && d)
sum_across across a b c d h = ground arith

slot_of-shares :
    (up down : Bool) (side x y : ℤ) (t s : Grect)
    → Fits t.g_y t.g_h side
    → slot_of up down side t ≡ some s
    → bit (point_in_rect x y (some s))
        + (bit (point_in_rect x y (up_of up side (some t)))
            + bit (point_in_rect x y (down_of down side (some t))))
      ≡ bit (point_in_rect x y (some t))
unfolding slot_of vslot_between inside Fits
slot_of-shares up down side x y t s f e =
    let m = min_word side t.g_h in
    let arrow = arrow_bound t.g_h side f.3 f.4 in
    elim (Bool-cases (ltb_ℤ (bottom down t.g_y t.g_h m) (top up t.g_y m))) [
      | inl b ↦ let no = rw (slot_top-up up side t, slot_bottom-down down side t, b) at e in cc
      | inr b ↦
          let slot = rw (slot_top-up up side t, slot_bottom-down down side t, b) at e in
          let all =
            sum_across (among t.g_x t.g_w x) _ _ _ _
              (parts up down t.g_y t.g_h m y f.0 f.1 f.2 arrow.0 arrow.1 b) in
          rw
            (
              up_inside up side x y t,
              down_inside down side x y t,
              point_inside x y t,
              ← some-injective _ _ slot,
            )
            (rw
              (point_inside x y (
                set_rect t.g_x (top up t.g_y m) t.g_w
                  (to_word (bottom down t.g_y t.g_h m -ℤ top up t.g_y m +ℤ pos 1))))
              all)
    ]

button_side_pos : (text_height : ℤ) (w : Window) → pos 0 <ℤ scroll_button_side text_height w
unfolding scroll_button_side max_word
button_side_pos text_height w = ground arith

-- When a window has the vertical track `t`, whose height is positive, whose top edge is -32767 at
-- least and whose end is a WORD, and there is a slot: each point of the track lies in exactly one of
-- the slot, the up arrow and the down arrow, and no point outside the track lies in any of them.
pub vslot-shares :
    (text_height x y : ℤ) (w : Window) (t s : Grect)
    → vtrack_rect w ≡ some t
    → vslot_rect text_height w ≡ some s
    → negsuc 32766 ≤ℤ t.g_y
    → IsWord t.g_h
    → IsWord (t.g_y +ℤ t.g_h)
    → pos 0 <ℤ t.g_h
    → bit (point_in_rect x y (vslot_rect text_height w))
        + (bit (point_in_rect x y (vup_rect text_height w))
            + bit (point_in_rect x y (vdown_rect text_height w)))
      ≡ bit (point_in_rect x y (vtrack_rect w))
unfolding vup_rect vdown_rect slot_of Fits
vslot-shares text_height x y w t s track slot low high end some_height =
    let side = scroll_button_side text_height w in
    let up = bit_at w.kind up_arrow in
    let down = bit_at w.kind dn_arrow in
    rw (slot, track)
      (slot_of-shares up down side x y t s
        (low, high, end, some_height, button_side_pos text_height w)
        (unfold vslot_rect in rw track at slot))
