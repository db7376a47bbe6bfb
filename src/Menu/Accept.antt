-- ===== src/Menu/Accept.antt =====
-- What a request MENU_BAR that src/gem/protocol.c accepts has.
use mathlib.Core.Option
use gem.Base.{
  ℕ, zero, suc, ◌+◌, ◌<◌, ◌≡◌, ◌⊎◌, ◌∙◌, refl, sym, ap, Bool, true, false, not, ◌&&◌, ◌||◌, List,
  [], ◌∷◌, Option, none, some, if◌then◌else◌, ◌==◌, get_or, set, replicate, take, get_elem?, arith,
  inl, inr, Bool-cases, if_inv, &&-eq-true, get_or-set_ne, ==_iff,
}
use gem.Base.Int.{ℤ, pos, negsuc, pos_part, ltb_ℤ, eqb_ℤ}
use gem.Menu.{MenuObject, object_at, valid_menu_tree}
use gem.Menu.Mark.{IsReached}
use gem.Menu.Reach.{valid_menu_tree-IsReached}
use gem.Menu.Request.{
  MenuBar, is_indirect, is_text, claim_strings, has_links, object_ok, objects_ok, check_objects,
  has_counts, valid_menu_bar, max_objects,
}

-- A string entry names the object.
pub IsNamed : List ℤ → ℕ → Type 0
IsNamed strings i = (j : ℕ) × (get_elem? strings j ≡ some (pos i))

after_claim :
    (k : ℕ) (rest : List ℤ) (marks : List Bool) (i : ℕ)
    → (get_or (set marks k true) i false ≡ true) ⊎ IsNamed rest i
    → (get_or marks i false ≡ true) ⊎ IsNamed (pos k ∷ rest) i
unfolding IsNamed
after_claim k rest marks i (inr (j, at)) = inr (suc j, at)
after_claim k rest marks i (inl h) = elim (Bool-cases (k == i)) [
  | inl e ↦ inr (0, ap (λ n. some (pos n)) ((==_iff k i).0 e))
  | inr e ↦ inl (sym (get_or-set_ne marks k i true false (ground arith)) ∙ h)
]

claimed :
    (count : ℕ) (strings : List ℤ) (marks after : List Bool)
    → claim_strings count strings marks ≡ some after
    → (i : ℕ) → get_or after i false ≡ true
    → (get_or marks i false ≡ true) ⊎ IsNamed strings i
unfolding claim_strings
claimed count [] marks after e i h =
    inl (ap (λ m. get_or m i false) (Option.some-injective _ _ e) ∙ h)
claimed count (pos k ∷ rest) marks after e i h =
    elim (if_inv (ltb_ℤ (pos k) (pos 0) || (not (ltb_ℤ (pos k) (pos count)) || get_or marks k true))
      none (claim_strings count rest (set marks k true)) e) [
        | inl (t, f) ↦ absurd (Option.none-ne-some _ f)
        | inr (t, f) ↦
            after_claim k rest marks i (claimed count rest (set marks k true) after f i h)
      ]
claimed count (negsuc k ∷ rest) marks after e i h =
    elim (if_inv
      (ltb_ℤ (negsuc k) (pos 0) || (not (ltb_ℤ (negsuc k) (pos count)) || get_or marks 0 true)) none
      (claim_strings count rest (set marks 0 true)) e) [
        | inl (t, f) ↦ absurd (Option.none-ne-some _ f)
        | inr (t, f) ↦ absurd (ground arith)
      ]

objects_ok-at :
    (n count i : ℕ) (marks : List Bool) (objects : List MenuObject)
    → objects_ok n count i marks objects ≡ true
    → (k m : ℕ) → k < n
    → m ≡ i + k
    → object_ok count m (get_or marks m false) (object_at objects m) ≡ true
unfolding objects_ok
objects_ok-at zero count i marks objects h k m lt e = absurd (omega arith)
objects_ok-at (suc n) count i marks objects h zero m lt e =
    let first : object_ok count i (get_or marks i false) (object_at objects i) ≡ true =
      (&&-eq-true _ _ h).0 in
    let same : m ≡ i = omega (arith, e) in
    ap (λ j. object_ok count j (get_or marks j false) (object_at objects j)) same ∙ first
objects_ok-at (suc n) count i marks objects h (suc k) m lt e =
    objects_ok-at n count (i + 1) marks objects (&&-eq-true _ _ h).1 k m (omega arith)
      (omega (arith, e))

-- What the server may rely on for the object `i` of the request.
pub record IsSafe (req : MenuBar) (i : ℕ) : Type 0 where
  pub reached : IsReached req.objects i
  pub links : has_links (pos_part req.object_count) (object_at req.objects i) ≡ true
  pub direct : is_indirect (object_at req.objects i) ≡ false
  pub named :
      is_text (object_at req.objects i) ≡ true
      → IsNamed (take (pos_part req.string_count) req.strings) i

unmarked : (n i : ℕ) → get_or (replicate n false) i false ≡ true → false ≡ true
unmarked zero i h = h
unmarked (suc n) zero h = h
unmarked (suc n) (suc i) h = unmarked n i h

ok_parts :
    (linked indirect text box marked last : Bool)
    → (linked && (not indirect && ((if text then marked else box && not marked) && last))) ≡ true
    → (linked ≡ true) × (indirect ≡ false) × (text ≡ true → marked ≡ true)
ok_parts linked indirect true box marked last h = ground arith
ok_parts linked indirect false box marked last h = (ground arith, ground arith, λ e. cc)

-- The answer, and what an acceptance means for the objects.
Judges : MenuBar → Option Bool → Type 0
Judges req o =
    (b : Bool) × (o ≡ some b) × (b ≡ true → (i : ℕ) → i < pos_part req.object_count → IsSafe req i)

name_of :
    (strings : List ℤ) (i : ℕ)
    → (get_or (replicate max_objects false) i false ≡ true) ⊎ IsNamed strings i
    → IsNamed strings i
name_of strings i (inl h) = absurd (let f = unmarked max_objects i h in ground arith)
name_of strings i (inr n) = n

abbrev named_strings : MenuBar → List ℤ
named_strings req = take (pos_part req.string_count) req.strings

module _ (req : MenuBar) (some_object : 0 < pos_part req.object_count) (marks : List Bool)
    (claims : claim_strings
        (pos_part req.object_count)
        (named_strings req)
        (replicate max_objects false)
      ≡ some marks)
    (good : objects_ok (pos_part req.object_count) (pos_part req.object_count) 0 marks req.objects
      ≡ true) where
  safe : (i : ℕ) → i < pos_part req.object_count → IsReached req.objects i → IsSafe req i
  safe i lt reached =
      let obj = object_at req.objects i in
      let ok =
        objects_ok-at (pos_part req.object_count) (pos_part req.object_count) 0 marks req.objects
          good i i lt (omega arith) in
      let parts = ok_parts _ (is_indirect obj) (is_text obj) _ (get_or marks i false) _ ok in
      record {
        reached = reached;
        links = parts.0;
        direct = parts.1;
        named = λ text.
            name_of (named_strings req) i
              (claimed (pos_part req.object_count) _ _ marks claims i (parts.2 text));
      }

  checked : Judges req (valid_menu_tree req.objects (pos_part req.object_count))
  unfolding Judges
  checked =
      let (b, same, reach) =
        valid_menu_tree-IsReached req.objects (pos_part req.object_count) some_object in
      (b, same, λ accepted i lt. safe i lt (reach accepted i lt))

after_claims :
    (req : MenuBar) (o : Option (List Bool))
    → 0 < pos_part req.object_count
    → claim_strings (pos_part req.object_count) (named_strings req) (replicate max_objects false)
      ≡ o
    → Judges req (check_objects req.objects (pos_part req.object_count) o)
unfolding check_objects Judges
after_claims req none some_object e = (false, refl, λ f. cc)
after_claims req (some marks) some_object e =
    elim (Bool-cases
      (objects_ok (pos_part req.object_count) (pos_part req.object_count) 0 marks req.objects)) [
        | inl good ↦ rw good (checked req some_object marks e good)
        | inr bad ↦ rw bad (false, refl, λ f. cc)
      ]

-- For a request to show a menu, `gem_rpc_valid_request` ends with an answer. When it accepts, the
-- request has between 1 and 64 objects and at most 32 strings, and every object of it is reached from the
-- root, has links that are missing or name objects of the request, is not indirect, and, when its type
-- carries a string, is named by one of the request's strings.
pub valid_menu_bar-IsSafe :
    (req : MenuBar)
    → eqb_ℤ req.show (pos 0) ≡ false
    → (b : Bool) × (valid_menu_bar req ≡ some b)
      × (b ≡ true → has_counts req ≡ true)
      × (b ≡ true → (i : ℕ) → i < pos_part req.object_count → IsSafe req i)
unfolding valid_menu_bar Judges
valid_menu_bar-IsSafe req shown = elim (Bool-cases (has_counts req)) [
  | inl counts ↦
      let (b, same, safe_all) = after_claims req _ (room counts) refl in
      (b, rw shown (rw counts same), λ e. counts, safe_all)
  | inr bad ↦ (false, rw shown (rw bad refl), λ e. cc, λ e. cc)
]
  where
    room : has_counts req ≡ true → 0 < pos_part req.object_count
    room h = ground arith
