-- ===== src/Lock/Member.antt =====
-- Which application belongs to which session: src/gemd/session.c.
use gem.Base.{ℕ, ◌≡◌, ◌≢◌, ◌⊎◌, ◌∙◌, refl, sym, ap, Bool, true, false, Option, none, some, inl, inr}
use mathlib.Core.Option
use mathlib.Core.Bool.{false≢true}
use gem.Lock.{Session}
use gem.Lock.Hold.{eq_or_ne}

-- Each application in use has one session, a session's application is in use, and while a session has
-- the screen for itself no other has an application.
pub record IsMember (found : ℕ → Bool) (at : ℕ → Option Session) : Type 0 where
  pub owned :
      (id : ℕ) → found id ≡ true → (i : ℕ) × (c : Session) × (at i ≡ some c) × (c.app_id ≡ id)
  pub in_use : (i : ℕ) (c : Session) → at i ≡ some c → c.app_id ≢ 0 → found c.app_id ≡ true
  pub single :
      (i j : ℕ) (c d : Session)
      → i ≢ j
      → at i ≡ some c
      → at j ≡ some d
      → c.app_id ≢ 0
      → c.app_id ≢ d.app_id
  pub exclusive :
      (i j : ℕ) (c d : Session)
      → i ≢ j
      → at i ≡ some c
      → at j ≡ some d
      → c.standalone ≡ true
      → d.app_id ≡ 0

-- One slot changes: the conditions on what is put in it.
record IsChange (found found' : ℕ → Bool) (at : ℕ → Option Session) (i : ℕ) (o : Option Session)
    : Type 0 where
  pub owned :
      (id : ℕ)
      → found' id ≡ true
      → ((c : Session) × (o ≡ some c) × (c.app_id ≡ id))
        ⊎ ((found id ≡ true) × ((c : Session) → at i ≡ some c → c.app_id ≢ id))
  pub in_use : (c : Session) → o ≡ some c → c.app_id ≢ 0 → found' c.app_id ≡ true
  pub others : (j : ℕ) (d : Session) → j ≢ i → at j ≡ some d → d.app_id ≢ 0 → found' d.app_id ≡ true
  pub single :
      (c : Session) (j : ℕ) (d : Session)
      → o ≡ some c
      → j ≢ i
      → at j ≡ some d
      → c.app_id ≢ 0
      → c.app_id ≢ d.app_id
  pub exclusive :
      (c : Session) (j : ℕ) (d : Session)
      → o ≡ some c
      → j ≢ i
      → at j ≡ some d
      → ((c.standalone ≡ true) → d.app_id ≡ 0) × ((d.standalone ≡ true) → c.app_id ≡ 0)

change-IsMember :
    (found found' : ℕ → Bool) (at at' : ℕ → Option Session) (i : ℕ) (o : Option Session)
    → IsMember found at
    → IsChange found found' at i o
    → at' i ≡ o
    → ((j : ℕ) → j ≢ i → at' j ≡ at j)
    → IsMember found' at'
change-IsMember found found' at at' i o member change here there = record {
  owned = λ id used. elim (change.owned id used) [
    | inl (c, e, same) ↦ (i, c, here ∙ e, same)
    | inr (before, left) ↦
        let (j, c, e, same) = member.owned id before in
        elim (eq_or_ne j i) [
          | inl f ↦ absurd (left c (ap at (sym f) ∙ e) same)
          | inr ne ↦ (j, c, there j ne ∙ e, same)
        ]
  ];
  in_use = λ j c e has_app. elim (eq_or_ne j i) [
    | inl f ↦ change.in_use c (sym here ∙ ap at' (sym f) ∙ e) has_app
    | inr ne ↦ change.others j c ne (sym (there j ne) ∙ e) has_app
  ];
  single = λ j k c d ne e f has_app. elim (eq_or_ne j i) [
    | inl p ↦
        let other : k ≢ i = λ q. ne (p ∙ sym q) in
        change.single c k d (sym here ∙ ap at' (sym p) ∙ e) other (sym (there k other) ∙ f) has_app
    | inr p ↦ elim (eq_or_ne k i) [
      | inl q ↦ λ same.
          change.single d j c (sym here ∙ ap at' (sym q) ∙ f) p (sym (there j p) ∙ e)
            (λ z. has_app (same ∙ z)) (sym same)
      | inr q ↦ member.single j k c d ne (sym (there j p) ∙ e) (sym (there k q) ∙ f) has_app
    ]
  ];
  exclusive = λ j k c d ne e f alone. elim (eq_or_ne j i) [
    | inl p ↦
        let other : k ≢ i = λ q. ne (p ∙ sym q) in
        (change.exclusive c k d (sym here ∙ ap at' (sym p) ∙ e) other (sym (there k other) ∙ f)).0
          alone
    | inr p ↦ elim (eq_or_ne k i) [
      | inl q ↦
          (change.exclusive d j c (sym here ∙ ap at' (sym q) ∙ f) p (sym (there j p) ∙ e)).1 alone
      | inr q ↦ member.exclusive j k c d ne (sym (there j p) ∙ e) (sym (there k q) ∙ f) alone
    ]
  ];
}

some_same : {c d : Session} {o : Option Session} → o ≡ some c → o ≡ some d → c ≡ d
some_same e f = Option.some-injective _ _ (sym e ∙ f)

module _ (found found' : ℕ → Bool) (at at' : ℕ → Option Session) (i : ℕ)
    (member : IsMember found at) (there : (j : ℕ) → j ≢ i → at' j ≡ at j) where
  -- The session keeps its application.
  pub keep-IsMember :
      (c c' : Session)
      → at i ≡ some c
      → at' i ≡ some c'
      → c'.app_id ≡ c.app_id
      → ((k : ℕ) → found' k ≡ found k)
      → ((j : ℕ) (d : Session) → j ≢ i → at j ≡ some d → c'.standalone ≡ true → d.app_id ≡ 0)
      → IsMember found' at'
  keep-IsMember c c' was here same_app same alone =
      change-IsMember found found' at at' i (some c') member
        (record {
          owned = λ id used. elim (eq_or_ne c.app_id id) [
            | inl e ↦ inl (c', refl, same_app ∙ e)
            | inr ne ↦
                inr (sym (same id) ∙ used, λ d f g. ne (ap (λ s. s.app_id) (some_same was f) ∙ g))
          ];
          in_use = λ d e has_app.
              let app = ap (λ s. s.app_id) (some_same refl e) in
              same d.app_id
              ∙ ap found (sym app ∙ same_app)
              ∙ member.in_use i c was (λ z. has_app (sym app ∙ same_app ∙ z));
          others = λ j d ne e has_app. same d.app_id ∙ member.in_use j d e has_app;
          single = λ d j b e ne f has_app g.
              let app = ap (λ s. s.app_id) (some_same refl e) in
              member.single i j c b (λ q. ne (sym q)) was f (λ z. has_app (sym app ∙ same_app ∙ z))
                (sym same_app ∙ app ∙ g);
          exclusive = λ d j b e ne f.
              let app = ap (λ s. s.app_id) (some_same refl e) in
              (
                λ g. alone j b ne f (ap (λ s. s.standalone) (some_same refl e) ∙ g),
                λ g. sym app ∙ same_app ∙ member.exclusive j i b c ne f was g,
              );
        })
        here there

  -- The session leaves its application, which is freed.
  pub leave-IsMember :
      (c : Session) (o : Option Session)
      → at i ≡ some c
      → at' i ≡ o
      → ((d : Session) → o ≡ some d → (d.app_id ≡ 0) × (d.standalone ≡ true → c.standalone ≡ true))
      → found' c.app_id ≡ false
      → ((k : ℕ) → k ≢ c.app_id → found' k ≡ found k)
      → IsMember found' at'
  leave-IsMember c o was here left gone same =
      change-IsMember found found' at at' i o member
        (record {
          owned = λ id used. elim (eq_or_ne id c.app_id) [
            | inl e ↦ absurd (false≢true (sym gone ∙ ap found' (sym e) ∙ used))
            | inr ne ↦ inr (
              sym (same id ne) ∙ used,
              λ d f g. ne (sym g ∙ ap (λ s. s.app_id) (some_same f was)),
            )
          ];
          in_use = λ d e has_app. absurd (has_app (left d e).0);
          others = λ j d ne e has_app.
              same d.app_id (member.single j i d c ne e was has_app) ∙ member.in_use j d e has_app;
          single = λ d j b e ne f has_app. absurd (has_app (left d e).0);
          exclusive = λ d j b e ne f. (
            λ g. member.exclusive i j c b (λ q. ne (sym q)) was f ((left d e).1 g),
            λ g. (left d e).0,
          );
        })
        here there

  -- The session gets an application that was free.
  pub join-IsMember :
      (c c' : Session)
      → at i ≡ some c
      → c.app_id ≡ 0
      → at' i ≡ some c'
      → c'.standalone ≡ c.standalone
      → found 0 ≡ false
      → found c'.app_id ≡ false
      → found' c'.app_id ≡ true
      → ((k : ℕ) → k ≢ c'.app_id → found' k ≡ found k)
      → ((j : ℕ) (d : Session) → j ≢ i → at j ≡ some d → d.standalone ≡ false)
      → IsMember found' at'
  join-IsMember c c' was no_app here same_alone no_zero fresh used same none_alone =
      change-IsMember found found' at at' i (some c') member
        (record {
          owned = λ id used_id. elim (eq_or_ne id c'.app_id) [
            | inl e ↦ inl (c', refl, sym e)
            | inr ne ↦
                let before = sym (same id ne) ∙ used_id in
                inr (
                  before,
                  λ d f g.
                      let zero_id = sym g ∙ ap (λ s. s.app_id) (some_same f was) ∙ no_app in
                      false≢true (sym no_zero ∙ ap found (sym zero_id) ∙ before),
                )
          ];
          in_use = λ d e has_app. ap found' (sym (ap (λ s. s.app_id) (some_same refl e))) ∙ used;
          others = λ j d ne e has_app.
              let before = member.in_use j d e has_app in
              same d.app_id (λ q. false≢true (sym fresh ∙ ap found (sym q) ∙ before)) ∙ before;
          single = λ d j b e ne f has_app g.
              let app = ap (λ s. s.app_id) (some_same refl e) in
              let before = member.in_use j b f (λ z. has_app (g ∙ z)) in
              false≢true (sym fresh ∙ ap found (app ∙ g) ∙ before);
          exclusive = λ d j b e ne f. (
            λ g.
                member.exclusive i j c b (λ q. ne (sym q)) was f
                  (sym same_alone ∙ ap (λ s. s.standalone) (some_same refl e) ∙ g),
            λ g. absurd (false≢true (sym (none_alone j b ne f) ∙ g)),
          );
        })
        here there

  -- A new session, in a slot that was free.
  pub accept-IsMember :
      (c : Session)
      → at i ≡ none
      → at' i ≡ some c
      → c.app_id ≡ 0
      → c.standalone ≡ false
      → ((k : ℕ) → found' k ≡ found k)
      → IsMember found' at'
  accept-IsMember c was here no_app shared same =
      change-IsMember found found' at at' i (some c) member
        (record {
          owned =
              λ id used. inr (sym (same id) ∙ used, λ d f g. Option.none-ne-some _ (sym was ∙ f));
          in_use = λ d e has_app.
              absurd (has_app (sym (ap (λ s. s.app_id) (some_same refl e)) ∙ no_app));
          others = λ j d ne e has_app. same d.app_id ∙ member.in_use j d e has_app;
          single = λ d j b e ne f has_app.
              absurd (has_app (sym (ap (λ s. s.app_id) (some_same refl e)) ∙ no_app));
          exclusive = λ d j b e ne f. (
            λ g. absurd (false≢true (sym shared ∙ ap (λ s. s.standalone) (some_same refl e) ∙ g)),
            λ g. sym (ap (λ s. s.app_id) (some_same refl e)) ∙ no_app,
          );
        })
        here there
