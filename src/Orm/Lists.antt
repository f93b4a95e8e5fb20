-- ===== src/Orm/Lists.antt =====
-- The laws of `Orm` can hold: an instance over plain lists, in which rows keep their order. It is
-- the one at which the tests and witnesses run.
use Prim.Native.Nat.{max}
use api_wa_automation.Orm.Interface.{Orm}
use api_wa_automation.Base.Text.{Text}
use api_wa_automation.Value.{Value, str}
use api_wa_automation.Base.{
  ℕ, ◌+◌, ◌≤◌, Bool, true, false, not, ◌≡◌, ◌≢◌, refl, sym, ap, ◌⊎◌, inl, inr, Option, none, some,
  List, [], ◌∷◌, ◌++◌, map, arith, if◌then◌else◌, Has, select, Has-select, select-Has, Has-append,
  Has-append_left, Has-append_right, Bool-cases,
}

not-eq_false : (b : Bool) → not b ≡ true → b ≡ false
not-eq_false true h = cc
not-eq_false false h = refl

module _ {E : Type 0} where
  abbrev pub first : (E → Bool) → List E → Option E
  first p [] = none
  first p (x ∷ t) = if p x then some x else first p t

  abbrev pub upsert : (E → E → Bool) → E → List E → List E
  upsert same x t = select (λ y. not (same x y)) t ++ x ∷ []

  abbrev pub erase : (E → E → Bool) → E → List E → List E
  erase same x t = select (λ y. not (same x y)) t

  abbrev pub drop_if : (E → Bool) → List E → List E
  drop_if p t = select (λ y. not (p y)) t

  abbrev pub next_key : (E → ℕ) → List E → ℕ
  next_key key [] = 1
  next_key key (x ∷ t) = max (key x + 1) (next_key key t)

  pub first_test : (p : E → Bool) (t : List E) (x : E) → first p t ≡ some x → p x ≡ true
  first_test p [] x h = cc
  first_test p (y ∷ t) x h = elim (Bool-cases (p y)) [
    | inl e ↦ let k : y ≡ x = ground arith in rw (← k) e
    | inr e ↦ first_test p t x (rw e at h)
  ]

  pub first-Has : (p : E → Bool) (t : List E) (x : E) → first p t ≡ some x → Has x t
  first-Has p [] x h = cc
  first-Has p (y ∷ t) x h = elim (Bool-cases (p y)) [
    | inl e ↦ let k : x ≡ y = ground arith in inl k
    | inr e ↦ inr (first-Has p t x (rw e at h))
  ]

  pub first-none :
      (p : E → Bool) (t : List E) → ((x : E) → Has x t → p x ≡ false) → first p t ≡ none
  first-none p [] h = refl
  first-none p (y ∷ t) h = rw (h y (inl refl)) (first-none p t (λ x k. h x (inr k)))

  pub first_absent :
      (p : E → Bool) (t : List E) → first p t ≡ none → (x : E) → Has x t → p x ≡ false
  first_absent p [] h x k = absurd k
  first_absent p (y ∷ t) h x k = elim (Bool-cases (p y)) [
    | inl e ↦ let z : none ≡ some y = sym (rw e at h) in cc
    | inr e ↦ elim k [ inl same ↦ rw same e | inr later ↦ first_absent p t (rw e at h) x later ]
  ]

  pub erase-Has :
      (same : E → E → Bool) (x : E) (t : List E) (y : E)
      → Has y (erase same x t)
      → Has y t × (same x y ≡ false)
  erase-Has same x t y h =
      let (k, e) = Has-select y (λ z. not (same x z)) t h in (k, not-eq_false (same x y) e)

  pub erase_keeps :
      (same : E → E → Bool) (x : E) (t : List E) (y : E)
      → Has y t
      → same x y ≡ false
      → Has y (erase same x t)
  erase_keeps same x t y h e = select-Has y (λ z. not (same x z)) t h (ap not e)

  pub upsert-Has :
      (same : E → E → Bool) (x : E) (t : List E) (y : E)
      → Has y (upsert same x t)
      → (y ≡ x) ⊎ (Has y t × (same x y ≡ false))
  upsert-Has same x t y h = elim (Has-append y (erase same x t) (x ∷ []) h) [
    | inl k ↦ inr (erase-Has same x t y k)
    | inr (inl k) ↦ inl k
    | inr (inr k) ↦ absurd k
  ]

  pub drop_if-Has :
      (p : E → Bool) (t : List E) (y : E) → Has y (drop_if p t) → Has y t × (p y ≡ false)
  drop_if-Has p t y h = let (k, e) = Has-select y (λ z. not (p z)) t h in (k, not-eq_false (p y) e)

  abbrev pub change_if : (E → Bool) → (E → E) → List E → List E
  change_if p f t = map (λ x. if p x then f x else x) t

  pub change_if-Has :
      (p : E → Bool) (f : E → E) (t : List E) (y : E)
      → Has y (change_if p f t)
      → (Has y t × (p y ≡ false)) ⊎ ((x : E) × Has x t × (p x ≡ true) × (y ≡ f x))
  change_if-Has p f [] y h = absurd h
  change_if-Has p f (x ∷ t) y (inl e) = elim (Bool-cases (p x)) [
    | inl k ↦ inr (x, inl refl, k, rw k at e)
    | inr k ↦ let same : y ≡ x = rw k at e in inl (inl same, rw same k)
  ]
  change_if-Has p f (x ∷ t) y (inr h) = elim (change_if-Has p f t y h) [
    | inl (k, e) ↦ inl (inr k, e)
    | inr (z, k, e, d) ↦ inr (z, inr k, e, d)
  ]

  pub change_if_keeps :
      (p : E → Bool) (f : E → E) (t : List E) (y : E)
      → Has y t
      → p y ≡ false
      → Has y (change_if p f t)
  change_if_keeps p f [] y h e = absurd h
  change_if_keeps p f (x ∷ t) y (inl k) e = inl (rw (← k) (rw e refl))
  change_if_keeps p f (x ∷ t) y (inr h) e = inr (change_if_keeps p f t y h e)

  pub change_if_changes :
      (p : E → Bool) (f : E → E) (t : List E) (x : E)
      → Has x t
      → p x ≡ true
      → Has (f x) (change_if p f t)
  change_if_changes p f [] x h e = absurd h
  change_if_changes p f (z ∷ t) x (inl k) e = inl (rw (← k) (rw e refl))
  change_if_changes p f (z ∷ t) x (inr h) e = inr (change_if_changes p f t x h e)

  next_key-lt : (key : E → ℕ) (t : List E) (y : E) → Has y t → key y + 1 ≤ next_key key t
  next_key-lt key [] y h = absurd h
  next_key-lt key (x ∷ t) y (inl e) = rw e (omega arith)
  next_key-lt key (x ∷ t) y (inr h) = omega (arith, next_key-lt key t y h)

  pub next_key_fresh : (key : E → ℕ) (t : List E) (y : E) → Has y t → key y ≢ next_key key t
  next_key_fresh key t y h = omega (arith, next_key-lt key t y h)

abbrev text_sent : Value → Text
text_sent (str s) = s
text_sent _ = []

instance abbrev pub list_orm : Orm
list_orm = record {
  column_text = text_sent;
  column_text-str = λ s. refl;
  find_one = λ p t. first p t;
  find = λ p t. select p t;
  save = λ same x t. upsert same x t;
  remove = λ same x t. erase same x t;
  delete = λ p t. drop_if p t;
  update = λ p f t. change_if p f t;
  new_key = λ key t. next_key key t;
  find_one_test = λ p t x. first_test p t x;
  find_one_has = λ p t x. first-Has p t x;
  find_one_none = λ p t. first-none p t;
  find_one_absent = λ p t. first_absent p t;
  find_has = λ p t x. Has-select x p t;
  find_complete = λ p t x. select-Has x p t;
  save_has = λ same x t y. upsert-Has same x t y;
  save_self = λ same x t. Has-append_right x (erase same x t) (x ∷ []) (inl refl);
  save_keeps =
      λ same x t y h e. Has-append_left y (erase same x t) (x ∷ []) (erase_keeps same x t y h e);
  remove_has = λ same x t y. erase-Has same x t y;
  remove_keeps = λ same x t y. erase_keeps same x t y;
  delete_has = λ p t y. drop_if-Has p t y;
  delete_keeps = λ p t y h e. select-Has y (λ z. not (p z)) t h (ap not e);
  new_key_fresh = λ key t y. next_key_fresh key t y;
  update_has = λ p f t. change_if-Has p f t;
  update_keeps = λ p f t. change_if_keeps p f t;
  update_changes = λ p f t. change_if_changes p f t;
}
