-- ===== src/Orm/Laws.antt =====
-- Consequences of the laws of `Orm` that the services' proofs share.
use api_wa_automation.Base.{
  ℕ, Bool, true, false, ◌≡◌, ◌↔◌, sym, ◌∙◌, subst, ap, inl, inr, some, List, Has, Option-cases,
  Bool-cases, ◌==◌, arith,
}
use api_wa_automation.Orm.Interface.{Orm}

module _ ⦃orm : Orm⦄ {E : Type 0} where
  -- What was saved is found by any condition that only its key meets.
  pub find_one-save :
      (p : E → Bool) (same : E → E → Bool) (x : E) (t : List E)
      → p x ≡ true
      → ((y : E) → p y ≡ true → same x y ≡ true)
      → orm.find_one p (orm.save same x t) ≡ some x
  find_one-save p same x t px only = elim (Option-cases (orm.find_one p (orm.save same x t))) [
    | inl e ↦
        let no_x : p x ≡ false =
          orm.find_one_absent p (orm.save same x t) e x (orm.save_self same x t) in
        cc
    | inr (y, e) ↦ elim (orm.save_has same x t y (orm.find_one_has p (orm.save same x t) y e)) [
      | inl k ↦ rw e (ap some k)
      | inr (old, differs) ↦
          let agrees : same x y ≡ true = only y (orm.find_one_test p (orm.save same x t) y e) in cc
    ]
  ]

-- No two rows have one key.
abbrev pub IsKeyed : {E : Type 0} → (E → ℕ) → List E → Type 0
IsKeyed {E} key t = (a b : E) → Has a t → Has b t → key a ≡ key b → a ≡ b

abbrev pub by : {E : Type 0} → (E → ℕ) → E → E → Bool
by key a b = key a == key b

-- A row is found by its key.
pub find_one-keyed :
    ⦃orm : Orm⦄ {E : Type 0} (key : E → ℕ) (p : E → Bool) (x : E) (t : List E)
    → IsKeyed key t
    → Has x t
    → p x ≡ true
    → ((y : E) → p y ≡ true → key y ≡ key x)
    → orm.find_one p t ≡ some x
find_one-keyed ⦃orm⦄ key p x t keyed h px only = elim (Option-cases (orm.find_one p t)) [
  | inl e ↦ let lost : p x ≡ false = orm.find_one_absent p t e x h in absurd (cc)
  | inr (y, e) ↦
      let same : y ≡ x =
        keyed y x (orm.find_one_has p t y e) h (only y (orm.find_one_test p t y e)) in
      e ∙ ap some same
]

module _ ⦃orm : Orm⦄ {E : Type 0} (key : E → ℕ) where
  pub save-IsKeyed : (x : E) (t : List E) → IsKeyed key t → IsKeyed key (orm.save (by key) x t)
  save-IsKeyed x t h a b ha hb e = elim (orm.save_has (by key) x t a ha) [
    | inl ax ↦ elim (orm.save_has (by key) x t b hb) [
      | inl bx ↦ ax ∙ sym bx
      | inr (_, differs) ↦ let k : key x ≡ key b = ap key (sym ax) ∙ e in absurd (ground (arith))
    ]
    | inr (at, differs) ↦ elim (orm.save_has (by key) x t b hb) [
      | inl bx ↦ let k : key x ≡ key a = sym (e ∙ ap key bx) in absurd (ground arith)
      | inr (bt, _) ↦ h a b at bt e
    ]
  ]

  pub remove-IsKeyed : (x : E) (t : List E) → IsKeyed key t → IsKeyed key (orm.remove (by key) x t)
  remove-IsKeyed x t h a b ha hb e =
      h a b (orm.remove_has (by key) x t a ha).0 (orm.remove_has (by key) x t b hb).0 e

  -- A row that has a property still has it, or the saved row took its place.
  pub save-persists :
      (P : E → Type 0) (x : E) (t : List E)
      → ((y : E) → Has y t → key x ≡ key y → P y → P x)
      → (y : E) → Has y t
      → P y
      → (z : E) × Has z (orm.save (by key) x t) × P z
  save-persists P x t carry y h p = elim (Bool-cases (by key x y)) [
    | inl same ↦ (x, orm.save_self (by key) x t, carry y h (ground arith) p)
    | inr differs ↦ (y, orm.save_keeps (by key) x t y h differs, p)
  ]

  -- Rows with a property that neither the saved row nor the row that it replaces has are the same
  -- after a save.
  pub save-untouched :
      (P : E → Type 0) (x : E) (t : List E)
      → ¬ P x
      → ((y : E) → Has y t → key x ≡ key y → ¬ P y)
      → (y : E) → P y
      → Has y t ↔ Has y (orm.save (by key) x t)
  save-untouched P x t new old y p = (
    (λ h. elim (Bool-cases (by key x y)) [
      | inl same ↦ absurd (old y h (ground arith) p)
      | inr differs ↦ orm.save_keeps (by key) x t y h differs
    ]),
    λ h. elim (orm.save_has (by key) x t y h) [
      | inl e ↦ absurd (new (subst P e p))
      | inr (old_row, _) ↦ old_row
    ],
  )

  pub remove-untouched :
      (P : E → Type 0) (x : E) (t : List E)
      → ((y : E) → Has y t → key x ≡ key y → ¬ P y)
      → (y : E) → P y
      → Has y t ↔ Has y (orm.remove (by key) x t)
  remove-untouched P x t old y p = (
    (λ h. elim (Bool-cases (by key x y)) [
      | inl same ↦ absurd (old y h (ground arith) p)
      | inr differs ↦ orm.remove_keeps (by key) x t y h differs
    ]),
    λ h. (orm.remove_has (by key) x t y h).0,
  )
