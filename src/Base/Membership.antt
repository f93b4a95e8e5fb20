-- ===== src/Base/Membership.antt =====
-- Membership in a list with its position kept, for rows of tables.
use mathlib.Core.Path.{◌≡◌, refl, sym, ap, subst}
use mathlib.Core.Logic.{◌⊎◌, inl, inr}
use mathlib.Core.Bool.{Bool, true, false}
use mathlib.Core.List.{List, [], ◌∷◌, ◌++◌, map}
use native.Mathlib.Omega.{arith}
use api_wa_automation.Base.Tests.{Bool-cases}
use api_wa_automation.Base.Lists.{All, any, select}

-- `y` is an element.
abbrev pub Has : {A : Type 0} → A → List A → Type 0
Has y [] = ⊥
Has y (x ∷ xs) = (y ≡ x) ⊎ Has y xs

module _ {A : Type 0} (P : A → Type 0) where
  pub All-of_Has : (xs : List A) → ((x : A) → Has x xs → P x) → All P xs
  All-of_Has [] h = tt
  All-of_Has (x ∷ xs) h = (h x (inl refl), All-of_Has xs (λ y k. h y (inr k)))

  pub Has-All : (xs : List A) (y : A) → Has y xs → All P xs → P y
  Has-All [] y h k = absurd h
  Has-All (x ∷ xs) y (inl e) k = subst P (sym e) k.0
  Has-All (x ∷ xs) y (inr h) k = Has-All xs y h k.1

module _ {A : Type 0} where
  pub Has-append_left : (y : A) (xs ys : List A) → Has y xs → Has y (xs ++ ys)
  Has-append_left y [] ys h = absurd h
  Has-append_left y (x ∷ xs) ys (inl e) = inl e
  Has-append_left y (x ∷ xs) ys (inr h) = inr (Has-append_left y xs ys h)

  pub Has-append_right : (y : A) (xs ys : List A) → Has y ys → Has y (xs ++ ys)
  Has-append_right y [] ys h = h
  Has-append_right y (x ∷ xs) ys h = inr (Has-append_right y xs ys h)

  pub Has-append : (y : A) (xs ys : List A) → Has y (xs ++ ys) → Has y xs ⊎ Has y ys
  Has-append y [] ys h = inr h
  Has-append y (x ∷ xs) ys (inl e) = inl (inl e)
  Has-append y (x ∷ xs) ys (inr h) = elim (Has-append y xs ys h) [
    | inl a ↦ inl (inr a)
    | inr b ↦ inr b
  ]

  pub Has-select :
      (y : A) (p : A → Bool) (xs : List A) → Has y (select p xs) → Has y xs × (p y ≡ true)
  Has-select y p [] h = absurd h
  Has-select y p (x ∷ xs) h = elim (Bool-cases (p x)) [
    | inl e ↦ elim (rw e at h) [
      | inl k ↦ (inl k, subst (λ z. p z ≡ true) (sym k) e)
      | inr k ↦ (inr (Has-select y p xs k).0, (Has-select y p xs k).1)
    ]
    | inr e ↦ let r = Has-select y p xs (rw e at h) in (inr r.0, r.1)
  ]

  pub select-Has :
      (y : A) (p : A → Bool) (xs : List A) → Has y xs → p y ≡ true → Has y (select p xs)
  select-Has y p [] h t = absurd h
  select-Has y p (x ∷ xs) (inl k) t =
      let e : p x ≡ true = subst (λ z. p z ≡ true) k t in rw e (inl k)
  select-Has y p (x ∷ xs) (inr k) t = elim (Bool-cases (p x)) [
    | inl e ↦ rw e (inr (select-Has y p xs k t))
    | inr e ↦ rw e (select-Has y p xs k t)
  ]

  pub any_of_Has : (y : A) (p : A → Bool) (xs : List A) → Has y xs → p y ≡ true → any p xs ≡ true
  any_of_Has y p [] h t = absurd h
  any_of_Has y p (x ∷ xs) (inl e) t = let k : p x ≡ true = subst (λ z. p z ≡ true) e t in rw k
  any_of_Has y p (x ∷ xs) (inr h) t = ground (arith, any_of_Has y p xs h t)

  pub any-false : (p : A → Bool) (xs : List A) → any p xs ≡ false → (y : A) → Has y xs → p y ≡ false
  any-false p [] e y h = absurd h
  any-false p (x ∷ xs) e y (inl k) = subst (λ z. p z ≡ false) (sym k) (ground arith)
  any-false p (x ∷ xs) e y (inr h) = any-false p xs (ground arith) y h

  pub any-of_none :
      (p : A → Bool) (xs : List A) → ((y : A) → Has y xs → p y ≡ false) → any p xs ≡ false
  any-of_none p [] h = refl
  any-of_none p (x ∷ xs) h = ground (arith, h x (inl refl), any-of_none p xs (λ y k. h y (inr k)))

pub Has-map : {A B : Type 0} (f : A → B) (y : A) (xs : List A) → Has y xs → Has (f y) (map f xs)
Has-map f y [] h = absurd h
Has-map f y (x ∷ xs) (inl e) = inl (ap f e)
Has-map f y (x ∷ xs) (inr h) = inr (Has-map f y xs h)
