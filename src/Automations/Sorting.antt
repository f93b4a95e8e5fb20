-- ===== src/Automations/Sorting.antt =====
-- The order in which action.engine.ts takes the actions.
use api_wa_automation.Base.{
  true, false, ◌≡◌, refl, ap, ◌∙◌, inl, inr, Bool-cases, List, [], ◌∷◌, All, select, if◌then◌else◌,
  arith,
}
use api_wa_automation.Base.Int.{ℤ, leb_ℤ, eq_ℤ, ◌≤ℤ◌, leb_ℤ_total}
use api_wa_automation.Data.Automation.{AutomationAction}
use api_wa_automation.Automations.Actions.{insert, sort}

-- Each action's order is at most those behind it.
abbrev pub IsSorted : List AutomationAction → Type 0
IsSorted [] = Unit
IsSorted (a ∷ actions) = All (λ b. a.order ≤ℤ b.order) actions × IsSorted actions

-- The actions of one order.
abbrev pub of_order : ℤ → List AutomationAction → List AutomationAction
of_order n = λ actions. select (λ a. eq_ℤ a.order n) actions

≤ℤ_trans : (a b c : ℤ) → a ≤ℤ b → b ≤ℤ c → a ≤ℤ c
≤ℤ_trans a b c h k = omega arith

leb_ℤ_sound : (a b : ℤ) → leb_ℤ a b ≡ true → a ≤ℤ b
leb_ℤ_sound a b h = ground arith

weaken :
    (m n : ℤ) (actions : List AutomationAction)
    → m ≤ℤ n
    → All (λ b. n ≤ℤ b.order) actions
    → All (λ b. m ≤ℤ b.order) actions
weaken m n [] h k = tt
weaken m n (a ∷ actions) h (k, ks) = (≤ℤ_trans m n a.order h k, weaken m n actions h ks)

insert-All :
    (m : ℤ) (a : AutomationAction) (actions : List AutomationAction)
    → m ≤ℤ a.order
    → All (λ b. m ≤ℤ b.order) actions
    → All (λ b. m ≤ℤ b.order) (insert a actions)
unfolding insert
insert-All m a [] h k = (h, tt)
insert-All m a (b ∷ actions) h (k, ks) = elim (Bool-cases (leb_ℤ a.order b.order)) [
  | inl e ↦ rw e (h, (k, ks))
  | inr e ↦ rw e (k, insert-All m a actions h ks)
]

insert-IsSorted :
    (a : AutomationAction) (actions : List AutomationAction)
    → IsSorted actions
    → IsSorted (insert a actions)
unfolding insert
insert-IsSorted a [] h = (tt, tt)
insert-IsSorted a (b ∷ actions) (k, h) = elim (Bool-cases (leb_ℤ a.order b.order)) [
  | inl e ↦
      let le = leb_ℤ_sound a.order b.order e in
      rw e ((le, weaken a.order b.order actions le k), (k, h))
  | inr e ↦
      rw e (
        insert-All b.order a actions (leb_ℤ_total a.order b.order e) k,
        insert-IsSorted a actions h,
      )
]

others : (a b n : ℤ) → leb_ℤ a b ≡ false → eq_ℤ b n ≡ true → eq_ℤ a n ≡ false
others a b n h k = ground arith

-- An action goes in front of those of its order.
insert-of_order :
    (n : ℤ) (a : AutomationAction) (actions : List AutomationAction)
    → of_order n (insert a actions) ≡ of_order n (a ∷ actions)
unfolding insert
insert-of_order n a [] = refl
insert-of_order n a (b ∷ actions) = elim (Bool-cases (leb_ℤ a.order b.order)) [
  | inl e ↦ rw e refl
  | inr e ↦
      let rest = insert-of_order n a actions in
      elim (Bool-cases (eq_ℤ b.order n)) [
        | inl eb ↦
            let ea : eq_ℤ a.order n ≡ false = others a.order b.order n e eb in
            let kept : of_order n (insert a actions) ≡ of_order n actions = rest ∙ (rw ea refl) in
            rw e (rw eb (rw ea (ap (λ (t : List AutomationAction). b ∷ t) kept)))
        | inr eb ↦ rw e (rw eb rest)
      ]
]

sort-IsSorted : (actions : List AutomationAction) → IsSorted (sort actions)
unfolding sort
sort-IsSorted [] = tt
sort-IsSorted (a ∷ actions) = insert-IsSorted a (sort actions) (sort-IsSorted actions)

sort-of_order :
    (n : ℤ) (actions : List AutomationAction) → of_order n (sort actions) ≡ of_order n actions
unfolding sort
sort-of_order n [] = refl
sort-of_order n (a ∷ actions) =
    insert-of_order n a (sort actions)
    ∙ ap (λ (t : List AutomationAction). if eq_ℤ a.order n then a ∷ t else t)
        (sort-of_order n actions)

-- The actions are run in the order of their numbers, and those with the same number in the order
-- in which they are given: none is lost, added or exchanged with another.
pub sort_lem :
    (actions : List AutomationAction)
    → IsSorted (sort actions) × ((n : ℤ) → of_order n (sort actions) ≡ of_order n actions)
sort_lem actions = (sort-IsSorted actions, λ n. sort-of_order n actions)
