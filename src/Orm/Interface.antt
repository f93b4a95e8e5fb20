-- ===== src/Orm/Interface.antt =====
-- The repositories of TypeORM, which the services call and which stand outside this repository.
-- A table is the list of its rows. The calls are parameters; the laws are what the library
-- documents: a query returns rows of the table that meet its condition and `null` only if there is
-- none; `save` inserts a row or updates the row with its key; `remove` and `delete` drop rows; and
-- none of them touches other rows. `new_key` is the generator behind `@PrimaryGeneratedColumn`.
use api_wa_automation.Base.{ℕ, Bool, true, false, ◌≡◌, ◌≢◌, ◌⊎◌, Option, none, some, List, Has}
use api_wa_automation.Base.Text.{Text}
use api_wa_automation.Value.{Value, str}

pub record Orm : Type 1 where
  pub find_one : {E : Type 0} → (E → Bool) → List E → Option E
  pub find : {E : Type 0} → (E → Bool) → List E → List E
  -- `save` and `remove` take the test "has the same primary key".
  pub save : {E : Type 0} → (E → E → Bool) → E → List E → List E
  pub remove : {E : Type 0} → (E → E → Bool) → E → List E → List E
  pub delete : {E : Type 0} → (E → Bool) → List E → List E
  -- `increment` and `update`: the rows that meet the condition, changed.
  pub update : {E : Type 0} → (E → Bool) → (E → E) → List E → List E
  pub new_key : {E : Type 0} → (E → ℕ) → List E → ℕ
  -- The text that the driver sends for a value of a column of text.
  pub column_text : Value → Text
  pub column_text-str : (s : Text) → column_text (str s) ≡ s
  pub find_one_test :
      {E : Type 0} (p : E → Bool) (t : List E) (x : E) → find_one p t ≡ some x → p x ≡ true
  pub find_one_has :
      {E : Type 0} (p : E → Bool) (t : List E) (x : E) → find_one p t ≡ some x → Has x t
  pub find_one_none :
      {E : Type 0} (p : E → Bool) (t : List E)
      → ((x : E) → Has x t → p x ≡ false)
      → find_one p t ≡ none
  pub find_one_absent :
      {E : Type 0} (p : E → Bool) (t : List E)
      → find_one p t ≡ none
      → (x : E) → Has x t
      → p x ≡ false
  pub find_has :
      {E : Type 0} (p : E → Bool) (t : List E) (x : E) → Has x (find p t) → Has x t × (p x ≡ true)
  pub find_complete :
      {E : Type 0} (p : E → Bool) (t : List E) (x : E) → Has x t → p x ≡ true → Has x (find p t)
  pub save_has :
      {E : Type 0} (same : E → E → Bool) (x : E) (t : List E) (y : E)
      → Has y (save same x t)
      → (y ≡ x) ⊎ (Has y t × (same x y ≡ false))
  pub save_self : {E : Type 0} (same : E → E → Bool) (x : E) (t : List E) → Has x (save same x t)
  pub save_keeps :
      {E : Type 0} (same : E → E → Bool) (x : E) (t : List E) (y : E)
      → Has y t
      → same x y ≡ false
      → Has y (save same x t)
  pub remove_has :
      {E : Type 0} (same : E → E → Bool) (x : E) (t : List E) (y : E)
      → Has y (remove same x t)
      → Has y t × (same x y ≡ false)
  pub remove_keeps :
      {E : Type 0} (same : E → E → Bool) (x : E) (t : List E) (y : E)
      → Has y t
      → same x y ≡ false
      → Has y (remove same x t)
  pub delete_has :
      {E : Type 0} (p : E → Bool) (t : List E) (y : E)
      → Has y (delete p t)
      → Has y t × (p y ≡ false)
  pub delete_keeps :
      {E : Type 0} (p : E → Bool) (t : List E) (y : E) → Has y t → p y ≡ false → Has y (delete p t)
  pub new_key_fresh :
      {E : Type 0} (key : E → ℕ) (t : List E) (y : E) → Has y t → key y ≢ new_key key t
  pub update_has :
      {E : Type 0} (p : E → Bool) (f : E → E) (t : List E) (y : E)
      → Has y (update p f t)
      → (Has y t × (p y ≡ false)) ⊎ ((x : E) × Has x t × (p x ≡ true) × (y ≡ f x))
  pub update_keeps :
      {E : Type 0} (p : E → Bool) (f : E → E) (t : List E) (y : E)
      → Has y t
      → p y ≡ false
      → Has y (update p f t)
  pub update_changes :
      {E : Type 0} (p : E → Bool) (f : E → E) (t : List E) (x : E)
      → Has x t
      → p x ≡ true
      → Has (f x) (update p f t)
