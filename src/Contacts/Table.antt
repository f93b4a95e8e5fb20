-- ===== src/Contacts/Table.antt =====
-- The table of contacts, with its unique constraint on a workspace and a phone, and how it may grow.
use api_wa_automation.Base.{
  true, false, ◌≡◌, ◌≢◌, refl, sym, subst, ◌↔◌, inl, inr, List, [], ◌∷◌, Has, arith, any-of_none,
}
use api_wa_automation.Base.Text.{Text, text_eq}
use api_wa_automation.Orm.{Orm}
use api_wa_automation.Orm.Laws.{by, IsKeyed, save-IsKeyed}
use api_wa_automation.Data.Tenancy.{Key, Contact}
use api_wa_automation.World.{World, ok}
use api_wa_automation.Contacts.{conflicts, fits, has_phone, save_contact}

-- The contacts as the database holds them: one row for a key, one for a workspace and a phone, and no
-- text too long for its column.
pub record IsTable (t : List Contact) : Type 0 where
  pub keyed : IsKeyed Contact.id t
  pub fitting : (a : Contact) → Has a t → fits a ≡ true
  pub unique : (a b : Contact) → Has a t → Has b t → conflicts a b ≡ false

-- Some contact of the workspace has the phone.
abbrev pub HasContact : Key → Text → List Contact → Type 0
HasContact workspace_id phone t = (x : Contact) × Has x t × (has_phone workspace_id phone x ≡ true)

text_eq_symm : (s t : Text) → text_eq s t ≡ text_eq t s
text_eq_symm [] [] = refl
text_eq_symm [] (y ∷ t) = refl
text_eq_symm (x ∷ s) [] = refl
text_eq_symm (x ∷ s) (y ∷ t) = ground (arith, text_eq_symm s t)

conflicts_symm : (a b : Contact) → conflicts a b ≡ conflicts b a
conflicts_symm a b = ground (arith, text_eq_symm a.phone b.phone)

conflicts_self : (a : Contact) → conflicts a a ≡ false
conflicts_self a = ground arith

module _ ⦃orm : Orm⦄ where
  pub saved-IsTable :
      (x : Contact) (t : List Contact)
      → IsTable t
      → fits x ≡ true
      → ((b : Contact) → Has b t → conflicts x b ≡ false)
      → IsTable (orm.save (by Contact.id) x t)
  saved-IsTable x t h short free = record {
    fitting = λ a ha. elim (orm.save_has (by Contact.id) x t a ha) [
      | inl ax ↦ subst (λ z. fits z ≡ true) (sym ax) short
      | inr (at, _) ↦ h.fitting a at
    ];
    keyed = save-IsKeyed Contact.id x t h.keyed;
    unique = λ a b ha hb. elim (orm.save_has (by Contact.id) x t a ha) [
      | inl ax ↦ elim (orm.save_has (by Contact.id) x t b hb) [
        | inl bx ↦
            subst (λ z. conflicts z b ≡ false) (sym ax)
              (subst (λ z. conflicts x z ≡ false) (sym bx) (conflicts_self x))
        | inr (bt, _) ↦ subst (λ z. conflicts z b ≡ false) (sym ax) (free b bt)
      ]
      | inr (at, _) ↦ elim (orm.save_has (by Contact.id) x t b hb) [
        | inl bx ↦ subst (λ z. conflicts a z ≡ false) (sym bx) (rw (conflicts_symm a x) (free a at))
        | inr (bt, _) ↦ h.unique a b at bt
      ]
    ];
  }

  pub save_contact_free :
      (x : Contact) (w : World)
      → fits x ≡ true
      → ((b : Contact) → Has b w.contacts → conflicts x b ≡ false)
      → save_contact x w ≡ (ok x, record w { contacts = orm.save (by Contact.id) x w.contacts })
  unfolding save_contact
  save_contact_free x w short free = ground (arith, any-of_none (conflicts x) w.contacts free)

-- The contacts of other workspaces are the same.
abbrev pub Untouched : Key → List Contact → List Contact → Type 0
Untouched workspace_id t t' = (y : Contact) → y.workspace_id ≢ workspace_id → Has y t ↔ Has y t'

-- What a round, or the loop, does to the table: it stays one, no phone is lost, and other
-- workspaces see no change.
abbrev pub Grows : Key → World → World → Type 0
Grows workspace_id w w' =
    IsTable w'.contacts
    × ((phone : Text)
        → HasContact workspace_id phone w.contacts
        → HasContact workspace_id phone w'.contacts)
    × Untouched workspace_id w.contacts w'.contacts
