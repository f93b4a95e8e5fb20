-- ===== src/Contacts/Upsert.antt =====
-- The `if (existing)` of the CSV import on one row: what is stored, or refused as too long.
use api_wa_automation.Base.{
  ℕ, ◌+◌, Bool, Option, not, ◌||◌, leb, true, false, ◌≡◌, ◌≢◌, refl, sym, subst, ◌⊎◌, inl, inr,
  none, some, [], ◌∷◌, Has, arith, Bool-cases,
}
use api_wa_automation.Base.Text.{codes, truthy, char_length, Text, text_eq_refl, is_empty}
use api_wa_automation.Orm.{Orm}
use api_wa_automation.Orm.Laws.{by, save-persists, save-untouched}
use api_wa_automation.Data.Tenancy.{Key, Contact}
use api_wa_automation.World.{World, plain, Result, Exception, ok, err}
use api_wa_automation.Contacts.{
  save_contact, fits, name_fits, or_old, ContactRow, ImportCounts, conflicts, has_phone,
  normalize_phone, imported, merged, upsert_row,
}
use api_wa_automation.Contacts.Table.{IsTable, HasContact, saved-IsTable, save_contact_free, Grows}

abbrev pub counted : ImportCounts → ℕ
counted n = n.created + n.updated + n.skipped

-- The phone or the name of a row is too long for its column.
abbrev pub is_too_long : ContactRow → Bool
is_too_long row = not (name_fits row.name) || not (leb (char_length (normalize_phone row.phone)) 20)

name_fits-truthy : (name : Option Text) → name_fits name ≡ true → name_fits (truthy name) ≡ true
name_fits-truthy none h = refl
name_fits-truthy (some []) h = refl
name_fits-truthy (some (c ∷ s)) h = h

name_fits-or_old :
    (name old : Option Text)
    → name_fits name ≡ true
    → name_fits old ≡ true
    → name_fits (or_old name old) ≡ true
name_fits-or_old none old h k = k
name_fits-or_old (some []) old h k = k
name_fits-or_old (some (c ∷ s)) old h k = h

-- A round on one row: the counts before and after, and the state after it.
abbrev pub RowDone : Key → Text → ImportCounts → World → ImportCounts → World → Type 0
RowDone workspace_id phone n w n' w' =
    Grows workspace_id w w'
    × (counted n' ≡ counted n + 1)
    × (n'.total ≡ n.total)
    × ((is_empty phone ≡ true) ⊎ HasContact workspace_id phone w'.contacts)

module _ ⦃orm : Orm⦄ where
  upsert_row_existing :
      (workspace_id : Key) (row : ContactRow) (n : ImportCounts) (x : Contact) (w : World)
      → IsTable w.contacts
      → Has x w.contacts
      → fits (merged x row) ≡ true
      → has_phone workspace_id (normalize_phone row.phone) x ≡ true
      → (n' : ImportCounts) × (w' : World) × (upsert_row workspace_id row n (some x) w
          ≡ (ok n', w'))
        × RowDone workspace_id (normalize_phone row.phone) n w n' w'
  unfolding upsert_row
  upsert_row_existing workspace_id row n x w h hx short hp =
      let free = λ (b : Contact) (hb : Has b w.contacts). h.unique x b hx hb in
      (
        record n { updated = n.updated + 1 },
        record w { contacts = orm.save (by Contact.id) (merged x row) w.contacts },
        ground (arith, save_contact_free (merged x row) w short free),
        (
          (
            saved-IsTable (merged x row) w.contacts h short free,
            λ phone (y, hy, py).
                save-persists Contact.id (λ z. has_phone workspace_id phone z ≡ true) (merged x row)
                  w.contacts
                  (λ z hz e pz.
                    let same : z ≡ x = sym (h.keyed x z hx hz e) in
                    subst (λ v. has_phone workspace_id phone v ≡ true) same pz)
                  y hy py,
            save-untouched Contact.id (λ z. z.workspace_id ≢ workspace_id) (merged x row) w.contacts
                (λ other. other (ground arith))
                (λ z hz e other.
                  other (let same : x ≡ z = h.keyed x z hx hz e in rw (← same) (ground arith))),
          ),
          omega arith,
          refl,
          inr (merged x row, orm.save_self (by Contact.id) (merged x row) w.contacts, hp),
        ),
      )

  upsert_row_new :
      (workspace_id : Key) (row : ContactRow) (n : ImportCounts) (w : World)
      → IsTable w.contacts
      → fits (imported (orm.new_key Contact.id w.contacts) workspace_id row) ≡ true
      → ((b : Contact)
          → Has b w.contacts
          → has_phone workspace_id (normalize_phone row.phone) b ≡ false)
      → (n' : ImportCounts) × (w' : World) × (upsert_row workspace_id row n none w ≡ (ok n', w'))
        × RowDone workspace_id (normalize_phone row.phone) n w n' w'
  unfolding upsert_row
  upsert_row_new workspace_id row n w h short absent =
      let id = orm.new_key Contact.id w.contacts in
      let x = imported id workspace_id row in
      let free : (b : Contact) → Has b w.contacts → conflicts x b ≡ false =
        λ b hb. ground (arith, absent b hb) in
      (
        record n { created = n.created + 1 },
        record w { contacts = orm.save (by Contact.id) x w.contacts },
        ground (arith, save_contact_free x w short free),
        (
          (
            saved-IsTable x w.contacts h short free,
            λ phone (y, hy, py).
                save-persists Contact.id (λ z. has_phone workspace_id phone z ≡ true) x w.contacts
                  (λ z hz e pz. absurd (orm.new_key_fresh Contact.id w.contacts z hz (sym e))) y hy
                  py,
            save-untouched Contact.id (λ z. z.workspace_id ≢ workspace_id) x w.contacts
                (λ other. other refl)
                (λ z hz e other. orm.new_key_fresh Contact.id w.contacts z hz (sym e)),
          ),
          omega arith,
          refl,
          inr (
            x,
            orm.save_self (by Contact.id) x w.contacts,
            ground (arith, text_eq_refl (normalize_phone row.phone)),
          ),
        ),
      )

  -- Where a row is refused, its round changes nothing.
  upsert_row_refused :
      (workspace_id : Key) (row : ContactRow) (n : ImportCounts) (w : World)
      (existing : Option Contact)
      → elim existing [
        | none ↦ fits (imported (orm.new_key Contact.id w.contacts) workspace_id row)
        | some x ↦ fits (merged x row)
      ]
        ≡ false
      → (e : Exception) × (upsert_row workspace_id row n existing w ≡ (err e, w))
  unfolding upsert_row save_contact
  upsert_row_refused workspace_id row n w none long =
      (plain (codes "value too long for type character varying"), ground arith)
  upsert_row_refused workspace_id row n w (some x) long =
      (plain (codes "value too long for type character varying"), ground arith)

  merged-fits :
      (x : Contact) (row : ContactRow)
      → fits x ≡ true
      → is_too_long row ≡ false
      → fits (merged x row) ≡ true
  merged-fits x row h short =
      let named = name_fits-or_old row.name x.name (ground arith) (ground arith) in ground arith

  imported-fits :
      (id workspace_id : Key) (row : ContactRow)
      → is_too_long row ≡ false
      → fits (imported id workspace_id row) ≡ true
  imported-fits id workspace_id row short =
      let named = name_fits-truthy row.name (ground arith) in ground arith

  -- A round on one row does what it should, or the row is refused, as too long, and nothing changes.
  abbrev pub RowEnd : Key → ContactRow → ImportCounts → World → Result ImportCounts × World → Type 0
  RowEnd workspace_id row n w end =
      ((n' : ImportCounts) × (w' : World) × (end ≡ (ok n', w'))
        × RowDone workspace_id (normalize_phone row.phone) n w n' w')
      ⊎ ((e : Exception) × (end ≡ (err e, w)) × (is_too_long row ≡ true))

  pub upsert_row-RowEnd :
      (workspace_id : Key) (row : ContactRow) (n : ImportCounts) (w : World)
      → IsTable w.contacts
      → (existing : Option Contact)
      → orm.find_one (has_phone workspace_id (normalize_phone row.phone)) w.contacts ≡ existing
      → RowEnd workspace_id row n w (upsert_row workspace_id row n existing w)
  upsert_row-RowEnd workspace_id row n w h none missing =
      let x = imported (orm.new_key Contact.id w.contacts) workspace_id row in
      elim (Bool-cases (fits x)) [
        | inl short ↦
            inl (
              upsert_row_new workspace_id row n w h short
                (orm.find_one_absent _ w.contacts missing))
        | inr long ↦
            let (e, run) = upsert_row_refused workspace_id row n w none long in
            inr (
              e,
              run,
              elim (Bool-cases (is_too_long row)) [
                | inl t ↦ t
                | inr short ↦
                    let fitting = imported-fits x.id workspace_id row short in absurd (ground arith)
              ],
            )
      ]
  upsert_row-RowEnd workspace_id row n w h (some x) found =
      let there = orm.find_one_has _ w.contacts x found in
      elim (Bool-cases (fits (merged x row))) [
        | inl short ↦ inl (
            upsert_row_existing workspace_id row n x w h there short
              (orm.find_one_test _ w.contacts x found))
        | inr long ↦
            let (e, run) = upsert_row_refused workspace_id row n w (some x) long in
            inr (
              e,
              run,
              elim (Bool-cases (is_too_long row)) [
                | inl t ↦ t
                | inr short ↦
                    let fitting = merged-fits x row (h.fitting x there) short in
                    absurd (ground arith)
              ],
            )
      ]
