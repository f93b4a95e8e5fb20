-- ===== src/Contacts/Unscoped.antt =====
-- src/modules/contacts/contacts.service.ts where a request names no workspace: `workspaceId` is undefined,
-- so that no query asks for it and a row that is made has none, which its column refuses.
-- `handle_request` is an endpoint of contacts.controller.ts for either case.
use api_wa_automation.Base.{
  ◌+◌, true, false, ◌≡◌, inl, inr, ◌&&◌, ◌==◌, Option, none, some, List, [], ◌∷◌, Has, length,
  if◌then◌else◌, Option-cases, arith,
}
use api_wa_automation.Base.Text.{codes, text_eq, is_empty}
use api_wa_automation.Value.{Js}
use api_wa_automation.Orm.{Orm}
use api_wa_automation.Orm.Laws.{by}
use api_wa_automation.Data.Tenancy.{Key, Contact, ContactGroup, WorkspaceMember}
use api_wa_automation.World.{
  World, Action, Exception, not_found, plain, discard, throw, pure, gets, modify, or_throw, ◌>>=◌,
  ◌>>◌,
}
use api_wa_automation.Workspaces.{given}
use api_wa_automation.Guards.Header.{FindOptions, assert_any_member, is_any_membership}
use api_wa_automation.Contacts.{
  ContactRow, UpdateContactDto, ImportCounts, updated, merged, normalize_phone, save_contact,
  save_group,
}
use api_wa_automation.Contacts.Csv.{parse_csv_contacts}
use api_wa_automation.Contacts.Controller.{Request, handle}

abbrev no_workspace : Exception
no_workspace = plain (codes "null value in column violates not-null constraint")

module _ ⦃orm : Orm⦄ ⦃options : FindOptions⦄ where
  unfoldable pub find_any : Key → Key → Action Contact
  find_any id user_id = do
    assert_any_member none user_id
    or_throw (not_found "Contact not found")
        (← gets
          (λ w. orm.find_one (λ x. x.id == id && options.matches none x.workspace_id) w.contacts))

  unfoldable pub update_any : Key → Key → UpdateContactDto → Action Contact
  update_any id user_id dto = do x ← find_any id user_id; save_contact (updated x dto)

  unfoldable pub find_any_group : Key → Key → Action ContactGroup
  find_any_group id user_id = do
    assert_any_member none user_id
    or_throw (not_found "Group not found")
        (← gets
          (λ w. orm.find_one (λ g. g.id == id && options.matches none g.workspace_id) w.groups))

  abbrev pub upsert_any : ContactRow → ImportCounts → Option Contact → Action ImportCounts
  upsert_any row n none = throw no_workspace
  upsert_any row n (some existing) = do
    save_contact (merged existing row)
    pure (record n { updated = n.updated + 1 })

  unfoldable pub import_any : List ContactRow → ImportCounts → Action ImportCounts
  import_any [] n = pure n
  import_any (row ∷ rows) n = do
    existing ← gets (λ w.
        orm.find_one
          (λ x. options.matches none x.workspace_id && text_eq x.phone (normalize_phone row.phone))
          w.contacts)
    n' ←
        (if is_empty (normalize_phone row.phone)
          then pure (record n { skipped = n.skipped + 1 })
          else upsert_any row n existing)
    import_any rows n'

  -- A member of any workspace changes the contacts of all.
  update_any_unscoped :
      (id uid : Key) (dto : UpdateContactDto) (m : WorkspaceMember) (x : Contact) (w : World)
      → Has m w.members
      → m.user_id ≡ uid
      → Has x w.contacts
      → x.id ≡ id
      → (y : Contact) × Has y w.contacts
        × (y.id ≡ id)
        × (update_any id uid dto w ≡ save_contact (updated y dto) w)
  unfolding update_any find_any assert_any_member
  update_any_unscoped id uid dto m x w member its row named =
      let p = is_any_membership none uid in
      let q = λ (y : Contact). y.id == id && options.matches none y.workspace_id in
      let every = options.matches-none in
      elim (Option-cases (orm.find_one p w.members)) [
        | inl e ↦
            let meets = every m.workspace_id in
            let lost : p m ≡ false = orm.find_one_absent p w.members e m member in
            absurd (ground arith)
        | inr (n, e) ↦ elim (Option-cases (orm.find_one q w.contacts)) [
          | inl missing ↦
              let meets = every x.workspace_id in
              let lost : q x ≡ false = orm.find_one_absent q w.contacts missing x row in
              absurd (ground arith)
          | inr (y, found) ↦
              let test : q y ≡ true = orm.find_one_test q w.contacts y found in
              (y, orm.find_one_has q w.contacts y found, ground arith, ground arith)
        ]
      ]

module _ ⦃orm : Orm⦄ ⦃options : FindOptions⦄ ⦃js : Js⦄ where
  unfoldable pub handle_any : Key → Request → Action (Unit {0})
  unfolding update_any import_any
  handle_any uid (Request.create_group dto) = do assert_any_member none uid; throw no_workspace
  handle_any uid (Request.update_group id dto) = do
    g ← find_any_group id uid
    discard (
        save_group (record g {
          name = given dto.name g.name;
          contact_ids = given dto.contact_ids g.contact_ids;
        }))
  handle_any uid (Request.remove_group id) = do
    g ← find_any_group id uid
    modify (λ w. record w { groups = orm.remove (by ContactGroup.id) g w.groups })
  handle_any uid (Request.create dto) = do assert_any_member none uid; throw no_workspace
  handle_any uid (Request.import_csv file) = do
    assert_any_member none uid
    let rows = parse_csv_contacts file
    discard
        (import_any rows (record { created = 0; updated = 0; skipped = 0; total = length rows }))
  handle_any uid (Request.update id dto) = discard (update_any id uid dto)
  handle_any uid (Request.remove id) = do
    x ← find_any id uid
    modify (λ w. record w { contacts = orm.remove (by Contact.id) x w.contacts })
  handle_any uid (Request.blacklist id) = do
    x ← find_any id uid
    discard (save_contact (record x { is_blacklisted = true }))

  -- An endpoint, for the workspace that the header or the query names, if any.
  unfoldable pub handle_request : Option Key → Key → Request → Action (Unit {0})
  unfolding handle handle_any
  handle_request none uid r = handle_any uid r
  handle_request (some ws) uid r = handle ws uid r
