-- ===== src/Contacts/Tenants.antt =====
-- What any endpoint that writes leaves of the contacts of other workspaces, and what it does for a
-- user who is not a member.
use api_wa_automation.Base.{
  true, ◌≡◌, ◌≢◌, refl, sym, subst, ◌∙◌, ◌⊎◌, inl, inr, some, List, Has, arith, any, Bool-cases,
  Option-cases,
}
use api_wa_automation.Value.{Js}
use api_wa_automation.Orm.{Orm}
use api_wa_automation.Orm.Laws.{by, save-untouched, remove-untouched}
use api_wa_automation.Data.Tenancy.{Key, Contact}
use api_wa_automation.World.{World, Exception, ok, err, forbidden, not_found, discard-state}
use api_wa_automation.Workspaces.Access.{IsOutsider, assert_member_sound, assert_member_outsider}
use api_wa_automation.Contacts
use api_wa_automation.Contacts.{
  ContactRow, CreateContactDto, UpdateContactDto, CreateContactGroupDto, UpdateContactGroupDto,
  created, updated, conflicts, fits, is_contact_of, is_group_of, save_contact, find_one, find_group,
  save_group,
}
use api_wa_automation.Contacts.Csv.{parse_csv_contacts}
use api_wa_automation.Contacts.Controller.{Request, handle}
use api_wa_automation.Contacts.Unscoped.{handle_request}
use api_wa_automation.Guards.Header.{FindOptions}
use api_wa_automation.Contacts.Table.{IsTable, Untouched}
use api_wa_automation.Contacts.Import.{import_many_lem}

module _ ⦃orm : Orm⦄ where
  same-Untouched : (ws : Key) (t : List Contact) → Untouched ws t t
  same-Untouched ws t y other = ((λ k. k), λ k. k)

  via : (ws : Key) (s t t' : List Contact) → t' ≡ t → Untouched ws s t → Untouched ws s t'
  via ws s t t' e = subst (Untouched ws s) (sym e)

  -- Saving a row of the workspace, under a key that no row of another workspace has.
  save_contact-Untouched :
      (ws : Key) (x : Contact) (w : World)
      → x.workspace_id ≡ ws
      → ((z : Contact) → Has z w.contacts → x.id ≡ z.id → z.workspace_id ≡ ws)
      → Untouched ws w.contacts (save_contact x w).1.contacts
  unfolding save_contact
  save_contact-Untouched ws x w hx old = elim (Bool-cases (fits x)) [
    | inr long ↦ via ws w.contacts w.contacts _ (ground arith) (same-Untouched ws w.contacts)
    | inl short ↦ elim (Bool-cases (any (conflicts x) w.contacts)) [
      | inl refused ↦ via ws w.contacts w.contacts _ (ground arith) (same-Untouched ws w.contacts)
      | inr free ↦ via ws w.contacts (orm.save (by Contact.id) x w.contacts) _ (ground arith) (
          save-untouched Contact.id (λ z. z.workspace_id ≢ ws) x w.contacts (λ other. other hx)
            (λ z hz e other. other (old z hz e)))
    ]
  ]

  find_one_sound :
      (id ws uid : Key) (w : World)
      → ((x : Contact) × (find_one id ws uid w ≡ (ok x, w))
          × Has x w.contacts
          × (x.workspace_id ≡ ws))
        ⊎ ((e : Exception) × (find_one id ws uid w ≡ (err e, w)))
  unfolding find_one
  find_one_sound id ws uid w = elim (assert_member_sound ws uid w) [
    | inr denied ↦ inr (forbidden "You are not a member of this workspace", ground arith)
    | inl (m, allowed, _, _, _) ↦
        elim (Option-cases (orm.find_one (is_contact_of id ws) w.contacts)) [
          | inl missing ↦ inr (not_found "Contact not found", ground arith)
          | inr (x, e) ↦ inl (
            x,
            ground arith,
            orm.find_one_has (is_contact_of id ws) w.contacts x e,
            ground (arith, orm.find_one_test _ _ _ e),
          )
        ]
  ]

  -- The endpoints of groups write no contact.
  create_group-contacts :
      (ws uid : Key) (dto : CreateContactGroupDto) (w : World)
      → (Contacts.create_group ws uid dto w).1.contacts ≡ w.contacts
  unfolding Contacts.create_group save_group
  create_group-contacts ws uid dto w = elim (assert_member_sound ws uid w) [
    | inr denied ↦ ground arith
    | inl (m, allowed, _, _, _) ↦ ground arith
  ]

  find_group-contacts :
      (id ws uid : Key) (w : World) → (find_group id ws uid w).1.contacts ≡ w.contacts
  unfolding find_group
  find_group-contacts id ws uid w = elim (assert_member_sound ws uid w) [
    | inr denied ↦ ground arith
    | inl (m, allowed, _, _, _) ↦ ground arith
  ]

  update_group-contacts :
      (id ws uid : Key) (dto : UpdateContactGroupDto) (w : World)
      → (Contacts.update_group id ws uid dto w).1.contacts ≡ w.contacts
  unfolding Contacts.update_group save_group
  update_group-contacts id ws uid dto w = ground (arith, find_group-contacts id ws uid w)

  remove_group-contacts :
      (id ws uid : Key) (w : World) → (Contacts.remove_group id ws uid w).1.contacts ≡ w.contacts
  unfolding Contacts.remove_group
  remove_group-contacts id ws uid w = ground (arith, find_group-contacts id ws uid w)

  create-Untouched :
      (ws uid : Key) (dto : CreateContactDto) (w : World)
      → Untouched ws w.contacts (Contacts.create ws uid dto w).1.contacts
  unfolding Contacts.create
  create-Untouched ws uid dto w = elim (assert_member_sound ws uid w) [
    | inr denied ↦ via ws w.contacts w.contacts _ (ground arith) (same-Untouched ws w.contacts)
    | inl (m, allowed, _, _, _) ↦
        let x = created (orm.new_key Contact.id w.contacts) ws dto in
        via ws w.contacts (save_contact x w).1.contacts _ (ground arith) (
          save_contact-Untouched ws x w refl
            (λ z hz e. absurd (orm.new_key_fresh Contact.id w.contacts z hz (sym e))))
  ]

  -- Saving another version of a row that was found.
  version-Untouched :
      (ws : Key) (x x' : Contact) (w : World)
      → IsTable w.contacts
      → Has x w.contacts
      → x.workspace_id ≡ ws
      → x'.id ≡ x.id
      → x'.workspace_id ≡ ws
      → Untouched ws w.contacts (save_contact x' w).1.contacts
  version-Untouched ws x x' w h hx hw e hw' =
      save_contact-Untouched ws x' w hw'
        (λ z hz k. let same : x ≡ z = h.keyed x z hx hz (sym e ∙ k) in rw (← same) hw)

  update-Untouched :
      (id ws uid : Key) (dto : UpdateContactDto) (w : World)
      → IsTable w.contacts
      → Untouched ws w.contacts (Contacts.update id ws uid dto w).1.contacts
  unfolding Contacts.update
  update-Untouched id ws uid dto w h = elim (find_one_sound id ws uid w) [
    | inr (reason, denied) ↦
        via ws w.contacts w.contacts _ (ground arith) (same-Untouched ws w.contacts)
    | inl (x, found, hx, hw) ↦
        via ws w.contacts (save_contact (updated x dto) w).1.contacts _ (ground arith)
          (version-Untouched ws x (updated x dto) w h hx hw refl hw)
  ]

  blacklist-Untouched :
      (id ws uid : Key) (w : World)
      → IsTable w.contacts
      → Untouched ws w.contacts (Contacts.blacklist id ws uid w).1.contacts
  unfolding Contacts.blacklist
  blacklist-Untouched id ws uid w h = elim (find_one_sound id ws uid w) [
    | inr (reason, denied) ↦
        via ws w.contacts w.contacts _ (ground arith) (same-Untouched ws w.contacts)
    | inl (x, found, hx, hw) ↦
        via ws w.contacts (save_contact (record x { is_blacklisted = true }) w).1.contacts _
          (ground arith)
          (version-Untouched ws x (record x { is_blacklisted = true }) w h hx hw refl hw)
  ]

  remove-Untouched :
      (id ws uid : Key) (w : World)
      → IsTable w.contacts
      → Untouched ws w.contacts (Contacts.remove id ws uid w).1.contacts
  unfolding Contacts.remove
  remove-Untouched id ws uid w h = elim (find_one_sound id ws uid w) [
    | inr (reason, denied) ↦
        via ws w.contacts w.contacts _ (ground arith) (same-Untouched ws w.contacts)
    | inl (x, found, hx, hw) ↦
        via ws w.contacts (orm.remove (by Contact.id) x w.contacts) _ (ground arith) (
          remove-untouched Contact.id (λ z. z.workspace_id ≢ ws) x w.contacts
            (λ z hz e other. other (let same : x ≡ z = h.keyed x z hx hz e in rw (← same) hw)))
  ]

  import_many-Untouched :
      (ws uid : Key) (rows : List ContactRow) (w : World)
      → IsTable w.contacts
      → Untouched ws w.contacts (Contacts.import_many ws uid rows w).1.contacts
  unfolding Contacts.import_many
  import_many-Untouched ws uid rows w h = elim (assert_member_sound ws uid w) [
    | inr denied ↦ via ws w.contacts w.contacts _ (ground arith) (same-Untouched ws w.contacts)
    | inl (m, allowed, _, _, _) ↦ elim (import_many_lem ws uid rows w m h allowed) [
      | inl (n, w', run, grows, _, _, _) ↦ via ws w.contacts w'.contacts _ (ground arith) grows.2
      | inr (x, w', run, grows, _) ↦ via ws w.contacts w'.contacts _ (ground arith) grows.2
    ]
  ]

module _ ⦃orm : Orm⦄ ⦃js : Js⦄ where
  handle-Untouched :
      (ws uid : Key) (request : Request) (w : World)
      → IsTable w.contacts
      → Untouched ws w.contacts (handle ws uid request w).1.contacts
  unfolding handle
  handle-Untouched ws uid (Request.create_group dto) w h =
      rw (discard-state, create_group-contacts ws uid dto w) (same-Untouched ws w.contacts)
  handle-Untouched ws uid (Request.update_group id dto) w h =
      rw (discard-state, update_group-contacts id ws uid dto w) (same-Untouched ws w.contacts)
  handle-Untouched ws uid (Request.remove_group id) w h =
      rw (remove_group-contacts id ws uid w) (same-Untouched ws w.contacts)
  handle-Untouched ws uid (Request.create dto) w h =
      rw discard-state (create-Untouched ws uid dto w)
  handle-Untouched ws uid (Request.import_csv file) w h =
      rw discard-state (import_many-Untouched ws uid (parse_csv_contacts file) w h)
  handle-Untouched ws uid (Request.update id dto) w h =
      rw discard-state (update-Untouched id ws uid dto w h)
  handle-Untouched ws uid (Request.remove id) w h = remove-Untouched id ws uid w h
  handle-Untouched ws uid (Request.blacklist id) w h =
      rw discard-state (blacklist-Untouched id ws uid w h)

  -- A user who is not a member is refused every request, and nothing changes.
  pub handle-outsider :
      (ws uid : Key) (request : Request) (w : World)
      → IsOutsider ws uid w
      → handle ws uid request w ≡ (err (forbidden "You are not a member of this workspace"), w)
  unfolding handle Contacts.create_group Contacts.update_group Contacts.remove_group Contacts.create
      Contacts.import_many Contacts.update Contacts.remove Contacts.blacklist find_one find_group
  handle-outsider ws uid (Request.create_group dto) w h =
      ground (arith, assert_member_outsider ws uid w h)
  handle-outsider ws uid _ w h = ground (arith, assert_member_outsider ws uid w h)

module _ ⦃orm : Orm⦄ ⦃js : Js⦄ ⦃options : FindOptions⦄ where
  -- Where the contacts have one row for a key, one for a workspace and a phone and no text too long for its
  -- column, a request of the
  -- endpoints that write which names a workspace, whatever it does or fails at, changes no contact of
  -- another workspace.
  pub handle_request-Untouched :
      (ws uid : Key) (request : Request) (w : World)
      → IsTable w.contacts
      → Untouched ws w.contacts (handle_request (some ws) uid request w).1.contacts
  unfolding handle_request
  handle_request-Untouched ws uid request w h = handle-Untouched ws uid request w h
