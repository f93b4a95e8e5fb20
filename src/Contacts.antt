-- ===== src/Contacts.antt =====
-- src/modules/contacts/contacts.service.ts: the contacts and groups of a workspace.
pub mod Rows
pub mod Csv
pub mod Table
pub mod Upsert
pub mod Import
pub mod Controller
pub mod Unscoped
pub mod Tenants
use api_wa_automation.Base.{
  ℕ, ◌+◌, Bool, true, false, not, ◌&&◌, Option, none, some, List, [], ◌∷◌, ◌==◌, leb, any, length,
  select, if◌then◌else◌,
}
use api_wa_automation.Base.Text.{Text, codes, text_eq, digits, char_length, is_empty, truthy}
use api_wa_automation.Orm.{Orm}
use api_wa_automation.Orm.Laws.{by}
use api_wa_automation.Data.Tenancy.{Key, Contact, ContactGroup}
use api_wa_automation.World.{
  World, Action, not_found, plain, pure, gets, modify, or_throw, throw_if, ◌>>=◌, ◌>>◌,
}
pub use Rows.{ContactRow}
use api_wa_automation.Workspaces.{given, assert_member}

pub record CreateContactDto : Type 0 where
  pub name : Option Text
  pub phone : Text
  pub tags : Option (List Text)
  pub notes : Option Text
  pub is_blacklisted : Option Bool

pub record UpdateContactDto : Type 0 where
  pub name : Option Text
  pub phone : Option Text
  pub tags : Option (List Text)
  pub notes : Option Text
  pub is_blacklisted : Option Bool

pub record CreateContactGroupDto : Type 0 where
  pub name : Text
  pub contact_ids : Option (List Key)

pub record UpdateContactGroupDto : Type 0 where
  pub name : Option Text
  pub contact_ids : Option (List Key)

pub record ImportCounts : Type 0 where
  pub created : ℕ
  pub updated : ℕ
  pub skipped : ℕ
  pub total : ℕ

-- `v || d`
abbrev pub or_list : {A : Type 0} → Option (List A) → List A → List A
or_list none d = d
or_list (some v) d = v

abbrev or_false : Option Bool → Bool
or_false none = false
or_false (some b) = b

-- `v || old`, of an optional text and a nullable column
abbrev or_old : Option Text → Option Text → Option Text
or_old none old = old
or_old (some []) old = old
or_old (some (ch ∷ s)) old = some (ch ∷ s)

-- `if (tags?.length) x = tags`
abbrev tags_or_old : Option (List Text) → List Text → List Text
tags_or_old none old = old
tags_or_old (some []) old = old
tags_or_old (some (t ∷ ts)) old = t ∷ ts

-- An assignment of `Object.assign` to a nullable column.
abbrev given_some : Option Text → Option Text → Option Text
given_some none old = old
given_some (some s) old = some s

pub normalize_phone : Text → Text
normalize_phone phone = digits phone

abbrev pub is_contact_of : Key → Key → Contact → Bool
is_contact_of id workspace_id x = x.id == id && x.workspace_id == workspace_id

-- `where: { workspaceId, phone }`
abbrev pub has_phone : Key → Text → Contact → Bool
has_phone workspace_id phone x = x.workspace_id == workspace_id && text_eq x.phone phone

abbrev pub is_group_of : Key → Key → ContactGroup → Bool
is_group_of id workspace_id g = g.id == id && g.workspace_id == workspace_id

-- `@Unique(['workspaceId', 'phone'])`: two rows that the database does not hold together.
abbrev pub conflicts : Contact → Contact → Bool
conflicts x y = has_phone x.workspace_id x.phone y && not (x.id == y.id)

abbrev pub name_fits : Option Text → Bool
name_fits none = true
name_fits (some name) = leb (char_length name) 100

-- `varchar(100)` for the name and `varchar(20)` for the phone, which the database checks.
abbrev pub fits : Contact → Bool
fits x = name_fits x.name && leb (char_length x.phone) 20

abbrev pub created : Key → Key → CreateContactDto → Contact
created id workspace_id dto = record {
  id = id;
  workspace_id = workspace_id;
  name = truthy dto.name;
  phone = normalize_phone dto.phone;
  tags = or_list dto.tags [];
  is_blacklisted = or_false dto.is_blacklisted;
  notes = truthy dto.notes;
}

-- `if (dto.phone) dto.phone = this.normalizePhone(dto.phone)`
abbrev normalized : Option Text → Option Text
normalized none = none
normalized (some []) = some []
normalized (some (ch ∷ s)) = some (normalize_phone (ch ∷ s))

abbrev pub updated : Contact → UpdateContactDto → Contact
updated x dto = record x {
  name = given_some dto.name x.name;
  phone = given (normalized dto.phone) x.phone;
  tags = given dto.tags x.tags;
  notes = given_some dto.notes x.notes;
  is_blacklisted = given dto.is_blacklisted x.is_blacklisted;
}

abbrev pub imported : Key → Key → ContactRow → Contact
imported id workspace_id row = record {
  id = id;
  workspace_id = workspace_id;
  name = truthy row.name;
  phone = normalize_phone row.phone;
  tags = or_list row.tags [];
  is_blacklisted = false;
  notes = none;
}

abbrev pub merged : Contact → ContactRow → Contact
merged existing row = record existing {
  name = or_old row.name existing.name;
  tags = tags_or_old row.tags existing.tags;
}

-- `where: { workspaceId, id: In(contactIds) }`
abbrev pub is_among : Key → List Key → Contact → Bool
is_among workspace_id ids x = x.workspace_id == workspace_id && any (λ i. x.id == i) ids

module _ ⦃orm : Orm⦄ where
  -- `contacts.save`, which the database refuses if a text is too long for its column, and on a
  -- conflict.
  pub save_contact : Contact → Action Contact
  save_contact x = do
    throw_if (not (fits x)) (plain (codes "value too long for type character varying"))
    throw_if (any (conflicts x) (← gets World.contacts))
        (plain (codes "duplicate key value violates unique constraint"))
    modify (λ w. record w { contacts = orm.save (by Contact.id) x w.contacts })
    pure x

  pub create : Key → Key → CreateContactDto → Action Contact
  create workspace_id user_id dto = do
    assert_member workspace_id user_id
    id ← gets (λ w. orm.new_key Contact.id w.contacts)
    save_contact (created id workspace_id dto)

  pub find_one : Key → Key → Key → Action Contact
  find_one id workspace_id user_id = do
    assert_member workspace_id user_id
    or_throw (not_found "Contact not found")
        (← gets (λ w. orm.find_one (is_contact_of id workspace_id) w.contacts))

  pub update : Key → Key → Key → UpdateContactDto → Action Contact
  update id workspace_id user_id dto = do
    x ← find_one id workspace_id user_id
    save_contact (updated x dto)

  pub remove : Key → Key → Key → Action (Unit {0})
  remove id workspace_id user_id = do
    x ← find_one id workspace_id user_id
    modify (λ w. record w { contacts = orm.remove (by Contact.id) x w.contacts })

  pub blacklist : Key → Key → Key → Action Contact
  blacklist id workspace_id user_id = do
    x ← find_one id workspace_id user_id
    save_contact (record x { is_blacklisted = true })

  -- The `if (existing)` of the loop.
  pub upsert_row : Key → ContactRow → ImportCounts → Option Contact → Action ImportCounts
  upsert_row workspace_id row n (some existing) = do
    save_contact (merged existing row)
    pure (record n { updated = n.updated + 1 })
  upsert_row workspace_id row n none = do
    id ← gets (λ w. orm.new_key Contact.id w.contacts)
    save_contact (imported id workspace_id row)
    pure (record n { created = n.created + 1 })

  -- One round of the loop of `importMany`.
  pub import_row : Key → ContactRow → ImportCounts → Action ImportCounts
  import_row workspace_id row n = do
    existing ←
        gets (λ w. orm.find_one (has_phone workspace_id (normalize_phone row.phone)) w.contacts)
    if is_empty (normalize_phone row.phone)
        then pure (record n { skipped = n.skipped + 1 })
        else upsert_row workspace_id row n existing

  pub import_rows : Key → List ContactRow → ImportCounts → Action ImportCounts
  import_rows workspace_id [] n = pure n
  import_rows workspace_id (row ∷ rows) n =
      import_row workspace_id row n >>= import_rows workspace_id rows

  pub import_many : Key → Key → List ContactRow → Action ImportCounts
  import_many workspace_id user_id rows = do
    assert_member workspace_id user_id
    import_rows workspace_id rows
        (record { created = 0; updated = 0; skipped = 0; total = length rows })

  unfoldable pub resolve_phones : Key → List Key → Action (List Contact)
  resolve_phones workspace_id contact_ids =
      if is_empty contact_ids
      then pure []
      else gets (λ w.
        select (λ x. not x.is_blacklisted)
          (orm.find (is_among workspace_id contact_ids) w.contacts))

  unfoldable pub list_groups : Key → Key → Action (List ContactGroup)
  list_groups workspace_id user_id = do
    assert_member workspace_id user_id
    gets (λ w. orm.find (λ g. g.workspace_id == workspace_id) w.groups)

  pub save_group : ContactGroup → Action ContactGroup
  save_group g = do
    modify (λ w. record w { groups = orm.save (by ContactGroup.id) g w.groups })
    pure g

  pub find_group : Key → Key → Key → Action ContactGroup
  find_group id workspace_id user_id = do
    assert_member workspace_id user_id
    or_throw (not_found "Group not found")
        (← gets (λ w. orm.find_one (is_group_of id workspace_id) w.groups))

  pub create_group : Key → Key → CreateContactGroupDto → Action ContactGroup
  create_group workspace_id user_id dto = do
    assert_member workspace_id user_id
    id ← gets (λ w. orm.new_key ContactGroup.id w.groups)
    save_group (record {
      id = id;
      workspace_id = workspace_id;
      name = dto.name;
      contact_ids = or_list dto.contact_ids [];
    })

  pub update_group : Key → Key → Key → UpdateContactGroupDto → Action ContactGroup
  update_group id workspace_id user_id dto = do
    g ← find_group id workspace_id user_id
    save_group (record g {
      name = given dto.name g.name;
      contact_ids = given dto.contact_ids g.contact_ids;
    })

  pub remove_group : Key → Key → Key → Action (Unit {0})
  remove_group id workspace_id user_id = do
    g ← find_group id workspace_id user_id
    modify (λ w. record w { groups = orm.remove (by ContactGroup.id) g w.groups })
