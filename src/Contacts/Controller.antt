-- ===== src/Contacts/Controller.antt =====
-- src/modules/contacts/contacts.controller.ts: the endpoints that write, for a user and the
-- workspace that the request names: `WorkspaceId` has a value. Unscoped says what a request without
-- one does. A reply's body is left out here.
use api_wa_automation.Base.Text.{Text}
use api_wa_automation.Value.{Js}
use api_wa_automation.Orm.{Orm}
use api_wa_automation.Data.Tenancy.{Key}
use api_wa_automation.World.{Action, discard}
use api_wa_automation.Contacts
use api_wa_automation.Contacts.{
  CreateContactDto, UpdateContactDto, CreateContactGroupDto, UpdateContactGroupDto,
}
use api_wa_automation.Contacts.Csv.{parse_csv_contacts}

pub data Request : Type 0 where
  create_group : CreateContactGroupDto → Request
  update_group : Key → UpdateContactGroupDto → Request
  remove_group : Key → Request
  create : CreateContactDto → Request
  import_csv : Text → Request
  update : Key → UpdateContactDto → Request
  remove : Key → Request
  blacklist : Key → Request

module _ ⦃orm : Orm⦄ ⦃js : Js⦄ where
  unfoldable pub handle : Key → Key → Request → Action (Unit {0})
  handle ws uid (create_group dto) = discard (Contacts.create_group ws uid dto)
  handle ws uid (update_group id dto) = discard (Contacts.update_group id ws uid dto)
  handle ws uid (remove_group id) = Contacts.remove_group id ws uid
  handle ws uid (create dto) = discard (Contacts.create ws uid dto)
  handle ws uid (import_csv file) = discard (Contacts.import_many ws uid (parse_csv_contacts file))
  handle ws uid (update id dto) = discard (Contacts.update id ws uid dto)
  handle ws uid (remove id) = Contacts.remove id ws uid
  handle ws uid (blacklist id) = discard (Contacts.blacklist id ws uid)
