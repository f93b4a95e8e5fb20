-- ===== src/Tests/Tenancy.antt =====
-- The theorems on workspaces, sessions, stored keys, templates and the OpenWA client, applied to the
-- small state.
use api_wa_automation.Data.Tenancy.{connecting}
use api_wa_automation.Openwa.{failure}
use api_wa_automation.Openwa.{error_status}
use api_wa_automation.World.{http}
use api_wa_automation.World.{err}
use api_wa_automation.Tests.{refusing_server}
use api_wa_automation.Base.{true, ◌≡◌, refl, sym, ◌∙◌, inl, inr, some, [], ◌∷◌, ◌++◌, Has, arith}
use api_wa_automation.Base.Text.{codes}
use api_wa_automation.Value.{str, end, prop}
use api_wa_automation.Orm.Lists.{list_orm}
use api_wa_automation.Data.Tenancy.{Workspace, owner, Session, connected}
use api_wa_automation.Data.Accounts.{User}
use api_wa_automation.Data.Campaign.{draft}
use api_wa_automation.World.{World, ok}
use api_wa_automation.Encryption.{encrypt, decrypt}
use api_wa_automation.Encryption.RoundTrip.{decrypt-encrypt}
use api_wa_automation.Template.{render_template}
use api_wa_automation.Template.Laws.{render_template-placeholder}
use api_wa_automation.Workspaces
use api_wa_automation.Workspaces.{
  CreateWorkspaceDto, InviteMemberDto, OpenwaCredentials, assert_member, assert_role, managers,
  find_workspace, get_openwa_credentials, remove_member,
}
use api_wa_automation.Workspaces.Access.{create-get_openwa_credentials}
use api_wa_automation.Workspaces.Owners.{HasKeys, remove_member-keeps_owner}
use api_wa_automation.Openwa.{get_connection_state}
use api_wa_automation.Sessions
use api_wa_automation.Sessions.{is_session_of}
use api_wa_automation.Sessions.Status.{get_status-stored, start_refused}
use api_wa_automation.Tests.{
  plain_js, plain_crypto, kind_server, iv, secret, shop_credentials, shop_owner, phone_session,
  small_world,
}

abbrev w : World
w = small_world draft

decrypt-encrypt_example : decrypt (encrypt iv (codes "key") secret) secret ≡ ok (codes "key")
decrypt-encrypt_example = decrypt-encrypt iv (codes "key") secret refl refl refl

render_template-placeholder_example :
    render_template
      (codes "{{" ++ (codes "me" ++ (codes "}}" ++ codes "!")))
      (prop (codes "me") (str (codes "Ann")) end)
    ≡ codes "Ann" ++ render_template (codes "!") (prop (codes "me") (str (codes "Ann")) end)
render_template-placeholder_example =
    render_template-placeholder (prop (codes "me") (str (codes "Ann")) end) (codes "me")
      (codes "Ann") (codes "!") refl (refl, (refl, tt)) (refl, (refl, tt)) refl

abbrev second_shop : CreateWorkspaceDto
second_shop = record {
  name = codes "second";
  openwa_base_url = codes "http://wa";
  openwa_api_key = codes "key";
}

create-get_openwa_credentials_example :
    let (r, w') = Workspaces.create secret iv 2 second_shop w in
    (x : Workspace) × (r ≡ ok x)
    × (get_openwa_credentials secret x.id w'
        ≡ (ok (record { base_url = codes "http://wa"; api_key = codes "key" }), w'))
create-get_openwa_credentials_example =
    create-get_openwa_credentials secret iv 2 second_shop w refl refl refl

one_each : HasKeys w.members
one_each a b (inl ea) (inl eb) same = ea ∙ sym eb
one_each a b (inl ea) (inr (inl eb)) same = absurd (ground arith)
one_each a b (inr (inl ea)) (inl eb) same = absurd (ground arith)
one_each a b (inr (inl ea)) (inr (inl eb)) same = ea ∙ sym eb
one_each a b (inl ea) (inr (inr h)) same = absurd h
one_each a b (inr (inl ea)) (inr (inr h)) same = absurd h
one_each a b (inr (inr h)) hb same = absurd h

remove_member-keeps_owner_example : Has shop_owner (remove_member 1 2 1 w).1.members
remove_member-keeps_owner_example =
    remove_member-keeps_owner 1 2 1 w shop_owner one_each (inl refl) refl

abbrev bob : User
bob = record { id = 8; name = codes "Bob"; email = codes "bob@x"; password = []; is_active = true }

abbrev world_with_bob : World
world_with_bob = record w { users = bob ∷ [] }

abbrev bob_as_owner : InviteMemberDto
bob_as_owner = record { email = codes "bob@x"; role = some owner }

session_read : Sessions.find_one 5 1 1 w ≡ (ok phone_session, w)
unfolding Sessions.find_one assert_member
session_read = refl

credentials_read : get_openwa_credentials secret 1 w ≡ (ok shop_credentials, w)
unfolding get_openwa_credentials find_workspace encrypt decrypt
credentials_read = refl

owner_found : assert_role 1 1 managers w ≡ (ok shop_owner, w)
unfolding assert_role assert_member
owner_found = refl

start_refused_example :
    let (r, w') = Sessions.start ⦃server = refusing_server⦄ secret 10 5 1 1 w in
    (r ≡ err (http (error_status (some 404)) (failure "start")))
    × (list_orm.find_one (is_session_of 5 1) w'.sessions
        ≡ some (record phone_session { status = connecting; last_active_at = some 10 }))
start_refused_example =
    start_refused ⦃server = refusing_server⦄ secret 10 5 1 1 w phone_session shop_credentials
      (some 404) session_read credentials_read refl

status_read :
    (Sessions.get_status ⦃server = kind_server⦄ secret 10 5 1 1 w).0
    ≡ ok (connected, str (codes "CONNECTED"))
unfolding Sessions.get_status Sessions.find_one assert_member Sessions.remote_state
    get_openwa_credentials find_workspace decrypt encrypt Sessions.sync_status get_connection_state
    Sessions.map_state Sessions.map_text
status_read = refl

get_status-stored_example :
    (s : Session) × (list_orm.find_one
        (is_session_of 5 1)
        (Sessions.get_status ⦃server = kind_server⦄ secret 10 5 1 1 w).1.sessions
      ≡ some s)
    × (s.status ≡ connected)
get_status-stored_example =
    get_status-stored ⦃server = kind_server⦄ secret 10 5 1 1 connected (str (codes "CONNECTED")) w
      status_read
