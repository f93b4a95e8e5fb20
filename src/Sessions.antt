-- ===== src/Sessions.antt =====
-- src/modules/sessions/sessions.service.ts: the WhatsApp sessions of a workspace.
-- `now` is what `new Date()` reads and `random_hex` what `randomBytes(6)` gives in hex.
pub mod Status
pub mod Controller
use api_wa_automation.Base.{
  ℕ, Bool, true, false, not, ◌&&◌, Option, none, some, List, [], ◌∷◌, ◌++◌, ◌==◌, any, map,
  if◌then◌else◌,
}
use api_wa_automation.Base.Text.{Text, codes, text_eq, or_else}
use api_wa_automation.Value.{Value, null, str, Props, own, is_truthy, value_or_null}
use api_wa_automation.Orm.{Orm}
use api_wa_automation.Encryption.{Crypto}
use api_wa_automation.Data.Tenancy.{
  Key, Session, SessionStatus, idle, connecting, connected, disconnected, error, status_eq,
  same_session,
}
use api_wa_automation.World.{
  World, Action, Result, ok, err, not_found, pure, gets, modify, or_throw, ignoring_errors, ◌>>=◌,
  ◌>>◌,
}
use api_wa_automation.Workspaces.{
  given, managers, assert_member, assert_role, get_openwa_credentials,
}
use api_wa_automation.Openwa.{
  Server, start_session, terminate_session, get_connection_state, get_qr_code,
}
use api_wa_automation.Gateway.{emit_session_status, emit_session_qr}

pub record CreateSessionDto : Type 0 where
  pub name : Text
  pub session_id : Option Text

pub record UpdateSessionDto : Type 0 where
  pub name : Option Text

-- `where: { id, workspaceId }`
abbrev pub is_session_of : Key → Key → Session → Bool
is_session_of id workspace_id s = s.id == id && s.workspace_id == workspace_id

abbrev pub has_session_key : Key → Session → Bool
has_session_key id s = s.id == id

-- `dto.sessionId || …`
abbrev session_id_or : Option Text → Text → Text
session_id_or none generated = generated
session_id_or (some s) generated = or_else s generated

-- The `switch` of `mapState`, on a string.
unfoldable pub map_text : Text → Option SessionStatus
map_text state =
    if text_eq state (codes "CONNECTED")
    then some connected
    else if any (text_eq state)
        (map codes ("TIMEOUT" ∷ "UNLAUNCHED" ∷ "UNPAIRED" ∷ "UNPAIRED_IDLE" ∷ []))
    then some disconnected
    else if any (text_eq state) (map codes ("OPENING" ∷ "PAIRING" ∷ []))
    then some connecting
    else if text_eq state (codes "CONFLICT")
    then some error
    else none

unfoldable pub map_state : Value → Option SessionStatus
map_state (str state) = map_text state
map_state _ = none

-- `(res?.response as string) || null`
abbrev remote_state_of : Result Props → Value
remote_state_of (ok res) = value_or_null (own (codes "response") res)
remote_state_of (err _) = null

-- `(res.response as string) || (res as any).qr || null`
abbrev qr_of : Props → Value
qr_of res =
    let response = own (codes "response") res in
    if is_truthy response then response else value_or_null (own (codes "qr") res)

module _ ⦃orm : Orm⦄ where
  unfoldable pub save_session : Session → Action Session
  save_session x = do
    modify (λ w. record w { sessions = orm.save same_session x w.sessions })
    pure x

  unfoldable pub find_all : Key → Key → Action (List Session)
  find_all workspace_id user_id = do
    assert_member workspace_id user_id
    gets (λ w. orm.find (λ s. s.workspace_id == workspace_id) w.sessions)

  unfoldable pub find_one : Key → Key → Key → Action Session
  find_one id workspace_id user_id = do
    assert_member workspace_id user_id
    or_throw (not_found "Session not found")
        (← gets (λ w. orm.find_one (is_session_of id workspace_id) w.sessions))

  unfoldable pub get_by_id : Key → Action Session
  get_by_id id = do
    or_throw (not_found "Session not found")
        (← gets (λ w. orm.find_one (has_session_key id) w.sessions))

  unfoldable pub find_by_openwa_session_id : Text → Action (Option Session)
  find_by_openwa_session_id openwa_session_id =
      gets (λ w. orm.find_one (λ s. text_eq s.session_id openwa_session_id) w.sessions)

  unfoldable pub create : Text → Key → Key → CreateSessionDto → Action Session
  create random_hex workspace_id user_id dto = do
    assert_role workspace_id user_id managers
    id ← gets (λ w. orm.new_key Session.id w.sessions)
    save_session (record {
      id = id;
      workspace_id = workspace_id;
      session_id = session_id_or dto.session_id (codes "s_" ++ random_hex);
      name = dto.name;
      phone_number = none;
      status = idle;
      last_active_at = none;
    })

  unfoldable pub update : Key → Key → Key → UpdateSessionDto → Action Session
  update id workspace_id user_id dto = do
    s ← find_one id workspace_id user_id
    save_session (record s { name = given dto.name s.name })

  -- Its callers leave out the phone.
  unfoldable pub set_status : ℕ → Session → SessionStatus → Action (Unit {0})
  set_status now s status = do
    save_session (record s { status = status; last_active_at = some now })
    modify (emit_session_status s.workspace_id s.id status s.phone_number)

  -- `if (mapped && mapped !== session.status) …`, and the status that is returned
  unfoldable pub sync_status : ℕ → Session → Option SessionStatus → Action SessionStatus
  sync_status now s none = pure s.status
  sync_status now s (some mapped) =
      if status_eq mapped s.status
      then pure mapped
      else (set_status now s mapped >>= λ _. pure mapped)

module _ ⦃orm : Orm⦄ ⦃c : Crypto⦄ ⦃server : Server⦄ (enc_key : Text) where
  unfoldable pub remove : Key → Key → Key → Action (Unit {0})
  remove id workspace_id user_id = do
    assert_role workspace_id user_id managers
    s ← find_one id workspace_id user_id
    creds ← get_openwa_credentials enc_key workspace_id
    ignoring_errors (terminate_session creds s.session_id)
    modify (λ w. record w { sessions = orm.remove same_session s w.sessions })

  unfoldable pub start : ℕ → Key → Key → Key → Action (Option Session)
  start now id workspace_id user_id = do
    s ← find_one id workspace_id user_id
    creds ← get_openwa_credentials enc_key workspace_id
    set_status now s connecting
    start_session creds s.session_id
    gets (λ w. orm.find_one (has_session_key id) w.sessions)

  unfoldable pub stop : ℕ → Key → Key → Key → Action (Option Session)
  stop now id workspace_id user_id = do
    s ← find_one id workspace_id user_id
    creds ← get_openwa_credentials enc_key workspace_id
    terminate_session creds s.session_id
    set_status now s disconnected
    gets (λ w. orm.find_one (has_session_key id) w.sessions)

  unfoldable pub get_qr : Key → Key → Key → Action Value
  get_qr id workspace_id user_id = do
    s ← find_one id workspace_id user_id
    creds ← get_openwa_credentials enc_key workspace_id
    res ← get_qr_code creds s.session_id
    let qr = qr_of res
    modify (λ w. if is_truthy qr then emit_session_qr workspace_id id qr w else w)
    pure qr

  -- The state that the server reports, `null` if the call fails.
  unfoldable pub remote_state : Key → Session → Action Value
  remote_state workspace_id s = do
    creds ← get_openwa_credentials enc_key workspace_id
    λ w. let (res, w') = get_connection_state creds s.session_id w in (ok (remote_state_of res), w')

  unfoldable pub get_status : ℕ → Key → Key → Key → Action (SessionStatus × Value)
  get_status now id workspace_id user_id = do
    s ← find_one id workspace_id user_id
    state ← remote_state workspace_id s
    status ← sync_status now s (map_state state)
    pure (status, state)
