-- ===== src/Sessions/Status.antt =====
-- The stored status of a session after each operation, whatever the OpenWA server replies.
use api_wa_automation.Base.{
  ℕ, true, ◌≡◌, refl, ◌⊎◌, inl, inr, Option, none, some, List, arith, Option-cases, Bool-cases,
}
use api_wa_automation.Base.Text.{Text}
use api_wa_automation.Value.{Value, end}
use api_wa_automation.Orm.{Orm}
use api_wa_automation.Orm.Laws.{find_one-save}
use api_wa_automation.Encryption.{Crypto}
use api_wa_automation.Data.Tenancy.{
  Key, Session, SessionStatus, connecting, status_eq, same_session, WorkspaceMember,
}
use api_wa_automation.World.{World, Result-cases, ok, err, Exception, not_found, forbidden, http}
use api_wa_automation.Workspaces.{managers, assert_role, get_openwa_credentials, OpenwaCredentials}
use api_wa_automation.Workspaces.Access.{assert_member_sound, get_openwa_credentials_sound}
use api_wa_automation.Openwa.{
  Server, refused, failure, error_status, start_session, terminate_session, get_connection_state,
  request,
}
use api_wa_automation.Gateway.{emit_session_status}
use api_wa_automation.Sessions.{
  is_session_of, find_one, save_session, set_status, sync_status, remote_state, get_status,
  map_state, start, stop, remove,
}

status_eq-eq : (a b : SessionStatus) → status_eq a b ≡ true → a ≡ b
status_eq-eq a b h = ground arith

module _ ⦃orm : Orm⦄ where
  -- The row found by its key after it was saved.
  pub session-saved :
      (id workspace_id : Key) (s : Session) (t : List Session)
      → s.id ≡ id
      → s.workspace_id ≡ workspace_id
      → orm.find_one (is_session_of id workspace_id) (orm.save same_session s t) ≡ some s
  session-saved id workspace_id s t hi hw =
      find_one-save (is_session_of id workspace_id) same_session s t (ground arith)
        (λ y h. ground arith)

  pub find_one_sound :
      (id workspace_id user_id : Key) (w : World)
      → ((s : Session) × (find_one id workspace_id user_id w ≡ (ok s, w))
          × (s.id ≡ id)
          × (s.workspace_id ≡ workspace_id)
          × (orm.find_one (is_session_of id workspace_id) w.sessions ≡ some s))
        ⊎ ((e : Exception) × (find_one id workspace_id user_id w ≡ (err e, w)))
  unfolding find_one
  find_one_sound id workspace_id user_id w = elim (assert_member_sound workspace_id user_id w) [
    | inr denied ↦ inr (forbidden "You are not a member of this workspace", ground arith)
    | inl (m, allowed, _, _, _) ↦
        elim (Option-cases (orm.find_one (is_session_of id workspace_id) w.sessions)) [
          | inl missing ↦ inr (not_found "Session not found", ground arith)
          | inr (s, e) ↦ inl (
            s,
            ground arith,
            ground (arith, orm.find_one_test _ _ _ e),
            ground (arith, orm.find_one_test _ _ _ e),
            e,
          )
        ]
  ]

  set_status-stored :
      (now : ℕ) (id workspace_id : Key) (s : Session) (status : SessionStatus) (w : World)
      → s.id ≡ id
      → s.workspace_id ≡ workspace_id
      → ((set_status now s status w).0 ≡ ok tt)
        × (orm.find_one (is_session_of id workspace_id) (set_status now s status w).1.sessions
            ≡ some (record s { status = status; last_active_at = some now }))
  unfolding set_status save_session emit_session_status
  set_status-stored now id workspace_id s status w hi hw = (
    refl,
    session-saved id workspace_id (record s { status = status; last_active_at = some now })
        w.sessions hi hw,
  )

  -- A status that is synchronised is the one stored afterwards.
  sync_status-stored :
      (now : ℕ) (id workspace_id : Key) (s : Session) (mapped : Option SessionStatus) (w : World)
      → s.id ≡ id
      → s.workspace_id ≡ workspace_id
      → orm.find_one (is_session_of id workspace_id) w.sessions ≡ some s
      → (status : SessionStatus) × (s' : Session) × ((sync_status now s mapped w).0 ≡ ok status)
        × (orm.find_one (is_session_of id workspace_id) (sync_status now s mapped w).1.sessions
            ≡ some s')
        × (s'.status ≡ status)
  unfolding sync_status
  sync_status-stored now id workspace_id s none w hi hw h = (s.status, s, refl, h, refl)
  sync_status-stored now id workspace_id s (some mapped) w hi hw h =
      elim (Bool-cases (status_eq mapped s.status)) [
        | inl same ↦ (
          mapped,
          s,
          ground arith,
          ground arith,
          ground (arith, status_eq-eq mapped s.status same),
        )
        | inr differs ↦
            let (done, stored) = set_status-stored now id workspace_id s mapped w hi hw in
            (
              mapped,
              record s { status = mapped; last_active_at = some now },
              ground arith,
              ground arith,
              refl,
            )
      ]

module _ ⦃orm : Orm⦄ ⦃c : Crypto⦄ ⦃server : Server⦄ (enc_key : Text) where
  remote_state-sessions :
      (workspace_id : Key) (s : Session) (w : World)
      → (remote_state enc_key workspace_id s w).1.sessions ≡ w.sessions
  unfolding remote_state get_connection_state
  remote_state-sessions workspace_id s w =
      elim (get_openwa_credentials_sound enc_key workspace_id w) [
        | inl (creds, e) ↦ ground arith
        | inr (reason, e) ↦ ground arith
      ]

  -- A status that `getStatus` returns is the stored one: the row found by the session's key
  -- afterwards has it, whatever the server said.
  pub get_status-stored :
      (now : ℕ) (id workspace_id user_id : Key) (status : SessionStatus) (state : Value) (w : World)
      → (get_status enc_key now id workspace_id user_id w).0 ≡ ok (status, state)
      → (s : Session) × (orm.find_one
            (is_session_of id workspace_id)
            (get_status enc_key now id workspace_id user_id w).1.sessions
          ≡ some s)
        × (s.status ≡ status)
  unfolding get_status
  get_status-stored now id workspace_id user_id status state w h =
      elim (find_one_sound id workspace_id user_id w) [
        | inr (e, denied) ↦ absurd (ground arith)
        | inl (s, found, hi, hw, row) ↦
            elim (Result-cases (remote_state enc_key workspace_id s w).0) [
              | inr (e, failed) ↦ absurd (ground arith)
              | inl (state', answer) ↦
                  let (st, s', e, stored, same) =
                    sync_status-stored now id workspace_id s (map_state state')
                      (remote_state enc_key workspace_id s w).1 hi hw
                      (rw (remote_state-sessions workspace_id s w) row) in
                  (s', ground arith, ground arith)
            ]
      ]

  -- Stopping a session, found for the user in a workspace with credentials, that the server
  -- refuses to stop fails with the status made of the server's, and leaves the stored sessions as
  -- they were.
  pub stop_refused :
      (now : ℕ) (id workspace_id user_id : Key) (w : World) (s : Session)
      (creds : OpenwaCredentials) (response : Option ℕ)
      → find_one id workspace_id user_id w ≡ (ok s, w)
      → get_openwa_credentials enc_key workspace_id w ≡ (ok creds, w)
      → server.reply w.calls (request creds "kill" end s.session_id) ≡ refused response
      → let (r, w') = stop enc_key now id workspace_id user_id w in
        (r ≡ err (http (error_status response) (failure "kill"))) × (w'.sessions ≡ w.sessions)
  unfolding stop terminate_session
  stop_refused now id workspace_id user_id w s creds response hs hc hr = ground arith

  -- Starting a session, found for the user in a workspace with credentials, that the server
  -- refuses to start fails too, but the session has been stored as connecting and is found so.
  pub start_refused :
      (now : ℕ) (id workspace_id user_id : Key) (w : World) (s : Session)
      (creds : OpenwaCredentials) (response : Option ℕ)
      → find_one id workspace_id user_id w ≡ (ok s, w)
      → get_openwa_credentials enc_key workspace_id w ≡ (ok creds, w)
      → server.reply w.calls (request creds "start" end s.session_id) ≡ refused response
      → let (r, w') = start enc_key now id workspace_id user_id w in
        (r ≡ err (http (error_status response) (failure "start")))
        × (orm.find_one (is_session_of s.id s.workspace_id) w'.sessions
            ≡ some (record s { status = connecting; last_active_at = some now }))
  unfolding start start_session set_status save_session emit_session_status
  start_refused now id workspace_id user_id w s creds response hs hc hr = (
    ground arith,
    ground (
      arith,
      session-saved s.id s.workspace_id
          (record s { status = connecting; last_active_at = some now }) w.sessions refl refl,
    ),
  )

  -- A session that is found for a user who may manage a workspace with credentials is removed,
  -- whatever the server replies.
  pub remove_regardless :
      (id workspace_id user_id : Key) (w : World) (s : Session) (creds : OpenwaCredentials)
      (m : WorkspaceMember)
      → assert_role workspace_id user_id managers w ≡ (ok m, w)
      → find_one id workspace_id user_id w ≡ (ok s, w)
      → get_openwa_credentials enc_key workspace_id w ≡ (ok creds, w)
      → let (r, w') = remove enc_key id workspace_id user_id w in
        (r ≡ ok tt) × (w'.sessions ≡ orm.remove same_session s w.sessions)
  unfolding remove terminate_session
  remove_regardless id workspace_id user_id w s creds m hm hs hc = (ground arith, ground arith)
