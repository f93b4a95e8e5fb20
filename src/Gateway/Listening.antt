-- ===== src/Gateway/Listening.antt =====
-- What a client of the gateway hears, src/modules/sessions/sessions.gateway.ts.
use api_wa_automation.Base.{
  ℕ, Bool, true, false, ◌≡◌, refl, ap, ◌∙◌, inl, inr, ◌==◌, List, [], ◌∷◌, ◌++◌, append_assoc,
  append-nil, if◌then◌else◌, Bool-cases, arith,
}
use mathlib.Core.Path.{ap₂}
use api_wa_automation.Base.Text.{Text}
use api_wa_automation.Data.Tenancy.{Key}
use api_wa_automation.World.{World, Event, Room, message_received}
use api_wa_automation.Gateway.{to_workspace, to_session, emit_message_received}
use api_wa_automation.Gateway.Rooms.{Sockets, join_workspace, join_session, leave_workspace, heard}

module _ ⦃sockets : Sockets⦄ where
  heard-append :
      (rooms : sockets.Rooms) (client : ℕ) (xs ys : List (Room × Event))
      → heard rooms client (xs ++ ys) ≡ heard rooms client xs ++ heard rooms client ys
  heard-append rooms client [] ys = refl
  heard-append rooms client ((r, e) ∷ xs) ys =
      let rest = heard-append rooms client xs ys in
      elim (Bool-cases (sockets.is_in client r rooms)) [
        | inl h ↦ ground arith
        | inr h ↦ ground arith
      ]

  abbrev copy : Bool → Event → List Event
  copy b e = if b then e ∷ [] else []

  -- An event that goes to a session and to its workspace is heard once for each of the two rooms.
  heard-emit_message_received :
      (rooms : sockets.Rooms) (client : ℕ) (ws sid : Key) (from body : Text) (now : ℕ) (w : World)
      → let e = message_received sid from body now in
        heard rooms client (emit_message_received ws sid from body now w).emitted
        ≡ (heard rooms client w.emitted ++ copy (sockets.is_in client (Room.session sid) rooms) e)
          ++ copy (sockets.is_in client (Room.workspace ws) rooms) e
  unfolding emit_message_received to_workspace to_session
  heard-emit_message_received rooms client ws sid from body now w =
      let e = message_received sid from body now in
      heard-append rooms client (w.emitted ++ (Room.session sid, e) ∷ [])
        ((Room.workspace ws, e) ∷ [])
      ∙ ap (λ xs. xs ++ copy (sockets.is_in client (Room.workspace ws) rooms) e)
          (heard-append rooms client w.emitted ((Room.session sid, e) ∷ []))

  -- Any client that asks for the rooms of a workspace and of a session is let in, whoever it is, and
  -- hears each incoming message of the session twice; when it leaves the workspace's room, which is
  -- the only one that can be left, it still hears the message, once.
  pub emit_message_received-overheard :
      (rooms : sockets.Rooms) (client : ℕ) (ws sid : Key) (from body : Text) (now : ℕ) (w : World)
      → let e = message_received sid from body now in
        let (_, inside) = join_workspace client ws rooms in
        let (_, both) = join_session client sid inside in
        let (_, after) = leave_workspace client ws both in
        let w' = emit_message_received ws sid from body now w in
        (heard both client w'.emitted ≡ heard both client w.emitted ++ e ∷ e ∷ [])
        × (heard after client w'.emitted ≡ heard after client w.emitted ++ e ∷ [])
  unfolding join_workspace join_session leave_workspace
  emit_message_received-overheard rooms client ws sid from body now w =
      let e = message_received sid from body now in
      let its : (client == client) ≡ true = ground arith in
      let ws_its : (ws == ws) ≡ true = ground arith in
      let sid_its : (sid == sid) ≡ true = ground arith in
      let inside = sockets.join client (Room.workspace ws) rooms in
      let both = sockets.join client (Room.session sid) inside in
      let after = sockets.leave client (Room.workspace ws) both in
      let in_ws = sockets.is_in-join client client (Room.workspace ws) (Room.workspace ws) rooms in
      let still_ws =
        sockets.is_in-join client client (Room.session sid) (Room.workspace ws) inside in
      let in_sid = sockets.is_in-join client client (Room.session sid) (Room.session sid) inside in
      let out_ws = sockets.is_in-leave client client (Room.workspace ws) (Room.workspace ws) both in
      let still_sid =
        sockets.is_in-leave client client (Room.workspace ws) (Room.session sid) both in
      let ws_true : sockets.is_in client (Room.workspace ws) both ≡ true = ground arith in
      let sid_true : sockets.is_in client (Room.session sid) both ≡ true = ground arith in
      let ws_false : sockets.is_in client (Room.workspace ws) after ≡ false = ground arith in
      let sid_after : sockets.is_in client (Room.session sid) after ≡ true = ground arith in
      (
        heard-emit_message_received both client ws sid from body now w
            ∙ ap₂ (λ a b. (heard both client w.emitted ++ copy a e) ++ copy b e) sid_true ws_true
            ∙ append_assoc (heard both client w.emitted) (e ∷ []) (e ∷ []),
        heard-emit_message_received after client ws sid from body now w
            ∙ ap₂ (λ a b. (heard after client w.emitted ++ copy a e) ++ copy b e) sid_after ws_false
            ∙ append-nil (heard after client w.emitted ++ e ∷ []),
      )
