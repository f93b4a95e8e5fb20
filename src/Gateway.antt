-- ===== src/Gateway.antt =====
-- src/modules/sessions/sessions.gateway.ts: the emit helpers, and the rooms that a client is in.
pub mod Rooms
pub mod Listening
use api_wa_automation.Base.{ℕ, Option}
use api_wa_automation.Base.Text.{Text}
use api_wa_automation.Value.{Value}
use api_wa_automation.Data.Tenancy.{Key, SessionStatus}
use api_wa_automation.World.{
  World, Event, Room, emit, session_status, session_qr, message_received, message_sent,
  broadcast_progress, automation_triggered,
}

unfoldable pub to_workspace : Key → Event → World → World
to_workspace workspace_id event = emit (Room.workspace workspace_id) event

unfoldable pub to_session : Key → Event → World → World
to_session session_id event = emit (Room.session session_id) event

unfoldable pub emit_session_status : Key → Key → SessionStatus → Option Text → World → World
unfolding to_workspace to_session
emit_session_status workspace_id session_id status phone w =
    let payload = session_status session_id status phone in
    to_workspace workspace_id payload (to_session session_id payload w)

unfoldable pub emit_session_qr : Key → Key → Value → World → World
unfolding to_workspace to_session
emit_session_qr workspace_id session_id qr w =
    to_workspace workspace_id (session_qr session_id qr)
      (to_session session_id (session_qr session_id qr) w)

unfoldable pub emit_message_received : Key → Key → Text → Text → ℕ → World → World
unfolding to_workspace to_session
emit_message_received workspace_id session_id from message timestamp w =
    let payload = message_received session_id from message timestamp in
    to_workspace workspace_id payload (to_session session_id payload w)

unfoldable pub emit_message_sent : Key → Key → Text → Value → World → World
unfolding to_workspace to_session
emit_message_sent workspace_id session_id to message_id w =
    let payload = message_sent session_id to message_id in
    to_workspace workspace_id payload (to_session session_id payload w)

unfoldable pub emit_broadcast_progress : Key → Key → ℕ → ℕ → ℕ → World → World
unfolding to_workspace
emit_broadcast_progress workspace_id broadcast_id sent failed total =
    to_workspace workspace_id (broadcast_progress broadcast_id sent failed total)

unfoldable pub emit_automation_triggered : Key → Key → Value → ℕ → World → World
unfolding to_workspace
emit_automation_triggered workspace_id automation_id phone timestamp =
    to_workspace workspace_id (automation_triggered automation_id phone timestamp)
