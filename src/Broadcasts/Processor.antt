-- ===== src/Broadcasts/Processor.antt =====
-- src/modules/broadcasts/broadcast.processor.ts: a job sends a broadcast to its pending recipients.
-- The job waits twice for each recipient, for the OpenWA server and in `sleep`, and other requests
-- run meanwhile: `during_send i` and `during_pause i` are what they do to the state in the waits of
-- the i-th message. `clock i` is what `new Date()` reads then. The job keeps its own `Broadcast`
-- object throughout and saves it whole. Its waits for the database count as no time.
use api_wa_automation.Base.{
  ℕ, ◌+◌, Bool, true, false, ◌&&◌, Option, none, some, List, [], ◌∷◌, ◌==◌,
}
use api_wa_automation.Base.Text.{Text, codes}
use api_wa_automation.Value.{Js, Props, own, value_or_null}
use api_wa_automation.Template.{render_template}
use api_wa_automation.Orm.{Orm}
use api_wa_automation.Encryption.{Crypto}
use api_wa_automation.Data.Tenancy.{Key, Session}
use api_wa_automation.Data.Messaging.{
  MessageLog, MessageType, outbound, MessageStatus, BroadcastJob,
}
use api_wa_automation.Data.Campaign.{
  Broadcast, sending, done, is_cancelled, BroadcastRecipient, RecipientStatus, is_pending,
}
use api_wa_automation.World.{
  World, Action, Exception, Result, ok, err, message_of, pure, gets, modify, ignoring_errors, ◌>>=◌,
  ◌>>◌,
}
use api_wa_automation.Workspaces.{OpenwaCredentials, get_openwa_credentials}
use api_wa_automation.Sessions
use api_wa_automation.Messages.{record_log}
use api_wa_automation.Openwa.{Server, send_text}
use api_wa_automation.Gateway.{emit_broadcast_progress}
use api_wa_automation.Broadcasts.{save_broadcast, save_recipient, has_broadcast_key}

pub data Outcome : Type 0 where
  skipped cancelled : Outcome
  finished : (sent_count failed_count : ℕ) → Outcome

abbrev pub sent_log : Broadcast → Session → BroadcastRecipient → Text → Props → MessageLog
sent_log b s r message res = record {
  workspace_id = b.workspace_id;
  session_id = some s.id;
  automation_id = none;
  broadcast_id = some b.id;
  direction = outbound;
  from_phone = none;
  to_phone = some r.phone;
  message_type = MessageType.text;
  content = some message;
  status = MessageStatus.sent;
  wa_message_id = some (value_or_null (own (codes "response") res));
  error_message = none;
}

-- `fresh?.status === 'cancelled'`
abbrev pub is_stopped : Option Broadcast → Bool
is_stopped none = false
is_stopped (some fresh) = is_cancelled fresh.status

-- `where: { broadcastId, status: 'pending' }`
abbrev pub is_pending_of : Key → BroadcastRecipient → Bool
is_pending_of broadcast_id r = r.broadcast_id == broadcast_id && is_pending r.status

module _ ⦃orm : Orm⦄ ⦃js : Js⦄ ⦃server : Server⦄ (clock : ℕ → ℕ)
    (during_send during_pause : ℕ → World → World) where
  -- The `catch` block, in which `recipients.save` may throw again. The job's own broadcast comes back.
  unfoldable pub record_failed : Broadcast → BroadcastRecipient → Exception → Action Broadcast
  unfolding save_recipient
  record_failed b r e = do
    save_recipient
        (record r { status = RecipientStatus.failed; error_message = some (message_of e) })
    pure (record b { failed_count = b.failed_count + 1 })

  -- The end of the `try` block behind `recipients.save`.
  unfoldable pub record_saved :
      Broadcast → Session → BroadcastRecipient → Text → Props → Result (Unit {0}) → Action Broadcast
  unfolding record_log record_failed
  record_saved b s r message res (ok _) = do
    ignoring_errors (record_log (sent_log b s r message res))
    pure (record b { sent_count = b.sent_count + 1 })
  record_saved b s r message res (err e) = record_failed b r e

  -- What follows the call for one recipient: the end of the `try` block, or the `catch` block.
  unfoldable pub record_sent :
      ℕ → Broadcast → Session → BroadcastRecipient → Text → Result Props → Action Broadcast
  unfolding save_recipient record_saved record_failed
  record_sent i b s r message (ok res) w =
      let r' : BroadcastRecipient = record r {
        status = RecipientStatus.sent;
        sent_at = some (clock i);
      } in
      let (saved, w') = save_recipient r' w in record_saved b s r' message res saved w'
  record_sent i b s r message (err e) w = record_failed b r e w

  -- The end of a round of the loop.
  unfoldable pub end_round : ℕ → Broadcast → Action Broadcast
  unfolding save_broadcast emit_broadcast_progress
  end_round i b' = do
    save_broadcast b'
    modify (emit_broadcast_progress b'.workspace_id b'.id b'.sent_count b'.failed_count b'.total)
    modify (during_pause i)
    pure b'

  -- What follows the call in a round of the loop.
  unfoldable pub after_reply :
      ℕ → Broadcast → Session → BroadcastRecipient → Text → Result Props → Action Broadcast
  unfolding record_sent end_round
  after_reply i b s r message res = record_sent i b s r message res >>= end_round i

  -- One round of the loop, behind its check.
  unfoldable pub send_one :
      ℕ → OpenwaCredentials → Broadcast → Session → BroadcastRecipient → Action Broadcast
  unfolding send_text
  send_one i creds b s r w =
      let message = render_template b.template r.variables in
      let (res, w') = send_text creds s.session_id r.phone message w in
      after_reply i b s r message res (during_send i w')

  -- The loop from the i-th recipient on: `none` is the early return.
  unfoldable pub send_all :
      ℕ
      → OpenwaCredentials
      → Broadcast
      → Session
      → List BroadcastRecipient
      → Action (Option Broadcast)
  send_all i creds b s [] = pure (some b)
  send_all i creds b s (r ∷ rs) = do
    fresh ← gets (λ w. orm.find_one (has_broadcast_key b.id) w.broadcasts)
    elim (is_stopped fresh) [
      | true ↦ pure none
      | false ↦ send_one i creds b s r >>= λ b'. send_all (i + 1) creds b' s rs
    ]

  abbrev pub finish : ℕ → Option Broadcast → Action Outcome
  finish now none = pure cancelled
  finish now (some b) = do
    save_broadcast (record b { status = done; finished_at = some now })
    pure (finished b.sent_count b.failed_count)

module _ ⦃orm : Orm⦄ ⦃js : Js⦄ ⦃c : Crypto⦄ ⦃server : Server⦄ (enc_key : Text) (clock : ℕ → ℕ)
    (during_send during_pause : ℕ → World → World) where
  unfoldable pub run : ℕ → ℕ → Broadcast → Action Outcome
  run start_time end_time b = do
    s ← Sessions.get_by_id b.session_id
    creds ← get_openwa_credentials enc_key b.workspace_id
    started ← save_broadcast (record b { status = sending; started_at = some start_time })
    pending ← gets (λ w. orm.find (is_pending_of b.id) w.recipients)
    left ← send_all clock during_send during_pause 0 creds started s pending
    finish clock during_send during_pause end_time left

  unfoldable pub process : ℕ → ℕ → BroadcastJob → Action Outcome
  process start_time end_time job = do
    broadcast ← gets (λ w. orm.find_one (has_broadcast_key job.broadcast_id) w.broadcasts)
    elim broadcast [ none ↦ pure skipped | some b ↦ run start_time end_time b ]
