-- ===== src/Automations/Inbound.antt =====
-- src/modules/automations/inbound.controller.ts: what OpenWA reports and the webhooks that trigger
-- automations, with the guard of src/common/guards/master-key.guard.ts. `now` is the time of a
-- request in milliseconds.
use api_wa_automation.Base.{ℕ, Bool, true, false, not, ◌||◌, Option, none, some, ◌++◌}
use api_wa_automation.Base.Text.{Text, codes, text_eq, is_empty, truthy}
use api_wa_automation.Value.{Js, Value, null, str, Props, prop, end, obj, with_prop}
use api_wa_automation.Template.{render_template}
use api_wa_automation.Orm.{Orm}
use api_wa_automation.Data.Tenancy.{Key, Session}
use api_wa_automation.Data.Messaging.{MessageLog, MessageType, inbound, MessageStatus}
use api_wa_automation.Data.Automation.{Automation, TriggerConfig}
use api_wa_automation.World.{
  Action, pure, gets, modify, throw_if, unauthorized, ignoring_errors, ◌>>=◌, ◌>>◌,
}
use api_wa_automation.Gateway.{emit_message_received}
use api_wa_automation.Messages.{record_log}
use api_wa_automation.Sessions.{find_by_openwa_session_id}
use api_wa_automation.Webhooks
use api_wa_automation.Automations.Trigger.{IncomingMessageContext}
use api_wa_automation.Automations.Interface.{Uuid}
use api_wa_automation.Automations.Service.{
  enqueue_run, find_by_webhook_path, dispatch_incoming_message,
}

pub record InboundMessageDto : Type 0 where
  pub session : Text
  pub from : Text
  pub body : Text
  pub is_group_msg : Option Bool

-- `!expected || provided !== expected`
abbrev pub is_wrong_key : Option Text → Option Text → Bool
is_wrong_key expected none = true
is_wrong_key none (some provided) = true
is_wrong_key (some expected) (some provided) = is_empty expected || not (text_eq provided expected)

-- `expected` is the configured `openwa.masterKey`, `provided` the header `x-master-key`.
unfoldable pub master_key_guard : Option Text → Option Text → Action (Unit {0})
master_key_guard expected provided =
    throw_if (is_wrong_key expected provided) (unauthorized "Invalid master key")

abbrev pub inbound_log : Session → InboundMessageDto → MessageLog
inbound_log s dto = record {
  workspace_id = s.workspace_id;
  session_id = some s.id;
  automation_id = none;
  broadcast_id = none;
  direction = inbound;
  from_phone = some dto.from;
  to_phone = none;
  message_type = MessageType.text;
  content = some dto.body;
  status = MessageStatus.delivered;
  wa_message_id = none;
  error_message = none;
}

module _ ⦃uuid : Uuid⦄ where
  abbrev pub received_payload : Session → InboundMessageDto → Props
  received_payload s dto =
      prop (codes "sessionId") (uuid.value_of s.id)
        (prop (codes "from") (str dto.from) (prop (codes "message") (str dto.body) end))

  -- The session that the controller hands on with a message, or `null` for none.
  abbrev pub session_value : Option Key → Value
  session_value none = null
  session_value (some id) = uuid.value_of id

  abbrev pub session_prop : Session → Props
  session_prop s = prop (codes "sessionId") (uuid.value_of s.id) end

abbrev pub message_context : InboundMessageDto → IncomingMessageContext
message_context dto = record { message = dto.body; from = dto.from; is_group = dto.is_group_msg }

module _ ⦃orm : Orm⦄ ⦃js : Js⦄ ⦃uuid : Uuid⦄ where
  -- `none` for `{ ignored: true }`, else `matched`.
  abbrev pub receive : ℕ → InboundMessageDto → Option Session → Action (Option ℕ)
  receive now dto none = pure none
  receive now dto (some s) = do
    ignoring_errors (record_log (inbound_log s dto))
    modify (emit_message_received s.workspace_id s.id dto.from dto.body now)
    Webhooks.dispatch s.workspace_id (codes "message.received") (received_payload s dto)
    matched ← dispatch_incoming_message now s.workspace_id (message_context dto) (session_prop s)
    pure (some matched)

  unfoldable pub on_message : ℕ → InboundMessageDto → Action (Option ℕ)
  on_message now dto = do found ← find_by_openwa_session_id dto.session; receive now dto found

  -- The route `inbound/message`.
  unfoldable pub inbound_message :
      Option Text → Option Text → ℕ → InboundMessageDto → Action (Option ℕ)
  inbound_message expected provided now dto = do
    master_key_guard expected provided
    on_message now dto

module _ ⦃js : Js⦄ ⦃uuid : Uuid⦄ where
  -- `cfg.phone_field ? body[cfg.phone_field] : body.phone`
  abbrev pub hook_phone : TriggerConfig → Props → Value
  hook_phone config body =
      js.member (obj body)
        (elim (truthy config.phone_field) [ none ↦ codes "phone" | some field ↦ field ])

  abbrev pub addressed : Automation → Props → Props
  addressed a body =
      let phone = hook_phone a.trigger_config body in
      with_prop (codes "sessionId") (session_value a.session_id)
        (with_prop (codes "to") phone (with_prop (codes "from") phone body))

  abbrev pub hook_context : Automation → Props → Props
  hook_context a body = elim (truthy a.trigger_config.message_template) [
    | none ↦ addressed a body
    | some template ↦
        with_prop (codes "message") (str (render_template template body)) (addressed a body)
  ]

module _ ⦃orm : Orm⦄ ⦃js : Js⦄ ⦃uuid : Uuid⦄ where
  abbrev pub run_hook : ℕ → Props → Option Automation → Action Bool
  run_hook now body none = pure false
  run_hook now body (some a) = do modify (enqueue_run now a (hook_context a body)); pure true

  -- The route `automations/hook/:token`; `false` for `{ ignored: true }`.
  unfoldable pub webhook_trigger : ℕ → Text → Props → Action Bool
  webhook_trigger now token body = do
    found ← gets (find_by_webhook_path (codes "/trigger/" ++ token))
    run_hook now body found
