-- ===== src/Automations/Actions.antt =====
-- src/modules/automations/engine/action.engine.ts: the run of an automation's actions. Waiting
-- (`sleep`) changes no state and is left out; what other requests do meanwhile is not modelled.
use api_wa_automation.Base.{
  ℕ, zero, suc, ◌+◌, ◌*◌, Option, none, some, List, [], ◌∷◌, length, get_elem?, if◌then◌else◌, ◌≡◌,
  refl, ◌⊎◌, inl, inr,
}
use api_wa_automation.Base.Int.{ℤ, leb_ℤ, eq_ℤ}
use api_wa_automation.Base.Text.{Text, codes, truthy}
use api_wa_automation.Value.{Js, Value, undefined, null, bool, num, str, arr, obj, Props}
use api_wa_automation.Template.{render_template}
use api_wa_automation.Orm.{Orm}
use api_wa_automation.Data.Tenancy.{Key}
use api_wa_automation.Data.Messaging.{MessageLog, MessageType, outbound, MessageStatus}
use api_wa_automation.Data.Automation.{
  AutomationAction, ActionType, ActionConfig, send_text, send_image, send_file, forward, delay,
  condition, unknown,
}
use api_wa_automation.World.{
  World, Action, Exception, err, pure, throw, plain, ignoring_errors, ◌>>=◌, ◌>>◌,
}
use api_wa_automation.Workspaces.{OpenwaCredentials}
use api_wa_automation.Messages.{or_empty, or_text, media_value, record_log}
use api_wa_automation.Openwa
use api_wa_automation.Automations.Condition.{evaluate}

pub record ActionRunContext : Type 0 where
  pub workspace_id : Key
  pub session_id : Key
  pub openwa_session_id : Text
  pub creds : OpenwaCredentials
  pub to : Value
  pub automation_id : Option Key
  pub variables : Props

-- `sort((a, b) => a.order - b.order)`, which is stable.
unfoldable pub insert : AutomationAction → List AutomationAction → List AutomationAction
insert a [] = a ∷ []
insert a (b ∷ actions) = if leb_ℤ a.order b.order then a ∷ b ∷ actions else b ∷ insert a actions

unfoldable pub sort : List AutomationAction → List AutomationAction
sort [] = []
sort (a ∷ actions) = insert a (sort actions)

-- `findIndex((a) => a.order === next)`, or the length where that is -1.
unfoldable pub index_of : ℤ → List AutomationAction → ℕ
index_of next [] = 0
index_of next (a ∷ actions) = if eq_ℤ a.order next then 0 else suc (index_of next actions)

-- The index after an action at `index`.
abbrev pub next_index : List AutomationAction → ℕ → Option ℤ → ℕ
next_index sorted index none = suc index
next_index sorted index (some next) = index_of next sorted

-- `typeof target === 'number' ? target : undefined`
abbrev pub jump : Value → Option ℤ
jump (num n) = some n
jump _ = none

-- `phone` where `toChatId` starts with `phone.replace`
abbrev pub recipient : Value → Action Text
recipient (str s) = pure s
recipient undefined =
    throw (plain (codes "Cannot read properties of undefined (reading 'replace')"))
recipient null = throw (plain (codes "Cannot read properties of null (reading 'replace')"))
recipient _ = throw (plain (codes "phone.replace is not a function"))

-- A recipient is a text, or there is none and nothing happens.
pub recipient-cases :
    (v : Value)
    → ((to : Text) × (v ≡ str to)) ⊎ ((e : Exception) × ((w : World) → recipient v w ≡ (err e, w)))
recipient-cases (str s) = inl (s, refl)
recipient-cases undefined = inr (_, λ w. refl)
recipient-cases null = inr (_, λ w. refl)
recipient-cases (bool b) = inr (_, λ w. refl)
recipient-cases (num n) = inr (_, λ w. refl)
recipient-cases (arr items) = inr (_, λ w. refl)
recipient-cases (obj ps) = inr (_, λ w. refl)

-- `cfg.to || ctx.to`
abbrev pub forward_target : ActionConfig → ActionRunContext → Value
forward_target cfg ctx = elim (truthy cfg.to) [ none ↦ ctx.to | some to ↦ str to ]

-- `to` is `ctx.to`, once it is known to be a text.
abbrev pub log_entry : ActionRunContext → Text → MessageType → Option Text → MessageLog
log_entry ctx to type content = record {
  workspace_id = ctx.workspace_id;
  session_id = some ctx.session_id;
  automation_id = ctx.automation_id;
  broadcast_id = none;
  direction = outbound;
  from_phone = none;
  to_phone = some to;
  message_type = type;
  content = content;
  status = MessageStatus.sent;
  wa_message_id = none;
  error_message = none;
}

module _ ⦃orm : Orm⦄ ⦃js : Js⦄ ⦃server : Openwa.Server⦄ where
  unfoldable pub log : ActionRunContext → Text → MessageType → Option Text → Action (Unit {0})
  unfolding record_log
  log ctx to type content = ignoring_errors (record_log (log_entry ctx to type content))

  -- The `switch` of `execute`.
  unfoldable pub execute_as : ActionType → ActionConfig → ActionRunContext → Action (Option ℤ)
  unfolding log Openwa.send_text Openwa.send_image Openwa.send_file
  execute_as send_text cfg ctx = do
    let message = render_template (or_empty cfg.message) ctx.variables
    to ← recipient ctx.to
    Openwa.send_text ctx.creds ctx.openwa_session_id to message
    log ctx to MessageType.text (some message)
    pure none
  execute_as send_image cfg ctx = do
    let caption = render_template (or_empty cfg.caption) ctx.variables
    to ← recipient ctx.to
    Openwa.send_image ctx.creds ctx.openwa_session_id to (media_value cfg.image_url) caption
        (codes "image.jpg")
    log ctx to MessageType.image cfg.image_url
    pure none
  execute_as send_file cfg ctx = do
    to ← recipient ctx.to
    Openwa.send_file ctx.creds ctx.openwa_session_id to (media_value cfg.file_url)
        (or_text cfg.filename (codes "file")) (render_template (or_empty cfg.caption) ctx.variables)
    log ctx to MessageType.file cfg.file_url
    pure none
  execute_as forward cfg ctx = do
    let message = render_template (or_empty cfg.message) ctx.variables
    target ← recipient (forward_target cfg ctx)
    Openwa.send_text ctx.creds ctx.openwa_session_id target message
    pure none
  execute_as delay cfg ctx = pure none
  execute_as condition cfg ctx = pure (
      jump (
        if evaluate cfg.condition ctx.variables
        then cfg.condition.if_true_action_order
        else cfg.condition.if_false_action_order))
  execute_as unknown cfg ctx = pure none

  unfoldable pub execute : AutomationAction → ActionRunContext → Action (Option ℤ)
  execute action ctx = execute_as action.action_type action.action_config ctx

  -- The loop of `run`, with the number of steps that are left of `maxSteps`.
  unfoldable pub run_from : ℕ → List AutomationAction → ActionRunContext → ℕ → Action (Unit {0})
  run_from zero sorted ctx index = pure tt
  run_from (suc steps) sorted ctx index = elim (get_elem? sorted index) [
    | none ↦ pure tt
    | some action ↦
        execute action ctx >>= λ next. run_from steps sorted ctx (next_index sorted index next)
  ]

  unfoldable pub run : List AutomationAction → ActionRunContext → Action (Unit {0})
  run actions ctx = run_from (length (sort actions) * 4 + 10) (sort actions) ctx 0
