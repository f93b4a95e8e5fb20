-- ===== src/Automations/Processor.antt =====
-- src/modules/automations/automation.processor.ts: the worker of the queue of runs.
use api_wa_automation.Base.{ℕ, Bool, true, false, Option, none, some, ◌==◌, if◌then◌else◌}
use api_wa_automation.Base.Text.{Text, codes}
use api_wa_automation.Value.{Js, Value, Props, own, is_truthy}
use api_wa_automation.Orm.{Orm}
use api_wa_automation.Encryption.{Crypto}
use api_wa_automation.Data.Tenancy.{Key, Session}
use api_wa_automation.Data.Messaging.{AutomationJob}
use api_wa_automation.Data.Automation.{Automation}
use api_wa_automation.World.{Action, Result, ok, err, pure, throw, gets, modify, ◌>>=◌, ◌>>◌}
use api_wa_automation.Workspaces.{OpenwaCredentials, get_openwa_credentials}
use api_wa_automation.Sessions
use api_wa_automation.Openwa
use api_wa_automation.Automations.Interface.{Uuid}
use api_wa_automation.Automations.Actions.{ActionRunContext, run}
use api_wa_automation.Automations.Service.{mark_run}

abbrev pub has_automation_key : Key → Automation → Bool
has_automation_key id a = a.id == id

-- `a || b`
abbrev pub value_or : Value → Value → Value
value_or a b = if is_truthy a then a else b

-- The context that `process` gives the engine.
abbrev pub run_context : AutomationJob → Session → OpenwaCredentials → ActionRunContext
run_context job s creds = record {
  workspace_id = job.workspace_id;
  session_id = s.id;
  openwa_session_id = s.session_id;
  creds = creds;
  to = value_or (own (codes "to") job.context) (own (codes "from") job.context);
  automation_id = some job.automation_id;
  variables = job.context;
}

-- `automation.sessionId || context.sessionId`
module _ ⦃uuid : Uuid⦄ where
  abbrev pub db_session_id : Automation → Props → Value
  db_session_id a context = elim a.session_id [
    | none ↦ own (codes "sessionId") context
    | some k ↦ uuid.value_of k
  ]

module _ ⦃orm : Orm⦄ ⦃uuid : Uuid⦄ where
  abbrev pub session_of : Result Key → Action Session
  session_of (ok id) = Sessions.get_by_id id
  session_of (err e) = throw e

module _ ⦃orm : Orm⦄ ⦃js : Js⦄ ⦃c : Crypto⦄ ⦃server : Openwa.Server⦄ ⦃uuid : Uuid⦄
    (enc_key : Text) where
  -- From the credentials on; `now` is the time at which the run is marked.
  unfoldable pub run_with : ℕ → AutomationJob → Automation → Session → Action Bool
  run_with now job a s = do
    creds ← get_openwa_credentials enc_key job.workspace_id
    run a.actions (run_context job s creds)
    modify (mark_run now job.automation_id)
    pure true

  -- From the session on.
  unfoldable pub run_on : ℕ → AutomationJob → Automation → Value → Action Bool
  run_on now job a id = do s ← session_of (uuid.key_of id); run_with now job a s

  abbrev pub process_with : ℕ → AutomationJob → Option Automation → Action Bool
  process_with now job none = pure false
  process_with now job (some a) =
      if is_truthy (db_session_id a job.context)
      then run_on now job a (db_session_id a job.context)
      else pure false

  -- `true` for `{ ran: true }`, `false` where the job is skipped.
  unfoldable pub process : ℕ → AutomationJob → Action Bool
  process now job = do
    found ← gets (λ w. orm.find_one (has_automation_key job.automation_id) w.automations)
    process_with now job found
