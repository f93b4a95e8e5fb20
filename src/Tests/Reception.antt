-- ===== src/Tests/Reception.antt =====
-- The theorems on the automations' worker, hooks and scheduler, applied to the small state.
use api_wa_automation.Workspaces.{get_openwa_credentials}
use api_wa_automation.Tests.{own}
use api_wa_automation.Value.{is_truthy}
use api_wa_automation.Base.{
  ℕ, zero, suc, ◌+◌, ◌-◌, ◌*◌, ◌/◌, ◌≤◌, ◌<◌, true, false, ◌≡◌, refl, sym, ap, ◌∙◌, ◌⊎◌, inl, inr,
  some, none, List, [], ◌∷◌, length, Has, arith,
}
use api_wa_automation.Base.Int.{pos}
use api_wa_automation.Base.Text.{codes}
use api_wa_automation.Value.{undefined, num, str, Props, prop, end}
use api_wa_automation.Orm.Lists.{list_orm}
use api_wa_automation.Orm.Laws.{IsKeyed}
use api_wa_automation.Data.Tenancy.{Key, Session}
use api_wa_automation.Data.Messaging.{AutomationJob}
use api_wa_automation.Data.Automation.{Automation, AutomationAction, ActionType, TriggerType}
use api_wa_automation.Data.Campaign.{draft}
use api_wa_automation.World.{World, Exception, ok, err}
use api_wa_automation.Workspaces.{OpenwaCredentials}
use api_wa_automation.Automations.Actions.{ActionRunContext, insert, sort, index_of, run_from, run}
use api_wa_automation.Automations.Trigger.{matches_message, matches_keyword}
use api_wa_automation.Automations.Service.{run_job, mark_run, find_by_webhook_path}
use api_wa_automation.Automations.Processor.{run_context, run_with, run_on, process}
use api_wa_automation.Automations.Choosing.{NamesSession, IsSessionOf}
use api_wa_automation.Automations.Processing.{process-mark_run}
use api_wa_automation.Automations.Inbound.{
  InboundMessageDto, hook_context, on_message, webhook_trigger,
}
use api_wa_automation.Automations.Reception.{reply_job, on_message-process}
use api_wa_automation.Automations.Hooks.{webhook_trigger-process}
use api_wa_automation.Automations.Scheduler.{is_scheduled, is_due, tick}
use api_wa_automation.Automations.Schedules.{runs_of_all, tick_lem, fires-is_due}
use api_wa_automation.Automations.Ending.{IsForward, run-unbounded}
use api_wa_automation.Tests.Clocks.{short_uuid, every_minute}
use api_wa_automation.Tests.{
  greeter, plain_js, plain_crypto, kind_server, secret, shop_credentials, reply_action,
  hello_trigger, phone_session, small_world,
}

-- The greeter without a session of its own.
abbrev guest : Automation
guest = record greeter { session_id = none }

abbrev guest_world : World
guest_world = record (small_world draft) { automations = guest ∷ [] }

abbrev hello : InboundMessageDto
hello = record {
  session = codes "s5";
  from = codes "628";
  body = codes "hello";
  is_group_msg = none;
}

one_row : {E : Type 0} (key : E → ℕ) (x : E) → IsKeyed key (x ∷ [])
one_row key x a b (inl e) (inl f) k = e ∙ sym f
one_row key x a b (inl e) (inr f) k = absurd f
one_row key x a b (inr e) f k = absurd e

on_message-process_example :
    let w' = (on_message 10 hello guest_world).1 in
    let job = reply_job guest phone_session hello in
    Has (record { job = job; delay = 0; attempts = none }) w'.automation_jobs
    × (process ⦃server = kind_server⦄ secret 20 job w'
        ≡ run_with ⦃server = kind_server⦄ secret 20 job guest phone_session w')
    × ((creds : OpenwaCredentials) → (run_context job phone_session creds).to ≡ str (codes "628"))
unfolding matches_message matches_keyword
on_message-process_example =
    on_message-process ⦃server = kind_server⦄ secret 10 20 hello guest phone_session guest_world
      (one_row Session.id phone_session) (one_row Automation.id guest) refl (inl refl)
      (refl, refl, refl, refl) refl

abbrev hooked : Automation
hooked = record greeter {
  trigger_type = TriggerType.webhook;
  trigger_config = record hello_trigger { webhook_path = some (codes "/trigger/t") };
}

abbrev hook_world : World
hook_world = record (small_world draft) { automations = hooked ∷ [] }

abbrev hook_body : Props
hook_body =
    prop (codes "phone") (str (codes "628")) (prop (codes "sessionId") (str (codes "x")) end)

hooked_found : find_by_webhook_path (codes "/trigger/t") hook_world ≡ some hooked
unfolding find_by_webhook_path
hooked_found = refl

webhook_trigger-process_example :
    let (r, w') = webhook_trigger 10 (codes "t") hook_body hook_world in
    let job = (run_job hooked (hook_context hooked hook_body)).job in
    (r ≡ ok true)
    × (w'.automation_jobs ≡ run_job hooked (hook_context hooked hook_body) ∷ [])
    × ((s : Session) (creds : OpenwaCredentials) → (run_context job s creds).to ≡ str (codes "628"))
    × (((hooked.session_id ≡ none)
          × (process ⦃server = kind_server⦄ secret 20 job w' ≡ (ok false, w')))
        ⊎ ((id : Key) × (hooked.session_id ≡ some id)
            × (process ⦃server = kind_server⦄ secret 20 job w'
                ≡ run_on ⦃server = kind_server⦄ secret 20 job hooked (short_uuid.value_of id) w')))
webhook_trigger-process_example =
    webhook_trigger-process ⦃server = kind_server⦄ secret 10 20 (codes "t") hook_body hooked
      hook_world (one_row Automation.id hooked) hooked_found

abbrev greet_job : AutomationJob
greet_job = record {
  automation_id = 4;
  workspace_id = 1;
  context = prop (codes "from") (str (codes "628")) end;
}

process-mark_run_example :
    let (r, w') = process ⦃server = kind_server⦄ secret 20 greet_job (small_world draft) in
    ((r ≡ ok false)
      × (w' ≡ small_world draft)
      × ((some greeter ≡ none)
          ⊎ ((a : Automation) × (some greeter ≡ some a)
              × (a.session_id ≡ none)
              × (is_truthy (own (codes "sessionId") greet_job.context) ≡ false))))
    ⊎ ((a : Automation) × (some greeter ≡ some a)
        × NamesSession a greet_job.context
        × (((e : Exception) × (r ≡ err e) × (w'.automations ≡ greeter ∷ []))
            ⊎ ((r ≡ ok true)
                × ((s : Session) × (creds : OpenwaCredentials) × (v : World) × IsSessionOf a
                      greet_job.context s
                      (small_world draft)
                    × (get_openwa_credentials secret 1 (small_world draft)
                        ≡ (ok creds, small_world draft))
                    × (run ⦃server = kind_server⦄ a.actions
                          (run_context greet_job s creds)
                          (small_world draft)
                        ≡ (ok tt, v))
                    × (w' ≡ mark_run 20 4 v)))))
process-mark_run_example =
    process-mark_run ⦃server = kind_server⦄ secret 20 greet_job (small_world draft)

abbrev timed : Automation
timed = record greeter {
  trigger_type = TriggerType.schedule;
  trigger_config = record hello_trigger {
    cron = some (codes "* * * * *");
    target_phones = some (codes "628" ∷ codes "629" ∷ []);
  };
}

abbrev timed_world : World
timed_world = record (small_world draft) { automations = timed ∷ [] }

tick_lem_example :
    (due : List Automation) × ((tick 120000 timed_world).automation_jobs ≡ runs_of_all due)
    × ((a : Automation)
        → Has a (timed ∷ [])
        → is_scheduled a ≡ true
        → is_due 120000 a.trigger_config ≡ true
        → Has a due)
    × ((a : Automation)
        → Has a due
        → Has a (timed ∷ []) × (is_scheduled a ≡ true) × (is_due 120000 a.trigger_config ≡ true))
tick_lem_example = tick_lem 120000 timed_world

fires-is_due_example :
    let now = 1000 + 60000 * ((120000 - 1000 - 1) / 60000 + 1) in
    (now - 60000 < 120000) × (120000 ≤ now) × (is_due now timed.trigger_config ≡ true)
fires-is_due_example =
    fires-is_due 1000 120000 timed.trigger_config (codes "* * * * *") refl
      (λ t. ((t / 60000 + 1) * 60000, refl)) refl (omega arith)

-- An action that jumps past the next one.
abbrev jump_action : AutomationAction
jump_action = record reply_action {
  order = pos 0;
  action_type = ActionType.condition;
  action_config = record (reply_action.action_config) {
    condition = record (reply_action.action_config.condition) {
      if_true_action_order = num (pos 1);
    };
  };
}

abbrev jumping : List AutomationAction
jumping = jump_action ∷ reply_action ∷ []

jumping-IsForward : IsForward (sort jumping)
unfolding sort insert index_of
jumping-IsForward zero a t at (inl e) =
    let same : a ≡ jump_action = ground arith in
    let jumps : num t ≡ num (pos 1) =
      sym e ∙ ap (λ z. z.action_config.condition.if_true_action_order) same in
    let here : t ≡ pos 1 = ground arith in rw here (omega arith)
jumping-IsForward zero a t at (inr e) =
    let same : a ≡ jump_action = ground arith in
    let none_there : undefined ≡ num t =
      ap (λ z. z.action_config.condition.if_false_action_order) (sym same) ∙ e in
    absurd (cc)
jumping-IsForward (suc zero) a t at (inl e) =
    let same : a ≡ reply_action = ground arith in
    let none_there : undefined ≡ num t =
      ap (λ z. z.action_config.condition.if_true_action_order) (sym same) ∙ e in
    absurd (cc)
jumping-IsForward (suc zero) a t at (inr e) =
    let same : a ≡ reply_action = ground arith in
    let none_there : undefined ≡ num t =
      ap (λ z. z.action_config.condition.if_false_action_order) (sym same) ∙ e in
    absurd (cc)
jumping-IsForward (suc (suc i)) a t at goes = absurd (cc)

abbrev reply_context : ActionRunContext
reply_context = record {
  workspace_id = 1;
  session_id = 5;
  openwa_session_id = codes "s5";
  creds = shop_credentials;
  to = str (codes "628");
  automation_id = some 4;
  variables = end;
}

run-unbounded_example :
    run ⦃server = kind_server⦄ jumping reply_context (small_world draft)
    ≡ run_from ⦃server = kind_server⦄
        (length (sort jumping) * 4 + 10 + 7)
        (sort jumping)
        reply_context
        0
        (small_world draft)
run-unbounded_example =
    run-unbounded ⦃server = kind_server⦄ 7 jumping reply_context (small_world draft)
      jumping-IsForward
