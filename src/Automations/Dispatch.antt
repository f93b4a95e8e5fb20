-- ===== src/Automations/Dispatch.antt =====
-- Which automations a message sets off: `dispatchIncomingMessage` of automations.service.ts; and how a
-- webhook finds the automation that was created for it.
use api_wa_automation.Base.{
  ℕ, Bool, true, ◌≡◌, refl, sym, ◌∙◌, List, [], ◌∷◌, ◌++◌, map, length, append-nil, append_assoc,
  Has, select, Has-select, select-Has, arith,
}
use api_wa_automation.Base.Text.{codes}
use api_wa_automation.Value.{Js, Props, str, with_prop}
use api_wa_automation.Orm.{Orm}
use api_wa_automation.Data.Tenancy.{Key}
use api_wa_automation.Data.Automation.{Automation, TriggerType, message, trigger_eq}
use api_wa_automation.World.{World, ok}
use api_wa_automation.Gateway.{emit_automation_triggered}
use api_wa_automation.Automations.Trigger.{IncomingMessageContext, matches_message}
use api_wa_automation.Automations.Service.{
  is_candidate, context_props, run_job, enqueue_run, enqueue_runs, dispatch_incoming_message,
}

enqueue_runs-jobs :
    (now : ℕ) (context : Props) (matched : List Automation) (w : World)
    → (enqueue_runs now context matched w).automation_jobs
      ≡ w.automation_jobs ++ map (λ a. run_job a context) matched
unfolding enqueue_runs enqueue_run emit_automation_triggered
enqueue_runs-jobs now context [] w = sym (append-nil w.automation_jobs)
enqueue_runs-jobs now context (a ∷ matched) w =
    enqueue_runs-jobs now context matched (enqueue_run now a context w)
    ∙ append_assoc w.automation_jobs (run_job a context ∷ []) (map (λ b. run_job b context) matched)

-- The automation waits for messages of the workspace and this one meets its trigger.
abbrev pub IsTriggered : ⦃js : Js⦄ → Key → IncomingMessageContext → Automation → Type 0
IsTriggered workspace_id ctx a =
    (a.workspace_id ≡ workspace_id)
    × (a.is_active ≡ true)
    × (a.trigger_type ≡ message)
    × (matches_message a.trigger_config ctx ≡ true)

trigger_eq_sound : (t : TriggerType) → trigger_eq t message ≡ true → t ≡ message
trigger_eq_sound message h = refl
trigger_eq_sound TriggerType.schedule h = absurd (cc)
trigger_eq_sound TriggerType.webhook h = absurd (cc)

is_candidate_sound :
    (workspace_id : Key) (a : Automation)
    → is_candidate workspace_id a ≡ true
    → (a.workspace_id ≡ workspace_id) × (a.is_active ≡ true) × (a.trigger_type ≡ message)
is_candidate_sound workspace_id a h =
    (ground arith, ground arith, trigger_eq_sound a.trigger_type (ground arith))

module _ ⦃orm : Orm⦄ ⦃js : Js⦄ where
  -- A message queues one run, behind those queued before, for each automation of a list that holds
  -- exactly the automations of the table that it sets off: the active ones of the workspace that wait for
  -- messages and whose trigger it meets. Their number is returned, and each run replies to the sender.
  pub dispatch_incoming_message_lem :
      (now : ℕ) (workspace_id : Key) (ctx : IncomingMessageContext) (extra : Props) (w : World)
      → let (r, w') = dispatch_incoming_message now workspace_id ctx extra w in
        let context = with_prop (codes "to") (str ctx.from) (context_props ctx extra) in
        (matched : List Automation) × (r ≡ ok (length matched))
        × (w'.automation_jobs ≡ w.automation_jobs ++ map (λ a. run_job a context) matched)
        × ((a : Automation) → Has a matched → Has a w.automations × IsTriggered workspace_id ctx a)
        × ((a : Automation) → Has a w.automations → IsTriggered workspace_id ctx a → Has a matched)
  unfolding dispatch_incoming_message
  dispatch_incoming_message_lem now workspace_id ctx extra w =
      let p : Automation → Bool = λ a. matches_message a.trigger_config ctx in
      let candidates = orm.find (is_candidate workspace_id) w.automations in
      (
        select p candidates,
        refl,
        enqueue_runs-jobs now _ (select p candidates) w,
        λ a h.
            let (has, matches) = Has-select a p candidates h in
            let (row, test) = orm.find_has (is_candidate workspace_id) w.automations a has in
            let (here, active, waits) = is_candidate_sound workspace_id a test in
            (row, (here, active, waits, matches)),
        λ a row (here, active, waits, matches).
            let test : is_candidate workspace_id a ≡ true = ground arith in
            select-Has a p candidates
              (orm.find_complete (is_candidate workspace_id) w.automations a row test) matches,
      )
