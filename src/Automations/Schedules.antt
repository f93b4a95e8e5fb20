-- ===== src/Automations/Schedules.antt =====
-- Which runs a tick of automation.scheduler.ts queues, and which tick a time of a schedule falls to.
use api_wa_automation.Base.{
  ℕ, ◌+◌, ◌-◌, ◌*◌, ◌/◌, ◌≤◌, ◌<◌, Bool, true, false, leb, if◌then◌else◌, ◌≡◌, refl, sym, ap, ◌∙◌,
  ◌⊎◌, inl, inr, some, List, [], ◌∷◌, ◌++◌, map, append-nil, append_assoc, Has, Has-select,
  select-Has, select, Bool-cases, arith,
}
use api_wa_automation.Base.Text.{Text, truthy}
use api_wa_automation.Orm.{Orm}
use api_wa_automation.Data.Messaging.{AutomationJob, Queued}
use api_wa_automation.Data.Automation.{Automation, TriggerConfig}
use api_wa_automation.World.{World}
use api_wa_automation.Gateway.{to_workspace, emit_automation_triggered}
use api_wa_automation.Automations.Interface.{Uuid, Cron}
use api_wa_automation.Automations.Service.{run_job, enqueue_run}
use api_wa_automation.Automations.Scheduler.{
  is_scheduled, timezone_of, targets_of, is_due_at, is_due, scheduled_context, enqueue_targets,
  tick_each, tick,
}

module _ ⦃cron : Cron⦄ where
  -- Where the parser takes a schedule's expression, a tick finds it due if and only if it fires in the
  -- minute that ends then.
  is_due-fires :
      (now n : ℕ) (config : TriggerConfig) (expression : Text)
      → truthy config.cron ≡ some expression
      → cron.next expression (timezone_of config) (now - 60000) ≡ some n
      → ((is_due now config ≡ true)
          × ((f : ℕ) × (cron.fires expression (timezone_of config) f ≡ true)
              × (now - 60000 < f)
              × (f ≤ now)))
        ⊎ ((is_due now config ≡ false)
            × ((f : ℕ)
                → cron.fires expression (timezone_of config) f ≡ true
                → now - 60000 < f
                → now < f))
  is_due-fires now n config expression e h =
      let tz = timezone_of config in
      let later = cron.next_later expression tz (now - 60000) n h in
      let fires = cron.next_fires expression tz (now - 60000) n h in
      let due : is_due now config ≡ is_due_at now (some n) = ground arith in
      elim (Bool-cases (leb n now)) [
        | inl t ↦ inl (ground arith, (n, fires, later, ground arith))
        | inr u ↦ inr (
          ground arith,
          λ f fires later_f.
              let first = cron.next_first expression tz (now - 60000) n f h fires later_f in
              ground arith,
        )
      ]

  -- Each time at which a schedule fires, after the time of the first tick, is in the minute of one of
  -- the ticks that follow a minute apart, and that tick finds the schedule due.
  pub fires-is_due :
      (start f : ℕ) (config : TriggerConfig) (expression : Text)
      → truthy config.cron ≡ some expression
      → ((t : ℕ) → (n : ℕ) × (cron.next expression (timezone_of config) t ≡ some n))
      → cron.fires expression (timezone_of config) f ≡ true
      → start < f
      → let now = start + 60000 * ((f - start - 1) / 60000 + 1) in
        (now - 60000 < f) × (f ≤ now) × (is_due now config ≡ true)
  fires-is_due start f config expression e parses fires after =
      let k = (f - start - 1) / 60000 in
      let now = start + 60000 * (k + 1) in
      let window : now - 60000 ≡ start + 60000 * k = omega arith in
      let lo : now - 60000 < f = omega arith in
      let hi : f ≤ now = omega arith in
      let (n, h) = parses (now - 60000) in
      (
        lo,
        hi,
        elim (is_due-fires now n config expression e h) [
          | inl (due, _) ↦ due
          | inr (_, not_yet) ↦ let late = not_yet f fires lo in absurd (omega arith)
        ],
      )

module _ ⦃uuid : Uuid⦄ where
  -- The runs of an automation that is due, one for each phone.
  abbrev pub runs_of : Automation → List (Queued AutomationJob)
  runs_of a = map (λ phone. run_job a (scheduled_context a phone)) (targets_of a.trigger_config)

  -- The runs of a list of automations, one after the other.
  abbrev pub runs_of_all : List Automation → List (Queued AutomationJob)
  runs_of_all [] = []
  runs_of_all (a ∷ due) = runs_of a ++ runs_of_all due

  enqueue_targets-jobs :
      (now : ℕ) (a : Automation) (phones : List Text) (w : World)
      → (enqueue_targets now a phones w).automation_jobs
        ≡ w.automation_jobs ++ map (λ phone. run_job a (scheduled_context a phone)) phones
  unfolding enqueue_targets enqueue_run emit_automation_triggered to_workspace
  enqueue_targets-jobs now a [] w = sym (append-nil w.automation_jobs)
  enqueue_targets-jobs now a (phone ∷ phones) w =
      enqueue_targets-jobs now a phones (enqueue_run now a (scheduled_context a phone) w)
      ∙ append_assoc w.automation_jobs (run_job a (scheduled_context a phone) ∷ [])
          (map (λ p. run_job a (scheduled_context a p)) phones)

module _ ⦃orm : Orm⦄ ⦃uuid : Uuid⦄ ⦃cron : Cron⦄ where
  abbrev due_runs : ℕ → List Automation → List (Queued AutomationJob)
  due_runs now [] = []
  due_runs now (a ∷ scheduled) =
      (if is_due now a.trigger_config then runs_of a else []) ++ due_runs now scheduled

  tick_each-jobs :
      (now : ℕ) (scheduled : List Automation) (w : World)
      → (tick_each now scheduled w).automation_jobs ≡ w.automation_jobs ++ due_runs now scheduled
  unfolding tick_each
  tick_each-jobs now [] w = sym (append-nil w.automation_jobs)
  tick_each-jobs now (a ∷ scheduled) w = elim (Bool-cases (is_due now a.trigger_config)) [
    | inr e ↦
        ap (λ t. (tick_each now scheduled (after t)).automation_jobs) e
        ∙ tick_each-jobs now scheduled w
        ∙ ap (λ t. w.automation_jobs ++ runs t) (sym e)
    | inl e ↦
        ap (λ t. (tick_each now scheduled (after t)).automation_jobs) e
        ∙ tick_each-jobs now scheduled (enqueue_targets now a targets w)
        ∙ ap (λ js. js ++ due_runs now scheduled) (enqueue_targets-jobs now a targets w)
        ∙ append_assoc w.automation_jobs (runs_of a) (due_runs now scheduled)
        ∙ ap (λ t. w.automation_jobs ++ runs t) (sym e)
  ]
    where
      targets : List Text
      targets = targets_of a.trigger_config

      after : Bool → World
      after t = if t then enqueue_targets now a targets w else w

      runs : Bool → List (Queued AutomationJob)
      runs t = (if t then runs_of a else []) ++ due_runs now scheduled

  due_runs_lem :
      (now : ℕ) (scheduled : List Automation)
      → due_runs now scheduled ≡ runs_of_all (select (λ a. is_due now a.trigger_config) scheduled)
  due_runs_lem now [] = refl
  due_runs_lem now (a ∷ scheduled) =
      let rest = due_runs_lem now scheduled in
      elim (Bool-cases (is_due now a.trigger_config)) [
        | inl e ↦ ground arith
        | inr e ↦ ground arith
      ]

  -- A tick queues, behind the runs queued before, those of a list of automations, one after the other, and
  -- for each of them one run for each of its phones, in their order. The automations of the list are the
  -- active ones of the table with a schedule that is due, and no other.
  pub tick_lem :
      (now : ℕ) (w : World)
      → (due : List Automation) × ((tick now w).automation_jobs
          ≡ w.automation_jobs ++ runs_of_all due)
        × ((a : Automation)
            → Has a w.automations
            → is_scheduled a ≡ true
            → is_due now a.trigger_config ≡ true
            → Has a due)
        × ((a : Automation)
            → Has a due
            → Has a w.automations × (is_scheduled a ≡ true) × (is_due now a.trigger_config ≡ true))
  unfolding tick
  tick_lem now w =
      let scheduled = orm.find is_scheduled w.automations in
      let waiting = λ (a : Automation). is_due now a.trigger_config in
      (
        select waiting scheduled,
        tick_each-jobs now scheduled w
            ∙ ap (λ t. w.automation_jobs ++ t) (due_runs_lem now scheduled),
        λ a row waits due.
            select-Has a waiting scheduled
              (orm.find_complete is_scheduled w.automations a row waits) due,
        λ a h.
            let (found, due) = Has-select a waiting scheduled h in
            let (row, waits) = orm.find_has is_scheduled w.automations a found in (row, waits, due),
      )
