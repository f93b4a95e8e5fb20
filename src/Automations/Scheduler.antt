-- ===== src/Automations/Scheduler.antt =====
-- src/modules/automations/automation.scheduler.ts: the tick of every minute, at the time `now` in
-- milliseconds.
use api_wa_automation.Base.{
  ℕ, ◌-◌, Bool, ltb, leb, ◌&&◌, Option, none, some, List, [], ◌∷◌, if◌then◌else◌,
}
use api_wa_automation.Base.Text.{Text, codes, or_else, truthy}
use api_wa_automation.Value.{str, Props, prop, end}
use api_wa_automation.Orm.{Orm}
use api_wa_automation.Data.Automation.{Automation, TriggerConfig, schedule, trigger_eq}
use api_wa_automation.World.{World}
use api_wa_automation.Automations.Interface.{Uuid, Cron}
use api_wa_automation.Automations.Service.{enqueue_run}
use api_wa_automation.Automations.Inbound.{session_value}

-- `where: { isActive: true, triggerType: 'schedule' }`
abbrev pub is_scheduled : Automation → Bool
is_scheduled a = a.is_active && trigger_eq a.trigger_type schedule

-- `cfg.timezone || 'UTC'`
abbrev pub timezone_of : TriggerConfig → Text
timezone_of config = elim config.timezone [
  | none ↦ codes "UTC"
  | some tz ↦ or_else tz (codes "UTC")
]

-- `cfg.target_phones || []`
abbrev pub targets_of : TriggerConfig → List Text
targets_of config = elim config.target_phones [ none ↦ [] | some phones ↦ phones ]

module _ ⦃cron : Cron⦄ where
  -- `next > windowStart && next <= now`; the time of a cron expression that the parser refuses is `none`.
  abbrev pub is_due_at : ℕ → Option ℕ → Bool
  is_due_at now none = Bool.false
  is_due_at now (some next) = ltb (now - 60000) next && leb next now

  abbrev pub is_due : ℕ → TriggerConfig → Bool
  is_due now config = elim (truthy config.cron) [
    | none ↦ Bool.false
    | some expression ↦ is_due_at now (cron.next expression (timezone_of config) (now - 60000))
  ]

module _ ⦃uuid : Uuid⦄ where
  abbrev pub scheduled_context : Automation → Text → Props
  scheduled_context a phone =
      prop (codes "to") (str phone) (
        prop (codes "from") (str phone) (prop (codes "sessionId") (session_value a.session_id) end))

  -- The inner loop.
  unfoldable pub enqueue_targets : ℕ → Automation → List Text → World → World
  unfolding enqueue_run
  enqueue_targets now a [] w = w
  enqueue_targets now a (phone ∷ phones) w =
      enqueue_targets now a phones (enqueue_run now a (scheduled_context a phone) w)

module _ ⦃orm : Orm⦄ ⦃uuid : Uuid⦄ ⦃cron : Cron⦄ where
  -- The outer loop.
  unfoldable pub tick_each : ℕ → List Automation → World → World
  unfolding enqueue_targets
  tick_each now [] w = w
  tick_each now (a ∷ scheduled) w = tick_each now scheduled (
      if is_due now a.trigger_config
      then enqueue_targets now a (targets_of a.trigger_config) w
      else w)

  unfoldable pub tick : ℕ → World → World
  unfolding tick_each
  tick now w = tick_each now (orm.find is_scheduled w.automations) w
