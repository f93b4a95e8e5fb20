-- ===== src/Automations/Service.antt =====
-- src/modules/automations/automations.service.ts. The actions of an
-- automation are a field of it: the database keeps them in a table of their own, which is written
-- and read with the automation (`cascade` and `eager`).
use api_wa_automation.Base.{
  ℕ, ◌+◌, Bool, false, ◌&&◌, Option, none, some, List, [], ◌∷◌, ◌++◌, ◌==◌, length, if◌then◌else◌,
  select,
}
use api_wa_automation.Base.Text.{Text, codes, text_eq, truthy}
use api_wa_automation.Value.{
  Js, Value, undefined, bool, str, Props, prop, with_prop, own, is_truthy,
}
use api_wa_automation.Orm.{Orm}
use api_wa_automation.Orm.Laws.{by}
use api_wa_automation.Data.Tenancy.{Key}
use api_wa_automation.Data.Messaging.{AutomationJob, Queued}
use api_wa_automation.Data.Automation.{
  Automation, AutomationAction, TriggerType, message, webhook, trigger_eq, TriggerConfig,
}
use api_wa_automation.World.{World, Action, pure, gets, modify, or_throw, not_found, ◌>>=◌, ◌>>◌}
use api_wa_automation.Workspaces.{given, managers, assert_member, assert_role}
use api_wa_automation.Gateway.{emit_automation_triggered}
use api_wa_automation.Automations.Trigger.{IncomingMessageContext, matches_message}

pub record CreateAutomationDto : Type 0 where
  pub name : Text
  pub description : Option Text
  pub session_id : Option Key
  pub trigger_type : TriggerType
  pub trigger_config : TriggerConfig
  pub actions : List AutomationAction

pub record UpdateAutomationDto : Type 0 where
  pub name : Option Text
  pub description : Option Text
  pub session_id : Option Key
  pub trigger_type : Option TriggerType
  pub trigger_config : Option TriggerConfig
  pub actions : Option (List AutomationAction)

abbrev pub is_automation_of : Key → Key → Automation → Bool
is_automation_of id workspace_id a = a.id == id && a.workspace_id == workspace_id

-- `where: { workspaceId, isActive: true, triggerType: 'message' }`
abbrev pub is_candidate : Key → Automation → Bool
is_candidate workspace_id a =
    a.workspace_id == workspace_id && a.is_active && trigger_eq a.trigger_type message

-- `{ message, from, isGroup }` of a context, in front of what else it holds.
abbrev pub context_props : IncomingMessageContext → Props → Props
context_props ctx extra = prop (codes "message") (str ctx.message) (
    prop (codes "from") (str ctx.from)
      (prop (codes "isGroup") (elim ctx.is_group [ none ↦ undefined | some b ↦ bool b ]) extra))

-- The path that `create` gives a webhook trigger that has none, from the random text `token`.
abbrev pub with_path : TriggerType → Text → TriggerConfig → TriggerConfig
with_path webhook token config = elim (truthy config.webhook_path) [
  | none ↦ record config { webhook_path = some (codes "/trigger/" ++ token) }
  | some path ↦ config
]
with_path _ token config = config

-- `a.is_active = true`, `a.trigger_type = 'webhook'` and the path's test
abbrev pub is_hook : Text → Automation → Bool
is_hook path a =
    a.is_active
    && trigger_eq a.trigger_type webhook
    && elim a.trigger_config.webhook_path [ none ↦ false | some p ↦ text_eq p path ]

-- `context.from || context.to`
abbrev pub phone_of : Props → Value
phone_of context =
    let from = own (codes "from") context in
    if is_truthy from then from else own (codes "to") context

abbrev pub run_job : Automation → Props → Queued AutomationJob
run_job a context = record {
  job = record { automation_id = a.id; workspace_id = a.workspace_id; context = context };
  delay = 0;
  attempts = none;
}

-- Enqueues the run of an automation.
unfoldable pub enqueue_run : ℕ → Automation → Props → World → World
unfolding emit_automation_triggered
enqueue_run now a context w =
    let w' = emit_automation_triggered a.workspace_id a.id (phone_of context) now w in
    record w' { automation_jobs = w'.automation_jobs ++ run_job a context ∷ [] }

-- The loop of `dispatchIncomingMessage`.
unfoldable pub enqueue_runs : ℕ → Props → List Automation → World → World
unfolding enqueue_run
enqueue_runs now context [] w = w
enqueue_runs now context (a ∷ matched) w =
    enqueue_runs now context matched (enqueue_run now a context w)

module _ ⦃orm : Orm⦄ where
  unfoldable pub save_automation : Automation → Action Automation
  save_automation a = do
    modify (λ w. record w { automations = orm.save (by Automation.id) a w.automations })
    pure a

  unfoldable pub create : Text → Key → Key → CreateAutomationDto → Action Automation
  create token workspace_id user_id dto = do
    assert_role workspace_id user_id managers
    id ← gets (λ w. orm.new_key Automation.id w.automations)
    save_automation (record {
      id = id;
      workspace_id = workspace_id;
      session_id = dto.session_id;
      name = dto.name;
      description = truthy dto.description;
      is_active = false;
      trigger_type = dto.trigger_type;
      trigger_config = with_path dto.trigger_type token dto.trigger_config;
      run_count = 0;
      last_run_at = none;
      actions = dto.actions;
    })

  unfoldable pub find_all : Key → Key → Action (List Automation)
  find_all workspace_id user_id = do
    assert_member workspace_id user_id
    gets (λ w. orm.find (λ a. a.workspace_id == workspace_id) w.automations)

  unfoldable pub find_one : Key → Key → Key → Action Automation
  find_one id workspace_id user_id = do
    assert_member workspace_id user_id
    or_throw (not_found "Automation not found")
        (← gets (λ w. orm.find_one (is_automation_of id workspace_id) w.automations))

  -- `assertRole(…, ['owner', 'admin'])` and `findOne`, which three methods start with.
  unfoldable pub find_managed : Key → Key → Key → Action Automation
  unfolding find_one
  find_managed id workspace_id user_id = do
    assert_role workspace_id user_id managers
    find_one id workspace_id user_id

  unfoldable pub update : Key → Key → Key → UpdateAutomationDto → Action Automation
  update id workspace_id user_id dto = do
    a ← find_managed id workspace_id user_id
    save_automation (record a {
      name = given dto.name a.name;
      description = elim dto.description [ none ↦ a.description | some d ↦ some d ];
      session_id = elim dto.session_id [ none ↦ a.session_id | some s ↦ some s ];
      trigger_type = given dto.trigger_type a.trigger_type;
      trigger_config = given dto.trigger_config a.trigger_config;
      actions = given dto.actions a.actions;
    })

  unfoldable pub remove : Key → Key → Key → Action (Unit {0})
  remove id workspace_id user_id = do
    a ← find_managed id workspace_id user_id
    modify (λ w. record w { automations = orm.remove (by Automation.id) a w.automations })

  unfoldable pub set_active : Key → Key → Key → Bool → Action Automation
  set_active id workspace_id user_id active = do
    a ← find_managed id workspace_id user_id
    save_automation (record a { is_active = active })

  unfoldable pub test : ℕ → Key → Key → Key → Props → Action (Unit {0})
  test now id workspace_id user_id context = do
    a ← find_one id workspace_id user_id
    modify (enqueue_run now a context)

  -- `increment` and `update`, one after the other.
  unfoldable pub mark_run : ℕ → Key → World → World
  mark_run now automation_id w =
      let counted =
        orm.update (λ a. a.id == automation_id) (λ a. record a { run_count = a.run_count + 1 })
          w.automations in
      record w {
        automations =
            orm.update (λ a. a.id == automation_id) (λ a. record a { last_run_at = some now })
              counted;
      }

  unfoldable pub find_by_webhook_path : Text → World → Option Automation
  find_by_webhook_path path w = orm.find_one (is_hook path) w.automations

  -- Returns `matched`. The caller's context may hold more than its type says: `extra`.
  unfoldable pub dispatch_incoming_message :
      ⦃js : Js⦄ → ℕ → Key → IncomingMessageContext → Props → Action ℕ
  unfolding enqueue_runs
  dispatch_incoming_message now workspace_id ctx extra = do
    candidates ← gets (λ w. orm.find (is_candidate workspace_id) w.automations)
    let matched = select (λ a. matches_message a.trigger_config ctx) candidates
    modify
        (enqueue_runs now (with_prop (codes "to") (str ctx.from) (context_props ctx extra)) matched)
    pure (length matched)
