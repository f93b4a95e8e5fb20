-- ===== src/Data/Automation.antt =====
-- Entities of src/modules/automations. The jsonb columns `trigger_config` and `action_config` are
-- records of the properties that the code reads, each absent or of the type that the code expects.
use api_wa_automation.Base.{ℕ, Bool, Option, List, ◌==◌}
use api_wa_automation.Base.Int.{ℤ}
use api_wa_automation.Base.Text.{Text}
use api_wa_automation.Value.{Value}
use api_wa_automation.Data.Tenancy.{Key}

-- `unknown` is any string outside the listed ones.
pub data ActionType : Type 0 where
  send_text send_image send_file forward delay condition unknown : ActionType

pub data ConditionOperator : Type 0 where
  equals not_equals contains not_contains starts_with ends_with regex gt lt : ConditionOperator
  unknown : ConditionOperator

pub record ConditionConfig : Type 0 where
  pub field : Text
  pub operator : ConditionOperator
  pub value : Value
  pub if_true_action_order : Value
  pub if_false_action_order : Value

pub record ActionConfig : Type 0 where
  pub message : Option Text
  pub delay_ms : Option ℕ
  pub caption : Option Text
  pub image_url : Option Text
  pub file_url : Option Text
  pub filename : Option Text
  pub to : Option Text
  pub duration_ms : Option ℕ
  pub condition : ConditionConfig

pub record AutomationAction : Type 0 where
  pub order : ℤ
  pub action_type : ActionType
  pub action_config : ActionConfig

pub data TriggerType : Type 0 where
  message schedule webhook : TriggerType

abbrev pub trigger_eq : TriggerType → TriggerType → Bool
trigger_eq message message = Bool.true
trigger_eq schedule schedule = Bool.true
trigger_eq webhook webhook = Bool.true
trigger_eq _ _ = Bool.false

pub data MatchType : Type 0 where
  exact contains starts_with regex : MatchType

pub record TriggerConfig : Type 0 where
  pub keywords : Option (List Text)
  pub match_type : Option MatchType
  pub from_phone : Option Text
  pub is_group : Option Bool
  pub cron : Option Text
  pub timezone : Option Text
  pub target_phones : Option (List Text)
  pub webhook_path : Option Text
  pub phone_field : Option Text
  pub message_template : Option Text

pub record Automation : Type 0 where
  pub id : Key
  pub workspace_id : Key
  pub session_id : Option Key
  pub name : Text
  pub description : Option Text
  pub is_active : Bool
  pub trigger_type : TriggerType
  pub trigger_config : TriggerConfig
  pub run_count : ℕ
  pub last_run_at : Option ℕ
  pub actions : List AutomationAction

abbrev pub same_automation : Automation → Automation → Bool
same_automation a b = a.id == b.id
