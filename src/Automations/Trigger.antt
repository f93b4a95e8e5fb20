-- ===== src/Automations/Trigger.antt =====
-- src/modules/automations/engine/trigger.engine.ts: whether a message meets a trigger.
use api_wa_automation.Base.{
  Bool, true, false, not, ◌&&◌, Option, none, some, List, [], if◌then◌else◌, any,
}
use api_wa_automation.Base.Text.{Text, text_eq, is_empty, starts_with, includes}
use api_wa_automation.Value.{Js}
use api_wa_automation.Data.Automation.{TriggerConfig, MatchType, exact, contains, regex}

pub record IncomingMessageContext : Type 0 where
  pub message : Text
  pub from : Text
  pub is_group : Option Bool

-- `a !== b`
abbrev pub differs : Bool → Bool → Bool
differs true b = not b
differs false b = b

-- `config.from_phone && config.from_phone !== ctx.from`
abbrev pub is_other_sender : Option Text → Text → Bool
is_other_sender none from = false
is_other_sender (some phone) from = not (is_empty phone) && not (text_eq phone from)

-- `!!b`
abbrev pub is_set : Option Bool → Bool
is_set none = false
is_set (some b) = b

-- `config.is_group !== undefined && !!ctx.isGroup !== config.is_group`
abbrev pub is_other_kind : Option Bool → Option Bool → Bool
is_other_kind none is_group = false
is_other_kind (some wanted) is_group = differs (is_set is_group) wanted

-- `config.keywords || []`
abbrev pub keywords_of : TriggerConfig → List Text
keywords_of config = elim config.keywords [ none ↦ [] | some keywords ↦ keywords ]

-- `config.match_type || 'contains'`
abbrev pub match_type_of : TriggerConfig → MatchType
match_type_of config = elim config.match_type [ none ↦ contains | some match_type ↦ match_type ]

-- The test of a pattern in a `try`, whose `catch` returns false.
abbrev pub or_false : Option Bool → Bool
or_false none = false
or_false (some b) = b

module _ ⦃js : Js⦄ where
  -- The callback of `keywords.some`.
  unfoldable pub matches_keyword : MatchType → Text → Text → Bool
  matches_keyword exact message raw = text_eq (js.to_lower_case message) (js.to_lower_case raw)
  matches_keyword MatchType.starts_with message raw =
      starts_with (js.to_lower_case message) (js.to_lower_case raw)
  matches_keyword regex message raw = or_false (js.regex_test raw message)
  matches_keyword contains message raw = includes (js.to_lower_case message) (js.to_lower_case raw)

  unfoldable pub matches_message : TriggerConfig → IncomingMessageContext → Bool
  matches_message config ctx =
      if is_other_sender config.from_phone ctx.from
      then false
      else if is_other_kind config.is_group ctx.is_group
      then false
      else if is_empty (keywords_of config)
      then true
      else any (matches_keyword (match_type_of config) ctx.message) (keywords_of config)
