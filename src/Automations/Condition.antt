-- ===== src/Automations/Condition.antt =====
-- src/modules/automations/engine/condition.engine.ts: whether a condition holds of the variables.
use api_wa_automation.Base.{Bool, false, not, List, [], ◌∷◌, if◌then◌else◌}
use api_wa_automation.Base.Text.{Text, text_eq, starts_with, includes, ends_with, split}
use api_wa_automation.Value.{Js, Value, obj, Props, is_nullish}
use api_wa_automation.Data.Automation.{
  ConditionConfig, ConditionOperator, equals, not_equals, contains, not_contains, regex, gt, lt,
  unknown,
}
use api_wa_automation.Automations.Trigger.{or_false}

module _ ⦃js : Js⦄ where
  -- The `reduce` of `resolve` over the parts of a field.
  unfoldable pub resolve_parts : List Text → Value → Value
  resolve_parts [] acc = acc
  resolve_parts (part ∷ parts) acc =
      resolve_parts parts (if is_nullish acc then acc else js.member acc part)

  unfoldable pub resolve : Text → Props → Value
  resolve field context = resolve_parts (split b'.' field) (obj context)

  -- `v == null ? '' : String(v)`
  abbrev pub text_or_empty : Value → Text
  text_or_empty v = if is_nullish v then [] else js.to_string v

  -- The `switch` of `evaluate`, with `actual` and `expected` and their texts `a` and `e`.
  unfoldable pub holds : ConditionOperator → Value → Value → Text → Text → Bool
  holds equals actual expected a e = text_eq a e
  holds not_equals actual expected a e = not (text_eq a e)
  holds contains actual expected a e = includes (js.to_lower_case a) (js.to_lower_case e)
  holds not_contains actual expected a e = not (includes (js.to_lower_case a) (js.to_lower_case e))
  holds ConditionOperator.starts_with actual expected a e =
      starts_with (js.to_lower_case a) (js.to_lower_case e)
  holds ConditionOperator.ends_with actual expected a e =
      ends_with (js.to_lower_case a) (js.to_lower_case e)
  holds regex actual expected a e = or_false (js.regex_test e a)
  holds gt actual expected a e = js.number_gt actual expected
  holds lt actual expected a e = js.number_gt expected actual
  holds unknown actual expected a e = false

  unfoldable pub evaluate : ConditionConfig → Props → Bool
  evaluate config context =
      let actual = resolve config.field context in
      holds config.operator actual config.value (text_or_empty actual) (text_or_empty config.value)
