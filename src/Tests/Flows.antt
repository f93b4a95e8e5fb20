-- ===== src/Tests/Flows.antt =====
-- The theorems on automations, applied to the small state.
use api_wa_automation.Base.Int.{ℤ}
use api_wa_automation.Base.{
  ◌+◌, ◌*◌, true, ◌≡◌, ◌↔◌, refl, none, some, List, [], ◌∷◌, length, map, Has,
}
use api_wa_automation.Base.Int.{pos}
use api_wa_automation.Base.Text.{codes}
use api_wa_automation.Value.{Props, str, obj, end, prop}
use api_wa_automation.Orm.Lists.{list_orm}
use api_wa_automation.Data.Campaign.{draft}
use api_wa_automation.Data.Automation.{Automation, AutomationAction, ActionType}
use api_wa_automation.World.{ok}
use api_wa_automation.Automations.Trigger.{IncomingMessageContext, matches_message}
use api_wa_automation.Automations.Actions.{ActionRunContext, sort, run}
use api_wa_automation.Automations.Service.{run_job, dispatch_incoming_message}
use api_wa_automation.Automations.Matching.{IsMatch, matches_message_lem}
use api_wa_automation.Automations.Bounds.{IsWithin, run-IsWithin}
use api_wa_automation.Automations.Sorting.{IsSorted, of_order}
use api_wa_automation.Automations.Runs.{run_each, run-straight}
use api_wa_automation.Automations.Dispatch.{IsTriggered, dispatch_incoming_message_lem}
use api_wa_automation.Tests.{
  plain_js, kind_server, shop_credentials, reply_action, hello_trigger, small_world,
}

abbrev hello : IncomingMessageContext
hello = record { message = codes "oh hello"; from = codes "628"; is_group = none }

abbrev hello_props : Props
hello_props = prop (codes "message") (str (codes "oh hello")) (
    prop (codes "from") (str (codes "628")) (
      prop (codes "isGroup") api_wa_automation.Value.undefined
        (prop (codes "to") (str (codes "628")) end)))

dispatch_incoming_message_lem_example :
    let (r, w') = dispatch_incoming_message 10 1 hello end (small_world draft) in
    (matched : List Automation) × (r ≡ ok (length matched))
    × (w'.automation_jobs ≡ map (λ a. run_job a hello_props) matched)
    × ((a : Automation)
        → Has a matched
        → Has a (small_world draft).automations × IsTriggered 1 hello a)
    × ((a : Automation)
        → Has a (small_world draft).automations
        → IsTriggered 1 hello a
        → Has a matched)
dispatch_incoming_message_lem_example =
    dispatch_incoming_message_lem 10 1 hello end (small_world draft)

matches_message_lem_example :
    (matches_message hello_trigger hello ≡ true) ↔ IsMatch hello_trigger hello
matches_message_lem_example = matches_message_lem hello_trigger hello

abbrev late_action : AutomationAction
late_action = record reply_action { order = pos 2; action_type = ActionType.delay }

abbrev two_actions : List AutomationAction
two_actions = late_action ∷ reply_action ∷ []

abbrev reply_context : ActionRunContext
reply_context = record {
  workspace_id = 1;
  session_id = 5;
  openwa_session_id = codes "s5";
  creds = shop_credentials;
  to = str (codes "628");
  automation_id = some 4;
  variables = end;
}

run-straight_example :
    (sorted : List AutomationAction) × IsSorted sorted
    × ((n : ℤ) → of_order n sorted ≡ of_order n two_actions)
    × (run ⦃server = kind_server⦄ two_actions reply_context (small_world draft)
        ≡ run_each ⦃server = kind_server⦄ sorted reply_context (small_world draft))
run-straight_example =
    run-straight ⦃server = kind_server⦄ two_actions reply_context (small_world draft)
      (refl, (refl, tt))

run-IsWithin_example :
    IsWithin
      (length (sort two_actions) * 4 + 10)
      (small_world draft)
      (run ⦃server = kind_server⦄ two_actions reply_context (small_world draft)).1
run-IsWithin_example =
    run-IsWithin ⦃server = kind_server⦄ two_actions reply_context (small_world draft)
