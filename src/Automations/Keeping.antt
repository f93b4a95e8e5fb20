-- ===== src/Automations/Keeping.antt =====
-- What a run of action.engine.ts leaves of the table of automations.
use api_wa_automation.Base.{ℕ, zero, suc, ◌≡◌, refl, inl, inr, List, get_elem?, Option-cases, arith}
use api_wa_automation.Value.{Js}
use api_wa_automation.Orm.{Orm}
use api_wa_automation.Data.Automation.{
  AutomationAction, ActionType, ActionConfig, send_text, send_image, send_file, forward, delay,
  condition, unknown,
}
use api_wa_automation.World.{World, Result-cases}
use api_wa_automation.Messages.{record_log}
use api_wa_automation.Openwa
use api_wa_automation.Automations.Actions.{
  ActionRunContext, recipient-cases, forward_target, next_index, log, execute_as, execute, run_from,
  run,
}

module _ ⦃orm : Orm⦄ ⦃js : Js⦄ ⦃server : Openwa.Server⦄ where
  execute_as-automations :
      (type : ActionType) (cfg : ActionConfig) (ctx : ActionRunContext) (w : World)
      → (execute_as type cfg ctx w).1.automations ≡ w.automations
  unfolding execute_as log record_log Openwa.send_text Openwa.send_image Openwa.send_file
  execute_as-automations send_text cfg ctx w = elim (recipient-cases ctx.to) [
    | inr (x, e) ↦ let z = e w in ground arith
    | inl (to, e) ↦ rw e (ground arith)
  ]
  execute_as-automations send_image cfg ctx w = elim (recipient-cases ctx.to) [
    | inr (x, e) ↦ let z = e w in ground arith
    | inl (to, e) ↦ rw e (ground arith)
  ]
  execute_as-automations send_file cfg ctx w = elim (recipient-cases ctx.to) [
    | inr (x, e) ↦ let z = e w in ground arith
    | inl (to, e) ↦ rw e (ground arith)
  ]
  execute_as-automations forward cfg ctx w = elim (recipient-cases (forward_target cfg ctx)) [
    | inr (x, e) ↦ let z = e w in ground arith
    | inl (to, e) ↦ rw e (ground arith)
  ]
  execute_as-automations delay cfg ctx w = refl
  execute_as-automations condition cfg ctx w = refl
  execute_as-automations unknown cfg ctx w = refl

  run_from-automations :
      (steps : ℕ) (sorted : List AutomationAction) (ctx : ActionRunContext) (index : ℕ) (w : World)
      → (run_from steps sorted ctx index w).1.automations ≡ w.automations
  unfolding run_from execute
  run_from-automations zero sorted ctx index w = refl
  run_from-automations (suc steps) sorted ctx index w =
      elim (Option-cases (get_elem? sorted index)) [
        | inl e ↦ ground arith
        | inr (a, e) ↦
            let same = execute_as-automations a.action_type a.action_config ctx w in
            let (res, v) = execute_as a.action_type a.action_config ctx w in
            elim (Result-cases (execute_as a.action_type a.action_config ctx w).0) [
              | inr (x, failed) ↦ ground arith
              | inl (next, done) ↦
                  let rest =
                    run_from-automations steps sorted ctx (next_index sorted index next)
                      (execute_as a.action_type a.action_config ctx w).1 in
                  ground arith
            ]
      ]

  -- A run leaves the automations as they are.
  pub run-automations :
      (actions : List AutomationAction) (ctx : ActionRunContext) (w : World)
      → (run actions ctx w).1.automations ≡ w.automations
  unfolding run
  run-automations actions ctx w = run_from-automations _ _ ctx 0 w
