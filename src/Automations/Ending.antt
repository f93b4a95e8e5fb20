-- ===== src/Automations/Ending.antt =====
-- Why the loop of `run` in action.engine.ts ends by itself where jumps go forward.
use api_wa_automation.Base.{
  ℕ, zero, suc, ◌+◌, ◌*◌, ◌≤◌, ◌<◌, true, ◌≡◌, refl, sym, ap, subst, ◌∙◌, ◌⊎◌, inl, inr, Option,
  none, some, List, [], ◌∷◌, length, get_elem?, Option-cases, Bool-cases, arith,
}
use api_wa_automation.Base.Int.{ℤ}
use api_wa_automation.Value.{Js, Value, undefined, null, bool, num, str, arr, obj}
use api_wa_automation.Orm.{Orm}
use api_wa_automation.Data.Automation.{AutomationAction, ActionType, ActionConfig, condition}
use api_wa_automation.World.{World, Result-cases, ok}
use api_wa_automation.Openwa
use api_wa_automation.Automations.Condition.{evaluate}
use api_wa_automation.Automations.Actions.{
  ActionRunContext, sort, index_of, next_index, jump, execute_as, execute, run_from, run,
}
use api_wa_automation.Automations.Runs.{is_condition, execute-straight}

-- Each number that a condition may jump to is that of an action further on, or of none.
abbrev pub IsForward : List AutomationAction → Type 0
IsForward = λ sorted.
    (i : ℕ) (a : AutomationAction) (t : ℤ)
    → get_elem? sorted i ≡ some a
    → (a.action_config.condition.if_true_action_order ≡ num t)
      ⊎ (a.action_config.condition.if_false_action_order ≡ num t)
    → i < index_of t sorted

get_elem?-past :
    (sorted : List AutomationAction) (i : ℕ) → length sorted ≤ i → get_elem? sorted i ≡ none
get_elem?-past [] i h = refl
get_elem?-past (a ∷ sorted) zero h = absurd (omega (arith, h))
get_elem?-past (a ∷ sorted) (suc i) h = get_elem?-past sorted i (omega (arith, h))

jump_num : (v : Value) (t : ℤ) → jump v ≡ some t → v ≡ num t
jump_num (num n) t h = ap num (ground arith)
jump_num undefined t h = absurd (cc)
jump_num null t h = absurd (cc)
jump_num (bool b) t h = absurd (cc)
jump_num (str s) t h = absurd (cc)
jump_num (arr items) t h = absurd (cc)
jump_num (obj ps) t h = absurd (cc)

is_condition_sound : (type : ActionType) → is_condition type ≡ true → type ≡ condition
is_condition_sound ActionType.condition h = refl
is_condition_sound ActionType.send_text h = absurd (cc)
is_condition_sound ActionType.send_image h = absurd (cc)
is_condition_sound ActionType.send_file h = absurd (cc)
is_condition_sound ActionType.forward h = absurd (cc)
is_condition_sound ActionType.delay h = absurd (cc)
is_condition_sound ActionType.unknown h = absurd (cc)

module _ ⦃orm : Orm⦄ ⦃js : Js⦄ ⦃server : Openwa.Server⦄ where
  condition-jumps :
      (cfg : ActionConfig) (ctx : ActionRunContext) (w : World) (t : ℤ)
      → (execute_as condition cfg ctx w).0 ≡ ok (some t)
      → (cfg.condition.if_true_action_order ≡ num t) ⊎ (cfg.condition.if_false_action_order ≡ num t)
  unfolding execute_as
  condition-jumps cfg ctx w t e = elim (Bool-cases (evaluate cfg.condition ctx.variables)) [
    | inl holds ↦ inl (jump_num cfg.condition.if_true_action_order t (ground arith))
    | inr fails ↦ inr (jump_num cfg.condition.if_false_action_order t (ground arith))
  ]

  next_index-later :
      (sorted : List AutomationAction) (i : ℕ) (a : AutomationAction) (ctx : ActionRunContext)
      (w : World) (next : Option ℤ)
      → IsForward sorted
      → get_elem? sorted i ≡ some a
      → (execute a ctx w).0 ≡ ok next
      → i < next_index sorted i next
  unfolding execute
  next_index-later sorted i a ctx w none forward at e = omega arith
  next_index-later sorted i a ctx w (some t) forward at e =
      elim (Bool-cases (is_condition a.action_type)) [
        | inr straight ↦ elim (execute-straight a.action_type a.action_config ctx w straight) [
          | inl done ↦ absurd (ground arith)
          | inr (x, failed) ↦ absurd (ground arith)
        ]
        | inl is ↦
            let type = is_condition_sound a.action_type is in
            let goes = subst (λ z. (execute_as z a.action_config ctx w).0 ≡ ok (some t)) type e in
            forward i a t at (condition-jumps a.action_config ctx w t goes)
      ]

  run_from-steps :
      (steps more : ℕ) (sorted : List AutomationAction) (ctx : ActionRunContext) (i : ℕ) (w : World)
      → IsForward sorted
      → length sorted ≤ steps + i
      → run_from steps sorted ctx i w ≡ run_from (steps + more) sorted ctx i w
  unfolding run_from
  run_from-steps zero zero sorted ctx i w forward h = refl
  run_from-steps zero (suc more) sorted ctx i w forward h =
      let e = get_elem?-past sorted i (omega (arith, h)) in ground arith
  run_from-steps (suc steps) more sorted ctx i w forward h =
      let shift : suc steps + more ≡ suc (steps + more) = omega arith in
      let same : run_from (suc steps) sorted ctx i w
          ≡ run_from (suc (steps + more)) sorted ctx i w =
        elim (Option-cases (get_elem? sorted i)) [
          | inl e ↦ ground arith
          | inr (a, e) ↦ elim (Result-cases (execute a ctx w).0) [
            | inr (x, failed) ↦ ground arith
            | inl (next, done) ↦
                let later = next_index-later sorted i a ctx w next forward e done in
                let rest =
                  run_from-steps steps more sorted ctx (next_index sorted i next)
                    (execute a ctx w).1 forward (omega (arith, h, later)) in
                ground arith
          ]
        ] in
      same ∙ ap (λ k. run_from k sorted ctx i w) (sym shift)

  -- Where conditions jump forward only, the bound on the steps of a run never cuts it short: any
  -- greater bound gives the same run.
  pub run-unbounded :
      (more : ℕ) (actions : List AutomationAction) (ctx : ActionRunContext) (w : World)
      → IsForward (sort actions)
      → run actions ctx w ≡ run_from (length (sort actions) * 4 + 10 + more) (sort actions) ctx 0 w
  unfolding run
  run-unbounded more actions ctx w forward =
      run_from-steps (length (sort actions) * 4 + 10) more (sort actions) ctx 0 w forward
        (omega arith)
