-- ===== src/Automations/Bounds.antt =====
-- The bound on what the loop of action.engine.ts does.
use api_wa_automation.Base.{
  ℕ, zero, suc, ◌+◌, ◌*◌, ◌≤◌, ◌≡◌, sym, ap, ◌∙◌, inl, inr, List, [], ◌∷◌, ◌++◌, length,
  length-append, append-nil, append_assoc, get_elem?, arith, Option-cases,
}
use api_wa_automation.Base.Text.{codes}
use api_wa_automation.Value.{Js}
use api_wa_automation.Orm.{Orm}
use api_wa_automation.Data.Automation.{
  AutomationAction, ActionType, ActionConfig, send_text, send_image, send_file, forward, delay,
  condition, unknown,
}
use api_wa_automation.World.{World, Result, Result-cases, Call}
use api_wa_automation.Messages.{record_log, or_empty, or_text, media_value}
use api_wa_automation.Template.{render_template}
use api_wa_automation.Openwa
use api_wa_automation.Openwa.{request, outcome, text_args, media_args}
use api_wa_automation.Automations.Actions.{
  ActionRunContext, recipient-cases, forward_target, sort, next_index, log, execute_as, execute,
  run_from, run,
}

-- The requests made between two states, at most `n` of them.
abbrev pub IsWithin : ℕ → World → World → Type 0
IsWithin n w w' = (sent : List Call) × (w'.calls ≡ w.calls ++ sent) × (length sent ≤ n)

module _ ⦃orm : Orm⦄ ⦃js : Js⦄ ⦃server : Openwa.Server⦄ where
  execute_as-IsWithin :
      (type : ActionType) (cfg : ActionConfig) (ctx : ActionRunContext) (w : World)
      → IsWithin 1 w (execute_as type cfg ctx w).1
  unfolding execute_as log record_log Openwa.send_text Openwa.send_image Openwa.send_file
  execute_as-IsWithin send_text cfg ctx w = elim (recipient-cases (ctx.to)) [
    | inr (x, e) ↦ let z = e w in ([], ground (arith, append-nil w.calls), omega arith)
    | inl (to, e) ↦ (
      request ctx.creds "sendText"
            (text_args to (render_template (or_empty cfg.message) ctx.variables))
            ctx.openwa_session_id
          ∷ [],
      rw e (ground arith),
      omega arith,
    )
  ]
  execute_as-IsWithin send_image cfg ctx w = elim (recipient-cases (ctx.to)) [
    | inr (x, e) ↦ let z = e w in ([], ground (arith, append-nil w.calls), omega arith)
    | inl (to, e) ↦ (
      request ctx.creds "sendImage"
            (media_args to (media_value cfg.image_url) (codes "image.jpg")
              (render_template (or_empty cfg.caption) ctx.variables))
            ctx.openwa_session_id
          ∷ [],
      rw e (ground arith),
      omega arith,
    )
  ]
  execute_as-IsWithin send_file cfg ctx w = elim (recipient-cases (ctx.to)) [
    | inr (x, e) ↦ let z = e w in ([], ground (arith, append-nil w.calls), omega arith)
    | inl (to, e) ↦ (
      request ctx.creds "sendFile"
            (media_args to (media_value cfg.file_url) (or_text cfg.filename (codes "file"))
              (render_template (or_empty cfg.caption) ctx.variables))
            ctx.openwa_session_id
          ∷ [],
      rw e (ground arith),
      omega arith,
    )
  ]
  execute_as-IsWithin forward cfg ctx w = elim (recipient-cases (forward_target cfg ctx)) [
    | inr (x, e) ↦ let z = e w in ([], ground (arith, append-nil w.calls), omega arith)
    | inl (to, e) ↦ (
      request ctx.creds "sendText"
            (text_args to (render_template (or_empty cfg.message) ctx.variables))
            ctx.openwa_session_id
          ∷ [],
      rw e (ground arith),
      omega arith,
    )
  ]
  execute_as-IsWithin delay cfg ctx w = ([], sym (append-nil w.calls), omega arith)
  execute_as-IsWithin condition cfg ctx w = ([], sym (append-nil w.calls), omega arith)
  execute_as-IsWithin unknown cfg ctx w = ([], sym (append-nil w.calls), omega arith)

  run_from-IsWithin :
      (steps : ℕ) (sorted : List AutomationAction) (ctx : ActionRunContext) (index : ℕ) (w : World)
      → IsWithin steps w (run_from steps sorted ctx index w).1
  unfolding run_from execute
  run_from-IsWithin zero sorted ctx index w = ([], sym (append-nil w.calls), omega arith)
  run_from-IsWithin (suc steps) sorted ctx index w = elim (Option-cases (get_elem? sorted index)) [
    | inl e ↦
        let z : (run_from (suc steps) sorted ctx index w).1.calls ≡ w.calls = ground arith in
        ([], z ∙ sym (append-nil w.calls), omega arith)
    | inr (a, e) ↦
        let (first, calls, few) = execute_as-IsWithin a.action_type a.action_config ctx w in
        let (res, v) = execute_as a.action_type a.action_config ctx w in
        elim (Result-cases res) [
          | inr (x, failed) ↦
              let z : (run_from (suc steps) sorted ctx index w).1.calls ≡ v.calls = ground arith in
              (first, z ∙ calls, omega (arith, few))
          | inl (next, done) ↦
              let (later, calls', few') =
                run_from-IsWithin steps sorted ctx (next_index sorted index next) v in
              let z : run_from (suc steps) sorted ctx index w
                  ≡ run_from steps sorted ctx (next_index sorted index next) v =
                ground arith in
              (
                first ++ later,
                ap (λ (r : Result (Unit {0}) × World). r.1.calls) z
                    ∙ calls'
                    ∙ ap (λ (t : List Call). t ++ later) calls
                    ∙ append_assoc w.calls first later,
                omega (arith, length-append first later),
              )
        ]
  ]

  -- A run makes at most four requests for each action and ten more, however its conditions jump.
  pub run-IsWithin :
      (actions : List AutomationAction) (ctx : ActionRunContext) (w : World)
      → IsWithin (length (sort actions) * 4 + 10) w (run actions ctx w).1
  unfolding run
  run-IsWithin actions ctx w =
      run_from-IsWithin (length (sort actions) * 4 + 10) (sort actions) ctx 0 w
