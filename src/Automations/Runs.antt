-- ===== src/Automations/Runs.antt =====
-- The order of a run of action.engine.ts without conditions.
use api_wa_automation.Base.{
  ℕ, zero, suc, ◌+◌, ◌*◌, ◌≤◌, Bool, true, false, ◌≡◌, refl, sym, ap, ◌∙◌, inl, inr, ◌⊎◌, none,
  some, List, [], ◌∷◌, ◌++◌, length, length-append, append_assoc, get_elem?, All, arith, Bool-cases,
}
use api_wa_automation.Base.Text.{codes}
use api_wa_automation.Base.Int.{ℤ, leb_ℤ}
use api_wa_automation.Value.{Js}
use api_wa_automation.Orm.{Orm}
use api_wa_automation.Data.Automation.{
  AutomationAction, ActionType, ActionConfig, send_text, send_image, send_file, forward, delay,
  condition, unknown,
}
use api_wa_automation.World.{World, Action, Result-cases, ok, err, Exception, pure, ◌>>=◌}
use api_wa_automation.Messages.{record_log, or_empty, or_text, media_value}
use api_wa_automation.Template.{render_template}
use api_wa_automation.Openwa
use api_wa_automation.Openwa.{request, outcome, text_args, media_args}
use api_wa_automation.Automations.Sorting.{IsSorted, of_order, sort_lem}
use api_wa_automation.Automations.Actions.{
  ActionRunContext, recipient-cases, forward_target, sort, insert, log, execute_as, execute,
  run_from, run,
}

abbrev pub is_condition : ActionType → Bool
is_condition condition = true
is_condition _ = false

-- No action of the list is a `condition`.
abbrev pub IsStraight : List AutomationAction → Type 0
IsStraight = λ actions. All (λ a. is_condition a.action_type ≡ false) actions

get_elem?-append :
    (pre post : List AutomationAction) → get_elem? (pre ++ post) (length pre) ≡ get_elem? post 0
get_elem?-append [] post = refl
get_elem?-append (a ∷ pre) post = get_elem?-append pre post

module _ ⦃orm : Orm⦄ ⦃js : Js⦄ ⦃server : Openwa.Server⦄ where
  -- The actions of a list one after the other, up to the first that fails.
  abbrev pub run_each : List AutomationAction → ActionRunContext → Action (Unit {0})
  run_each [] ctx = pure tt
  run_each (a ∷ actions) ctx = execute a ctx >>= λ _. run_each actions ctx

  pub execute-straight :
      (type : ActionType) (cfg : ActionConfig) (ctx : ActionRunContext) (w : World)
      → is_condition type ≡ false
      → ((execute_as type cfg ctx w).0 ≡ ok none)
        ⊎ ((e : Exception) × ((execute_as type cfg ctx w).0 ≡ err e))
  unfolding execute_as log record_log Openwa.send_text Openwa.send_image Openwa.send_file
  execute-straight send_text cfg ctx w h = elim (recipient-cases (ctx.to)) [
    | inr (x, e) ↦ let z = e w in inr (x, ground arith)
    | inl (to, e) ↦
        rw e
          (elim (Result-cases (
            outcome "sendText" (
              server.reply w.calls (
                request ctx.creds "sendText"
                  (text_args to (render_template (or_empty cfg.message) ctx.variables))
                  ctx.openwa_session_id)))) [
                    | inl (res, d) ↦ inl (ground arith)
                    | inr (x, d) ↦ inr (x, ground arith)
                  ])
  ]
  execute-straight send_image cfg ctx w h = elim (recipient-cases (ctx.to)) [
    | inr (x, e) ↦ let z = e w in inr (x, ground arith)
    | inl (to, e) ↦
        rw e
          (elim (Result-cases (
            outcome "sendImage" (
              server.reply w.calls (
                request ctx.creds "sendImage"
                  (media_args to (media_value cfg.image_url) (codes "image.jpg")
                    (render_template (or_empty cfg.caption) ctx.variables))
                  ctx.openwa_session_id)))) [
                    | inl (res, d) ↦ inl (ground arith)
                    | inr (x, d) ↦ inr (x, ground arith)
                  ])
  ]
  execute-straight send_file cfg ctx w h = elim (recipient-cases (ctx.to)) [
    | inr (x, e) ↦ let z = e w in inr (x, ground arith)
    | inl (to, e) ↦
        rw e
          (elim (Result-cases (
            outcome "sendFile" (
              server.reply w.calls (
                request ctx.creds "sendFile"
                  (media_args to (media_value cfg.file_url) (or_text cfg.filename (codes "file"))
                    (render_template (or_empty cfg.caption) ctx.variables))
                  ctx.openwa_session_id)))) [
                    | inl (res, d) ↦ inl (ground arith)
                    | inr (x, d) ↦ inr (x, ground arith)
                  ])
  ]
  execute-straight forward cfg ctx w h = elim (recipient-cases (forward_target cfg ctx)) [
    | inr (x, e) ↦ let z = e w in inr (x, ground arith)
    | inl (to, e) ↦
        rw e
          (elim (Result-cases (
            outcome "sendText" (
              server.reply w.calls (
                request ctx.creds "sendText"
                  (text_args to (render_template (or_empty cfg.message) ctx.variables))
                  ctx.openwa_session_id)))) [
                    | inl (res, d) ↦ inl (ground arith)
                    | inr (x, d) ↦ inr (x, ground arith)
                  ])
  ]
  execute-straight delay cfg ctx w h = inl refl
  execute-straight condition cfg ctx w h = absurd (cc)
  execute-straight unknown cfg ctx w h = inl refl

  run_from-straight :
      (steps : ℕ) (pre post : List AutomationAction) (ctx : ActionRunContext) (w : World)
      → length post ≤ steps
      → IsStraight post
      → run_from steps (pre ++ post) ctx (length pre) w ≡ run_each post ctx w
  unfolding run_from execute
  run_from-straight zero pre [] ctx w h straight = refl
  run_from-straight zero pre (a ∷ post) ctx w h straight = absurd (omega (arith, h))
  run_from-straight (suc steps) pre [] ctx w h straight =
      let e : get_elem? (pre ++ []) (length pre) ≡ none = get_elem?-append pre [] in ground arith
  run_from-straight (suc steps) pre (a ∷ post) ctx w h (plain, straight) =
      let e : get_elem? (pre ++ a ∷ post) (length pre) ≡ some a = get_elem?-append pre (a ∷ post) in
      let (res, v) = execute_as a.action_type a.action_config ctx w in
      elim (execute-straight a.action_type a.action_config ctx w plain) [
        | inr (x, failed) ↦ ground arith
        | inl done ↦
            let rest =
              run_from-straight steps (pre ++ a ∷ []) post ctx v (omega (arith, h)) straight in
            let len : length (pre ++ a ∷ []) ≡ suc (length pre) =
              omega (arith, length-append pre (a ∷ [])) in
            let z : run_from (suc steps) (pre ++ a ∷ post) ctx (length pre) w
                ≡ run_from steps (pre ++ a ∷ post) ctx (suc (length pre)) v =
              ground arith in
            let y : run_each (a ∷ post) ctx w ≡ run_each post ctx v = ground arith in
            z
            ∙ ap (λ (k : ℕ). run_from steps (pre ++ a ∷ post) ctx k v) (sym len)
            ∙ ap (λ (t : List AutomationAction). run_from steps t ctx (length (pre ++ a ∷ [])) v)
                (sym (append_assoc pre (a ∷ []) post))
            ∙ rest
            ∙ sym y
      ]

  insert-IsStraight :
      (a : AutomationAction) (actions : List AutomationAction)
      → is_condition a.action_type ≡ false
      → IsStraight actions
      → IsStraight (insert a actions)
  unfolding insert
  insert-IsStraight a [] h k = (h, tt)
  insert-IsStraight a (b ∷ actions) h (k, ks) = elim (Bool-cases (leb_ℤ a.order b.order)) [
    | inl e ↦ rw e (h, (k, ks))
    | inr e ↦ rw e (k, insert-IsStraight a actions h ks)
  ]

  sort-IsStraight :
      (actions : List AutomationAction) → IsStraight actions → IsStraight (sort actions)
  unfolding sort
  sort-IsStraight [] h = tt
  sort-IsStraight (a ∷ actions) (h, hs) =
      insert-IsStraight a (sort actions) h (sort-IsStraight actions hs)

  -- Without conditions, a run takes the actions one after the other, up to the first that fails, in a
  -- list that is sorted by their numbers and has, of each number, the actions of the automation with it,
  -- in the order in which they are given: the bound on its steps is never met.
  pub run-straight :
      (actions : List AutomationAction) (ctx : ActionRunContext) (w : World)
      → IsStraight actions
      → (sorted : List AutomationAction) × IsSorted sorted
        × ((n : ℤ) → of_order n sorted ≡ of_order n actions)
        × (run actions ctx w ≡ run_each sorted ctx w)
  unfolding run
  run-straight actions ctx w h = (
    sort actions,
    (sort_lem actions).0,
    (sort_lem actions).1,
    run_from-straight (length (sort actions) * 4 + 10) [] (sort actions) ctx w (omega arith)
        (sort-IsStraight actions h),
  )
