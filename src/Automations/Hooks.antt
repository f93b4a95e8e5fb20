-- ===== src/Automations/Hooks.antt =====
-- From a webhook of inbound.controller.ts to the run of automation.processor.ts.
use api_wa_automation.Base.{
  ℕ, true, false, ◌≡◌, refl, sym, ap, subst, ◌∙◌, ◌⊎◌, inl, inr, none, some, [], ◌∷◌, ◌++◌, Has,
  Option-cases, Bool-cases, arith,
}
use api_wa_automation.Base.Text.{Text, codes, text_eq, text_eq_refl, text_eq-eq, truthy}
use api_wa_automation.Value.{Js, Value, str, Props, end, prop, own, with_prop, is_truthy}
use api_wa_automation.Template.{render_template}
use api_wa_automation.Orm.{Orm}
use api_wa_automation.Orm.Laws.{IsKeyed, find_one-keyed}
use api_wa_automation.Encryption.{Crypto}
use api_wa_automation.Data.Tenancy.{Key, Session}
use api_wa_automation.Data.Automation.{Automation}
use api_wa_automation.World.{World, ok}
use api_wa_automation.Gateway.{to_workspace, emit_automation_triggered}
use api_wa_automation.Openwa
use api_wa_automation.Workspaces.{OpenwaCredentials}
use api_wa_automation.Automations.Interface.{Uuid}
use api_wa_automation.Automations.Service.{run_job, enqueue_run, find_by_webhook_path}
use api_wa_automation.Automations.Processor.{
  has_automation_key, run_context, db_session_id, run_on, process,
}
use api_wa_automation.Automations.Inbound.{
  session_value, hook_phone, addressed, hook_context, run_hook, webhook_trigger,
}

own-with_prop : (k : Text) (v : Value) (ps : Props) → own k (with_prop k v ps) ≡ v
own-with_prop k v end = let e = text_eq_refl k in ground arith
own-with_prop k v (prop j u ps) = elim (Bool-cases (text_eq k j)) [
  | inl e ↦ ground arith
  | inr e ↦ let rest = own-with_prop k v ps in ground arith
]

own-with_prop_other :
    (k l : Text) (v : Value) (ps : Props)
    → text_eq k l ≡ false
    → own k (with_prop l v ps) ≡ own k ps
own-with_prop_other k l v end h = ground arith
own-with_prop_other k l v (prop j u ps) h = elim (Bool-cases (text_eq l j)) [
  | inl e ↦
      let same = text_eq-eq l j e in
      let other : text_eq k j ≡ false = ap (text_eq k) (sym same) ∙ h in ground arith
  | inr e ↦
      let rest = own-with_prop_other k l v ps h in
      elim (Bool-cases (text_eq k j)) [ inl t ↦ ground arith | inr f ↦ ground arith ]
]

module _ ⦃js : Js⦄ ⦃uuid : Uuid⦄ where
  -- A template changes the message only.
  own-hook_context :
      (k : Text) (a : Automation) (body : Props)
      → text_eq k (codes "message") ≡ false
      → own k (hook_context a body) ≡ own k (addressed a body)
  own-hook_context k a body h = elim (Option-cases (truthy a.trigger_config.message_template)) [
    | inl e ↦ ground arith
    | inr (template, e) ↦
        let other =
          own-with_prop_other k (codes "message") (str (render_template template body))
            (addressed a body) h in
        ground arith
  ]

  hook_context-to :
      (a : Automation) (body : Props)
      → own (codes "to") (hook_context a body) ≡ hook_phone a.trigger_config body
  hook_context-to a body =
      let phone = hook_phone a.trigger_config body in
      own-hook_context (codes "to") a body refl
      ∙ own-with_prop_other (codes "to") (codes "sessionId") (session_value a.session_id)
          (with_prop (codes "to") phone (with_prop (codes "from") phone body)) refl
      ∙ own-with_prop (codes "to") phone (with_prop (codes "from") phone body)

  hook_context-from :
      (a : Automation) (body : Props)
      → own (codes "from") (hook_context a body) ≡ hook_phone a.trigger_config body
  hook_context-from a body =
      let phone = hook_phone a.trigger_config body in
      own-hook_context (codes "from") a body refl
      ∙ own-with_prop_other (codes "from") (codes "sessionId") (session_value a.session_id)
          (with_prop (codes "to") phone (with_prop (codes "from") phone body)) refl
      ∙ own-with_prop_other (codes "from") (codes "to") phone (with_prop (codes "from") phone body)
          refl
      ∙ own-with_prop (codes "from") phone body

  hook_context-session :
      (a : Automation) (body : Props)
      → own (codes "sessionId") (hook_context a body) ≡ session_value a.session_id
  hook_context-session a body =
      let phone = hook_phone a.trigger_config body in
      own-hook_context (codes "sessionId") a body refl
      ∙ own-with_prop (codes "sessionId") (session_value a.session_id)
          (with_prop (codes "to") phone (with_prop (codes "from") phone body))

module _ ⦃orm : Orm⦄ ⦃js : Js⦄ ⦃c : Crypto⦄ ⦃server : Openwa.Server⦄ ⦃uuid : Uuid⦄
    (enc_key : Text) where
  process-hook :
      (later : ℕ) (a : Automation) (body : Props) (w : World)
      → IsKeyed Automation.id w.automations
      → Has a w.automations
      → let job = (run_job a (hook_context a body)).job in
        ((a.session_id ≡ none) × (process enc_key later job w ≡ (ok false, w)))
        ⊎ ((id : Key) × (a.session_id ≡ some id)
            × (process enc_key later job w ≡ run_on enc_key later job a (uuid.value_of id) w))
  unfolding process
  process-hook later a body w keyed row =
      let found : orm.find_one (has_automation_key a.id) w.automations ≡ some a =
        find_one-keyed Automation.id (has_automation_key a.id) a w.automations keyed row
          (ground arith) (λ y k. ground arith) in
      let session = hook_context-session a body in
      elim (Option-cases a.session_id) [
        | inl e ↦
            let no_session : is_truthy (db_session_id a (hook_context a body)) ≡ false =
              ap
                (λ o. is_truthy (elim o [
                  | none ↦ own (codes "sessionId") (hook_context a body)
                  | some k ↦ uuid.value_of k
                ]))
                e
              ∙ ap is_truthy (session ∙ ap session_value e) in
            inl (e, ground arith)
        | inr (id, e) ↦
            let named = uuid.is_truthy-value_of id in
            let its_own : db_session_id a (hook_context a body) ≡ uuid.value_of id = ground arith in
            inr (id, e, ground arith)
      ]

  -- A request of a webhook queues one run of its automation, behind those queued before, and the run
  -- answers the phone that the request names. It takes place on the automation's own session, whatever
  -- the request's body says; where the automation has none, the worker skips it and nothing changes.
  pub webhook_trigger-process :
      (now later : ℕ) (token : Text) (body : Props) (a : Automation) (w : World)
      → IsKeyed Automation.id w.automations
      → find_by_webhook_path (codes "/trigger/" ++ token) w ≡ some a
      → let (r, w') = webhook_trigger now token body w in
        let job = (run_job a (hook_context a body)).job in
        (r ≡ ok true)
        × (w'.automation_jobs ≡ w.automation_jobs ++ run_job a (hook_context a body) ∷ [])
        × ((s : Session) (creds : OpenwaCredentials)
            → (run_context job s creds).to ≡ hook_phone a.trigger_config body)
        × (((a.session_id ≡ none) × (process enc_key later job w' ≡ (ok false, w')))
            ⊎ ((id : Key) × (a.session_id ≡ some id)
                × (process enc_key later job w'
                    ≡ run_on enc_key later job a (uuid.value_of id) w')))
  unfolding webhook_trigger find_by_webhook_path enqueue_run emit_automation_triggered to_workspace
  webhook_trigger-process now later token body a w keyed e =
      let to = hook_context-to a body in
      let from = hook_context-from a body in
      let w' = enqueue_run now a (hook_context a body) w in
      let done : webhook_trigger now token body w ≡ (ok true, w') =
        ap (λ o. run_hook now body o w) e in
      subst
        (λ z.
          (z.0 ≡ ok true)
          × (z.1.automation_jobs ≡ w.automation_jobs ++ run_job a (hook_context a body) ∷ [])
          × ((s : Session) (creds : OpenwaCredentials)
              → (run_context (run_job a (hook_context a body)).job s creds).to
                ≡ hook_phone a.trigger_config body)
          × (((a.session_id ≡ none)
                × (process enc_key later (run_job a (hook_context a body)).job z.1
                    ≡ (ok false, z.1)))
              ⊎ ((id : Key) × (a.session_id ≡ some id)
                  × (process enc_key later (run_job a (hook_context a body)).job z.1
                      ≡ run_on enc_key later (run_job a (hook_context a body)).job a
                          (uuid.value_of id) z.1))))
        (sym done)
        (
          refl,
          refl,
          λ s creds. elim (Bool-cases (is_truthy (own (codes "to") (hook_context a body)))) [
            | inl t ↦ ground arith
            | inr f ↦ ground arith
          ],
          process-hook later a body w' keyed (orm.find_one_has _ w.automations a e),
        )
