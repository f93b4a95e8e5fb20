-- ===== src/Automations/Reception.antt =====
-- From a message that inbound.controller.ts reports to the run of automation.processor.ts that
-- answers it.
use api_wa_automation.Base.{
  ℕ, ◌≡◌, refl, sym, ap, subst, ◌∙◌, inl, inr, none, some, List, [], ◌∷◌, map, select, Has,
  Has-append_right, Has-map, Bool-cases, arith,
}
use api_wa_automation.Base.Text.{Text, codes, text_eq}
use api_wa_automation.Value.{Js, str, Props, with_prop, is_truthy}
use api_wa_automation.Orm.{Orm}
use api_wa_automation.Orm.Laws.{IsKeyed, find_one-keyed}
use api_wa_automation.Encryption.{Crypto}
use api_wa_automation.Data.Tenancy.{Key, Session}
use api_wa_automation.Data.Messaging.{AutomationJob, Queued, Webhook}
use api_wa_automation.Data.Automation.{Automation}
use api_wa_automation.World.{World}
use api_wa_automation.Gateway.{
  to_workspace, to_session, emit_message_received, emit_automation_triggered,
}
use api_wa_automation.Messages.{record_log}
use api_wa_automation.Sessions.{has_session_key, get_by_id, find_by_openwa_session_id}
use api_wa_automation.Webhooks
use api_wa_automation.Webhooks.{enqueue, enqueue_all}
use api_wa_automation.Workspaces.{OpenwaCredentials}
use api_wa_automation.Openwa
use api_wa_automation.Automations.Interface.{Uuid}
use api_wa_automation.Automations.Trigger.{matches_message, IncomingMessageContext}
use api_wa_automation.Automations.Service.{
  is_candidate, context_props, run_job, enqueue_run, enqueue_runs, dispatch_incoming_message,
}
use api_wa_automation.Automations.Dispatch.{IsTriggered, dispatch_incoming_message_lem}
use api_wa_automation.Automations.Processor.{
  has_automation_key, run_context, run_with, run_on, process,
}
use api_wa_automation.Automations.Inbound.{
  InboundMessageDto, message_context, session_prop, receive, received_payload, inbound_log,
  on_message,
}

-- The tables that a run reads its automation and its session from.
abbrev HasSameRows : World → World → Type 0
HasSameRows v w = (v.sessions ≡ w.sessions) × (v.automations ≡ w.automations)

enqueue_runs-HasSameRows :
    (now : ℕ) (context : Props) (matched : List Automation) (w : World)
    → HasSameRows (enqueue_runs now context matched w) w
unfolding enqueue_runs enqueue_run emit_automation_triggered
enqueue_runs-HasSameRows now context [] w = (refl, refl)
enqueue_runs-HasSameRows now context (a ∷ matched) w =
    enqueue_runs-HasSameRows now context matched (enqueue_run now a context w)

enqueue_all-HasSameRows :
    (event : Text) (payload : Props) (subscribed : List Webhook) (w : World)
    → HasSameRows (enqueue_all event payload subscribed w) w
unfolding enqueue_all enqueue
enqueue_all-HasSameRows event payload [] w = (refl, refl)
enqueue_all-HasSameRows event payload (h ∷ subscribed) w =
    enqueue_all-HasSameRows event payload subscribed (enqueue h event payload w)

module _ ⦃orm : Orm⦄ ⦃js : Js⦄ ⦃uuid : Uuid⦄ where
  -- The state in which `on_message` comes to the automations.
  abbrev pub announced : ℕ → InboundMessageDto → Session → World → World
  announced now dto s w =
      (Webhooks.dispatch s.workspace_id (codes "message.received") (received_payload s dto) (
        emit_message_received s.workspace_id s.id dto.from dto.body now
          (record_log (inbound_log s dto) w).1)).1

  announced-HasSameRows :
      (now : ℕ) (dto : InboundMessageDto) (s : Session) (w : World)
      → HasSameRows (announced now dto s w) w
  unfolding Webhooks.dispatch record_log emit_message_received to_workspace to_session
  announced-HasSameRows now dto s w =
      enqueue_all-HasSameRows (codes "message.received") (received_payload s dto) _ _

  dispatch-HasSameRows :
      (now : ℕ) (id : Key) (ctx : IncomingMessageContext) (extra : Props) (w : World)
      → HasSameRows (dispatch_incoming_message now id ctx extra w).1 w
  unfolding dispatch_incoming_message
  dispatch-HasSameRows now id ctx extra w =
      enqueue_runs-HasSameRows now (with_prop (codes "to") (str ctx.from) (context_props ctx extra))
        (select (λ a. matches_message a.trigger_config ctx)
          (orm.find (is_candidate id) w.automations))
        w

  on_message-state :
      (now : ℕ) (dto : InboundMessageDto) (s : Session) (w : World)
      → orm.find_one (λ x. text_eq x.session_id dto.session) w.sessions ≡ some s
      → (on_message now dto w).1
        ≡ (dispatch_incoming_message now s.workspace_id
            (message_context dto)
            (session_prop s)
            (announced now dto s w)).1
  unfolding on_message find_by_openwa_session_id Webhooks.dispatch dispatch_incoming_message
      record_log
  on_message-state now dto s w e = ap (λ o. (receive now dto o w).1) e

module _ ⦃uuid : Uuid⦄ where
  -- The job of an automation without a session of its own, for a message that came in on `s`.
  abbrev pub reply_job : Automation → Session → InboundMessageDto → AutomationJob
  reply_job a s dto =
      (run_job a (
        with_prop (codes "to") (str dto.from)
          (context_props (message_context dto) (session_prop s)))).job

module _ ⦃orm : Orm⦄ ⦃js : Js⦄ ⦃c : Crypto⦄ ⦃server : Openwa.Server⦄ ⦃uuid : Uuid⦄
    (enc_key : Text) where
  process-reply_job :
      (later : ℕ) (a : Automation) (s : Session) (dto : InboundMessageDto) (w : World)
      → IsKeyed Session.id w.sessions
      → IsKeyed Automation.id w.automations
      → Has s w.sessions
      → Has a w.automations
      → a.session_id ≡ none
      → let job = reply_job a s dto in
        process enc_key later job w ≡ run_with enc_key later job a s w
  unfolding process run_on get_by_id
  process-reply_job later a s dto w one_session one_automation hs ha free =
      let job = reply_job a s dto in
      let found : orm.find_one (has_automation_key a.id) w.automations ≡ some a =
        find_one-keyed Automation.id (has_automation_key a.id) a w.automations one_automation ha
          (ground arith) (λ y k. ground arith) in
      let session : orm.find_one (has_session_key s.id) w.sessions ≡ some s =
        find_one-keyed Session.id (has_session_key s.id) s w.sessions one_session hs (ground arith)
          (λ y k. ground arith) in
      let named = uuid.is_truthy-value_of s.id in
      let read = uuid.key_of-value_of s.id in rw free (ground arith)

  -- Where sessions and automations have keys of their own, a message that OpenWA reports for a session
  -- queues a run of each active automation of the session's workspace that it sets off and that has no
  -- session of its own. Processed in the state that is left, the run answers the sender, on the
  -- session that the message came in on.
  pub on_message-process :
      (now later : ℕ) (dto : InboundMessageDto) (a : Automation) (s : Session) (w : World)
      → IsKeyed Session.id w.sessions
      → IsKeyed Automation.id w.automations
      → orm.find_one (λ x. text_eq x.session_id dto.session) w.sessions ≡ some s
      → Has a w.automations
      → IsTriggered s.workspace_id (message_context dto) a
      → a.session_id ≡ none
      → let w' = (on_message now dto w).1 in
        let job = reply_job a s dto in
        Has (record { job = job; delay = 0; attempts = none }) w'.automation_jobs
        × (process enc_key later job w' ≡ run_with enc_key later job a s w')
        × ((creds : OpenwaCredentials) → (run_context job s creds).to ≡ str dto.from)
  on_message-process now later dto a s w one_session one_automation e ha triggered free =
      let v = announced now dto s w in
      let w' = (on_message now dto w).1 in
      let (sessions, automations) = announced-HasSameRows now dto s w in
      let (sessions', automations') =
        dispatch-HasSameRows now s.workspace_id (message_context dto) (session_prop s) v in
      let state = on_message-state now dto s w e in
      let same_sessions : w'.sessions ≡ w.sessions =
        ap World.sessions state ∙ sessions' ∙ sessions in
      let same_automations : w'.automations ≡ w.automations =
        ap World.automations state ∙ automations' ∙ automations in
      let (matched, _, jobs, _, complete) =
        dispatch_incoming_message_lem now s.workspace_id (message_context dto) (session_prop s) v in
      let f : Automation → Queued AutomationJob = λ x. run_job x (
        with_prop (codes "to") (str dto.from)
          (context_props (message_context dto) (session_prop s))) in
      let queued : Has a matched = complete a (subst (Has a) (sym automations) ha) triggered in
      (
        subst (Has (f a)) (sym (ap World.automation_jobs state ∙ jobs))
            (Has-append_right (f a) v.automation_jobs (map f matched) (Has-map f a matched queued)),
        process-reply_job later a s dto w'
            (subst (IsKeyed Session.id) (sym same_sessions) one_session)
            (subst (IsKeyed Automation.id) (sym same_automations) one_automation)
            (subst (Has s) (sym same_sessions) (orm.find_one_has _ w.sessions s e))
            (subst (Has a) (sym same_automations) ha) free,
        λ creds. elim (Bool-cases (is_truthy (str dto.from))) [
          | inl t ↦ ground arith
          | inr f ↦ ground arith
        ],
      )
