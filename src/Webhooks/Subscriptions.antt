-- ===== src/Webhooks/Subscriptions.antt =====
-- Which webhooks an event reaches: `dispatch` of webhooks.service.ts.
use api_wa_automation.Base.{
  true, ◌≡◌, refl, sym, ◌∙◌, ◌++◌, List, [], ◌∷◌, map, length, append-nil, append_assoc, Has,
  select, Has-select, select-Has, arith,
}
use api_wa_automation.Base.Text.{Text}
use api_wa_automation.Value.{Props}
use api_wa_automation.Orm.{Orm}
use api_wa_automation.Data.Tenancy.{Key}
use api_wa_automation.Data.Messaging.{Webhook}
use api_wa_automation.World.{World, ok}
use api_wa_automation.Webhooks.{
  is_active_of, is_subscribed, delivery_job, enqueue, enqueue_all, dispatch,
}

enqueue_all-jobs :
    (event : Text) (payload : Props) (subscribed : List Webhook) (w : World)
    → (enqueue_all event payload subscribed w).webhook_jobs
      ≡ w.webhook_jobs ++ map (delivery_job event payload) subscribed
unfolding enqueue_all enqueue
enqueue_all-jobs event payload [] w = sym (append-nil w.webhook_jobs)
enqueue_all-jobs event payload (h ∷ subscribed) w =
    enqueue_all-jobs event payload subscribed (enqueue h event payload w)
    ∙ append_assoc w.webhook_jobs (delivery_job event payload h ∷ [])
        (map (delivery_job event payload) subscribed)

-- The webhook is an active one of the workspace and asks for the event.
abbrev pub IsReached : Key → Text → Webhook → Type 0
IsReached workspace_id event h =
    (h.workspace_id ≡ workspace_id) × (h.is_active ≡ true) × (is_subscribed event h ≡ true)

module _ ⦃orm : Orm⦄ where
  -- An event queues one delivery, behind those queued before, for each webhook of a list that holds
  -- exactly the webhooks of the table that it reaches, the active ones of the workspace that ask for
  -- it, and their number is returned.
  pub dispatch_lem :
      (workspace_id : Key) (event : Text) (payload : Props) (w : World)
      → let (r, w') = dispatch workspace_id event payload w in
        (reached : List Webhook) × (r ≡ ok (length reached))
        × (w'.webhook_jobs ≡ w.webhook_jobs ++ map (delivery_job event payload) reached)
        × ((h : Webhook) → Has h reached → Has h w.webhooks × IsReached workspace_id event h)
        × ((h : Webhook) → Has h w.webhooks → IsReached workspace_id event h → Has h reached)
  unfolding dispatch
  dispatch_lem workspace_id event payload w =
      let hooks = orm.find (is_active_of workspace_id) w.webhooks in
      (
        select (is_subscribed event) hooks,
        refl,
        enqueue_all-jobs event payload (select (is_subscribed event) hooks) w,
        λ h k.
            let (has, asks) = Has-select h (is_subscribed event) hooks k in
            let (row, test) = orm.find_has (is_active_of workspace_id) w.webhooks h has in
            (row, (ground arith, ground arith, asks)),
        λ h row (here, active, asks).
            let test : is_active_of workspace_id h ≡ true = ground arith in
            select-Has h (is_subscribed event) hooks
              (orm.find_complete (is_active_of workspace_id) w.webhooks h row test) asks,
      )
