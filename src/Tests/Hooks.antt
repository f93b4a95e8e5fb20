-- ===== src/Tests/Hooks.antt =====
-- The theorems on webhooks, applied to the small state with a webhook.
use api_wa_automation.Base.{true, false, ◌≡◌, ◌⊎◌, some, List, [], ◌∷◌, ◌++◌, length, map, Has}
use api_wa_automation.Base.Text.{codes}
use api_wa_automation.Value.{end}
use api_wa_automation.Orm.Lists.{list_orm}
use api_wa_automation.Data.Campaign.{draft}
use api_wa_automation.Data.Messaging.{Webhook, WebhookDelivery, WebhookJob}
use api_wa_automation.World.{World, ok}
use api_wa_automation.Webhooks.{
  Receiver, refused, skipped, delivery_job, dispatch, get_by_id, post_of, process,
}
use api_wa_automation.Webhooks.Subscriptions.{IsReached, dispatch_lem}
use api_wa_automation.Webhooks.Deliveries.{IsSettled, attempt_lem}
use api_wa_automation.Tests.{small_world}

-- A receiver that refuses every webhook.
instance abbrev closed_receiver : Receiver
closed_receiver = record {
  stringify = λ v. codes "{}";
  hmac = λ secret body. secret ++ body;
  reply = λ post. refused (some 503) (codes "Service Unavailable");
}

abbrev crm : Webhook
crm = record {
  id = 6;
  workspace_id = 1;
  name = codes "crm";
  url = codes "http://crm/hook";
  secret = some (codes "s");
  events = codes "message.received" ∷ [];
  is_active = true;
  retry_count = 0;
  timeout_ms = 10000;
}

abbrev world_with_hook : World
world_with_hook = record (small_world draft) { webhooks = crm ∷ [] }

dispatch_lem_example :
    let (r, w') = dispatch 1 (codes "message.received") end world_with_hook in
    (reached : List Webhook) × (r ≡ ok (length reached))
    × (w'.webhook_jobs ≡ map (delivery_job (codes "message.received") end) reached)
    × ((h : Webhook) → Has h reached → Has h (crm ∷ []) × IsReached 1 (codes "message.received") h)
    × ((h : Webhook) → Has h (crm ∷ []) → IsReached 1 (codes "message.received") h → Has h reached)
dispatch_lem_example = dispatch_lem 1 (codes "message.received") end world_with_hook

abbrev crm_job : WebhookJob
crm_job = record { webhook_id = 6; event = codes "message.received"; payload = end }

attempt_lem_example :
    let (r, w') = process (codes "now") 2 crm_job world_with_hook in
    (((h : Webhook) → get_by_id 6 world_with_hook ≡ some h → h.is_active ≡ false)
      × (r ≡ ok skipped)
      × (w' ≡ world_with_hook))
    ⊎ ((h : Webhook) × (d : WebhookDelivery) × (get_by_id 6 world_with_hook ≡ some h)
        × (h.is_active ≡ true)
        × (w' ≡ record world_with_hook { deliveries = d ∷ [] })
        × (d.webhook_id ≡ h.id)
        × (d.attempt ≡ 3)
        × IsSettled (closed_receiver.reply (post_of (codes "now") h crm_job)) r d)
attempt_lem_example = attempt_lem (codes "now") 2 crm_job world_with_hook
