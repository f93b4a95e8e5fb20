-- ===== src/Webhooks/Deliveries.antt =====
-- What an attempt of webhook.processor.ts records and returns.
use api_wa_automation.Base.{
  ℕ, ◌+◌, true, false, ◌≡◌, refl, sym, subst, ◌⊎◌, inl, inr, some, Bool-cases, Option-cases, arith,
}
use api_wa_automation.Base.Text.{Text}
use api_wa_automation.Orm.{Orm}
use api_wa_automation.Data.Messaging.{Webhook, WebhookDelivery, DeliveryStatus, WebhookJob}
use api_wa_automation.World.{World, Result, ok, err, plain}
use api_wa_automation.Webhooks.{
  Receiver, Reply, delivered, refused, Delivery, skipped, status, post_of, settle, get_by_id,
  record_delivery, process,
}

-- How an attempt on a webhook ends by the receiver's reply, with the delivery that it records.
abbrev pub IsSettled : Reply → Result Delivery → WebhookDelivery → Type 0
IsSettled (delivered code) r d =
    (r ≡ ok (status code)) × (d.status ≡ DeliveryStatus.success) × (d.status_code ≡ some code)
IsSettled (refused code message) r d =
    (r ≡ err (plain message))
    × (d.status ≡ DeliveryStatus.failure)
    × (d.status_code ≡ code)
    × (d.error ≡ some message)

module _ ⦃orm : Orm⦄ ⦃receiver : Receiver⦄ where
  settle_lem :
      (attempts_made : ℕ) (h : Webhook) (job : WebhookJob) (reply : Reply) (w : World)
      → let (r, w') = settle attempts_made h job reply w in
        (d : WebhookDelivery) × (w'
          ≡ record w { deliveries = orm.save (λ _ _. false) d w.deliveries })
        × (d.webhook_id ≡ h.id)
        × (d.event ≡ job.event)
        × (d.payload ≡ job.payload)
        × (d.attempt ≡ attempts_made + 1)
        × IsSettled reply r d
  unfolding settle record_delivery
  settle_lem attempts_made h job (delivered code) w =
      (_, refl, refl, refl, refl, refl, (refl, refl, refl))
  settle_lem attempts_made h job (refused code message) w =
      (_, refl, refl, refl, refl, refl, (refl, refl, refl, refl))

  -- An attempt either finds its webhook gone or inactive and changes nothing, or records exactly one
  -- delivery, of that webhook and with the number of the attempt, and changes nothing else; the
  -- delivery and the result follow the receiver's reply: its status if it took the webhook, else
  -- a failure that is thrown on, so that the queue tries again.
  pub attempt_lem :
      (timestamp : Text) (attempts_made : ℕ) (job : WebhookJob) (w : World)
      → let (r, w') = process timestamp attempts_made job w in
        (((h : Webhook) → get_by_id job.webhook_id w ≡ some h → h.is_active ≡ false)
          × (r ≡ ok skipped)
          × (w' ≡ w))
        ⊎ ((h : Webhook) × (d : WebhookDelivery) × (get_by_id job.webhook_id w ≡ some h)
            × (h.is_active ≡ true)
            × (w' ≡ record w { deliveries = orm.save (λ _ _. false) d w.deliveries })
            × (d.webhook_id ≡ h.id)
            × (d.attempt ≡ attempts_made + 1)
            × IsSettled (receiver.reply (post_of timestamp h job)) r d)
  unfolding process
  attempt_lem timestamp attempts_made job w = elim (Option-cases (get_by_id job.webhook_id w)) [
    | inl gone ↦ inl (λ h e. absurd (ground arith), ground arith, ground arith)
    | inr (h, found) ↦ elim (Bool-cases h.is_active) [
      | inr idle ↦
          inl (
            λ h' e. let same : h ≡ h' = ground arith in rw (← same) idle,
            ground arith,
            ground arith,
          )
      | inl active ↦
          let (d, after, of_hook, _, _, number, settled) =
            settle_lem attempts_made h job (receiver.reply (post_of timestamp h job)) w in
          let e : process timestamp attempts_made job w
              ≡ settle attempts_made h job (receiver.reply (post_of timestamp h job)) w =
            ground arith in
          inr (
            h,
            d,
            found,
            active,
            subst
                (λ (z : Result Delivery × World).
                  z.1 ≡ record w { deliveries = orm.save (λ _ _. false) d w.deliveries })
                (sym e) after,
            of_hook,
            number,
            subst
                (λ (z : Result Delivery × World).
                  IsSettled (receiver.reply (post_of timestamp h job)) z.0 d)
                (sym e) settled,
          )
    ]
  ]
