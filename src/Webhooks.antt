-- ===== src/Webhooks.antt =====
-- src/modules/webhooks: the service, but for its reads `findAll` and `logs`, and the processor of its
-- queue. The retries of a job that throws are the queue's, by `attempts` and `backoff_delay`.
pub mod Deliveries
pub mod Subscriptions
pub mod Controller
use api_wa_automation.Base.{
  ℕ, ◌+◌, Bool, true, false, ◌&&◌, Option, none, some, List, [], ◌∷◌, ◌++◌, ◌==◌, leb, length,
  if◌then◌else◌, select, any,
}
use api_wa_automation.Base.Text.{Text, codes, text_eq, truthy}
use api_wa_automation.Value.{Value, str, num, obj, Props, end, prop}
use api_wa_automation.Base.Int.{pos}
use api_wa_automation.Orm.{Orm}
use api_wa_automation.Orm.Laws.{by}
use api_wa_automation.Data.Tenancy.{Key}
use api_wa_automation.Data.Messaging.{Webhook, WebhookDelivery, DeliveryStatus, WebhookJob, Queued}
use api_wa_automation.World.{
  World, Action, plain, pure, throw, gets, modify, or_throw, not_found, ◌>>=◌, ◌>>◌,
}
use api_wa_automation.Workspaces.{given, managers, assert_member, assert_role}

pub record CreateWebhookDto : Type 0 where
  pub name : Text
  pub url : Text
  pub secret : Option Text
  pub events : List Text
  pub retry_count : Option ℕ
  pub timeout_ms : Option ℕ
  pub is_active : Option Bool

pub record UpdateWebhookDto : Type 0 where
  pub name : Option Text
  pub url : Option Text
  pub secret : Option Text
  pub events : Option (List Text)
  pub retry_count : Option ℕ
  pub timeout_ms : Option ℕ
  pub is_active : Option Bool

-- A `POST` of the processor.
pub record Post : Type 0 where
  pub url : Text
  pub event_header : Text
  pub signature_header : Option Text
  pub body : Text
  pub timeout : ℕ

-- How axios settles it: the status of a success, or an error with the status of its response, if it
-- has one, and its message.
pub data Reply : Type 0 where
  delivered : ℕ → Reply
  refused : Option ℕ → Text → Reply

-- Outside this repository: `JSON.stringify`, the hex digest of HMAC-SHA256 of a text under a key, and
-- the receiver of a webhook.
pub record Receiver : Type 0 where
  pub stringify : Value → Text
  pub hmac : Text → Text → Text
  pub reply : Post → Reply

-- What `process` returns.
pub data Delivery : Type 0 where
  skipped : Delivery
  status : ℕ → Delivery

-- `n || d`
abbrev pub or_number : ℕ → ℕ → ℕ
or_number n d = if n == 0 then d else n

abbrev pub is_webhook_of : Key → Key → Webhook → Bool
is_webhook_of id workspace_id h = h.id == id && h.workspace_id == workspace_id

abbrev pub has_webhook_key : Key → Webhook → Bool
has_webhook_key id h = h.id == id

-- `where: { workspaceId, isActive: true }`
abbrev pub is_active_of : Key → Webhook → Bool
is_active_of workspace_id h = h.workspace_id == workspace_id && h.is_active

-- `h.events?.includes(event)`
abbrev pub is_subscribed : Text → Webhook → Bool
is_subscribed event h = any (λ e. text_eq e event) h.events

abbrev pub delivery_job : Text → Props → Webhook → Queued WebhookJob
delivery_job event payload h = record {
  job = record { webhook_id = h.id; event = event; payload = payload };
  delay = 0;
  attempts = some (or_number h.retry_count 3 + 1);
}

-- `backoffStrategy`
unfoldable pub backoff_delay : ℕ → ℕ
backoff_delay attempts_made =
    if leb attempts_made 1 then 0 else if attempts_made == 2 then 30000 else 300000

unfoldable pub enqueue : Webhook → Text → Props → World → World
enqueue h event payload w = record w {
  webhook_jobs = w.webhook_jobs ++ delivery_job event payload h ∷ [];
}

-- The loop of `dispatch`.
unfoldable pub enqueue_all : Text → Props → List Webhook → World → World
unfolding enqueue
enqueue_all event payload [] w = w
enqueue_all event payload (h ∷ subscribed) w =
    enqueue_all event payload subscribed (enqueue h event payload w)

module _ ⦃orm : Orm⦄ where
  unfoldable pub save_webhook : Webhook → Action Webhook
  save_webhook h = do
    modify (λ w. record w { webhooks = orm.save (by Webhook.id) h w.webhooks })
    pure h

  unfoldable pub create : Key → Key → CreateWebhookDto → Action Webhook
  create workspace_id user_id dto = do
    assert_role workspace_id user_id managers
    id ← gets (λ w. orm.new_key Webhook.id w.webhooks)
    save_webhook (record {
      id = id;
      workspace_id = workspace_id;
      name = dto.name;
      url = dto.url;
      secret = dto.secret;
      events = dto.events;
      is_active = given dto.is_active true;
      retry_count = given dto.retry_count 3;
      timeout_ms = given dto.timeout_ms 10000;
    })

  unfoldable pub find_all : Key → Key → Action (List Webhook)
  find_all workspace_id user_id = do
    assert_member workspace_id user_id
    gets (λ w. orm.find (λ h. h.workspace_id == workspace_id) w.webhooks)

  unfoldable pub find_one : Key → Key → Key → Action Webhook
  find_one id workspace_id user_id = do
    assert_member workspace_id user_id
    or_throw (not_found "Webhook not found")
        (← gets (λ w. orm.find_one (is_webhook_of id workspace_id) w.webhooks))

  -- `assertRole(…, ['owner', 'admin'])` and `findOne`, which `update` and `remove` start with.
  unfoldable pub find_managed : Key → Key → Key → Action Webhook
  find_managed id workspace_id user_id = do
    assert_role workspace_id user_id managers
    find_one id workspace_id user_id

  unfoldable pub update : Key → Key → Key → UpdateWebhookDto → Action Webhook
  update id workspace_id user_id dto = do
    h ← find_managed id workspace_id user_id
    save_webhook (record h {
      name = given dto.name h.name;
      url = given dto.url h.url;
      secret = elim dto.secret [ none ↦ h.secret | some s ↦ some s ];
      events = given dto.events h.events;
      is_active = given dto.is_active h.is_active;
      retry_count = given dto.retry_count h.retry_count;
      timeout_ms = given dto.timeout_ms h.timeout_ms;
    })

  unfoldable pub remove : Key → Key → Key → Action (Unit {0})
  remove id workspace_id user_id = do
    h ← find_managed id workspace_id user_id
    modify (λ w. record w { webhooks = orm.remove (by Webhook.id) h w.webhooks })

  -- `timestamp` is what `new Date().toISOString()` returns.
  unfoldable pub test : Text → Key → Key → Key → Action (Unit {0})
  test timestamp id workspace_id user_id = do
    h ← find_one id workspace_id user_id
    modify (
        enqueue h (codes "test.event") (
          prop (codes "message") (str (codes "This is a test event"))
            (prop (codes "timestamp") (str timestamp) end)))

  -- Returns `dispatched`.
  unfoldable pub dispatch : Key → Text → Props → Action ℕ
  dispatch workspace_id event payload = do
    hooks ← gets (λ w. orm.find (is_active_of workspace_id) w.webhooks)
    let subscribed = select (is_subscribed event) hooks
    modify (enqueue_all event payload subscribed)
    pure (length subscribed)

  -- `getById`
  unfoldable pub get_by_id : Key → World → Option Webhook
  get_by_id id w = orm.find_one (has_webhook_key id) w.webhooks

  -- The database gives every new row a key of its own.
  unfoldable pub record_delivery : WebhookDelivery → Action (Unit {0})
  record_delivery d = modify (λ w. record w { deliveries = orm.save (λ _ _. false) d w.deliveries })

module _ ⦃orm : Orm⦄ ⦃receiver : Receiver⦄ where
  abbrev pub body_of : Text → WebhookJob → Text
  body_of timestamp job = receiver.stringify (
      obj (
        prop (codes "event") (str job.event)
          (prop (codes "data") (obj job.payload) (prop (codes "timestamp") (str timestamp) end))))

  -- `if (webhook.secret) headers['X-Webhook-Signature'] = …`
  abbrev pub signature : Option Text → Text → Option Text
  signature none body = none
  signature (some secret) body = some (receiver.hmac secret body)

  unfoldable pub post_of : Text → Webhook → WebhookJob → Post
  post_of timestamp h job = record {
    url = h.url;
    event_header = job.event;
    signature_header = signature (truthy h.secret) (body_of timestamp job);
    body = body_of timestamp job;
    timeout = or_number h.timeout_ms 10000;
  }

  -- What follows the call: the end of the `try` block, or the `catch` block.
  unfoldable pub settle : ℕ → Webhook → WebhookJob → Reply → Action Delivery
  settle attempts_made h job (delivered code) = do
    record_delivery (record {
      webhook_id = h.id;
      event = job.event;
      payload = job.payload;
      attempt = attempts_made + 1;
      status_code = some code;
      status = DeliveryStatus.success;
      error = none;
    })
    pure (status code)
  settle attempts_made h job (refused code message) = do
    record_delivery (record {
      webhook_id = h.id;
      event = job.event;
      payload = job.payload;
      attempt = attempts_made + 1;
      status_code = code;
      status = DeliveryStatus.failure;
      error = some message;
    })
    throw (plain message)

  abbrev pub deliver : Text → ℕ → WebhookJob → Option Webhook → Action Delivery
  deliver timestamp attempts_made job none = pure skipped
  deliver timestamp attempts_made job (some h) =
      if h.is_active
      then settle attempts_made h job (receiver.reply (post_of timestamp h job))
      else pure skipped

  unfoldable pub process : Text → ℕ → WebhookJob → Action Delivery
  process timestamp attempts_made job w =
      deliver timestamp attempts_made job (get_by_id job.webhook_id w) w
