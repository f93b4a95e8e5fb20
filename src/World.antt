-- ===== src/World.antt =====
-- The state that the services share: the tables of the database, the cache of refresh tokens, the four BullMQ queues, the
-- events that the gateway has emitted and the calls made of the OpenWA server. A service method is
-- a function from it to a result, or the exception thrown, and the state that it leaves.
use api_wa_automation.Base.{
  ◌≡◌, refl, arith, ◌⊎◌, inl, inr, ℕ, Bool, Option, none, some, List, [], ◌∷◌, ◌++◌, String,
}
use api_wa_automation.Base.Text.{Text, codes}
use api_wa_automation.Value.{Value, Props}
use api_wa_automation.Data.Tenancy.{
  Key, Workspace, WorkspaceMember, Session, SessionStatus, Contact, ContactGroup,
}
use api_wa_automation.Data.Accounts.{User, ApiKey, CacheEntry}
use api_wa_automation.Data.Messaging.{
  MessageLog, Webhook, WebhookDelivery, SendMessageJob, BroadcastJob, WebhookJob, AutomationJob,
  Queued,
}
use api_wa_automation.Data.Automation.{Automation}
use api_wa_automation.Data.Campaign.{Broadcast, BroadcastRecipient}

-- The exceptions of NestJS that the code throws, `HttpException` with a status, and `Error`.
pub data Exception : Type 0 where
  bad_request unauthorized forbidden not_found : String → Exception
  http : ℕ → Text → Exception
  plain : Text → Exception

-- `err.message`
abbrev pub message_of : Exception → Text
message_of (bad_request m) = codes m
message_of (unauthorized m) = codes m
message_of (forbidden m) = codes m
message_of (not_found m) = codes m
message_of (http _ m) = m
message_of (plain m) = m

-- A request of the OpenWA server: `POST base_url/method?session=…` with `{ args }`.
pub record Call : Type 0 where
  pub base_url : Text
  pub api_key : Text
  pub method : String
  pub session : Option Text
  pub args : Props

-- A room of the gateway.
pub data Room : Type 0 where
  workspace session : Key → Room

-- What the gateway emits, with its payload.
pub data Event : Type 0 where
  session_status : Key → SessionStatus → Option Text → Event
  session_qr : Key → Value → Event
  message_received : Key → Text → Text → ℕ → Event
  message_sent : Key → Text → Value → Event
  broadcast_progress : Key → ℕ → ℕ → ℕ → Event
  automation_triggered : Key → Value → ℕ → Event

pub record World : Type 0 where
  pub users : List User
  pub api_keys : List ApiKey
  pub refresh_tokens : List CacheEntry
  pub workspaces : List Workspace
  pub members : List WorkspaceMember
  pub sessions : List Session
  pub contacts : List Contact
  pub groups : List ContactGroup
  pub automations : List Automation
  pub broadcasts : List Broadcast
  pub recipients : List BroadcastRecipient
  pub logs : List MessageLog
  pub webhooks : List Webhook
  pub deliveries : List WebhookDelivery
  pub message_jobs : List (Queued SendMessageJob)
  pub broadcast_jobs : List (Queued BroadcastJob)
  pub webhook_jobs : List (Queued WebhookJob)
  pub automation_jobs : List (Queued AutomationJob)
  pub emitted : List (Room × Event)
  pub calls : List Call

pub data Result (A : Type 0) : Type 0 where
  ok : A → Result A
  err : Exception → Result A

pub Result-cases :
    {A : Type 0} (r : Result A) → ((a : A) × (r ≡ ok a)) ⊎ ((e : Exception) × (r ≡ err e))
Result-cases (ok a) = inl (a, refl)
Result-cases (err e) = inr (e, refl)

abbrev pub Action : Type 0 → Type 0
Action A = World → Result A × World

module _ {A : Type 0} where
  abbrev pub pure : A → Action A
  pure a w = (ok a, w)

  abbrev pub throw : Exception → Action A
  throw e w = (err e, w)

  -- A read of the state.
  abbrev pub gets : (World → A) → Action A
  gets f w = (ok (f w), w)

  -- `if (!x) throw e;`
  abbrev pub or_throw : Exception → Option A → Action A
  or_throw e none = throw e
  or_throw e (some a) = pure a

infixl 5 ◌>>=◌ ◌>>◌
abbrev pub ◌>>=◌ : {A B : Type 0} → Action A → (A → Action B) → Action B
◌>>=◌ m f w = let (r, w') = m w in elim r [ ok a ↦ f a w' | err e ↦ (err e, w') ]

abbrev pub ◌>>◌ : {A B : Type 0} → Action A → Action B → Action B
m >> k = m >>= λ _. k

-- A write of the state.
abbrev pub modify : (World → World) → Action (Unit {0})
modify f w = (ok tt, f w)

-- `if (b) throw e;`
abbrev pub throw_if : Bool → Exception → Action (Unit {0})
throw_if Bool.true e = throw e
throw_if Bool.false e = pure tt

-- An action for its effect and its exception.
abbrev pub discard : {A : Type 0} → Action A → Action (Unit {0})
discard m = m >>= λ _. pure tt

pub discard-state : {A : Type 0} (m : Action A) (w : World) → (discard m w).1 ≡ (m w).1
discard-state m w = ground arith

-- `.catch(() => undefined)` on a promise whose value is not used
abbrev pub ignoring_errors : {A : Type 0} → Action A → Action (Unit {0})
ignoring_errors m w = (ok tt, (m w).1)

-- `server.to(room).emit(event)`
abbrev pub emit : Room → Event → World → World
emit r e w = record w { emitted = w.emitted ++ (r, e) ∷ [] }

-- What a request finds around it: the time in milliseconds and as text, and the random text that it draws.
pub record Ambient : Type 0 where
  pub now : ℕ
  pub timestamp : Text
  pub random : Text
