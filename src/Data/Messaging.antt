-- ===== src/Data/Messaging.antt =====
-- Entities of src/modules/messages and src/modules/webhooks, and the jobs of src/queue/jobs.
use api_wa_automation.Base.{ℕ, Bool, Option, List, ◌==◌}
use api_wa_automation.Base.Text.{Text}
use api_wa_automation.Value.{Value, Props}
use api_wa_automation.Data.Tenancy.{Key}

pub data MessageDirection : Type 0 where
  inbound outbound : MessageDirection

pub data MessageType : Type 0 where
  text image file audio video : MessageType

pub data MessageStatus : Type 0 where
  sent delivered read failed : MessageStatus

-- `id` is the key that the database gives the row.
pub record MessageLog : Type 0 where
  pub workspace_id : Key
  pub session_id : Option Key
  pub automation_id : Option Key
  pub broadcast_id : Option Key
  pub direction : MessageDirection
  pub from_phone : Option Text
  pub to_phone : Option Text
  pub message_type : MessageType
  pub content : Option Text
  pub status : MessageStatus
  pub wa_message_id : Option Value
  pub error_message : Option Text

pub record Webhook : Type 0 where
  pub id : Key
  pub workspace_id : Key
  pub name : Text
  pub url : Text
  pub secret : Option Text
  pub events : List Text
  pub is_active : Bool
  pub retry_count : ℕ
  pub timeout_ms : ℕ

pub data DeliveryStatus : Type 0 where
  success failure : DeliveryStatus

pub record WebhookDelivery : Type 0 where
  pub webhook_id : Key
  pub event : Text
  pub payload : Props
  pub attempt : ℕ
  pub status_code : Option ℕ
  pub status : DeliveryStatus
  pub error : Option Text

abbrev pub same_webhook : Webhook → Webhook → Bool
same_webhook a b = a.id == b.id

pub data SendType : Type 0 where
  text image file : SendType

pub record SendMessageJob : Type 0 where
  pub workspace_id : Key
  pub session_id : Key
  pub openwa_session_id : Text
  pub to : Text
  pub type : SendType
  pub content : Option Text
  pub media_url : Option Text
  pub caption : Option Text
  pub filename : Option Text
  pub automation_id : Option Key
  pub broadcast_id : Option Key

pub record BroadcastJob : Type 0 where
  pub broadcast_id : Key

pub record WebhookJob : Type 0 where
  pub webhook_id : Key
  pub event : Text
  pub payload : Props

pub record AutomationJob : Type 0 where
  pub automation_id : Key
  pub workspace_id : Key
  pub context : Props

-- A job with the options that `queue.add` was given; `none` is the queue's default.
pub record Queued (J : Type 0) : Type 0 where
  pub job : J
  pub delay : ℕ
  pub attempts : Option ℕ
