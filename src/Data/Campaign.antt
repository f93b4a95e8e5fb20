-- ===== src/Data/Campaign.antt =====
-- Entities of src/modules/broadcasts. The recipients of a broadcast are rows of a table of their
-- own.
use api_wa_automation.Base.{ℕ, Bool, Option, ◌==◌}
use api_wa_automation.Base.Text.{Text}
use api_wa_automation.Value.{Props}
use api_wa_automation.Data.Tenancy.{Key}

pub data BroadcastStatus : Type 0 where
  draft queued sending done failed cancelled : BroadcastStatus

abbrev pub is_draft : BroadcastStatus → Bool
is_draft draft = Bool.true
is_draft _ = Bool.false

abbrev pub is_cancelled : BroadcastStatus → Bool
is_cancelled cancelled = Bool.true
is_cancelled _ = Bool.false

pub record Broadcast : Type 0 where
  pub id : Key
  pub workspace_id : Key
  pub session_id : Key
  pub name : Text
  pub template : Text
  pub status : BroadcastStatus
  pub delay_ms : ℕ
  pub total : ℕ
  pub sent_count : ℕ
  pub failed_count : ℕ
  pub scheduled_at : Option ℕ
  pub started_at : Option ℕ
  pub finished_at : Option ℕ

pub data RecipientStatus : Type 0 where
  pending sent failed : RecipientStatus

abbrev pub is_pending : RecipientStatus → Bool
is_pending pending = Bool.true
is_pending _ = Bool.false

pub record BroadcastRecipient : Type 0 where
  pub id : Key
  pub broadcast_id : Key
  pub phone : Text
  pub variables : Props
  pub status : RecipientStatus
  pub error_message : Option Text
  pub sent_at : Option ℕ

abbrev pub same_broadcast : Broadcast → Broadcast → Bool
same_broadcast a b = a.id == b.id

abbrev pub same_recipient : BroadcastRecipient → BroadcastRecipient → Bool
same_recipient a b = a.id == b.id
