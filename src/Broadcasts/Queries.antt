-- ===== src/Broadcasts/Queries.antt =====
-- The methods of src/modules/broadcasts/broadcasts.service.ts that read only. The order of the rows is
-- not modelled.
use api_wa_automation.Base.{ℕ, List, ◌==◌}
use api_wa_automation.Orm.{Orm}
use api_wa_automation.Data.Tenancy.{Key}
use api_wa_automation.Data.Campaign.{Broadcast, BroadcastRecipient, BroadcastStatus}
use api_wa_automation.World.{Action, pure, gets, ◌>>=◌, ◌>>◌}
use api_wa_automation.Workspaces.{assert_member}
use api_wa_automation.Broadcasts.{find_one, progress}

pub record BroadcastState : Type 0 where
  pub id : Key
  pub status : BroadcastStatus
  pub total : ℕ
  pub sent : ℕ
  pub failed : ℕ
  pub progress : ℕ

abbrev pub state_of : Broadcast → BroadcastState
state_of b = record {
  id = b.id;
  status = b.status;
  total = b.total;
  sent = b.sent_count;
  failed = b.failed_count;
  progress = progress b;
}

module _ ⦃orm : Orm⦄ where
  unfoldable pub find_all : Key → Key → Action (List Broadcast)
  find_all workspace_id user_id = do
    assert_member workspace_id user_id
    gets (λ w. orm.find (λ b. b.workspace_id == workspace_id) w.broadcasts)

  unfoldable pub status : Key → Key → Key → Action BroadcastState
  status id workspace_id user_id = do b ← find_one id workspace_id user_id; pure (state_of b)

  unfoldable pub report : Key → Key → Key → Action (Broadcast × List BroadcastRecipient)
  report id workspace_id user_id = do
    b ← find_one id workspace_id user_id
    recipients ← gets (λ w. orm.find (λ r. r.broadcast_id == id) w.recipients)
    pure (b, recipients)
