-- ===== src/Analytics.antt =====
-- src/modules/analytics/analytics.service.ts: the statistics of automations, sessions and broadcasts.
pub mod Counts
use api_wa_automation.Base.{
  ℕ, ◌+◌, Bool, true, false, ◌≡◌, leb, ◌&&◌, ◌==◌, Option, none, some, List, [], ◌∷◌, map, length,
  select, Has, if◌then◌else◌,
}
use api_wa_automation.Base.Text.{Text}
use api_wa_automation.Orm.{Orm}
use api_wa_automation.Data.Tenancy.{Key, Session, SessionStatus}
use api_wa_automation.Data.Messaging.{MessageLog}
use api_wa_automation.Data.Automation.{Automation}
use api_wa_automation.Data.Campaign.{
  Broadcast, BroadcastStatus, draft, queued, sending, done, failed, cancelled,
}
use api_wa_automation.World.{World, Action, pure, gets, ◌>>=◌, ◌>>◌}
use api_wa_automation.Workspaces.{assert_member}

pub record AutomationStats : Type 0 where
  pub id : Key
  pub name : Text
  pub is_active : Bool
  pub run_count : ℕ
  pub last_run_at : Option ℕ

pub record SessionStats : Type 0 where
  pub id : Key
  pub name : Text
  pub status : SessionStatus
  pub message_count : ℕ

-- `Record<string, number>`, with the keys in the order of their insertion.
abbrev pub StatusCounts : Type 0
StatusCounts = List (BroadcastStatus × ℕ)

pub record BroadcastStats : Type 0 where
  pub total : ℕ
  pub by_status : StatusCounts
  pub total_sent : ℕ
  pub total_failed : ℕ

abbrev stats_of : Automation → AutomationStats
stats_of a = record {
  id = a.id;
  name = a.name;
  is_active = a.is_active;
  run_count = a.run_count;
  last_run_at = a.last_run_at;
}

-- `sort((a, b) => b.runCount - a.runCount)`, which is stable.
unfoldable pub insert : AutomationStats → List AutomationStats → List AutomationStats
insert a [] = a ∷ []
insert a (b ∷ stats) = if leb b.run_count a.run_count then a ∷ b ∷ stats else b ∷ insert a stats

unfoldable pub sort : List AutomationStats → List AutomationStats
sort [] = []
sort (a ∷ stats) = insert a (sort stats)

abbrev status_code : BroadcastStatus → ℕ
status_code draft = 0
status_code queued = 1
status_code sending = 2
status_code done = 3
status_code failed = 4
status_code cancelled = 5

abbrev pub same_status : BroadcastStatus → BroadcastStatus → Bool
same_status a b = status_code a == status_code b

-- `acc[status] || 0`
abbrev pub count_in : BroadcastStatus → StatusCounts → ℕ
count_in status [] = 0
count_in status ((s, n) ∷ acc) = if same_status status s then n else count_in status acc

-- `acc[status] = (acc[status] || 0) + 1`
unfoldable pub tally : BroadcastStatus → StatusCounts → StatusCounts
tally status [] = (status, 1) ∷ []
tally status ((s, n) ∷ acc) =
    if same_status status s then (s, n + 1) ∷ acc else (s, n) ∷ tally status acc

unfoldable pub tally_all : List Broadcast → StatusCounts → StatusCounts
tally_all [] acc = acc
tally_all (b ∷ list) acc = tally_all list (tally b.status acc)

-- `reduce((sum, b) => sum + f(b), 0)`
abbrev pub sum_from : (Broadcast → ℕ) → List Broadcast → ℕ → ℕ
sum_from f [] sum = sum
sum_from f (b ∷ list) sum = sum_from f list (sum + f b)

abbrev pub is_key : Key → Option Key → Bool
is_key k none = false
is_key k (some j) = j == k

-- `GROUP BY` of a query builder, with `COUNT(*)`: one row for each key of the rows that meet the
-- condition, with their number.
pub record Grouping : Type 1 where
  pub counts : {E : Type 0} → (E → Bool) → (E → Option Key) → List E → List (Option Key × ℕ)
  pub counts_sound :
      {E : Type 0} (p : E → Bool) (key : E → Option Key) (t : List E) (k : Key) (n : ℕ)
      → Has (some k, n) (counts p key t)
      → length (select (λ x. p x && is_key k (key x)) t) ≡ n
  pub counts_complete :
      {E : Type 0} (p : E → Bool) (key : E → Option Key) (t : List E) (k : Key) (x : E)
      → Has x t
      → p x ≡ true
      → key x ≡ some k
      → (n : ℕ) × Has (some k, n) (counts p key t)

-- `rows.find((r) => r.sessionId === id)?.count || 0`
abbrev pub count_of : Key → List (Option Key × ℕ) → ℕ
count_of id [] = 0
count_of id ((k, n) ∷ rows) = if is_key id k then n else count_of id rows

abbrev pub session_stats_of : List (Option Key × ℕ) → Session → SessionStats
session_stats_of rows s = record {
  id = s.id;
  name = s.name;
  status = s.status;
  message_count = count_of s.id rows;
}

module _ ⦃orm : Orm⦄ where
  unfoldable pub automation_stats : Key → Key → Action (List AutomationStats)
  automation_stats workspace_id user_id = do
    assert_member workspace_id user_id
    list ← gets (λ w. orm.find (λ a. a.workspace_id == workspace_id) w.automations)
    pure (sort (map stats_of list))

  unfoldable pub broadcast_stats : Key → Key → Action BroadcastStats
  broadcast_stats workspace_id user_id = do
    assert_member workspace_id user_id
    list ← gets (λ w. orm.find (λ b. b.workspace_id == workspace_id) w.broadcasts)
    pure (record {
      total = length list;
      by_status = tally_all list [];
      total_sent = sum_from Broadcast.sent_count list 0;
      total_failed = sum_from Broadcast.failed_count list 0;
    })

module _ ⦃orm : Orm⦄ ⦃grouping : Grouping⦄ where
  unfoldable pub session_stats : Key → Key → Action (List SessionStats)
  session_stats workspace_id user_id = do
    assert_member workspace_id user_id
    rows ←
        gets
          (λ w. grouping.counts (λ m. m.workspace_id == workspace_id) MessageLog.session_id w.logs)
    sessions ← gets (λ w. orm.find (λ s. s.workspace_id == workspace_id) w.sessions)
    pure (map (session_stats_of rows) sessions)
