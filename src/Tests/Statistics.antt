-- ===== src/Tests/Statistics.antt =====
-- The theorems on statistics, applied to the small state with a message.
use api_wa_automation.Base.{
  ℕ, Bool, true, ◌≡◌, refl, sym, ap, subst, ◌∙◌, inl, inr, ◌&&◌, Option, none, some, List, [], ◌∷◌,
  map, length, select, Has, Has-map, select-Has,
}
use api_wa_automation.Orm.Lists.{list_orm}
use api_wa_automation.Data.Tenancy.{Key, Session}
use api_wa_automation.Data.Messaging.{MessageLog, MessageDirection, MessageType, MessageStatus}
use api_wa_automation.Data.Campaign.{draft}
use api_wa_automation.World.{World, ok}
use api_wa_automation.Workspaces.{assert_member}
use api_wa_automation.Analytics.{SessionStats, Grouping, is_key, session_stats}
use api_wa_automation.Analytics.Counts.{messages_of, session_stats_lem}
use api_wa_automation.Tests.{plain_js, shop_owner, phone_session, small_world}

module _ {E : Type 0} (p : E → Bool) (key : E → Option Key) where
  abbrev count_for : Option Key → List E → ℕ
  count_for none t = 0
  count_for (some k) t = length (select (λ x. p x && is_key k (key x)) t)

  abbrev list_counts : List E → List (Option Key × ℕ)
  list_counts t = map (λ x. (key x, count_for (key x) t)) (select p t)

Has-unmap :
    {A B : Type 0} (f : A → B) (y : B) (xs : List A)
    → Has y (map f xs)
    → (x : A) × Has x xs × (y ≡ f x)
Has-unmap f y [] h = absurd h
Has-unmap f y (x ∷ xs) (inl e) = (x, inl refl, e)
Has-unmap f y (x ∷ xs) (inr h) = let (z, k, e) = Has-unmap f y xs h in (z, inr k, e)

pub counts_sound_lem :
    {E : Type 0} (p : E → Bool) (key : E → Option Key) (t : List E) (k : Key) (n : ℕ)
    → Has (some k, n) (list_counts p key t)
    → length (select (λ x. p x && is_key k (key x)) t) ≡ n
counts_sound_lem p key t k n h =
    let (x, _, e) =
      Has-unmap (λ x. (key x, count_for p key (key x) t)) (some k, n) (select p t) h in
    let its : some k ≡ key x = ap (λ z. z.0) e in
    let number : n ≡ count_for p key (key x) t = ap (λ z. z.1) e in
    ap (λ o. count_for p key o t) its ∙ sym number

pub counts_complete_lem :
    {E : Type 0} (p : E → Bool) (key : E → Option Key) (t : List E) (k : Key) (x : E)
    → Has x t
    → p x ≡ true
    → key x ≡ some k
    → (n : ℕ) × Has (some k, n) (list_counts p key t)
counts_complete_lem p key t k x h px its = (
  count_for p key (some k) t,
  subst (λ o. Has (o, count_for p key o t) (list_counts p key t)) its
      (Has-map (λ x. (key x, count_for p key (key x) t)) x (select p t) (select-Has x p t h px)),
)

instance abbrev list_grouping : Grouping
list_grouping = record {
  counts = λ {E} p key t. list_counts p key t;
  counts_sound = λ {E} p key t k n h. counts_sound_lem p key t k n h;
  counts_complete = λ {E} p key t k x h px its. counts_complete_lem p key t k x h px its;
}

abbrev greeting : MessageLog
greeting = record {
  workspace_id = 1;
  session_id = some 5;
  automation_id = none;
  broadcast_id = none;
  direction = MessageDirection.inbound;
  from_phone = none;
  to_phone = none;
  message_type = MessageType.text;
  content = none;
  status = MessageStatus.delivered;
  wa_message_id = none;
  error_message = none;
}

abbrev logged_world : World
logged_world = record (small_world draft) { logs = greeting ∷ greeting ∷ [] }

shop_admitted : assert_member 1 1 logged_world ≡ (ok shop_owner, logged_world)
unfolding assert_member
shop_admitted = refl

session_stats_lem_example :
    (stats : List SessionStats) × (session_stats 1 1 logged_world ≡ (ok stats, logged_world))
    × ((s : Session)
        → Has s (phone_session ∷ [])
        → s.workspace_id ≡ 1
        → Has
            (record {
              id = s.id;
              name = s.name;
              status = s.status;
              message_count = messages_of 1 s.id (greeting ∷ greeting ∷ []);
            })
            stats)
session_stats_lem_example = session_stats_lem 1 1 shop_owner logged_world shop_admitted
