-- ===== src/Tests/Campaign.antt =====
-- The theorems on broadcasts and messages, applied to the small state.
use api_wa_automation.Base.{sym, ◌∙◌, inl, inr, ℕ, ◌+◌, ◌||◌, ◌≡◌, refl, none, some, [], ◌∷◌, any}
use api_wa_automation.Base.Text.{Text, codes}
use api_wa_automation.Orm.Lists.{list_orm}
use api_wa_automation.Data.Messaging.{SendMessageJob, SendType}
use api_wa_automation.Data.Campaign.{Broadcast, BroadcastStatus, draft, cancelled, sending, done}
use api_wa_automation.World.{World, Ambient, ok, Call}
use api_wa_automation.Encryption.{encrypt, decrypt}
use api_wa_automation.Workspaces.{
  assert_member, assert_role, find_workspace, get_openwa_credentials,
}
use api_wa_automation.Sessions
use api_wa_automation.Contacts.{or_list, resolve_phones}
use api_wa_automation.Broadcasts.{
  CreateBroadcastDto, UpdateBroadcastDto, RecipientMap, has_broadcast_key, find_one, find_managed,
  send, build_recipients, map_has,
}
use api_wa_automation.Broadcasts.Processor.{finished, send_one, process}
use api_wa_automation.Broadcasts.Recipients.{build_recipients_lem, calls_for, names, HasNoRepeats}
use api_wa_automation.Broadcasts.Rounds.{message_to}
use api_wa_automation.Broadcasts.Sending.{send_one-overwrites}
use api_wa_automation.Broadcasts.Runs.{process-finishes}
use api_wa_automation.Orm.Laws.{IsKeyed}
use api_wa_automation.Broadcasts.Controller.{Request, handle}
use api_wa_automation.Broadcasts.Machine.{Follows}
use api_wa_automation.Broadcasts.Requests.{handle-Follows}
use api_wa_automation.Broadcasts.Transitions.{IsSent, send_lem}
use api_wa_automation.Messages
use api_wa_automation.Messages.{add_bulk}
use api_wa_automation.Messages.Delivery.{IsCallOf, IsSettled, process_lem}
use api_wa_automation.Tests.{
  plain_js, plain_crypto, kind_server, secret, shop_credentials, phone_session, sale, customer, ann,
  small_world,
}

abbrev clock : ℕ → ℕ
clock i = i

-- Nobody else is at work.
abbrev quiet : ℕ → World → World
quiet i w = w

-- Someone cancels the broadcast while a message is being sent.
abbrev cancels : ℕ → World → World
cancels i w = record w { broadcasts = sale cancelled ∷ [] }

send_one-overwrites_example :
    (stored : Broadcast) × (list_orm.find_one
        (has_broadcast_key 7)
        (send_one ⦃server = kind_server⦄ clock cancels quiet 0 shop_credentials
          (sale sending)
          phone_session
          customer
          (small_world sending)).1.broadcasts
      ≡ some stored)
    × (stored.status ≡ sending)
send_one-overwrites_example =
    send_one-overwrites ⦃server = kind_server⦄ clock cancels quiet 0 shop_credentials (sale sending)
      phone_session customer (small_world sending) refl (λ u. refl)

shop_credentials_found :
    (status : BroadcastStatus)
    → get_openwa_credentials secret 1 (small_world status)
      ≡ (ok shop_credentials, small_world status)
unfolding get_openwa_credentials find_workspace encrypt decrypt
shop_credentials_found status = refl

session_found :
    (status : BroadcastStatus)
    → Sessions.get_by_id 5 (small_world status) ≡ (ok phone_session, small_world status)
unfolding Sessions.get_by_id
session_found status = refl

-- The broadcast has been cancelled, and is sent all the same.
process-finishes_example :
    let (r, w') =
      process ⦃server = kind_server⦄ secret clock quiet quiet 10 20
        (record { broadcast_id = 7 })
        (small_world cancelled) in
    (b' : Broadcast) × (r ≡ ok (finished b'.sent_count b'.failed_count))
    × (b'.sent_count + b'.failed_count ≡ 1)
    × (w'.calls ≡ message_to shop_credentials (codes "Hi {{name}}") phone_session customer ∷ [])
    × (list_orm.find_one (has_broadcast_key b'.id) w'.broadcasts ≡ some b')
    × (b'.status ≡ done)
process-finishes_example =
    process-finishes ⦃server = kind_server⦄ secret clock quiet quiet 10 20
      (record { broadcast_id = 7 }) (sale cancelled) phone_session shop_credentials
      (small_world cancelled) (λ k v. refl) (λ k v. refl) refl (session_found cancelled)
      (shop_credentials_found cancelled)

sale_managed :
    (status : BroadcastStatus)
    → find_managed 7 1 2 (small_world status) ≡ (ok (sale status), small_world status)
unfolding find_managed find_one assert_role assert_member
sale_managed status = refl

send_lem_example :
    IsSent 0
      (sale cancelled)
      cancelled
      (small_world cancelled)
      (send 0 7 1 2 (small_world cancelled))
send_lem_example =
    send_lem 0 7 1 2 (sale cancelled) cancelled (small_world cancelled) (sale_managed cancelled)
      refl

abbrev new_name : UpdateBroadcastDto
new_name = record { name = some (codes "big sale"); template = none; delay_ms = none }

abbrev two_inputs : CreateBroadcastDto
two_inputs = record {
  name = codes "sale";
  session_id = 5;
  template = codes "Hi";
  delay_ms = none;
  recipients = some (
      record { phone = codes "+62 8"; variables = none }
      ∷ record { phone = codes "628"; variables = none }
      ∷ []);
  contact_ids = some (3 ∷ []);
  scheduled_at = none;
}

ann_resolved : resolve_phones 1 (3 ∷ []) (small_world draft) ≡ (ok (ann ∷ []), small_world draft)
unfolding resolve_phones
ann_resolved = refl

build_recipients_lem_example :
    (m : RecipientMap) × (build_recipients 1 two_inputs (small_world draft)
      ≡ (ok m, small_world draft))
    × HasNoRepeats m
    × ((q : Text)
        → map_has q m
          ≡ (any (calls_for q) (ann ∷ []) || any (names q) (or_list two_inputs.recipients [])))
build_recipients_lem_example =
    build_recipients_lem 1 two_inputs (small_world draft) (ann ∷ []) ann_resolved

abbrev hello_job : Text → SendMessageJob
hello_job to = record {
  workspace_id = 1;
  session_id = 5;
  openwa_session_id = codes "s5";
  to = to;
  type = SendType.text;
  content = some (codes "hello");
  media_url = none;
  caption = none;
  filename = none;
  automation_id = none;
  broadcast_id = none;
}

process_lem_example :
    let (r, w') =
      Messages.process ⦃server = kind_server⦄ secret
        (hello_job (codes "628"))
        (small_world draft) in
    (sent : Call) × IsCallOf (hello_job (codes "628")) shop_credentials sent
    × (w'.calls ≡ sent ∷ [])
    × IsSettled ⦃server = kind_server⦄ secret (hello_job (codes "628")) (small_world draft) r w'
process_lem_example =
    process_lem ⦃server = kind_server⦄ secret (hello_job (codes "628")) shop_credentials
      (small_world draft) (shop_credentials_found draft)

abbrev midnight : Ambient
midnight = record { now = 0; timestamp = codes "midnight"; random = codes "iv" }

one_sale : IsKeyed Broadcast.id (sale draft ∷ [])
one_sale a b (inl e) (inl f) k = e ∙ sym f
one_sale a b (inl e) (inr f) k = absurd f
one_sale a b (inr e) f k = absurd e

handle-Follows_example :
    Follows 1
      (sale draft ∷ [])
      (handle midnight 1 1 (Request.send 7) (small_world draft)).1.broadcasts
handle-Follows_example = handle-Follows midnight 1 1 (Request.send 7) (small_world draft) one_sale
