-- ===== src/Broadcasts.antt =====
-- src/modules/broadcasts/broadcasts.service.ts: broadcasts and their recipients.
pub mod Processor
pub mod Recipients
pub mod Transitions
pub mod Rounds
pub mod Sending
pub mod Runs
pub mod Controller
pub mod Queries
pub mod Machine
pub mod Requests
use api_wa_automation.Base.{
  ℕ, ◌+◌, ◌-◌, ◌*◌, ◌/◌, Bool, true, false, ◌&&◌, Option, none, some, List, [], ◌∷◌, ◌++◌, ◌==◌,
  any, String, length, if◌then◌else◌,
}
use api_wa_automation.Base.Text.{Text, codes, text_eq, digits, is_empty}
use api_wa_automation.Value.{str, Props, end, prop}
use api_wa_automation.Orm.{Orm}
use api_wa_automation.Orm.Laws.{by}
use api_wa_automation.Data.Tenancy.{Session, Key, Contact}
use api_wa_automation.Data.Messaging.{BroadcastJob, Queued}
use api_wa_automation.Data.Campaign.{
  Broadcast, BroadcastStatus, draft, queued, sending, done, failed, cancelled, is_draft,
  BroadcastRecipient, RecipientStatus,
}
use api_wa_automation.World.{
  World, Action, ok, err, plain, bad_request, not_found, pure, gets, modify, or_throw, throw_if,
  ◌>>=◌, ◌>>◌,
}
use api_wa_automation.Workspaces.{given, managers, assert_member, assert_role}
use api_wa_automation.Sessions
use api_wa_automation.Contacts.{or_list, resolve_phones}
use api_wa_automation.Messages.{or_empty}

pub record RecipientInput : Type 0 where
  pub phone : Text
  pub variables : Option Props

pub record CreateBroadcastDto : Type 0 where
  pub name : Text
  pub session_id : Key
  pub template : Text
  pub delay_ms : Option ℕ
  pub recipients : Option (List RecipientInput)
  pub contact_ids : Option (List Key)
  pub scheduled_at : Option ℕ

pub record UpdateBroadcastDto : Type 0 where
  pub name : Option Text
  pub template : Option Text
  pub delay_ms : Option ℕ

-- The `Map` of `create`: the variables of a recipient by phone, in order of insertion.
abbrev pub RecipientMap : Type 0
RecipientMap = List (Text × Props)

unfoldable pub map_has : Text → RecipientMap → Bool
map_has phone [] = false
map_has phone ((p, v) ∷ m) = if text_eq p phone then true else map_has phone m

unfoldable pub map_set : Text → Props → RecipientMap → RecipientMap
map_set phone variables [] = (phone, variables) ∷ []
map_set phone variables ((p, v) ∷ m) =
    if text_eq p phone then (p, variables) ∷ m else (p, v) ∷ map_set phone variables m

abbrev pub or_end : Option Props → Props
or_end none = end
or_end (some ps) = ps

-- One round of the loop over `dto.recipients`.
unfoldable pub add_input : RecipientInput → RecipientMap → RecipientMap
add_input r m =
    if is_empty (digits r.phone) then m else map_set (digits r.phone) (or_end r.variables) m

unfoldable pub add_inputs : List RecipientInput → RecipientMap → RecipientMap
add_inputs [] m = m
add_inputs (r ∷ rs) m = add_inputs rs (add_input r m)

-- `{ name: c.name || '' }`
abbrev pub name_only : Contact → Props
name_only x = prop (codes "name") (str (or_empty x.name)) end

-- One round of the loop over the contacts.
unfoldable pub add_contact : Contact → RecipientMap → RecipientMap
add_contact x m = if map_has x.phone m then m else map_set x.phone (name_only x) m

unfoldable pub add_contacts : List Contact → RecipientMap → RecipientMap
add_contacts [] m = m
add_contacts (x ∷ xs) m = add_contacts xs (add_contact x m)

abbrev pub is_broadcast_of : Key → Key → Broadcast → Bool
is_broadcast_of id workspace_id b = b.id == id && b.workspace_id == workspace_id

abbrev pub has_broadcast_key : Key → Broadcast → Bool
has_broadcast_key id b = b.id == id

-- `['draft', 'failed', 'cancelled'].includes(status)`
abbrev pub is_sendable : BroadcastStatus → Bool
is_sendable draft = true
is_sendable failed = true
is_sendable cancelled = true
is_sendable _ = false

abbrev pub cannot_send : BroadcastStatus → String
cannot_send draft = "Cannot send broadcast in 'draft' status"
cannot_send queued = "Cannot send broadcast in 'queued' status"
cannot_send sending = "Cannot send broadcast in 'sending' status"
cannot_send done = "Cannot send broadcast in 'done' status"
cannot_send failed = "Cannot send broadcast in 'failed' status"
cannot_send cancelled = "Cannot send broadcast in 'cancelled' status"

-- `Math.max(0, scheduledAt - now)`, or 0: the subtraction on ℕ stops at 0.
abbrev pub delay_until : Option ℕ → ℕ → ℕ
delay_until none now = 0
delay_until (some scheduled_at) now = scheduled_at - now

-- `total ? Math.round((sent + failed) / total * 100) : 0`, with the quotient taken exactly:
-- `Math.round` rounds a half up.
unfoldable pub progress : Broadcast → ℕ
progress b =
    if b.total == 0 then 0 else (200 * (b.sent_count + b.failed_count) + b.total) / (2 * b.total)

module _ ⦃orm : Orm⦄ where
  unfoldable pub save_broadcast : Broadcast → Action Broadcast
  save_broadcast x = do
    modify (λ w. record w { broadcasts = orm.save (by Broadcast.id) x w.broadcasts })
    pure x

  -- `recipients.save`: it throws if the broadcast, to which `broadcast_id` is a foreign key, is gone.
  unfoldable pub save_recipient : BroadcastRecipient → Action (Unit {0})
  save_recipient x w =
      let held = any (has_broadcast_key x.broadcast_id) w.broadcasts in
      (
        if held then ok tt else err (plain (codes "violates foreign key constraint")),
        record w {
          recipients =
              if held then orm.save (by BroadcastRecipient.id) x w.recipients else w.recipients;
        },
      )

  -- A row that is stored along with its broadcast.
  unfoldable pub insert_recipient : BroadcastRecipient → Action (Unit {0})
  insert_recipient x =
      modify (λ w. record w { recipients = orm.save (by BroadcastRecipient.id) x w.recipients })

  -- The `cascade: true` of `Broadcast.recipients`.
  unfoldable pub save_recipients : Key → RecipientMap → Action (Unit {0})
  save_recipients broadcast_id [] = pure tt
  save_recipients broadcast_id ((phone, variables) ∷ m) = do
    id ← gets (λ w. orm.new_key BroadcastRecipient.id w.recipients)
    insert_recipient (record {
      id = id;
      broadcast_id = broadcast_id;
      phone = phone;
      variables = variables;
      status = RecipientStatus.pending;
      error_message = none;
      sent_at = none;
    })
    save_recipients broadcast_id m

  -- The recipient set of a request: `resolvePhones` is asked only if there are contact ids.
  unfoldable pub build_recipients : Key → CreateBroadcastDto → Action RecipientMap
  build_recipients workspace_id dto = do
    contacts ← resolve_phones workspace_id (or_list dto.contact_ids [])
    pure (add_contacts contacts (add_inputs (or_list dto.recipients []) []))

  abbrev pub created_broadcast : Key → Session → CreateBroadcastDto → RecipientMap → Key → Broadcast
  created_broadcast workspace_id s dto recipients id = record {
    id = id;
    workspace_id = workspace_id;
    session_id = s.id;
    name = dto.name;
    template = dto.template;
    status = draft;
    delay_ms = given dto.delay_ms 3000;
    total = length recipients;
    sent_count = 0;
    failed_count = 0;
    scheduled_at = dto.scheduled_at;
    started_at = none;
    finished_at = none;
  }

  unfoldable pub create : Key → Key → CreateBroadcastDto → Action Broadcast
  create workspace_id user_id dto = do
    assert_role workspace_id user_id managers
    s ← Sessions.find_one dto.session_id workspace_id user_id
    recipients ← build_recipients workspace_id dto
    throw_if (is_empty recipients) (bad_request "Broadcast has no recipients")
    id ← gets (λ w. orm.new_key Broadcast.id w.broadcasts)
    b ← save_broadcast (created_broadcast workspace_id s dto recipients id)
    save_recipients b.id recipients
    pure b

  unfoldable pub find_one : Key → Key → Key → Action Broadcast
  find_one id workspace_id user_id = do
    assert_member workspace_id user_id
    or_throw (not_found "Broadcast not found")
        (← gets (λ w. orm.find_one (is_broadcast_of id workspace_id) w.broadcasts))

  -- `assertRole(…, ['owner', 'admin'])` and `findOne`, which four methods start with.
  unfoldable pub find_managed : Key → Key → Key → Action Broadcast
  find_managed id workspace_id user_id = do
    assert_role workspace_id user_id managers
    find_one id workspace_id user_id

  unfoldable pub update : Key → Key → Key → UpdateBroadcastDto → Action Broadcast
  update id workspace_id user_id dto = do
    b ← find_managed id workspace_id user_id
    throw_if (mathlib.Core.Bool.not (is_draft b.status))
        (bad_request "Only draft broadcasts can be edited")
    save_broadcast (record b {
      name = given dto.name b.name;
      template = given dto.template b.template;
      delay_ms = given dto.delay_ms b.delay_ms;
    })

  -- The recipients go by `onDelete: 'CASCADE'`.
  unfoldable pub remove : Key → Key → Key → Action (Unit {0})
  remove id workspace_id user_id = do
    b ← find_managed id workspace_id user_id
    modify (λ w. record w {
      broadcasts = orm.remove (by Broadcast.id) b w.broadcasts;
      recipients = orm.delete (λ r. r.broadcast_id == b.id) w.recipients;
    })

  -- Returns the delay, `scheduledIn`.
  unfoldable pub send : ℕ → Key → Key → Key → Action ℕ
  send now id workspace_id user_id = do
    b ← find_managed id workspace_id user_id
    throw_if (mathlib.Core.Bool.not (is_sendable b.status)) (bad_request (cannot_send b.status))
    save_broadcast (record b { status = queued })
    let delay = delay_until b.scheduled_at now
    modify (λ w. record w {
      broadcast_jobs =
          w.broadcast_jobs
          ++ record { job = record { broadcast_id = b.id }; delay = delay; attempts = none } ∷ [];
    })
    pure delay

  unfoldable pub cancel : Key → Key → Key → Action (Unit {0})
  cancel id workspace_id user_id = do
    b ← find_managed id workspace_id user_id
    save_broadcast (record b { status = cancelled })
    pure tt
