-- ===== src/Broadcasts/Rounds.antt =====
-- One round of the loop of broadcast.processor.ts: the reply counted and stored, or an exception.
use api_wa_automation.Base.{
  ℕ, ◌+◌, ◌≡◌, refl, ap, Bool, true, false, any, some, List, [], ◌∷◌, ◌++◌, arith,
}
use api_wa_automation.Base.Text.{Text, codes}
use api_wa_automation.Value.{Js, Props}
use api_wa_automation.Template.{render_template}
use api_wa_automation.Orm.{Orm}
use api_wa_automation.Orm.Laws.{by, find_one-save}
use api_wa_automation.Data.Tenancy.{Session}
use api_wa_automation.Data.Campaign.{Broadcast, BroadcastRecipient}
use api_wa_automation.World.{World, Exception, plain, Result, ok, err, Call}
use api_wa_automation.Workspaces.{OpenwaCredentials}
use api_wa_automation.Openwa.{Server, outcome, request, text_args}
use api_wa_automation.Broadcasts.{has_broadcast_key}
use api_wa_automation.Broadcasts.Processor.{record_sent, end_round, after_reply, send_one}

-- The request for one recipient.
abbrev pub message_to : ⦃js : Js⦄ → OpenwaCredentials → Text → Session → BroadcastRecipient → Call
message_to creds template s r =
    request creds "sendText" (text_args r.phone (render_template template r.variables)) s.session_id

-- The job's broadcast after a reply.
abbrev pub count_reply : Broadcast → Result Props → Broadcast
count_reply b (ok res) = record b { sent_count = b.sent_count + 1 }
count_reply b (err e) = record b { failed_count = b.failed_count + 1 }

module _ ⦃orm : Orm⦄ ⦃js : Js⦄ ⦃server : Server⦄ (clock : ℕ → ℕ)
    (during_send during_pause : ℕ → World → World) where
  -- The broadcast of a recipient is in the table.
  abbrev pub is_held : BroadcastRecipient → World → Bool
  is_held r v = any (has_broadcast_key r.broadcast_id) v.broadcasts

  -- Behind the call, if the recipient's broadcast is there: the counter that moved, and the state in
  -- which the pause begins.
  abbrev pub Counted : ℕ → Broadcast → Result Props → World → Result Broadcast × World → Type 0
  Counted i b res v end =
      (u : World) × (end ≡ (ok (count_reply b res), during_pause i u))
      × (u.calls ≡ v.calls)
      × (u.broadcasts ≡ orm.save (by Broadcast.id) (count_reply b res) v.broadcasts)

  -- Or the job throws, if the broadcast is gone.
  abbrev pub Thrown : World → Result Broadcast × World → Type 0
  Thrown v end =
      (e : Exception) × (u : World) × (end ≡ (err e, u))
      × (u.calls ≡ v.calls)
      × (u.broadcasts ≡ v.broadcasts)

  -- What `recipients.save` and the log leave of the state.
  record_sent_lem :
      (i : ℕ) (b : Broadcast) (s : Session) (r : BroadcastRecipient) (message : Text)
      (res : Result Props) (v : World)
      → is_held r v ≡ true
      → (u : World) × (record_sent clock during_send during_pause i b s r message res v
          ≡ (ok (count_reply b res), u))
        × (u.calls ≡ v.calls)
        × (u.broadcasts ≡ v.broadcasts)
  unfolding record_sent
  record_sent_lem i b s r message (ok res) v held = (
    (record_sent clock during_send during_pause i b s r message (ok res) v).1,
    ground arith,
    ground arith,
    ground arith,
  )
  record_sent_lem i b s r message (err e) v held = (
    (record_sent clock during_send during_pause i b s r message (err e) v).1,
    ground arith,
    ground arith,
    ground arith,
  )

  after_reply-Counted :
      (i : ℕ) (b : Broadcast) (s : Session) (r : BroadcastRecipient) (message : Text)
      (res : Result Props) (v : World)
      → is_held r v ≡ true
      → Counted i b res v (after_reply clock during_send during_pause i b s r message res v)
  unfolding after_reply end_round
  after_reply-Counted i b s r message res v held =
      let (u, recorded, calls, rows) = record_sent_lem i b s r message res v held in
      let end : Result Broadcast × World =
        end_round clock during_send during_pause i (count_reply b res) u in
      let run : after_reply clock during_send during_pause i b s r message res v ≡ end =
        ap
          (λ (z : Result Broadcast × World). elim z.0 [
            | ok b' ↦ end_round clock during_send during_pause i b' z.1
            | err e ↦ (err e, z.1)
          ])
          recorded in
      (_, run, calls, ap (orm.save (by Broadcast.id) (count_reply b res)) rows)

  after_reply-Thrown :
      (i : ℕ) (b : Broadcast) (s : Session) (r : BroadcastRecipient) (message : Text)
      (res : Result Props) (v : World)
      → is_held r v ≡ false
      → Thrown v (after_reply clock during_send during_pause i b s r message res v)
  unfolding after_reply
  after_reply-Thrown i b s r message (ok res) v gone =
      (plain (codes "violates foreign key constraint"), v, ground arith, refl, refl)
  after_reply-Thrown i b s r message (err e) v gone =
      (plain (codes "violates foreign key constraint"), v, ground arith, refl, refl)

  -- What the server makes of the message to one recipient.
  abbrev pub reply_to :
      OpenwaCredentials → Broadcast → Session → BroadcastRecipient → World → Result Props
  reply_to creds b s r w =
      outcome "sendText" (server.reply w.calls (message_to creds b.template s r))

  -- The state once the message is out and the others have had their turn.
  abbrev pub sent_state :
      ℕ → OpenwaCredentials → Broadcast → Session → BroadcastRecipient → World → World
  sent_state i creds b s r w =
      during_send i (record w { calls = w.calls ++ message_to creds b.template s r ∷ [] })

  pub send_one_lem :
      (i : ℕ) (creds : OpenwaCredentials) (b : Broadcast) (s : Session) (r : BroadcastRecipient)
      (w : World)
      → is_held r (sent_state i creds b s r w) ≡ true
      → Counted i b
          (reply_to creds b s r w)
          (sent_state i creds b s r w)
          (send_one clock during_send during_pause i creds b s r w)
  unfolding send_one
  send_one_lem i creds b s r w held =
      after_reply-Counted i b s r (render_template b.template r.variables) (reply_to creds b s r w)
        (sent_state i creds b s r w) held

  pub send_one-Thrown :
      (i : ℕ) (creds : OpenwaCredentials) (b : Broadcast) (s : Session) (r : BroadcastRecipient)
      (w : World)
      → is_held r (sent_state i creds b s r w) ≡ false
      → Thrown
          (sent_state i creds b s r w)
          (send_one clock during_send during_pause i creds b s r w)
  unfolding send_one
  send_one-Thrown i creds b s r w gone =
      after_reply-Thrown i b s r (render_template b.template r.variables) (reply_to creds b s r w)
        (sent_state i creds b s r w) gone

  pub broadcast-saved :
      (b : Broadcast) (t : List Broadcast)
      → orm.find_one (has_broadcast_key b.id) (orm.save (by Broadcast.id) b t) ≡ some b
  broadcast-saved b t =
      find_one-save (has_broadcast_key b.id) (by Broadcast.id) b t (ground arith)
        (λ y h. ground arith)

  -- What a reply leaves as it is, and what it counts.
  pub count_reply_lem :
      (b : Broadcast) (res : Result Props)
      → ((count_reply b res).id ≡ b.id)
        × ((count_reply b res).status ≡ b.status)
        × ((count_reply b res).template ≡ b.template)
        × ((count_reply b res).sent_count + (count_reply b res).failed_count
            ≡ b.sent_count + b.failed_count + 1)
  count_reply_lem b (ok res) = (refl, refl, refl, omega arith)
  count_reply_lem b (err e) = (refl, refl, refl, omega arith)
