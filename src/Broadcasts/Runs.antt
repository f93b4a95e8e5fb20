-- ===== src/Broadcasts/Runs.antt =====
-- src/modules/broadcasts/broadcast.processor.ts: a job that nothing disturbs.
use api_wa_automation.Base.{
  ℕ, ◌+◌, sym, true, any, any_of_Has, Has, false, ◌≡◌, refl, ap, subst, ◌∙◌, inl, inr, Option, some,
  List, [], ◌∷◌, ◌++◌, map, length, append-nil, arith,
}
use api_wa_automation.Base.Text.{Text}
use api_wa_automation.Value.{Js}
use api_wa_automation.Orm.{Orm}
use api_wa_automation.Orm.Laws.{by}
use api_wa_automation.Encryption.{Crypto}
use api_wa_automation.Data.Tenancy.{Key, Session}
use api_wa_automation.Data.Messaging.{BroadcastJob}
use api_wa_automation.Data.Campaign.{Broadcast, sending, done, is_cancelled, BroadcastRecipient}
use api_wa_automation.World.{World, Result, ok}
use api_wa_automation.Workspaces.{OpenwaCredentials, get_openwa_credentials}
use api_wa_automation.Sessions
use api_wa_automation.Openwa.{Server}
use api_wa_automation.Broadcasts.{has_broadcast_key, save_broadcast}
use api_wa_automation.Broadcasts.Processor.{
  is_pending_of, finished, Outcome, send_all, run, process,
}
use api_wa_automation.Broadcasts.Rounds.{
  is_held, sent_state, message_to, count_reply, count_reply_lem, reply_to, send_one_lem,
  broadcast-saved,
}
use api_wa_automation.Broadcasts.Sending.{send_all_lem, LoopDone}

module _ ⦃orm : Orm⦄ ⦃js : Js⦄ ⦃server : Server⦄ (clock : ℕ → ℕ)
    (during_send during_pause : ℕ → World → World) where
  -- Where nothing disturbs it, the loop is not stopped.
  send_all-goes_on :
      (rs : List BroadcastRecipient) (i : ℕ) (creds : OpenwaCredentials) (b stored : Broadcast)
      (s : Session) (w : World)
      → ((k : ℕ) (v : World) → during_send k v ≡ v)
      → ((k : ℕ) (v : World) → during_pause k v ≡ v)
      → orm.find_one (has_broadcast_key b.id) w.broadcasts ≡ some stored
      → is_cancelled stored.status ≡ false
      → is_cancelled b.status ≡ false
      → ((r : BroadcastRecipient) → Has r rs → r.broadcast_id ≡ b.id)
      → (b' : Broadcast) × (b'.id ≡ b.id)
        × ((send_all clock during_send during_pause i creds b s rs w).0 ≡ ok (some b'))
  unfolding send_all
  send_all-goes_on [] i creds b stored s w hs hp found open_ open_b own = (b, refl, refl)
  send_all-goes_on (r ∷ rs) i creds b stored s w hs hp found goes_on keeps_on own =
      let sent = sent_state clock during_send during_pause i creds b s r w in
      let rows : sent.broadcasts ≡ w.broadcasts = ap World.broadcasts (hs i _) in
      let there : any (has_broadcast_key b.id) w.broadcasts ≡ true =
        any_of_Has stored (has_broadcast_key b.id) w.broadcasts
          (orm.find_one_has (has_broadcast_key b.id) w.broadcasts stored found)
          (orm.find_one_test (has_broadcast_key b.id) w.broadcasts stored found) in
      let held : is_held clock during_send during_pause r sent ≡ true = rw rows (
        subst (λ (k : Key). any (has_broadcast_key k) w.broadcasts ≡ true) (sym (own r (inl refl)))
          there) in
      let (u, round, calls, saved) =
        send_one_lem clock during_send during_pause i creds b s r w held in
      let b' = count_reply b (reply_to clock during_send during_pause creds b s r w) in
      let (same_id, same_status, _, _) =
        count_reply_lem clock during_send during_pause b
          (reply_to clock during_send during_pause creds b s r w) in
      let next : orm.find_one (has_broadcast_key b'.id) (during_pause i u).broadcasts ≡ some b' =
        rw (hp i u) (rw saved (broadcast-saved clock during_send during_pause b' _)) in
      let goes_on' : is_cancelled b'.status ≡ false = rw same_status keeps_on in
      let (b'', id, e) =
        send_all-goes_on rs (i + 1) creds b' b' s (during_pause i u) hs hp next goes_on' goes_on'
          (λ x h. own x (inr h) ∙ sym same_id) in
      (b'', id ∙ same_id, ground arith)

  -- The end of a loop that was not stopped: it sent to everyone.
  all-sent :
      (creds : OpenwaCredentials) (b b' : Broadcast) (s : Session) (rs : List BroadcastRecipient)
      (w : World) (end : Result (Option Broadcast) × World)
      → LoopDone clock during_send during_pause creds b s rs w end
      → end.0 ≡ ok (some b')
      → (end.1.calls ≡ w.calls ++ map (message_to creds b.template s) rs)
        × (b'.sent_count + b'.failed_count ≡ b.sent_count + b.failed_count + length rs)
  all-sent creds b b' s rs w end (pre, post, split, calls, inl (inl stopped)) e =
      absurd (ground arith)
  all-sent creds b b' s rs w end (pre, post, split, calls, inl (inr (x, thrown, gone))) e =
      absurd (ground arith)
  all-sent creds b b' s rs w end (pre, post, split, calls, inr (b'', e', none_left, counts)) e =
      let same : b'' ≡ b' = ground arith in
      let all : rs ≡ pre =
        split ∙ ap (λ (t : List BroadcastRecipient). pre ++ t) none_left ∙ append-nil pre in
      (
        rw all calls,
        subst
            (λ (z : Broadcast).
              z.sent_count + z.failed_count ≡ b.sent_count + b.failed_count + length rs)
            same counts,
      )

module _ ⦃orm : Orm⦄ ⦃js : Js⦄ ⦃c : Crypto⦄ ⦃server : Server⦄ (enc_key : Text) (clock : ℕ → ℕ)
    (during_send during_pause : ℕ → World → World) where
  -- A job that nothing disturbs, of a broadcast whose session and credentials are found, sends it
  -- whatever status it is stored in, even if it has been cancelled: one request for each pending
  -- recipient, in order, each counted once as sent or as failed; and the broadcast is stored as
  -- done.
  pub process-finishes :
      (start_time end_time : ℕ) (job : BroadcastJob) (b : Broadcast) (s : Session)
      (creds : OpenwaCredentials) (w : World)
      → ((k : ℕ) (v : World) → during_send k v ≡ v)
      → ((k : ℕ) (v : World) → during_pause k v ≡ v)
      → orm.find_one (has_broadcast_key job.broadcast_id) w.broadcasts ≡ some b
      → Sessions.get_by_id b.session_id w ≡ (ok s, w)
      → get_openwa_credentials enc_key b.workspace_id w ≡ (ok creds, w)
      → let pending = orm.find (is_pending_of b.id) w.recipients in
        let (r, w') = process enc_key clock during_send during_pause start_time end_time job w in
        (b' : Broadcast) × (r ≡ ok (finished b'.sent_count b'.failed_count))
        × (b'.sent_count + b'.failed_count ≡ b.sent_count + b.failed_count + length pending)
        × (w'.calls ≡ w.calls ++ map (message_to creds b.template s) pending)
        × (orm.find_one (has_broadcast_key b'.id) w'.broadcasts ≡ some b')
        × (b'.status ≡ done)
  unfolding process run save_broadcast
  process-finishes start_time end_time job b s creds w hs hp found hsession hcreds =
      let started : Broadcast = record b { status = sending; started_at = some start_time } in
      let v : World = record w { broadcasts = orm.save (by Broadcast.id) started w.broadcasts } in
      let pending = orm.find (is_pending_of b.id) w.recipients in
      let end = send_all clock during_send during_pause 0 creds started s pending v in
      let (b', id, e) =
        send_all-goes_on clock during_send during_pause pending 0 creds started started s v hs hp
          (broadcast-saved clock during_send during_pause started w.broadcasts) refl refl
          (λ r h.
            let (_, its) = orm.find_has (is_pending_of b.id) w.recipients r h in ground arith) in
      let done_loop =
        send_all_lem clock during_send during_pause pending 0 creds started s v
          (λ k x. rw (hs k x) refl) (λ k x. rw (hp k x) refl) in
      let (calls, counts) =
        all-sent clock during_send during_pause creds started b' s pending v end done_loop e in
      let b'' : Broadcast = record b' { status = done; finished_at = some end_time } in
      let run_lem : process enc_key clock during_send during_pause start_time end_time job w ≡ (
        ok (finished b'.sent_count b'.failed_count),
        record end.1 { broadcasts = orm.save (by Broadcast.id) b'' end.1.broadcasts },
      ) =
        ground arith in
      (
        b'',
        ap (λ (z : Result Outcome × World). z.0) run_lem,
        counts,
        ap (λ (z : Result Outcome × World). z.1.calls) run_lem ∙ calls,
        ap (λ (z : Result Outcome × World). orm.find_one (has_broadcast_key b'.id) z.1.broadcasts)
              run_lem
            ∙ broadcast-saved clock during_send during_pause b'' _,
        refl,
      )
