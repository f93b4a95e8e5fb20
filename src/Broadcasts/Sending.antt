-- ===== src/Broadcasts/Sending.antt =====
-- What the job of a broadcast does, whatever other requests do while it waits.
use api_wa_automation.Base.{
  ℕ, ◌+◌, ◌≡◌, refl, sym, ap, subst, ◌∙◌, inl, inr, ◌⊎◌, true, false, any, Has, Option, none, some,
  List, [], ◌∷◌, ◌++◌, map, length, append-nil, append_assoc, arith, Bool-cases,
}
use api_wa_automation.Base.Text.{Text}
use api_wa_automation.Value.{Js}
use api_wa_automation.Orm.{Orm}
use api_wa_automation.Data.Tenancy.{Key, Session}
use api_wa_automation.Data.Campaign.{Broadcast, BroadcastRecipient}
use api_wa_automation.World.{World, Exception, Result, ok, err, Call}
use api_wa_automation.Workspaces.{OpenwaCredentials}
use api_wa_automation.Openwa.{Server}
use api_wa_automation.Broadcasts.{has_broadcast_key}
use api_wa_automation.Broadcasts.Processor.{is_stopped, send_one, send_all}
use api_wa_automation.Broadcasts.Rounds.{
  message_to, count_reply, is_held, reply_to, sent_state, send_one_lem, send_one-Thrown,
  broadcast-saved, count_reply_lem,
}

module _ ⦃orm : Orm⦄ ⦃js : Js⦄ ⦃server : Server⦄ (clock : ℕ → ℕ)
    (during_send during_pause : ℕ → World → World) where
  -- A round stores the status that the job has in memory, over whatever others stored while the
  -- message was being sent, unless they deleted the recipient's broadcast, if the pause changes nothing
  -- more.
  pub send_one-overwrites :
      (i : ℕ) (creds : OpenwaCredentials) (b : Broadcast) (s : Session) (r : BroadcastRecipient)
      (w : World)
      → is_held clock during_send during_pause r
          (sent_state clock during_send during_pause i creds b s r w)
        ≡ true
      → ((u : World) → during_pause i u ≡ u)
      → let (res, w') = send_one clock during_send during_pause i creds b s r w in
        (stored : Broadcast) × (orm.find_one (has_broadcast_key b.id) w'.broadcasts ≡ some stored)
        × (stored.status ≡ b.status)
  send_one-overwrites i creds b s r w held quiet =
      let (u, run, _, saved) = send_one_lem clock during_send during_pause i creds b s r w held in
      let b' = count_reply b (reply_to clock during_send during_pause creds b s r w) in
      let (same_id, same_status, _, _) =
        count_reply_lem clock during_send during_pause b
          (reply_to clock during_send during_pause creds b s r w) in
      let found : orm.find_one (has_broadcast_key b'.id) u.broadcasts ≡ some b' =
        rw saved (broadcast-saved clock during_send during_pause b' _) in
      let after : (send_one clock during_send during_pause i creds b s r w).1.broadcasts
          ≡ u.broadcasts =
        ap (λ (z : Result Broadcast × World). z.1.broadcasts) run ∙ ap World.broadcasts (quiet u) in
      (
        b',
        rw after (
            subst (λ (k : Key). orm.find_one (has_broadcast_key k) u.broadcasts ≡ some b') same_id
              found),
        same_status,
      )

  -- How far a run of the loop over `rs` came: the requests that it made, in order, and, if it was not
  -- stopped, one count for each recipient; or it threw, and the broadcast of a recipient is gone.
  abbrev pub LoopDone :
      OpenwaCredentials
      → Broadcast
      → Session
      → List BroadcastRecipient
      → World
      → Result (Option Broadcast) × World
      → Type 0
  LoopDone creds b s rs w end =
      (pre : List BroadcastRecipient) × (post : List BroadcastRecipient) × (rs ≡ pre ++ post)
      × (end.1.calls ≡ w.calls ++ map (message_to creds b.template s) pre)
      × (((end.0 ≡ ok none)
            ⊎ ((e : Exception) × (end.0 ≡ err e)
                × ((r : BroadcastRecipient) × Has r pre
                    × (is_held clock during_send during_pause r end.1 ≡ false))))
          ⊎ ((b' : Broadcast) × (end.0 ≡ ok (some b'))
              × (post ≡ [])
              × (b'.sent_count + b'.failed_count ≡ b.sent_count + b.failed_count + length rs)))

  LoopDone-step :
      (creds : OpenwaCredentials) (b b' : Broadcast) (s : Session) (r : BroadcastRecipient)
      (rs : List BroadcastRecipient) (w v : World) (end : Result (Option Broadcast) × World)
      → (b'.id ≡ b.id)
        × (b'.status ≡ b.status)
        × (b'.template ≡ b.template)
        × (b'.sent_count + b'.failed_count ≡ b.sent_count + b.failed_count + 1)
      → v.calls ≡ w.calls ++ message_to creds b.template s r ∷ []
      → LoopDone creds b' s rs v end
      → LoopDone creds b s (r ∷ rs) w end
  LoopDone-step creds b b' s r rs w v end (_, _, template, counts) before
        (pre, post, split, calls, result) =
      (
        r ∷ pre,
        post,
        ap (λ (t : List BroadcastRecipient). r ∷ t) split,
        subst (λ (t : Text). end.1.calls ≡ v.calls ++ map (message_to creds t s) pre) template calls
            ∙ ap (λ (t : List Call). t ++ map (message_to creds b.template s) pre) before
            ∙ append_assoc w.calls (message_to creds b.template s r ∷ [])
                (map (message_to creds b.template s) pre),
        elim result [
          | inl (inl stopped) ↦ inl (inl stopped)
          | inl (inr (e, thrown, (x, h, gone))) ↦ inl (inr (e, thrown, (x, inr h, gone)))
          | inr (b'', e, all, total) ↦ inr (b'', e, all, omega arith)
        ],
      )

  pub send_all_lem :
      (rs : List BroadcastRecipient) (i : ℕ) (creds : OpenwaCredentials) (b : Broadcast)
      (s : Session) (w : World)
      → ((k : ℕ) (v : World) → (during_send k v).calls ≡ v.calls)
      → ((k : ℕ) (v : World) → (during_pause k v).calls ≡ v.calls)
      → LoopDone creds b s rs w (send_all clock during_send during_pause i creds b s rs w)
  unfolding send_all
  send_all_lem [] i creds b s w hs hp =
      ([], [], refl, sym (append-nil w.calls), inr (b, refl, refl, omega arith))
  send_all_lem (r ∷ rs) i creds b s w hs hp =
      elim (Bool-cases (is_stopped (orm.find_one (has_broadcast_key b.id) w.broadcasts))) [
        | inl stopped ↦
            let e : send_all clock during_send during_pause i creds b s (r ∷ rs) w ≡ (ok none, w) =
              ground arith in
            subst (LoopDone creds b s (r ∷ rs) w) (sym e)
              ([], r ∷ rs, refl, sym (append-nil w.calls), inl (inl refl))
        | inr goes_on ↦
            elim (Bool-cases (
              is_held clock during_send during_pause r
                (sent_state clock during_send during_pause i creds b s r w))) [
                  | inr gone ↦
                      let (x, u, run, calls, rows) =
                        send_one-Thrown clock during_send during_pause i creds b s r w gone in
                      let e : send_all clock during_send during_pause i creds b s (r ∷ rs) w
                          ≡ (err x, u) =
                        ground arith in
                      subst (LoopDone creds b s (r ∷ rs) w) (sym e) (
                        r ∷ [],
                        rs,
                        refl,
                        calls ∙ hs i _,
                        inl (
                            inr (
                              x,
                              refl,
                              (
                                r,
                                inl refl,
                                ap (any (has_broadcast_key r.broadcast_id)) rows ∙ gone,
                              ),
                            )),
                      )
                  | inl held ↦
                      let (u, run, calls, _) =
                        send_one_lem clock during_send during_pause i creds b s r w held in
                      let b' =
                        count_reply b (reply_to clock during_send during_pause creds b s r w) in
                      let e : send_all clock during_send during_pause i creds b s (r ∷ rs) w
                          ≡ send_all clock during_send during_pause (i + 1) creds b' s rs
                              (during_pause i u) =
                        ground arith in
                      subst (LoopDone creds b s (r ∷ rs) w) (sym e) (
                        LoopDone-step creds b b' s r rs w (during_pause i u)
                          (send_all clock during_send during_pause (i + 1) creds b' s rs
                            (during_pause i u))
                          (count_reply_lem clock during_send during_pause b
                            (reply_to clock during_send during_pause creds b s r w))
                          (hp i u ∙ calls ∙ hs i _)
                          (send_all_lem rs (i + 1) creds b' s (during_pause i u) hs hp))
                ]
      ]
