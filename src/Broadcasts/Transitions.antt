-- ===== src/Broadcasts/Transitions.antt =====
-- The changes of status that `send`, `update` and `cancel` of broadcasts.service.ts make.
use api_wa_automation.Base.{
  ℕ, ◌≡◌, ◌≢◌, refl, false, ◌⊎◌, inl, inr, some, none, List, [], ◌∷◌, ◌++◌, arith,
}
use api_wa_automation.Orm.{Orm}
use api_wa_automation.Orm.Laws.{by, find_one-save}
use api_wa_automation.Data.Tenancy.{Key}
use api_wa_automation.Data.Campaign.{
  Broadcast, BroadcastStatus, draft, queued, sending, done, failed, cancelled, is_draft,
}
use api_wa_automation.World.{World, Result, ok, err, bad_request}
use api_wa_automation.Workspaces.{given}
use api_wa_automation.Broadcasts.{
  UpdateBroadcastDto, find_managed, send, update, save_broadcast, has_broadcast_key, delay_until,
  cannot_send,
}

module _ ⦃orm : Orm⦄ where
  -- The row that a request leaves for a broadcast.
  abbrev pub IsStored : Broadcast → World → Type 0
  IsStored b w = orm.find_one (has_broadcast_key b.id) w.broadcasts ≡ some b

  -- What `send` does with a broadcast in one status or another.
  unfoldable pub IsSent : ℕ → Broadcast → BroadcastStatus → World → Result ℕ × World → Type 0
  IsSent now b queued w (r, w') = (r ≡ err (bad_request (cannot_send queued))) × (w' ≡ w)
  IsSent now b sending w (r, w') = (r ≡ err (bad_request (cannot_send sending))) × (w' ≡ w)
  IsSent now b done w (r, w') = (r ≡ err (bad_request (cannot_send done))) × (w' ≡ w)
  IsSent now b _ w (r, w') =
      (r ≡ ok (delay_until b.scheduled_at now))
      × IsStored (record b { status = queued }) w'
      × (w'.broadcast_jobs
          ≡ w.broadcast_jobs
            ++ record {
              job = record { broadcast_id = b.id };
              delay = delay_until b.scheduled_at now;
              attempts = none;
            }
              ∷ [])

  saved :
      (b : Broadcast) (t : List Broadcast)
      → orm.find_one (has_broadcast_key b.id) (orm.save (by Broadcast.id) b t) ≡ some b
  saved b t =
      find_one-save (has_broadcast_key b.id) (by Broadcast.id) b t (ground arith)
        (λ y h. ground arith)

  -- Of a broadcast that the user may manage: in draft, failed or cancelled it is stored as queued
  -- and gets one job, behind the others and with the delay up to its time; queued, being sent or
  -- done it is refused, and nothing changes.
  pub send_lem :
      (now : ℕ) (id workspace_id user_id : Key) (b : Broadcast) (status : BroadcastStatus)
      (w : World)
      → find_managed id workspace_id user_id w ≡ (ok b, w)
      → b.status ≡ status
      → IsSent now b status w (send now id workspace_id user_id w)
  unfolding send save_broadcast IsSent
  send_lem now id workspace_id user_id b draft w h e = (
    ground arith,
    ground (arith, saved (record b { status = queued }) w.broadcasts),
    ground arith,
  )
  send_lem now id workspace_id user_id b failed w h e = (
    ground arith,
    ground (arith, saved (record b { status = queued }) w.broadcasts),
    ground arith,
  )
  send_lem now id workspace_id user_id b cancelled w h e = (
    ground arith,
    ground (arith, saved (record b { status = queued }) w.broadcasts),
    ground arith,
  )
  send_lem now id workspace_id user_id b queued w h e = (ground arith, ground arith)
  send_lem now id workspace_id user_id b sending w h e = (ground arith, ground arith)
  send_lem now id workspace_id user_id b done w h e = (ground arith, ground arith)

  -- What `update` does with a broadcast in draft, or in any other status.
  abbrev pub IsUpdated : UpdateBroadcastDto → Broadcast → World → Result Broadcast × World → Type 0
  IsUpdated dto b w end =
      ((b.status ≡ draft)
        × ((b' : Broadcast) × (end.0 ≡ ok b')
            × IsStored b' end.1
            × (b'.id ≡ b.id)
            × (b'.workspace_id ≡ b.workspace_id)
            × (b'.status ≡ draft)
            × (b'.total ≡ b.total)))
      ⊎ ((b.status ≢ draft)
          × (end.0 ≡ err (bad_request "Only draft broadcasts can be edited"))
          × (end.1 ≡ w))

  is_draft_sound :
      (status : BroadcastStatus) → (status ≡ draft) ⊎ ((status ≢ draft) × (is_draft status ≡ false))
  is_draft_sound draft = inl refl
  is_draft_sound queued = inr (λ e. cc, refl)
  is_draft_sound sending = inr (λ e. cc, refl)
  is_draft_sound done = inr (λ e. cc, refl)
  is_draft_sound failed = inr (λ e. cc, refl)
  is_draft_sound cancelled = inr (λ e. cc, refl)

  -- Of a broadcast that the user may manage, only a draft is edited, which remains a draft of the
  -- same workspace and with the same number of recipients; another is refused, and nothing
  -- changes.
  pub update_lem :
      (id workspace_id user_id : Key) (dto : UpdateBroadcastDto) (b : Broadcast) (w : World)
      → find_managed id workspace_id user_id w ≡ (ok b, w)
      → IsUpdated dto b w (update id workspace_id user_id dto w)
  unfolding update save_broadcast
  update_lem id workspace_id user_id dto b w h = elim (is_draft_sound b.status) [
    | inl e ↦
        let b' : Broadcast = record b {
          name = given dto.name b.name;
          template = given dto.template b.template;
          delay_ms = given dto.delay_ms b.delay_ms;
        } in
        inl (e, (b', ground arith, ground (arith, saved b' w.broadcasts), refl, refl, e, refl))
    | inr (e, closed) ↦ inr (e, ground arith, ground arith)
  ]
