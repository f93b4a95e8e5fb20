-- ===== src/Broadcasts/Machine.antt =====
-- The states of a broadcast, and what the requests of broadcasts.controller.ts make of the table.
use api_wa_automation.Base.{true, ◌≡◌, ◌≢◌, sym, ap, subst, ◌∙◌, ◌⊎◌, inl, inr, List, Has}
use api_wa_automation.Orm.{Orm}
use api_wa_automation.Orm.Laws.{IsKeyed, by}
use api_wa_automation.Data.Tenancy.{Key}
use api_wa_automation.Data.Campaign.{Broadcast, BroadcastStatus, queued, cancelled}
use api_wa_automation.Broadcasts.{is_sendable}

-- The changes of status that requests may make: to `queued` from a status that may be sent, and to
-- `cancelled` from any.
pub data Transition : BroadcastStatus → BroadcastStatus → Type 0 where
  stay : (s : BroadcastStatus) → Transition s s
  enqueue : (s : BroadcastStatus) → is_sendable s ≡ true → Transition s queued
  cancel : (s : BroadcastStatus) → Transition s cancelled

-- A row that is there before and after is the same, or it is the workspace's and its status has made a
-- transition.
abbrev pub Follows : Key → List Broadcast → List Broadcast → Type 0
Follows ws t t' =
    (b b' : Broadcast)
    → Has b t
    → Has b' t'
    → b.id ≡ b'.id
    → (b' ≡ b) ⊎ ((b.workspace_id ≡ ws) × (b'.workspace_id ≡ ws) × Transition b.status b'.status)

module _ ⦃orm : Orm⦄ (ws : Key) (t : List Broadcast) where
  pub same-Follows : IsKeyed Broadcast.id t → Follows ws t t
  same-Follows keyed b b' h h' e = inl (keyed b' b h' h (sym e))

  pub save-Follows :
      (old x : Broadcast)
      → IsKeyed Broadcast.id t
      → Has old t
      → x.id ≡ old.id
      → old.workspace_id ≡ ws
      → x.workspace_id ≡ ws
      → Transition old.status x.status
      → Follows ws t (orm.save (by Broadcast.id) x t)
  save-Follows old x keyed row same here here' moves b b' h h' e =
      elim (orm.save_has (by Broadcast.id) x t b' h') [
        | inr (kept, _) ↦ inl (keyed b' b kept h (sym e))
        | inl is ↦
            let its : b ≡ old = keyed b old h row (e ∙ ap Broadcast.id is ∙ same) in
            inr (
              subst
                (λ z.
                  (Broadcast.workspace_id z ≡ ws)
                  × (b'.workspace_id ≡ ws)
                  × Transition (Broadcast.status z) b'.status)
                (sym its)
                (subst
                  (λ z.
                    (old.workspace_id ≡ ws)
                    × (Broadcast.workspace_id z ≡ ws)
                    × Transition old.status (Broadcast.status z))
                  (sym is) (here, here', moves)))
      ]

  pub insert-Follows :
      (x : Broadcast)
      → IsKeyed Broadcast.id t
      → ((y : Broadcast) → Has y t → y.id ≢ x.id)
      → Follows ws t (orm.save (by Broadcast.id) x t)
  insert-Follows x keyed fresh b b' h h' e = elim (orm.save_has (by Broadcast.id) x t b' h') [
    | inr (kept, _) ↦ inl (keyed b' b kept h (sym e))
    | inl is ↦ absurd (fresh b h (e ∙ ap Broadcast.id is))
  ]

  pub remove-Follows :
      (x : Broadcast) → IsKeyed Broadcast.id t → Follows ws t (orm.remove (by Broadcast.id) x t)
  remove-Follows x keyed b b' h h' e =
      inl (keyed b' b (orm.remove_has (by Broadcast.id) x t b' h').0 h (sym e))
