-- ===== src/Broadcasts/Requests.antt =====
-- The requests of broadcasts.controller.ts, one by one, keep to the states of a broadcast.
use api_wa_automation.Base.{
  ℕ, not, select, ◌≡◌, refl, sym, subst, ◌⊎◌, inl, inr, [], ◌∷◌, Has, Option-cases, Bool-cases,
  arith,
}
use api_wa_automation.Base.Text.{is_empty}
use api_wa_automation.Orm.{Orm}
use api_wa_automation.Orm.Laws.{IsKeyed, by}
use api_wa_automation.Data.Tenancy.{Key}
use api_wa_automation.Data.Campaign.{Broadcast, queued, cancelled, is_draft}
use api_wa_automation.World.{
  World, Ambient, Exception, ok, err, not_found, forbidden, discard-state,
}
use api_wa_automation.Workspaces.{given, managers, assert_member}
use api_wa_automation.Workspaces.Access.{assert_role_sound, assert_member_sound}
use api_wa_automation.Sessions
use api_wa_automation.Sessions.{is_session_of}
use api_wa_automation.Contacts.{is_among, resolve_phones, or_list}
use api_wa_automation.Broadcasts
use api_wa_automation.Broadcasts.{
  CreateBroadcastDto, UpdateBroadcastDto, RecipientMap, is_broadcast_of, is_sendable, add_inputs,
  add_contacts, created_broadcast, save_broadcast, insert_recipient, save_recipients,
  build_recipients, find_one, find_managed,
}
use api_wa_automation.Broadcasts.Queries
use api_wa_automation.Broadcasts.Controller.{Request, handle}
use api_wa_automation.Broadcasts.Machine.{
  stay, enqueue, cancel, Follows, same-Follows, save-Follows, insert-Follows, remove-Follows,
}

module _ ⦃orm : Orm⦄ where
  save_recipients-broadcasts :
      (id : Key) (m : RecipientMap) (w : World)
      → (save_recipients id m w).1.broadcasts ≡ w.broadcasts
  unfolding save_recipients insert_recipient
  save_recipients-broadcasts id [] w = refl
  save_recipients-broadcasts id ((phone, variables) ∷ m) w = save_recipients-broadcasts id m _

  build_recipients_state :
      (ws : Key) (dto : CreateBroadcastDto) (w : World)
      → (m : RecipientMap) × (build_recipients ws dto w ≡ (ok m, w))
  unfolding build_recipients resolve_phones
  build_recipients_state ws dto w =
      let ids = or_list dto.contact_ids [] in
      let inputs = add_inputs (or_list dto.recipients []) [] in
      elim (Bool-cases (is_empty ids)) [
        | inl e ↦ (add_contacts [] inputs, ground arith)
        | inr e ↦ (
          add_contacts (select (λ x. not x.is_blacklisted) (orm.find (is_among ws ids) w.contacts))
              inputs,
          ground arith,
        )
      ]

module _ ⦃orm : Orm⦄ (ws uid : Key) (w : World) where
  find_managed_sound :
      (id : Key)
      → ((b : Broadcast) × (find_managed id ws uid w ≡ (ok b, w))
          × Has b w.broadcasts
          × (b.workspace_id ≡ ws))
        ⊎ ((e : Exception) × (find_managed id ws uid w ≡ (err e, w)))
  unfolding find_managed find_one
  find_managed_sound id =
      let p = is_broadcast_of id ws in
      elim (assert_role_sound ws uid managers w) [
        | inr (reason, e) ↦ inr (forbidden reason, ground arith)
        | inl (m, e, _) ↦ elim (assert_member_sound ws uid w) [
          | inr d ↦ inr (forbidden "You are not a member of this workspace", ground arith)
          | inl (m', d, _, _, _) ↦ elim (Option-cases (orm.find_one p w.broadcasts)) [
            | inl f ↦ inr (not_found "Broadcast not found", ground arith)
            | inr (b, f) ↦
                let test = orm.find_one_test p w.broadcasts b f in
                inl (b, ground arith, orm.find_one_has p w.broadcasts b f, ground arith)
          ]
        ]
      ]

  module _ (keyed : IsKeyed Broadcast.id w.broadcasts) where
    -- An action that leaves the table as it is.
    kept-Follows : (v : World) → v.broadcasts ≡ w.broadcasts → Follows ws w.broadcasts v.broadcasts
    kept-Follows v e = subst (Follows ws w.broadcasts) (sym e) (same-Follows ws w.broadcasts keyed)

    update-Follows :
        (id : Key) (dto : UpdateBroadcastDto)
        → Follows ws w.broadcasts (Broadcasts.update id ws uid dto w).1.broadcasts
    unfolding Broadcasts.update save_broadcast
    update-Follows id dto = elim (find_managed_sound id) [
      | inr (x, e) ↦ kept-Follows (Broadcasts.update id ws uid dto w).1 (ground arith)
      | inl (b, e, row, here) ↦ elim (Bool-cases (is_draft b.status)) [
        | inr closed ↦ kept-Follows (Broadcasts.update id ws uid dto w).1 (ground arith)
        | inl open_draft ↦
            let b' : Broadcast = record b {
              name = given dto.name b.name;
              template = given dto.template b.template;
              delay_ms = given dto.delay_ms b.delay_ms;
            } in
            let saved : (Broadcasts.update id ws uid dto w).1.broadcasts
                ≡ orm.save (by Broadcast.id) b' w.broadcasts =
              ground arith in
            subst (Follows ws w.broadcasts) (sym saved)
              (save-Follows ws w.broadcasts b b' keyed row refl here here (stay b.status))
      ]
    ]

    send-Follows :
        (now : ℕ) (id : Key)
        → Follows ws w.broadcasts (Broadcasts.send now id ws uid w).1.broadcasts
    unfolding Broadcasts.send save_broadcast
    send-Follows now id = elim (find_managed_sound id) [
      | inr (x, e) ↦ kept-Follows (Broadcasts.send now id ws uid w).1 (ground arith)
      | inl (b, e, row, here) ↦ elim (Bool-cases (is_sendable b.status)) [
        | inr closed ↦ kept-Follows (Broadcasts.send now id ws uid w).1 (ground arith)
        | inl sendable ↦
            let b' : Broadcast = record b { status = queued } in
            let saved : (Broadcasts.send now id ws uid w).1.broadcasts
                ≡ orm.save (by Broadcast.id) b' w.broadcasts =
              ground arith in
            subst (Follows ws w.broadcasts) (sym saved) (
              save-Follows ws w.broadcasts b b' keyed row refl here here
                (enqueue b.status sendable))
      ]
    ]

    cancel-Follows :
        (id : Key) → Follows ws w.broadcasts (Broadcasts.cancel id ws uid w).1.broadcasts
    unfolding Broadcasts.cancel save_broadcast
    cancel-Follows id = elim (find_managed_sound id) [
      | inr (x, e) ↦ kept-Follows (Broadcasts.cancel id ws uid w).1 (ground arith)
      | inl (b, e, row, here) ↦
          let b' : Broadcast = record b { status = cancelled } in
          let saved : (Broadcasts.cancel id ws uid w).1.broadcasts
              ≡ orm.save (by Broadcast.id) b' w.broadcasts =
            ground arith in
          subst (Follows ws w.broadcasts) (sym saved)
            (save-Follows ws w.broadcasts b b' keyed row refl here here (cancel b.status))
    ]

    remove_lem : (id : Key) → Follows ws w.broadcasts (Broadcasts.remove id ws uid w).1.broadcasts
    unfolding Broadcasts.remove
    remove_lem id = elim (find_managed_sound id) [
      | inr (x, e) ↦ kept-Follows (Broadcasts.remove id ws uid w).1 (ground arith)
      | inl (b, e, row, here) ↦
          let removed : (Broadcasts.remove id ws uid w).1.broadcasts
              ≡ orm.remove (by Broadcast.id) b w.broadcasts =
            ground arith in
          subst (Follows ws w.broadcasts) (sym removed) (remove-Follows ws w.broadcasts b keyed)
    ]

    create-Follows :
        (dto : CreateBroadcastDto)
        → Follows ws w.broadcasts (Broadcasts.create ws uid dto w).1.broadcasts
    unfolding Broadcasts.create Sessions.find_one save_broadcast
    create-Follows dto = elim (assert_role_sound ws uid managers w) [
      | inr (reason, e) ↦ kept-Follows (Broadcasts.create ws uid dto w).1 (ground arith)
      | inl (m, e, _) ↦ elim (assert_member_sound ws uid w) [
        | inr d ↦ kept-Follows (Broadcasts.create ws uid dto w).1 (ground arith)
        | inl (m', d, _, _, _) ↦
            elim (Option-cases (orm.find_one (is_session_of dto.session_id ws) w.sessions)) [
              | inl f ↦ kept-Follows (Broadcasts.create ws uid dto w).1 (ground arith)
              | inr (s, f) ↦
                  let (recipients, built) = build_recipients_state ws dto w in
                  elim (Bool-cases (is_empty recipients)) [
                    | inl nobody ↦ kept-Follows (Broadcasts.create ws uid dto w).1 (ground arith)
                    | inr somebody ↦
                        let x =
                          created_broadcast ws s dto recipients
                            (orm.new_key Broadcast.id w.broadcasts) in
                        let v = (save_broadcast x w).1 in
                        let rows = save_recipients-broadcasts x.id recipients v in
                        let saved : (Broadcasts.create ws uid dto w).1.broadcasts
                            ≡ orm.save (by Broadcast.id) x w.broadcasts =
                          ground arith in
                        subst (Follows ws w.broadcasts) (sym saved) (
                          insert-Follows ws w.broadcasts x keyed
                            (λ y h. orm.new_key_fresh Broadcast.id w.broadcasts y h))
                  ]
            ]
      ]
    ]

module _ ⦃orm : Orm⦄ where
  find_all-state : (ws uid : Key) (w : World) → (Queries.find_all ws uid w).1 ≡ w
  unfolding Queries.find_all assert_member
  find_all-state ws uid w = ground arith

  find_one-state : (id ws uid : Key) (w : World) → (find_one id ws uid w).1 ≡ w
  unfolding find_one assert_member
  find_one-state id ws uid w = ground arith

  status-state : (id ws uid : Key) (w : World) → (Queries.status id ws uid w).1 ≡ w
  unfolding Queries.status find_one assert_member
  status-state id ws uid w = ground arith

  report-state : (id ws uid : Key) (w : World) → (Queries.report id ws uid w).1 ≡ w
  unfolding Queries.report find_one assert_member
  report-state id ws uid w = ground arith

  -- Where broadcasts have keys of their own, whatever a request of the broadcasts' endpoints that names a
  -- workspace is and whether or not it is refused, a broadcast that is there before and after it is the
  -- same, or it is of the workspace that the request names and its status stays, becomes queued from draft, failed or cancelled, or becomes cancelled.
  pub handle-Follows :
      (here : Ambient) (ws uid : Key) (r : Request) (w : World)
      → IsKeyed Broadcast.id w.broadcasts
      → Follows ws w.broadcasts (handle here ws uid r w).1.broadcasts
  unfolding handle
  handle-Follows here ws uid Request.find_all w keyed =
      rw (discard-state, find_all-state) (same-Follows ws w.broadcasts keyed)
  handle-Follows here ws uid (Request.create dto) w keyed =
      rw discard-state (create-Follows ws uid w keyed dto)
  handle-Follows here ws uid (Request.find_one id) w keyed =
      rw (discard-state, find_one-state) (same-Follows ws w.broadcasts keyed)
  handle-Follows here ws uid (Request.update id dto) w keyed =
      rw discard-state (update-Follows ws uid w keyed id dto)
  handle-Follows here ws uid (Request.remove id) w keyed = remove_lem ws uid w keyed id
  handle-Follows here ws uid (Request.send id) w keyed =
      rw discard-state (send-Follows ws uid w keyed here.now id)
  handle-Follows here ws uid (Request.cancel id) w keyed = cancel-Follows ws uid w keyed id
  handle-Follows here ws uid (Request.status id) w keyed =
      rw (discard-state, status-state) (same-Follows ws w.broadcasts keyed)
  handle-Follows here ws uid (Request.report id) w keyed =
      rw (discard-state, report-state) (same-Follows ws w.broadcasts keyed)
