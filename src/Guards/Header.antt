-- ===== src/Guards/Header.antt =====
-- The services where a request names no workspace, so that `workspaceId` is undefined:
-- `assertMember` of src/modules/workspaces/workspaces.service.ts and `findAll` of
-- src/modules/sessions/sessions.service.ts.
use api_wa_automation.Base.{
  Bool, true, false, ◌&&◌, ◌==◌, ◌≡◌, inl, inr, Option, none, some, List, Has, Option-cases, arith,
}
use api_wa_automation.Orm.{Orm}
use api_wa_automation.Data.Tenancy.{Key, WorkspaceMember, Session}
use api_wa_automation.World.{World, Action, ok, gets, or_throw, forbidden, ◌>>=◌, ◌>>◌}
use api_wa_automation.Workspaces.{is_membership, assert_member}
use api_wa_automation.Sessions

-- How TypeORM reads a property of `where`: one that is undefined is left out of the query.
pub record FindOptions : Type 0 where
  pub matches : Option Key → Key → Bool
  pub matches-some : (i k : Key) → matches (some i) k ≡ (k == i)
  pub matches-none : (k : Key) → matches none k ≡ true

module _ ⦃orm : Orm⦄ ⦃options : FindOptions⦄ where
  abbrev pub is_any_membership : Option Key → Key → WorkspaceMember → Bool
  is_any_membership workspace_id user_id m =
      options.matches workspace_id m.workspace_id && m.user_id == user_id

  unfoldable pub assert_any_member : Option Key → Key → Action WorkspaceMember
  assert_any_member workspace_id user_id = do
    or_throw (forbidden "You are not a member of this workspace")
        (← gets (λ w. orm.find_one (is_any_membership workspace_id user_id) w.members))

  unfoldable pub find_all_sessions : Option Key → Key → Action (List Session)
  find_all_sessions workspace_id user_id = do
    assert_any_member workspace_id user_id
    gets (λ w. orm.find (λ s. options.matches workspace_id s.workspace_id) w.sessions)

  -- With a workspace they are the methods of the services.
  pub find_all_sessions-find_all :
      (ws uid : Key) (w : World) → find_all_sessions (some ws) uid w ≡ Sessions.find_all ws uid w
  unfolding find_all_sessions assert_any_member assert_member Sessions.find_all
  find_all_sessions-find_all ws uid w =
      let same : is_any_membership (some ws) uid ≡ is_membership ws uid =
        (λ i m. options.matches-some ws m.workspace_id i && m.user_id == uid) in
      let rows : Path (Session → Bool) (λ s. options.matches (some ws) s.workspace_id)
          (λ s. s.workspace_id == ws) =
        (λ i s. options.matches-some ws s.workspace_id i) in
      λ i.
        ((gets (λ v. orm.find_one (same i) v.members) >>= λ x.
        or_throw (forbidden "You are not a member of this workspace") x)
            >>= λ _. gets (λ v. orm.find (rows i) v.sessions))
          w

  -- A request that names no workspace is served to the member of any, with the sessions of all.
  pub find_all_sessions_unscoped :
      (uid : Key) (m : WorkspaceMember) (w : World)
      → Has m w.members
      → m.user_id ≡ uid
      → (rows : List Session) × (find_all_sessions none uid w ≡ (ok rows, w))
        × ((s : Session) → Has s w.sessions → Has s rows)
  unfolding find_all_sessions assert_any_member
  find_all_sessions_unscoped uid m w row its =
      let p = is_any_membership none uid in
      let every = options.matches-none in
      elim (Option-cases (orm.find_one p w.members)) [
        | inl e ↦
            let meets = every m.workspace_id in
            let lost : p m ≡ false = orm.find_one_absent p w.members e m row in
            absurd (ground arith)
        | inr (x, e) ↦ (
          orm.find (λ s. options.matches none s.workspace_id) w.sessions,
          ground arith,
          λ s h.
              orm.find_complete (λ t. options.matches none t.workspace_id) w.sessions s h
                (every s.workspace_id),
        )
      ]
