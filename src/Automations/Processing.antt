-- ===== src/Automations/Processing.antt =====
-- What a job of automation.processor.ts does, and what it counts.
use api_wa_automation.Base.{
  ℕ, true, false, ◌≡◌, ◌⊎◌, inl, inr, none, some, Option-cases, Bool-cases, arith,
}
use api_wa_automation.Base.Text.{Text, codes}
use api_wa_automation.Value.{Js, Value, own, is_truthy}
use api_wa_automation.Orm.{Orm}
use api_wa_automation.Encryption.{Crypto}
use api_wa_automation.Data.Tenancy.{Session}
use api_wa_automation.Data.Messaging.{AutomationJob}
use api_wa_automation.Data.Automation.{Automation}
use api_wa_automation.World.{World, Exception, Result-cases, ok, err}
use api_wa_automation.Workspaces.{OpenwaCredentials, get_openwa_credentials}
use api_wa_automation.Workspaces.Access.{get_openwa_credentials_sound}
use api_wa_automation.Openwa
use api_wa_automation.Automations.Interface.{Uuid}
use api_wa_automation.Automations.Actions.{run}
use api_wa_automation.Automations.Service.{mark_run}
use api_wa_automation.Automations.Processor.{
  has_automation_key, db_session_id, run_context, session_of, run_with, run_on, process,
}
use api_wa_automation.Automations.Keeping.{run-automations}
use api_wa_automation.Automations.Choosing.{
  session_of-IsReading, NamesSession, IsSessionOf, db_session_id-unnamed, db_session_id-named,
  db_session_id-chosen,
}

module _ ⦃orm : Orm⦄ ⦃js : Js⦄ ⦃c : Crypto⦄ ⦃server : Openwa.Server⦄ ⦃uuid : Uuid⦄
    (enc_key : Text) where
  run_on_lem :
      (now : ℕ) (job : AutomationJob) (a : Automation) (id : Value) (w : World)
      → let (r, w') = run_on enc_key now job a id w in
        ((e : Exception) × (r ≡ err e) × (w'.automations ≡ w.automations))
        ⊎ ((r ≡ ok true)
            × ((s : Session) × (creds : OpenwaCredentials) × (v : World) × (session_of
                    (uuid.key_of id)
                    w
                  ≡ (ok s, w))
                × (get_openwa_credentials enc_key job.workspace_id w ≡ (ok creds, w))
                × (run a.actions (run_context job s creds) w ≡ (ok tt, v))
                × (w' ≡ mark_run now job.automation_id v)))
  unfolding run_on run_with
  run_on_lem now job a id w = elim (session_of-IsReading (uuid.key_of id) w) [
    | inr (x, e) ↦ inl (x, ground arith, ground arith)
    | inl (s, e) ↦ elim (get_openwa_credentials_sound enc_key job.workspace_id w) [
      | inr (x, d) ↦ inl (x, ground arith, ground arith)
      | inl (creds, d) ↦
          let same = run-automations a.actions (run_context job s creds) w in
          elim (Result-cases (run a.actions (run_context job s creds) w).0) [
            | inr (x, failed) ↦ inl (x, ground arith, ground arith)
            | inl (_, done) ↦ inr (
              ground arith,
              (
                s,
                creds,
                (run a.actions (run_context job s creds) w).1,
                e,
                d,
                ground arith,
                ground arith,
              ),
            )
          ]
    ]
  ]

  -- A job is skipped, and nothing changes, if its automation is gone, or if neither the automation nor
  -- the job's context names a session. Else it throws and no run is counted, or the run of the
  -- automation's actions, on the session that the automation names or, if it names none, the context,
  -- and with the workspace's credentials, ends without an exception and is marked as a run of it.
  pub process-mark_run :
      (now : ℕ) (job : AutomationJob) (w : World)
      → let (r, w') = process enc_key now job w in
        ((r ≡ ok false)
          × (w' ≡ w)
          × ((orm.find_one (has_automation_key job.automation_id) w.automations ≡ none)
              ⊎ ((a : Automation) × (orm.find_one
                      (has_automation_key job.automation_id)
                      w.automations
                    ≡ some a)
                  × (a.session_id ≡ none)
                  × (is_truthy (own (codes "sessionId") job.context) ≡ false))))
        ⊎ ((a : Automation) × (orm.find_one (has_automation_key job.automation_id) w.automations
              ≡ some a)
            × NamesSession a job.context
            × (((e : Exception) × (r ≡ err e) × (w'.automations ≡ w.automations))
                ⊎ ((r ≡ ok true)
                    × ((s : Session) × (creds : OpenwaCredentials) × (v : World) × IsSessionOf a
                          job.context s w
                        × (get_openwa_credentials enc_key job.workspace_id w ≡ (ok creds, w))
                        × (run a.actions (run_context job s creds) w ≡ (ok tt, v))
                        × (w' ≡ mark_run now job.automation_id v)))))
  unfolding process
  process-mark_run now job w =
      elim (Option-cases (orm.find_one (has_automation_key job.automation_id) w.automations)) [
        | inl e ↦ inl (ground arith, ground arith, inl e)
        | inr (a, e) ↦ elim (Bool-cases (is_truthy (db_session_id a job.context))) [
          | inr no_session ↦
              let (free, unnamed) = db_session_id-unnamed a job.context no_session in
              inl (ground arith, ground arith, inr (a, e, free, unnamed))
          | inl named ↦ elim (run_on_lem now job a (db_session_id a job.context) w) [
            | inl (x, failed, same) ↦
                inr (
                  a,
                  e,
                  db_session_id-named a job.context named,
                  inl (x, ground arith, ground arith),
                )
            | inr (done, (s, creds, v, chosen, known, ran, marked)) ↦ inr (
              a,
              e,
              db_session_id-named a job.context named,
              inr (
                ground arith,
                (
                  s,
                  creds,
                  v,
                  db_session_id-chosen a job.context s w named chosen,
                  known,
                  ran,
                  ground arith,
                ),
              ),
            )
          ]
        ]
      ]
