-- ===== src/Automations/Choosing.antt =====
-- Which session automation.processor.ts chooses for a job.
use api_wa_automation.Base.{true, false, ◌≡◌, refl, ◌⊎◌, inl, inr, none, some, Option-cases, arith}
use api_wa_automation.Base.Text.{codes}
use api_wa_automation.Value.{Props, own, is_truthy}
use api_wa_automation.Orm.{Orm}
use api_wa_automation.Data.Tenancy.{Key, Session}
use api_wa_automation.Data.Automation.{Automation}
use api_wa_automation.World.{World, Action, Exception, Result, ok, err, not_found}
use api_wa_automation.Sessions.{has_session_key, get_by_id}
use api_wa_automation.Automations.Interface.{Uuid}
use api_wa_automation.Automations.Processor.{db_session_id, session_of}

-- An action that reads the state at most.
abbrev pub IsReading : {A : Type 0} → Action A → World → Type 0
IsReading {A} m w = ((a : A) × (m w ≡ (ok a, w))) ⊎ ((e : Exception) × (m w ≡ (err e, w)))

module _ ⦃orm : Orm⦄ ⦃uuid : Uuid⦄ where
  pub session_of-IsReading : (r : Result Key) (w : World) → IsReading (session_of r) w
  unfolding get_by_id
  session_of-IsReading (err x) w = inr (x, refl)
  session_of-IsReading (ok id) w =
      elim (Option-cases (orm.find_one (has_session_key id) w.sessions)) [
        | inl e ↦ inr (not_found "Session not found", ground arith)
        | inr (s, e) ↦ inl (s, ground arith)
      ]

-- The automation, or else the context of a job, names a session.
abbrev pub NamesSession : Automation → Props → Type 0
NamesSession a context =
    ((k : Key) × (a.session_id ≡ some k))
    ⊎ ((a.session_id ≡ none) × (is_truthy (own (codes "sessionId") context) ≡ true))

module _ ⦃orm : Orm⦄ ⦃uuid : Uuid⦄ where
  -- The session is the one of the table that the automation names, or, if it names none, the context.
  abbrev pub IsSessionOf : Automation → Props → Session → World → Type 0
  IsSessionOf a context s w =
      ((k : Key) × (a.session_id ≡ some k) × (orm.find_one (has_session_key k) w.sessions ≡ some s))
      ⊎ ((k : Key) × (a.session_id ≡ none)
          × (uuid.key_of (own (codes "sessionId") context) ≡ ok k)
          × (orm.find_one (has_session_key k) w.sessions ≡ some s))

  pub db_session_id-unnamed :
      (a : Automation) (context : Props)
      → is_truthy (db_session_id a context) ≡ false
      → (a.session_id ≡ none) × (is_truthy (own (codes "sessionId") context) ≡ false)
  db_session_id-unnamed a context h = elim (Option-cases a.session_id) [
    | inl e ↦ (e, ground arith)
    | inr (k, e) ↦ let named = uuid.is_truthy-value_of k in absurd (ground arith)
  ]

  pub db_session_id-named :
      (a : Automation) (context : Props)
      → is_truthy (db_session_id a context) ≡ true
      → NamesSession a context
  db_session_id-named a context h = elim (Option-cases a.session_id) [
    | inl e ↦ inr (e, ground arith)
    | inr (k, e) ↦ inl (k, e)
  ]

  session_of_sound :
      (r : Result Key) (s : Session) (w : World)
      → session_of r w ≡ (ok s, w)
      → (k : Key) × (r ≡ ok k) × (orm.find_one (has_session_key k) w.sessions ≡ some s)
  unfolding get_by_id
  session_of_sound (err x) s w h = absurd (ground arith)
  session_of_sound (ok k) s w h =
      elim (Option-cases (orm.find_one (has_session_key k) w.sessions)) [
        | inl e ↦ absurd (ground arith)
        | inr (t, e) ↦ (k, refl, ground arith)
      ]

  pub db_session_id-chosen :
      (a : Automation) (context : Props) (s : Session) (w : World)
      → is_truthy (db_session_id a context) ≡ true
      → session_of (uuid.key_of (db_session_id a context)) w ≡ (ok s, w)
      → IsSessionOf a context s w
  db_session_id-chosen a context s w named h =
      let (k, read, found) = session_of_sound (uuid.key_of (db_session_id a context)) s w h in
      elim (Option-cases a.session_id) [
        | inl e ↦ inr (k, e, ground arith, found)
        | inr (j, e) ↦
            let back = uuid.key_of-value_of j in
            let same : j ≡ k = ground arith in inl (k, ground arith, found)
      ]
