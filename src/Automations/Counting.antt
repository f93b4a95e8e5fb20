-- ===== src/Automations/Counting.antt =====
-- What `markRun` of automations.service.ts writes.
use api_wa_automation.Base.{
  ℕ, ◌+◌, Bool, true, false, ◌≡◌, ◌≢◌, ap, ◌∙◌, ◌⊎◌, inl, inr, some, Has, ◌==◌, arith,
}
use api_wa_automation.Orm.{Orm}
use api_wa_automation.Data.Tenancy.{Key}
use api_wa_automation.Data.Automation.{Automation}
use api_wa_automation.World.{World}
use api_wa_automation.Automations.Service.{mark_run}

-- The automation after one more run.
abbrev pub has_run : ℕ → Automation → Automation
has_run now a = record a { run_count = a.run_count + 1; last_run_at = some now }

module _ ⦃orm : Orm⦄ where
  -- A run that is marked is counted once and dated for the automation with the key, and every other
  -- automation stays as it is: these are all the rows afterwards.
  pub mark_run_lem :
      (now : ℕ) (id : Key) (w : World)
      → let w' = mark_run now id w in
        ((a : Automation) → Has a w.automations → a.id ≡ id → Has (has_run now a) w'.automations)
        × ((a : Automation) → Has a w.automations → a.id ≢ id → Has a w'.automations)
        × ((y : Automation)
            → Has y w'.automations
            → (Has y w.automations × (y.id ≢ id))
              ⊎ ((a : Automation) × Has a w.automations × (a.id ≡ id) × (y ≡ has_run now a)))
  unfolding mark_run
  mark_run_lem now id w =
      let p : Automation → Bool = λ a. a.id == id in
      let count : Automation → Automation = λ a. record a { run_count = a.run_count + 1 } in
      let date : Automation → Automation = λ a. record a { last_run_at = some now } in
      let counted = orm.update p count w.automations in
      (
        λ a h e.
            let meets : p a ≡ true = ground arith in
            orm.update_changes p date counted (count a)
              (orm.update_changes p count w.automations a h meets) meets,
        λ a h e.
            let fails : p a ≡ false = ground arith in
            orm.update_keeps p date counted a (orm.update_keeps p count w.automations a h fails)
              fails,
        λ y h. elim (orm.update_has p date counted y h) [
          | inl (k, fails) ↦ elim (orm.update_has p count w.automations y k) [
            | inl (row, _) ↦ inl (row, ground arith)
            | inr (x, row, meets, e) ↦
                let same : y.id ≡ x.id = ap Automation.id e in absurd (ground arith)
          ]
          | inr (x, k, meets, e) ↦ elim (orm.update_has p count w.automations x k) [
            | inl (row, fails) ↦ absurd (ground arith)
            | inr (a, row, own, d) ↦ inr (a, row, ground arith, e ∙ ap date d)
          ]
        ],
      )
