-- ===== src/Automations/Matching.antt =====
-- What `matchesMessage` of trigger.engine.ts decides.
use api_wa_automation.Base.{
  Bool, true, false, not, ◌≡◌, refl, ap, ◌↔◌, ◌⊎◌, inl, inr, Bool-cases, Option, none, some, List,
  [], ◌∷◌, any, any_of_Has, Has, arith,
}
use api_wa_automation.Base.Text.{Text, text_eq_refl, text_eq-eq, is_empty}
use api_wa_automation.Value.{Js}
use api_wa_automation.Data.Automation.{TriggerConfig}
use api_wa_automation.Automations.Trigger.{
  IncomingMessageContext, differs, is_set, is_other_sender, is_other_kind, keywords_of,
  match_type_of, matches_keyword, matches_message,
}

-- The sender that a trigger asks for: any, if it names none or the empty one.
abbrev pub IsWantedSender : Option Text → Text → Type 0
IsWantedSender wanted from = (wanted ≡ none) ⊎ (wanted ≡ some []) ⊎ (wanted ≡ some from)

-- The kind of chat that a trigger asks for: any, if it names none.
abbrev pub IsWantedKind : Option Bool → Option Bool → Type 0
IsWantedKind wanted is_group = (wanted ≡ none) ⊎ (wanted ≡ some (is_set is_group))

is_other_sender_lem :
    (wanted : Option Text) (from : Text)
    → (is_other_sender wanted from ≡ false) ↔ IsWantedSender wanted from
is_other_sender_lem none from = (λ h. inl refl, λ h. refl)
is_other_sender_lem (some []) from = (λ h. inr (inl refl), λ h. refl)
is_other_sender_lem (some (c ∷ s)) from = (
  λ h. let e : c ∷ s ≡ from = text_eq-eq (c ∷ s) from (ground arith) in inr (inr (ap some e)),
  λ h. elim h [
    | inl e ↦ absurd (cc)
    | inr (inl e) ↦ absurd (cc)
    | inr (inr e) ↦ let k : c ∷ s ≡ from = cc in rw (← k) (ap not (text_eq_refl (c ∷ s)))
  ],
)

differs_lem : (a b : Bool) → (differs a b ≡ false) ↔ (b ≡ a)
differs_lem true true = (λ h. refl, λ h. refl)
differs_lem true false = (λ h. cc, λ h. cc)
differs_lem false true = (λ h. cc, λ h. cc)
differs_lem false false = (λ h. refl, λ h. refl)

is_other_kind_lem :
    (wanted is_group : Option Bool)
    → (is_other_kind wanted is_group ≡ false) ↔ IsWantedKind wanted is_group
is_other_kind_lem none is_group = (λ h. inl refl, λ h. refl)
is_other_kind_lem (some wanted) is_group =
    let (there, back) = differs_lem (is_set is_group) wanted in
    (λ h. inr (ap some (there h)), λ h. elim h [ inl e ↦ absurd (cc) | inr e ↦ back (cc) ])

any_lem :
    {A : Type 0} (p : A → Bool) (xs : List A) → any p xs ≡ true → (x : A) × Has x xs × (p x ≡ true)
any_lem p [] h = absurd (cc)
any_lem p (x ∷ xs) h = elim (Bool-cases (p x)) [
  | inl e ↦ (x, inl refl, e)
  | inr e ↦ let (y, k, t) = any_lem p xs (rw e at h) in (y, inr k, t)
]

is_empty_lem : {A : Type 0} (xs : List A) → is_empty xs ≡ true → xs ≡ []
is_empty_lem [] h = refl
is_empty_lem (x ∷ xs) h = absurd (cc)

-- What a trigger asks of a message, with one of the keywords for the text.
abbrev pub IsMatch : ⦃js : Js⦄ → TriggerConfig → IncomingMessageContext → Type 0
IsMatch config ctx =
    IsWantedSender config.from_phone ctx.from
    × IsWantedKind config.is_group ctx.is_group
    × ((keywords_of config ≡ [])
        ⊎ ((raw : Text) × Has raw (keywords_of config)
            × (matches_keyword (match_type_of config) ctx.message raw ≡ true)))

module _ ⦃js : Js⦄ where
  -- A message meets a trigger exactly if it has the sender and the kind of chat that the trigger
  -- asks for and, unless the trigger has no keyword, its text matches one of them.
  pub matches_message_lem :
      (config : TriggerConfig) (ctx : IncomingMessageContext)
      → (matches_message config ctx ≡ true) ↔ IsMatch config ctx
  unfolding matches_message
  matches_message_lem config ctx =
      let (sender, sender_back) = is_other_sender_lem config.from_phone ctx.from in
      let (kind, kind_back) = is_other_kind_lem config.is_group ctx.is_group in
      (
        λ h. (
          sender (ground arith),
          kind (ground arith),
          elim (Bool-cases (is_empty (keywords_of config))) [
            | inl e ↦ inl (is_empty_lem (keywords_of config) e)
            | inr e ↦ inr (
                any_lem (matches_keyword (match_type_of config) ctx.message) (keywords_of config)
                  (ground arith))
          ],
        ),
        λ (s, k, m). rw (sender_back s) (
            rw (kind_back k) (elim m [
              | inl e ↦ rw e refl
              | inr (raw, has, e) ↦
                  let t =
                    any_of_Has raw (matches_keyword (match_type_of config) ctx.message)
                      (keywords_of config) has e in
                  ground arith
            ])),
      )
