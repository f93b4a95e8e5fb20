-- ===== src/Broadcasts/Recipients.antt =====
-- The recipient set that `create` builds.
use api_wa_automation.Base.{
  Bool, false, not, ◌&&◌, ◌||◌, ◌≡◌, refl, inl, inr, List, [], ◌∷◌, any, arith, Bool-cases,
}
use api_wa_automation.Base.Text.{Text, text_eq, text_eq-eq, text_eq_refl, digits, is_empty}
use api_wa_automation.Value.{Props}
use api_wa_automation.Orm.{Orm}
use api_wa_automation.Data.Tenancy.{Key, Contact}
use api_wa_automation.World.{World, ok}
use api_wa_automation.Contacts.{or_list, resolve_phones}
use api_wa_automation.Broadcasts.{
  RecipientInput, CreateBroadcastDto, RecipientMap, map_has, map_set, or_end, name_only, add_input,
  add_inputs, add_contact, add_contacts, build_recipients,
}

-- No phone stands twice, and none is empty.
abbrev pub HasNoRepeats : RecipientMap → Type 0
HasNoRepeats [] = Unit
HasNoRepeats ((phone, v) ∷ m) = (map_has phone m ≡ false) × HasNoRepeats m

map_has-map_set :
    (q p : Text) (v : Props) (m : RecipientMap)
    → map_has q (map_set p v m) ≡ (text_eq p q || map_has q m)
unfolding map_has map_set
map_has-map_set q p v [] = ground arith
map_has-map_set q p v ((p', v') ∷ m) = ground (arith, text_eq-eq p' p, map_has-map_set q p v m)

map_set-distinct :
    (p : Text) (v : Props) (m : RecipientMap) → HasNoRepeats m → HasNoRepeats (map_set p v m)
unfolding map_set map_has
map_set-distinct p v [] h = (refl, tt)
map_set-distinct p v ((p', v') ∷ m) (e, h) = elim (Bool-cases (text_eq p' p)) [
  | inl same ↦ rw same (e, h)
  | inr other ↦ rw other (
    ground (arith, map_has-map_set p' p v m, text_eq-eq p p', text_eq_refl p),
    map_set-distinct p v m h,
  )
]

-- The input has a digit, and its digits are the phone.
abbrev pub names : Text → RecipientInput → Bool
names q r = not (is_empty (digits r.phone)) && text_eq (digits r.phone) q

abbrev pub calls_for : Text → Contact → Bool
calls_for q x = text_eq x.phone q

add_input_lem :
    (q : Text) (r : RecipientInput) (m : RecipientMap)
    → map_has q (add_input r m) ≡ (names q r || map_has q m)
unfolding add_input
add_input_lem q r m = ground (arith, map_has-map_set q (digits r.phone) (or_end r.variables) m)

add_contact_lem :
    (q : Text) (x : Contact) (m : RecipientMap)
    → map_has q (add_contact x m) ≡ (calls_for q x || map_has q m)
unfolding add_contact
add_contact_lem q x m =
    ground (arith, map_has-map_set q x.phone (name_only x) m, text_eq-eq x.phone q)

add_inputs_lem :
    (q : Text) (rs : List RecipientInput) (m : RecipientMap)
    → map_has q (add_inputs rs m) ≡ (any (names q) rs || map_has q m)
unfolding add_inputs
add_inputs_lem q [] m = refl
add_inputs_lem q (r ∷ rs) m =
    ground (arith, add_inputs_lem q rs (add_input r m), add_input_lem q r m)

add_contacts_lem :
    (q : Text) (xs : List Contact) (m : RecipientMap)
    → map_has q (add_contacts xs m) ≡ (any (calls_for q) xs || map_has q m)
unfolding add_contacts
add_contacts_lem q [] m = refl
add_contacts_lem q (x ∷ xs) m =
    ground (arith, add_contacts_lem q xs (add_contact x m), add_contact_lem q x m)

add_inputs-distinct :
    (rs : List RecipientInput) (m : RecipientMap) → HasNoRepeats m → HasNoRepeats (add_inputs rs m)
unfolding add_inputs add_input
add_inputs-distinct [] m h = h
add_inputs-distinct (r ∷ rs) m h =
    add_inputs-distinct rs (add_input r m) (elim (Bool-cases (is_empty (digits r.phone))) [
      | inl e ↦ rw e h
      | inr e ↦ rw e (map_set-distinct (digits r.phone) (or_end r.variables) m h)
    ])

add_contacts-distinct :
    (xs : List Contact) (m : RecipientMap) → HasNoRepeats m → HasNoRepeats (add_contacts xs m)
unfolding add_contacts add_contact
add_contacts-distinct [] m h = h
add_contacts-distinct (x ∷ xs) m h =
    add_contacts-distinct xs (add_contact x m) (elim (Bool-cases (map_has x.phone m)) [
      | inl e ↦ rw e h
      | inr e ↦ rw e (map_set-distinct x.phone (name_only x) m h)
    ])

module _ ⦃orm : Orm⦄ where
  -- The recipients of a request have distinct phones, which are exactly the digits of its inputs
  -- that have any and the phones of the contacts that `resolvePhones` gives; the state is as before.
  pub build_recipients_lem :
      (workspace_id : Key) (dto : CreateBroadcastDto) (w : World) (contacts : List Contact)
      → resolve_phones workspace_id (or_list dto.contact_ids []) w ≡ (ok contacts, w)
      → (m : RecipientMap) × (build_recipients workspace_id dto w ≡ (ok m, w))
        × HasNoRepeats m
        × ((q : Text)
            → map_has q m
              ≡ (any (calls_for q) contacts || any (names q) (or_list dto.recipients [])))
  unfolding build_recipients
  build_recipients_lem workspace_id dto w contacts h =
      let rs = or_list dto.recipients [] in
      (
        add_contacts contacts (add_inputs rs []),
        ground arith,
        add_contacts-distinct contacts (add_inputs rs []) (add_inputs-distinct rs [] tt),
        λ q.
            unfold map_has in
            ground (arith, add_contacts_lem q contacts (add_inputs rs []), add_inputs_lem q rs []),
      )
