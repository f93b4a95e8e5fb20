-- ===== src/Tests/Contacts.antt =====
-- The theorems on contacts, applied to the small state.
use api_wa_automation.Base.{
  true, ◌≡◌, refl, sym, ◌∙◌, ◌⊎◌, inl, inr, none, some, List, [], ◌∷◌, ◌++◌, Has, All,
}
use api_wa_automation.Base.Text.{codes}
use api_wa_automation.Orm.Lists.{list_orm}
use api_wa_automation.Data.Tenancy.{Contact}
use api_wa_automation.Data.Campaign.{draft}
use api_wa_automation.World.{World, Exception, ok, err}
use api_wa_automation.Workspaces.{assert_member}
use api_wa_automation.Workspaces.Access.{IsOutsider}
use api_wa_automation.Contacts.{ContactRow, ImportCounts, import_many}
use api_wa_automation.Contacts.Table.{IsTable, Untouched, Grows}
use api_wa_automation.Contacts.Upsert.{counted, is_too_long}
use api_wa_automation.Contacts.Import.{IsPresent, import_many_lem}
use api_wa_automation.Contacts.Controller.{Request}
use api_wa_automation.Contacts.Unscoped.{handle_request}
use api_wa_automation.Contacts.Tenants.{handle_request-Untouched}
use api_wa_automation.Tests.{plain_js, shop_owner, ann, small_world}
use api_wa_automation.Tests.Tokens.{skipped}

only_ann : (a : Contact) → Has a (ann ∷ []) → a ≡ ann
only_ann a (inl e) = e
only_ann a (inr h) = absurd h

ann-IsTable : IsTable (ann ∷ [])
ann-IsTable = record {
  keyed = λ a b ha hb e. only_ann a ha ∙ sym (only_ann b hb);
  fitting = λ a ha. rw (only_ann a ha) refl;
  unique = λ a b ha hb. rw (only_ann a ha, only_ann b hb) refl;
}

member_found : assert_member 1 1 (small_world draft) ≡ (ok shop_owner, small_world draft)
unfolding assert_member
member_found = refl

abbrev two_rows : List ContactRow
two_rows =
    record { name = some (codes "Ann"); phone = codes "+62 8"; tags = none }
    ∷ record { name = none; phone = codes "none"; tags = none }
    ∷ []

import_many_lem_example :
    ((n : ImportCounts) × (w' : World) × (import_many 1 1 two_rows (small_world draft) ≡ (ok n, w'))
      × Grows 1 (small_world draft) w'
      × (counted n ≡ n.total)
      × (n.total ≡ 2)
      × All (IsPresent 1 w') two_rows)
    ⊎ ((e : Exception) × (w' : World) × (import_many 1 1 two_rows (small_world draft) ≡ (err e, w'))
        × Grows 1 (small_world draft) w'
        × ((pre : List ContactRow) × (row : ContactRow) × (post : List ContactRow) × (two_rows
              ≡ pre ++ row ∷ post)
            × All (IsPresent 1 w') pre
            × (is_too_long row ≡ true)))
import_many_lem_example =
    import_many_lem 1 1 two_rows (small_world draft) shop_owner ann-IsTable member_found

handle_request-Untouched_example :
    Untouched 1
      (ann ∷ [])
      (handle_request
        (some 1)
        1
        (Request.import_csv (codes "Bob,629"))
        (small_world draft)).1.contacts
handle_request-Untouched_example =
    handle_request-Untouched 1 1 (Request.import_csv (codes "Bob,629")) (small_world draft)
      ann-IsTable

no_member : IsOutsider 2 1 (small_world draft)
no_member m (inl e) = rw e refl
no_member m (inr (inl e)) = rw e refl
no_member m (inr (inr h)) = absurd h
