-- ===== src/Contacts/Import.antt =====
-- The CSV import: the loop over the rows.
use api_wa_automation.Base.{
  ◌+◌, true, ◌≡◌, refl, sym, ap, ◌++◌, ◌∙◌, subst, ◌⊎◌, inl, inr, List, [], ◌∷◌, length, All, arith,
  Bool-cases,
}
use api_wa_automation.Base.Text.{is_empty}
use api_wa_automation.Orm.{Orm}
use api_wa_automation.Data.Tenancy.{Key, WorkspaceMember}
use api_wa_automation.World.{World, Result, Exception, ok, err}
use api_wa_automation.Workspaces.{assert_member}
use api_wa_automation.Contacts.{
  ContactRow, ImportCounts, has_phone, normalize_phone, upsert_row, import_row, import_rows,
  import_many,
}
use api_wa_automation.Contacts.Table.{IsTable, HasContact, Grows}
use api_wa_automation.Contacts.Upsert.{counted, is_too_long, RowEnd, upsert_row-RowEnd}

module _ ⦃orm : Orm⦄ where
  import_row-RowEnd :
      (workspace_id : Key) (row : ContactRow) (n : ImportCounts) (w : World)
      → IsTable w.contacts
      → RowEnd workspace_id row n w (import_row workspace_id row n w)
  unfolding import_row
  import_row-RowEnd workspace_id row n w h =
      let existing = orm.find_one (has_phone workspace_id (normalize_phone row.phone)) w.contacts in
      elim (Bool-cases (is_empty (normalize_phone row.phone))) [
        | inl e ↦ inl (
          record n { skipped = n.skipped + 1 },
          w,
          ground arith,
          ((h, (λ phone k. k), λ y other. ((λ k. k), λ k. k)), omega arith, refl, inl e),
        )
        | inr e ↦
            let run : import_row workspace_id row n w ≡ upsert_row workspace_id row n existing w =
              ground arith in
            subst (RowEnd workspace_id row n w) (sym run)
              (upsert_row-RowEnd workspace_id row n w h existing refl)
      ]

  Grows-trans :
      (workspace_id : Key) (u v w : World)
      → Grows workspace_id u v
      → Grows workspace_id v w
      → Grows workspace_id u w
  Grows-trans workspace_id u v w (_, p, a) (t, q, b) = (
    t,
    (λ phone k. q phone (p phone k)),
    λ y other. ((λ k. (b y other).0 ((a y other).0 k)), λ k. (a y other).1 ((b y other).1 k)),
  )

  -- The rows that were imported are in the table, or have no phone.
  abbrev pub IsPresent : Key → World → ContactRow → Type 0
  IsPresent workspace_id w' row =
      (is_empty (normalize_phone row.phone) ≡ true)
      ⊎ HasContact workspace_id (normalize_phone row.phone) w'.contacts

  -- An import of all rows, or up to a row that is too long.
  abbrev pub ImportEnd :
      Key → List ContactRow → ImportCounts → World → Result ImportCounts × World → Type 0
  ImportEnd workspace_id rows n w end =
      ((n' : ImportCounts) × (w' : World) × (end ≡ (ok n', w'))
        × Grows workspace_id w w'
        × (counted n' ≡ counted n + length rows)
        × (n'.total ≡ n.total)
        × All (IsPresent workspace_id w') rows)
      ⊎ ((e : Exception) × (w' : World) × (end ≡ (err e, w'))
          × Grows workspace_id w w'
          × ((pre : List ContactRow) × (row : ContactRow) × (post : List ContactRow) × (rows
                ≡ pre ++ row ∷ post)
              × All (IsPresent workspace_id w') pre
              × (is_too_long row ≡ true)))

  later-IsPresent :
      (workspace_id : Key) (v w : World) (row : ContactRow)
      → Grows workspace_id v w
      → IsPresent workspace_id v row
      → IsPresent workspace_id w row
  later-IsPresent workspace_id v w row grows (inl e) = inl e
  later-IsPresent workspace_id v w row grows (inr k) = inr (grows.1 (normalize_phone row.phone) k)

  import_rows-ImportEnd :
      (workspace_id : Key) (rows : List ContactRow) (n : ImportCounts) (w : World)
      → IsTable w.contacts
      → ImportEnd workspace_id rows n w (import_rows workspace_id rows n w)
  unfolding import_rows
  import_rows-ImportEnd workspace_id [] n w h =
      inl (n, w, refl, (h, (λ phone k. k), λ y other. ((λ k. k), λ k. k)), omega arith, refl, tt)
  import_rows-ImportEnd workspace_id (row ∷ rows) n w h =
      elim (import_row-RowEnd workspace_id row n w h) [
        | inr (e, run, long) ↦ inr (
          e,
          w,
          ground arith,
          (h, (λ phone k. k), λ y other. ((λ k. k), λ k. k)),
          ([], row, rows, refl, tt, long),
        )
        | inl (n', w', run, (grows, one, same, present)) ↦
            elim (import_rows-ImportEnd workspace_id rows n' w' grows.0) [
              | inl (n'', w'', runs, grow, counts, sames, rest) ↦ inl (
                n'',
                w'',
                ground arith,
                Grows-trans workspace_id w w' w'' grows grow,
                omega arith,
                sames ∙ same,
                (later-IsPresent workspace_id w' w'' row grow present, rest),
              )
              | inr (e, w'', runs, grow, (pre, bad, post, split, rest, long)) ↦ inr (
                e,
                w'',
                ground arith,
                Grows-trans workspace_id w w' w'' grows grow,
                (
                  row ∷ pre,
                  bad,
                  post,
                  ap (λ (t : List ContactRow). row ∷ t) split,
                  (later-IsPresent workspace_id w' w'' row grow present, rest),
                  long,
                ),
              )
            ]
      ]

  -- An import by a member into contacts that have one row for a key, one for a workspace and a phone and
  -- no text too long for its column keeps them so, keeps every phone, and changes no contact of
  -- another workspace. It counts each row of the request once and leaves a contact for every row whose
  -- phone has a digit, or a row has a name of more than 100 characters or a phone of more than 20
  -- digits: then it may throw at such a row, and the rows before it stay imported.
  pub import_many_lem :
      (workspace_id user_id : Key) (rows : List ContactRow) (w : World) (m : WorkspaceMember)
      → IsTable w.contacts
      → assert_member workspace_id user_id w ≡ (ok m, w)
      → ((n : ImportCounts) × (w' : World) × (import_many workspace_id user_id rows w ≡ (ok n, w'))
          × Grows workspace_id w w'
          × (counted n ≡ n.total)
          × (n.total ≡ length rows)
          × All (IsPresent workspace_id w') rows)
        ⊎ ((e : Exception) × (w' : World) × (import_many workspace_id user_id rows w ≡ (err e, w'))
            × Grows workspace_id w w'
            × ((pre : List ContactRow) × (row : ContactRow) × (post : List ContactRow) × (rows
                  ≡ pre ++ row ∷ post)
                × All (IsPresent workspace_id w') pre
                × (is_too_long row ≡ true)))
  unfolding import_many
  import_many_lem workspace_id user_id rows w m h allowed =
      let start : ImportCounts = record {
        created = 0;
        updated = 0;
        skipped = 0;
        total = length rows;
      } in
      elim (import_rows-ImportEnd workspace_id rows start w h) [
        | inl (n, w', run, grows, counts, total, present) ↦
            inl (n, w', ground arith, grows, omega arith, total, present)
        | inr (e, w', run, grows, stopped) ↦ inr (e, w', ground arith, grows, stopped)
      ]
