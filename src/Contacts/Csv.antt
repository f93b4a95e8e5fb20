-- ===== src/Contacts/Csv.antt =====
-- src/modules/contacts/csv.util.ts: rows of contacts from a CSV text.
use api_wa_automation.Base.{
  ℕ, suc, Bool, not, ◌&&◌, ◌||◌, Option, none, some, List, [], ◌∷◌, map, ◌==◌, any, select,
  get_elem?, if◌then◌else◌,
}
use api_wa_automation.Base.Text.{
  Text, codes, text_eq, starts_with, is_empty, cons_first, split, trim, truthy,
}
use api_wa_automation.Value.{Js}
use api_wa_automation.Contacts.Rows.{ContactRow}

-- `split(/\r?\n/)`
pub split_lines : Text → List Text
split_lines [] = [] ∷ []
split_lines (c ∷ s) =
    let rest = split_lines s in
    if c == 10
    then [] ∷ rest
    else if c == 13 && starts_with s (10 ∷ [])
    then rest
    else cons_first c rest

-- `split(/[;|]/)`
pub split_tags : Text → List Text
split_tags [] = [] ∷ []
split_tags (c ∷ s) =
    let rest = split_tags s in if c == b';' || c == b'|' then [] ∷ rest else cons_first c rest

abbrev drop_first_quote : Text → Text
drop_first_quote [] = []
drop_first_quote (c ∷ s) = if c == 34 then s else c ∷ s

abbrev drop_last_quote : Text → Text
drop_last_quote [] = []
drop_last_quote (c ∷ s) =
    let rest = drop_last_quote s in if is_empty s && c == 34 then [] else c ∷ rest

-- `trim().replace(/^"|"$/g, '')`
pub clean_cell : Text → Text
clean_cell cell = drop_last_quote (drop_first_quote (trim cell))

pub split_row : Text → List Text
split_row line = map clean_cell (split b',' line)

-- `indexOf`, with `none` for -1
abbrev index_of : Text → List Text → Option ℕ
index_of x [] = none
index_of x (y ∷ ys) =
    let rest = index_of x ys in
    if text_eq y x then some 0 else elim rest [ none ↦ none | some i ↦ some (suc i) ]

pub record Columns : Type 0 where
  pub name : Option ℕ
  pub phone : Option ℕ
  pub tags : Option ℕ

-- `idx >= 0 ? cols[idx] : fallback`
abbrev cell_at : Option ℕ → List Text → Option Text → Option Text
cell_at none cols fallback = fallback
cell_at (some i) cols fallback = get_elem? cols i

-- `tagsRaw ? … : undefined`
abbrev tags_of : Option Text → Option (List Text)
tags_of none = none
tags_of (some raw) =
    if is_empty raw then none else some (select (λ t. not (is_empty t)) (map trim (split_tags raw)))

-- `if (!phone) continue; rows.push(…)`
abbrev row_of : Columns → List Text → Option Text → List ContactRow → List ContactRow
row_of c cols none rows = rows
row_of c cols (some phone) rows =
    if is_empty phone
    then rows
    else record {
      name = truthy (cell_at c.name cols (get_elem? cols 0));
      phone = phone;
      tags = tags_of (cell_at c.tags cols none);
    }
      ∷ rows

pub rows_of : Columns → List Text → List ContactRow
rows_of c [] = []
rows_of c (line ∷ lines) =
    row_of c (split_row line) (cell_at c.phone (split_row line) (get_elem? (split_row line) 1))
      (rows_of c lines)

abbrev positional : Columns
positional = record { name = some 0; phone = some 1; tags = some 2 }

module _ ⦃js : Js⦄ where
  abbrev is_header : List Text → Bool
  is_header cells = any (λ h. any (text_eq h) (map codes ("name" ∷ "phone" ∷ "tags" ∷ []))) cells

  abbrev header_columns : List Text → Columns
  header_columns cells = record {
    name = index_of (codes "name") cells;
    phone = index_of (codes "phone") cells;
    tags = index_of (codes "tags") cells;
  }

  -- After the lines are trimmed and the empty ones dropped.
  abbrev parse_lines : List Text → List ContactRow
  parse_lines [] = []
  parse_lines (first ∷ lines) =
      let header = map js.to_lower_case (split_row first) in
      if is_header header
      then rows_of (header_columns header) lines
      else rows_of positional (first ∷ lines)

  pub parse_csv_contacts : Text → List ContactRow
  parse_csv_contacts content =
      parse_lines (select (λ l. not (is_empty l)) (map trim (split_lines content)))
