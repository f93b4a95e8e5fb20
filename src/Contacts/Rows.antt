-- ===== src/Contacts/Rows.antt =====
-- The rows that pass from the CSV parser to the import.
use api_wa_automation.Base.{Option, List}
use api_wa_automation.Base.Text.{Text}

-- A row of `importMany`, which `parseCsvContacts` makes.
pub record ContactRow : Type 0 where
  pub name : Option Text
  pub phone : Text
  pub tags : Option (List Text)
