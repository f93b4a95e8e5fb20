-- ===== src/Automations/Interface.antt =====
-- What the automations' worker and controllers rely on outside the repository: the text of a row's
-- key, and the schedules of cron-parser.
use api_wa_automation.Base.{ℕ, ◌≤◌, ◌<◌, Bool, ◌≡◌, true, Option, some}
use api_wa_automation.Base.Text.{Text}
use api_wa_automation.Value.{Value, is_truthy}
use api_wa_automation.Data.Tenancy.{Key}
use api_wa_automation.World.{Result, ok}

-- `value_of` is the uuid of a key, which is a string that is not empty; `key_of` is the key that a
-- query reads from a value, or the exception with which the database refuses it.
pub record Uuid : Type 0 where
  pub value_of : Key → Value
  pub key_of : Value → Result Key
  pub key_of-value_of : (k : Key) → key_of (value_of k) ≡ ok k
  pub is_truthy-value_of : (k : Key) → is_truthy (value_of k) ≡ true

-- `parseExpression(cron, { currentDate, tz }).next()`, in milliseconds: the first time after
-- `currentDate` at which the expression fires, or `none` where the parser throws.
pub record Cron : Type 0 where
  pub fires : Text → Text → ℕ → Bool
  pub next : Text → Text → ℕ → Option ℕ
  pub next_later : (cron tz : Text) (t n : ℕ) → next cron tz t ≡ some n → t < n
  pub next_fires : (cron tz : Text) (t n : ℕ) → next cron tz t ≡ some n → fires cron tz n ≡ true
  pub next_first :
      (cron tz : Text) (t n f : ℕ)
      → next cron tz t ≡ some n
      → fires cron tz f ≡ true
      → t < f
      → n ≤ f
