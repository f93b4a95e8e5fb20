-- ===== src/Guards.antt =====
-- src/common: the guard of API keys (guards/api-key.guard.ts), which no route uses, and the decorator
-- that reads the workspace of a request (decorators/workspace.decorator.ts).
pub mod Header
use api_wa_automation.Base.{ℕ, Option, none, some}
use api_wa_automation.Base.Text.{Text, truthy}
use api_wa_automation.Orm.{Orm}
use api_wa_automation.Encryption.{Crypto}
use api_wa_automation.Data.Tenancy.{Key}
use api_wa_automation.World.{Action, or_throw, unauthorized, ◌>>=◌, ◌>>◌}
use api_wa_automation.ApiKeys.{validate}

-- `a || b`
abbrev pub or_other : Option Text → Option Text → Option Text
or_other a b = elim (truthy a) [ none ↦ b | some t ↦ some t ]

-- `headers['x-workspace-id'] || query?.workspaceId || request.workspaceId`
abbrev pub workspace_id : Option Text → Option Text → Option Text → Option Text
workspace_id header query attached = or_other (or_other header query) attached

module _ ⦃orm : Orm⦄ ⦃c : Crypto⦄ where
  -- Returns what it attaches to the request as `workspaceId`.
  unfoldable pub api_key_guard : ℕ → Option Text → Action Key
  api_key_guard now header = do
    raw ← or_throw (unauthorized "Missing x-api-key header") (truthy header)
    result ← validate now raw
    or_throw (unauthorized "Invalid or expired API key") result
