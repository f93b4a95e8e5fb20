-- ===== src/Openwa/Bounds.antt =====
-- The statuses that a failing call is reported with, and the form of chat ids.
use api_wa_automation.Base.{
  ℕ, ◌≤◌, ◌<◌, ◌≡◌, refl, true, Option, none, some, [], ◌∷◌, ◌++◌, arith, inl, inr, Bool-cases,
}
use api_wa_automation.Base.Text.{Text, codes, digits, includes}
use api_wa_automation.Openwa.{error_status, to_chat_id}

-- Whatever the server or the network does, the status passed on is a client or server error.
pub error_status_bounds :
    (response : Option ℕ) → (400 ≤ error_status response) × (error_status response < 600)
unfolding error_status
error_status_bounds none = ground arith
error_status_bounds (some status) = ground arith

includes-suffix : (s : Text) → includes (s ++ codes "@c.us") (codes "@") ≡ true
includes-suffix [] = refl
includes-suffix (c ∷ s) = ground (arith, includes-suffix s)

-- A chat id names its server, and making a chat id of one changes nothing.
pub to_chat_id_idem :
    (phone : Text)
    → (includes (to_chat_id phone) (codes "@") ≡ true)
      × (to_chat_id (to_chat_id phone) ≡ to_chat_id phone)
unfolding to_chat_id
to_chat_id_idem phone = elim (Bool-cases (includes phone (codes "@"))) [
  | inl has ↦ (ground arith, ground arith)
  | inr lacks ↦ ground (arith, includes-suffix (digits phone))
]
