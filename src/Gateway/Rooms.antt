-- ===== src/Gateway/Rooms.antt =====
-- src/modules/sessions/sessions.gateway.ts: the messages by which a client joins and leaves rooms, and
-- what it hears of what the gateway emits.
use api_wa_automation.Base.{
  ℕ, Bool, false, ◌≡◌, ◌&&◌, ◌||◌, ◌==◌, not, List, [], ◌∷◌, if◌then◌else◌,
}
use api_wa_automation.Data.Tenancy.{Key}
use api_wa_automation.World.{Event, Room}

abbrev pub same_room : Room → Room → Bool
same_room (Room.workspace j) (Room.workspace k) = j == k
same_room (Room.workspace j) (Room.session k) = false
same_room (Room.session j) (Room.workspace k) = false
same_room (Room.session j) (Room.session k) = j == k

-- The rooms of socket.io: which client is in which.
pub record Sockets : Type 1 where
  pub Rooms : Type 0
  pub is_in : ℕ → Room → Rooms → Bool
  pub join : ℕ → Room → Rooms → Rooms
  pub leave : ℕ → Room → Rooms → Rooms
  pub is_in-join :
      (c d : ℕ) (r q : Room) (rooms : Rooms)
      → is_in d q (join c r rooms) ≡ (d == c && same_room q r) || is_in d q rooms
  pub is_in-leave :
      (c d : ℕ) (r q : Room) (rooms : Rooms)
      → is_in d q (leave c r rooms) ≡ not (d == c && same_room q r) && is_in d q rooms

pub data Reply : Type 0 where
  joined left : Key → Reply

module _ ⦃sockets : Sockets⦄ where
  unfoldable pub join_workspace : ℕ → Key → sockets.Rooms → Reply × sockets.Rooms
  join_workspace client workspace_id rooms =
      (joined workspace_id, sockets.join client (Room.workspace workspace_id) rooms)

  unfoldable pub leave_workspace : ℕ → Key → sockets.Rooms → Reply × sockets.Rooms
  leave_workspace client workspace_id rooms =
      (left workspace_id, sockets.leave client (Room.workspace workspace_id) rooms)

  unfoldable pub join_session : ℕ → Key → sockets.Rooms → Reply × sockets.Rooms
  join_session client session_id rooms =
      (joined session_id, sockets.join client (Room.session session_id) rooms)

  -- What a client in the rooms hears of what is emitted.
  abbrev pub heard : sockets.Rooms → ℕ → List (Room × Event) → List Event
  heard rooms client [] = []
  heard rooms client ((r, e) ∷ emitted) =
      if sockets.is_in client r rooms
      then e ∷ heard rooms client emitted
      else heard rooms client emitted
