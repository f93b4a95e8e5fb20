-- ===== src/Tests/Sockets.antt =====
-- The theorem on what a client hears, applied to clients that are in no room at first.
use api_wa_automation.Base.{ℕ, Bool, false, ◌≡◌, refl, ◌&&◌, ◌||◌, ◌==◌, not, [], ◌∷◌}
use api_wa_automation.Base.Text.{codes}
use api_wa_automation.Data.Campaign.{draft}
use api_wa_automation.World.{World, Event, Room, message_received}
use api_wa_automation.Gateway.{emit_message_received}
use api_wa_automation.Gateway.Rooms.{
  Sockets, same_room, join_workspace, join_session, leave_workspace, heard,
}
use api_wa_automation.Gateway.Listening.{emit_message_received-overheard}
use api_wa_automation.Tests.{small_world}

instance abbrev room_table : Sockets
room_table = record {
  Rooms = ℕ → Room → Bool;
  is_in = λ c r rooms. rooms c r;
  join = λ c r rooms d q. (d == c && same_room q r) || rooms d q;
  leave = λ c r rooms d q. not (d == c && same_room q r) && rooms d q;
  is_in-join = λ c d r q rooms. refl;
  is_in-leave = λ c d r q rooms. refl;
}

abbrev no_one : ℕ → Room → Bool
no_one c r = false

abbrev in_both : ℕ → Room → Bool
unfolding join_workspace join_session
in_both = (join_session 9 5 (join_workspace 9 1 no_one).1).1

abbrev hello : Event
hello = message_received 5 (codes "1@c.us") (codes "hi") 10

abbrev told : World
unfolding emit_message_received
told = emit_message_received 1 5 (codes "1@c.us") (codes "hi") 10 (small_world draft)

emit_message_received-overheard_example :
    (heard in_both 9 told.emitted ≡ hello ∷ hello ∷ [])
    × (heard (leave_workspace 9 1 in_both).1 9 told.emitted ≡ hello ∷ [])
unfolding join_workspace join_session leave_workspace emit_message_received
emit_message_received-overheard_example =
    emit_message_received-overheard no_one 9 1 5 (codes "1@c.us") (codes "hi") 10
      (small_world draft)
