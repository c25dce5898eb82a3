-- ===== src/Hub/Broadcaster.antt =====
-- backend/pkg/websocket/broadcaster.go: the events that a solve and a notification send, one
-- `BroadcastEvent` each.
use ctfboard.Base.{ℕ, String, List, Bool, ◌∷◌, [], if◌then◌else◌}
use ctfboard.Base.Int.{ℤ}
use ctfboard.Hub.Channels.{Event, notification, EventType, scoreboard_update, solve, first_blood}

unfoldable pub notify_solve : ℕ → ℕ → String → ℤ → Bool → List Event
notify_solve now team_id challenge points is_first_blood =
    let update_of = λ (kind : EventType). scoreboard_update (record {
      kind = kind;
      team_id = team_id;
      challenge = challenge;
      points = points;
      timestamp = now;
    }) in
    update_of solve ∷ (if is_first_blood then update_of first_blood ∷ [] else [])

unfoldable pub notify_notification : ℕ → String → String → List Event
notify_notification now message level =
    notification (record { message = message; level = level; timestamp = now }) ∷ []
