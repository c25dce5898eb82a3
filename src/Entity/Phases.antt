-- ===== src/Entity/Phases.antt =====
-- The phases of a competition over time.
use ctfboard.Base.{ℕ, ◌≤◌, ◌≡◌, Bool, false, Option, none, some, not, ◌&&◌, leb, arith}
use ctfboard.Entity.Competitions.{Competition, get_status, is_submission_allowed, ended}

-- The two ends of the time in which flags are taken, both included.
abbrev pub is_running : Option ℕ → Option ℕ → ℕ → Bool
is_running none stop now = false
is_running (some start) none now = leb start now
is_running (some start) (some stop) now = leb start now && leb now stop

-- Flags are taken from the start to the end of the competition, both included, unless it is paused; a
-- frozen scoreboard does not matter, and a competition without a start never takes any.
pub is_submission_allowed-running :
    (c : Competition) (now : ℕ)
    → is_submission_allowed c now ≡ (is_running c.start_time c.end_time now && not c.is_paused)
unfolding is_submission_allowed get_status
is_submission_allowed-running c now = ground arith

-- A competition that has ended stays ended.
pub get_status_ended :
    (c : Competition) (now after : ℕ)
    → now ≤ after
    → get_status c now ≡ ended
    → get_status c after ≡ ended
unfolding get_status
get_status_ended c now after h e = ground (arith, h, e)
