-- ===== src/Entity/Competitions.antt =====
-- backend/internal/entity/competition.go: the competition's settings, its status and its modes.
use ctfboard.Base.{
  ℕ, Bool, true, false, Option, none, some, String, ltb, if◌then◌else◌, ◌||◌, str_eq,
}
use ctfboard.Base.Int.{ℤ}

pub record Competition : Type 0 where
  pub id : ℕ
  pub name : String
  pub start_time : Option ℕ
  pub end_time : Option ℕ
  pub freeze_time : Option ℕ
  pub is_paused : Bool
  pub is_public : Bool
  pub flag_regex : Option String
  pub mode : String
  pub allow_team_switch : Bool
  pub min_team_size : ℤ
  pub max_team_size : ℤ
  pub created_at : ℕ
  pub updated_at : ℕ

pub data CompetitionStatus : Type 0 where
  not_started active paused frozen ended : CompetitionStatus

abbrev pub mode_solo_only : String
mode_solo_only = "solo_only"

abbrev pub mode_teams_only : String
mode_teams_only = "teams_only"

abbrev pub mode_flexible : String
mode_flexible = "flexible"

pub is_valid_mode : String → Bool
is_valid_mode m = str_eq m mode_solo_only || (str_eq m mode_teams_only || str_eq m mode_flexible)

unfoldable pub allows_solo : String → Bool
allows_solo m = str_eq m mode_solo_only || str_eq m mode_flexible

unfoldable pub allows_teams : String → Bool
allows_teams m = str_eq m mode_teams_only || str_eq m mode_flexible

-- `t != nil && now.After(*t)`
abbrev pub is_past : Option ℕ → ℕ → Bool
is_past none now = false
is_past (some t) now = ltb t now

-- `t == nil || now.Before(*t)`
abbrev pub is_ahead : Option ℕ → ℕ → Bool
is_ahead none now = true
is_ahead (some t) now = ltb now t

-- `GetStatus`, with the clock's reading as an argument.
unfoldable pub get_status : Competition → ℕ → CompetitionStatus
get_status c now =
    if is_ahead c.start_time now
    then not_started
    else if is_past c.end_time now
    then ended
    else if c.is_paused
    then paused
    else if is_past c.freeze_time now
    then frozen
    else active

abbrev is_open : CompetitionStatus → Bool
is_open active = true
is_open frozen = true
is_open _ = false

unfoldable pub is_submission_allowed : Competition → ℕ → Bool
unfolding get_status
is_submission_allowed c now = is_open (get_status c now)
