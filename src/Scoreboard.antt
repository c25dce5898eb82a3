-- ===== src/Scoreboard.antt =====
-- backend/internal/usecase/competition/solve.go (`GetScoreboard`) and the queries behind it
-- (backend/queries/solves.sql, backend/internal/repo/persistent/solve_postgres.go).
pub mod Query
pub mod Listed
pub mod Order
pub mod Freshness
pub mod Failures
mod Tests
use ctfboard.Base.{ℕ, Bool, true, false, Option, none, some, List, ◌==◌, ◌&&◌, if◌then◌else◌}
use ctfboard.Entity.Competitions.{Competition, is_past}
use ctfboard.Store.Transaction.{Db}
use ctfboard.Cache.Boards.{
  BoardKey, scoreboard, scoreboard_frozen, scoreboard_bracket, scoreboard_bracket_frozen,
  ScoreboardEntry, CachedBoard, get_or_load,
}
use ctfboard.Scoreboard.Query.{scoreboard_by_bracket, scoreboard_by_bracket_frozen}

-- What the use cases work on: the tables, and the scoreboards that Redis keeps.
pub record World : Type 0 where
  pub db : Db
  pub boards : List CachedBoard

abbrev pub is_frozen : Option Competition → ℕ → Bool
is_frozen none now = false
is_frozen (some c) now = is_past c.freeze_time now

-- `bracketID == nil || *bracketID == uuid.Nil`
abbrev pub overall_key : Bool → BoardKey
overall_key frozen = if frozen then scoreboard_frozen else scoreboard

abbrev pub bracket_key : Bool → ℕ → BoardKey
bracket_key frozen b =
    if b == 0
    then overall_key frozen
    else if frozen
    then scoreboard_bracket_frozen b
    else scoreboard_bracket b

-- `getScoreboardCacheKey`, for a board that is frozen or not
abbrev pub get_scoreboard_cache_key : Bool → Option ℕ → BoardKey
get_scoreboard_cache_key frozen none = overall_key frozen
get_scoreboard_cache_key frozen (some b) = bracket_key frozen b

-- `freezeTime` of the loader
abbrev pub freeze_time_of : Option Competition → ℕ
freeze_time_of none = 0
freeze_time_of (some c) = elim c.freeze_time [ none ↦ 0 | some t ↦ t ]

-- The board that the loader reads from the tables.
unfoldable pub load_scoreboard : Db → ℕ → Option ℕ → List ScoreboardEntry
load_scoreboard db now bracket_id =
    if is_frozen db.competition now
    then scoreboard_by_bracket_frozen (freeze_time_of db.competition) bracket_id db
    else scoreboard_by_bracket bracket_id db

-- `15*time.Second`
abbrev pub scoreboard_ttl : ℕ
scoreboard_ttl = 15

-- `GetScoreboard`, where the competition, the loader and Redis answer
unfoldable pub get_scoreboard : ℕ → Option ℕ → World → List ScoreboardEntry × World
unfolding load_scoreboard
get_scoreboard now bracket_id w =
    let r =
      get_or_load (get_scoreboard_cache_key (is_frozen w.db.competition now) bracket_id) now
        scoreboard_ttl (load_scoreboard w.db now bracket_id) w.boards in
    (r.0, record { db = w.db; boards = r.1 })
