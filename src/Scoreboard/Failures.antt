-- ===== src/Scoreboard/Failures.antt =====
-- `GetScoreboard` of backend/internal/usecase/competition/solve.go and `GetOrLoad` of
-- backend/pkg/cache/cache.go with their errors: the competition or the scoreboard may not be read, and
-- Redis may answer neither a read nor a write.
use ctfboard.Entity.Errors.{Error, driver_failed}
use ctfboard.Base.{if◌then◌else◌, none, some, true, false, arith, Bool, ℕ, Option, List, ◌≡◌, ◌+◌}
use ctfboard.Cache.Boards.{
  BoardKey, get_or_load, CachedBoard, ScoreboardEntry, find_board, set_board,
}
use ctfboard.Store.Transaction.{Env, Result, err, ok}
use ctfboard.Scoreboard.{
  World, get_scoreboard, Db, load_scoreboard, get_scoreboard_cache_key, is_frozen, scoreboard_ttl,
}

-- Whether Redis answers `Get` and `Set`
pub record Redis : Type 0 where
  pub reads : Bool
  pub writes : Bool

abbrev read_board : Redis → BoardKey → ℕ → List CachedBoard → Option CachedBoard
read_board redis k now boards = if redis.reads then find_board k now boards else none

abbrev written : Redis → BoardKey → ℕ → List ScoreboardEntry → List CachedBoard → List CachedBoard
written redis k expires_at entries boards =
    if redis.writes then set_board k expires_at entries boards else boards

abbrev loaded_board :
    Redis
    → BoardKey
    → ℕ
    → Result (List ScoreboardEntry)
    → List CachedBoard
    → Option CachedBoard
    → Result (List ScoreboardEntry) × List CachedBoard
loaded_board redis k expires_at load boards (some b) = (ok b.entries, boards)
loaded_board redis k expires_at (err e) boards none = (err e, boards)
loaded_board redis k expires_at (ok entries) boards none =
    (ok entries, written redis k expires_at entries boards)

-- `GetOrLoad`, with what the loader gives: where Redis cannot be read the board is loaded, and where it
-- cannot be written the board is given all the same.
unfoldable pub try_get_or_load :
    Redis
    → BoardKey
    → ℕ
    → ℕ
    → Result (List ScoreboardEntry)
    → List CachedBoard
    → Result (List ScoreboardEntry) × List CachedBoard
try_get_or_load redis k now ttl load boards =
    loaded_board redis k (now + ttl) load boards (read_board redis k now boards)

-- The query of the scoreboard, as the second statement
abbrev try_load : Env → Option ℕ → Db → Result (List ScoreboardEntry)
try_load env bracket_id db =
    if env.answers 1 then ok (load_scoreboard db env.now bracket_id) else err driver_failed

abbrev with_boards :
    World → Result (List ScoreboardEntry) × List CachedBoard → Result (List ScoreboardEntry) × World
with_boards w (r, boards) = (r, record { db = w.db; boards = boards })

-- `GetScoreboard`, with its errors
unfoldable pub try_get_scoreboard :
    Env → Redis → Option ℕ → World → Result (List ScoreboardEntry) × World
unfolding try_get_or_load
try_get_scoreboard env redis bracket_id w =
    if env.answers 0
    then with_boards w (
        try_get_or_load redis
          (get_scoreboard_cache_key (is_frozen w.db.competition env.now) bracket_id) env.now
          scoreboard_ttl (try_load env bracket_id w.db) w.boards)
    else (err driver_failed, w)

-- Where the database and Redis answer, the scoreboard is the one of `get_scoreboard`, and the same is
-- cached.
pub try_get_scoreboard-get_scoreboard :
    (env : Env) (redis : Redis) (bracket_id : Option ℕ) (w : World)
    → env.answers 0 ≡ true
    → env.answers 1 ≡ true
    → redis.reads ≡ true
    → redis.writes ≡ true
    → try_get_scoreboard env redis bracket_id w
      ≡ (ok (get_scoreboard env.now bracket_id w).0, (get_scoreboard env.now bracket_id w).1)
unfolding try_get_scoreboard get_scoreboard get_or_load
try_get_scoreboard-get_scoreboard env redis bracket_id w up0 up1 reads writes =
    ground (arith, up0, up1, reads, writes)

-- A read that fails caches nothing and is an error of the driver.
pub try_get_scoreboard_fails :
    (env : Env) (redis : Redis) (bracket_id : Option ℕ) (w : World) (e : Error)
    → (try_get_scoreboard env redis bracket_id w).0 ≡ err e
    → (e ≡ driver_failed) × ((try_get_scoreboard env redis bracket_id w).1 ≡ w)
unfolding try_get_scoreboard
try_get_scoreboard_fails env redis bracket_id w e h = (ground (arith, h), ground (arith, h))

-- Without Redis the board is what the tables hold.
pub try_get_scoreboard_uncached :
    (env : Env) (redis : Redis) (bracket_id : Option ℕ) (w : World)
    → env.answers 0 ≡ true
    → env.answers 1 ≡ true
    → redis.reads ≡ false
    → (try_get_scoreboard env redis bracket_id w).0 ≡ ok (load_scoreboard w.db env.now bracket_id)
unfolding try_get_scoreboard
try_get_scoreboard_uncached env redis bracket_id w up0 up1 down = ground (arith, up0, up1, down)
