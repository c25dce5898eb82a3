-- ===== src/Cache/Boards.antt =====
-- backend/pkg/cache/scoreboard.go, keys.go and cache.go: the scoreboards that are kept in Redis. Redis
-- is a list of entries that expire; encoding a board to JSON and back gives the same board.
use ctfboard.Base.{
  ◌≡◌, arith, ℕ, Bool, true, false, Option, none, some, String, List, [], ◌∷◌, ◌==◌, ◌+◌, ltb, ◌&&◌,
  select_one, delete_where, if◌then◌else◌, ◌∙◌,
}
use ctfboard.Base.Int.{ℤ}

-- `repo.ScoreboardEntry`
pub record ScoreboardEntry : Type 0 where
  pub team_id : ℕ
  pub team_name : String
  pub points : ℤ
  pub solved_at : ℕ

-- `KeyScoreboard`, `KeyScoreboardFrozen`, `KeyScoreboardBracket` and `KeyScoreboardBracketFrozen`
pub data BoardKey : Type 0 where
  scoreboard scoreboard_frozen : BoardKey
  scoreboard_bracket scoreboard_bracket_frozen : ℕ → BoardKey

unfoldable pub same_key : BoardKey → BoardKey → Bool
same_key scoreboard scoreboard = true
same_key scoreboard_frozen scoreboard_frozen = true
same_key (scoreboard_bracket a) (scoreboard_bracket b) = a == b
same_key (scoreboard_bracket_frozen a) (scoreboard_bracket_frozen b) = a == b
same_key _ _ = false

pub record CachedBoard : Type 0 where
  pub key : BoardKey
  pub expires_at : ℕ
  pub entries : List ScoreboardEntry

abbrev pub holds : BoardKey → CachedBoard → Bool
holds k b = same_key b.key k

-- `Cache.Del`
unfoldable pub del : List BoardKey → List CachedBoard → List CachedBoard
del [] boards = boards
del (k ∷ ks) boards = del ks (delete_where (holds k) boards)

-- What `redis.Get` finds at the time `now`.
abbrev pub find_board : BoardKey → ℕ → List CachedBoard → Option CachedBoard
find_board k now boards = select_one (λ b. holds k b && ltb now b.expires_at) boards

-- `redis.Set`
abbrev pub set_board : BoardKey → ℕ → List ScoreboardEntry → List CachedBoard → List CachedBoard
set_board k expires_at entries boards =
    record { key = k; expires_at = expires_at; entries = entries } ∷ delete_where (holds k) boards

abbrev pub get_or_load_from :
    BoardKey
    → ℕ
    → List ScoreboardEntry
    → List CachedBoard
    → Option CachedBoard
    → List ScoreboardEntry × List CachedBoard
get_or_load_from k expires_at loaded boards (some b) = (b.entries, boards)
get_or_load_from k expires_at loaded boards none = (loaded, set_board k expires_at loaded boards)

-- `GetOrLoad` with a loader that succeeds with `loaded`; `ttl` is the time to live.
unfoldable pub get_or_load :
    BoardKey
    → ℕ
    → ℕ
    → List ScoreboardEntry
    → List CachedBoard
    → List ScoreboardEntry × List CachedBoard
get_or_load k now ttl loaded boards =
    get_or_load_from k (now + ttl) loaded boards (find_board k now boards)

-- `InvalidateAll`
unfoldable pub invalidate_all : List CachedBoard → List CachedBoard
unfolding del
invalidate_all boards = del (scoreboard ∷ scoreboard_frozen ∷ []) boards

abbrev pub invalidate_bracket : Option ℕ → List CachedBoard → List CachedBoard
invalidate_bracket none boards = boards
invalidate_bracket (some b) boards =
    del (scoreboard_bracket b ∷ scoreboard_bracket_frozen b ∷ []) boards

-- `InvalidateForTeam`, with the bracket that `GetTeamBracketID` gives
unfoldable pub invalidate_for_team : Option ℕ → List CachedBoard → List CachedBoard
unfolding invalidate_all
invalidate_for_team bracket_id boards = invalidate_bracket bracket_id (invalidate_all boards)

-- Keys that are the same are told apart from the same keys.
same_key-cases :
    (j k x : BoardKey)
    → (same_key j k ≡ true → same_key x j ≡ same_key x k)
      × (same_key j k ≡ false → same_key x j ≡ true → same_key x k ≡ false)
unfolding same_key
same_key-cases j k x = (λ e. ground (arith, e), λ d e. ground (arith, d, e))

-- Deleting a key takes away what was kept under it, and nothing else.
pub find_board-delete :
    (j k : BoardKey) (now : ℕ) (boards : List CachedBoard)
    → find_board j now (delete_where (holds k) boards)
      ≡ (if same_key j k then none else find_board j now boards)
find_board-delete j k now [] = ground arith
find_board-delete j k now (b ∷ bs) =
    ground (arith, find_board-delete j k now bs, same_key-cases j k b.key)

-- The keys that `InvalidateAll` deletes.
abbrev pub is_overall : BoardKey → Bool
is_overall scoreboard = true
is_overall scoreboard_frozen = true
is_overall _ = false

pub find_board-invalidate_all :
    (j : BoardKey) (now : ℕ) (boards : List CachedBoard)
    → find_board j now (invalidate_all boards)
      ≡ (if is_overall j then none else find_board j now boards)
unfolding invalidate_all same_key
find_board-invalidate_all j now boards =
    find_board-delete j scoreboard_frozen now (delete_where (holds scoreboard) boards)
    ∙ ground (arith, find_board-delete j scoreboard now boards)
