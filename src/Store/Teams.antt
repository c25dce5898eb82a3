-- ===== src/Store/Teams.antt =====
-- The statements on the tables `teams`, `team_audit_log` and, for a team, `solves`:
-- backend/internal/repo/persistent/tx_team.go, team_postgres.go and tx_competition.go. A team that
-- is deleted stays in its table with `deleted_at` set, and its name stays taken: `name` is UNIQUE over
-- the whole table (backend/schema/postgres.sql).
use ctfboard.Base.{
  ℕ, Bool, true, false, Option, none, some, String, ◌∷◌, ◌==◌, ◌&&◌, ◌||◌, select_one, update_where,
  delete_where, exists_where, str_eq,
}
use ctfboard.Entity.{Team, Solve, TeamAuditAction, Details}
use ctfboard.Entity.Errors.{team_not_found, unique_violation}
use ctfboard.Store.Transaction.{Db, Env, Tx, query, gets, modify, fail_if, pure, ◌>>=◌, ◌>>◌}

-- `deleted_at IS NULL`
abbrev pub is_live : Team → Bool
is_live t = elim t.deleted_at [ none ↦ true | some _ ↦ false ]

abbrev pub is_live_id : ℕ → Team → Bool
is_live_id k t = t.id == k && is_live t

abbrev pub find_team : ℕ → Db → Option Team
find_team k db = select_one (is_live_id k) db.teams

-- `GetTeamByIDTx` and `TeamRepo.GetByID`
unfoldable pub get_team_by_id : ℕ → Tx Team
get_team_by_id k = query (find_team k) team_not_found

abbrev pub find_team_by_name : String → Db → Option Team
find_team_by_name n db = select_one (λ t. str_eq t.name n && is_live t) db.teams

-- `GetTeamByInviteTokenTx`
unfoldable pub get_team_by_invite_token_tx : ℕ → Tx Team
get_team_by_invite_token_tx k =
    query (λ db. select_one (λ t. t.invite_token == k && is_live t) db.teams) team_not_found

-- `LockTeamTx`: `SELECT id FROM teams WHERE id = $1 FOR UPDATE`, deleted teams included
unfoldable pub lock_team_tx : ℕ → Tx (Unit {0})
lock_team_tx k = do query (λ db. select_one (λ t. t.id == k) db.teams) team_not_found; pure tt

-- `INSERT INTO teams`: the key `id` and the name are unique over all rows.
abbrev pub insert_team : Team → Tx (Unit {0})
insert_team row = do
  taken ← gets (λ db. exists_where (λ t. t.id == row.id || str_eq t.name row.name) db.teams)
  fail_if taken unique_violation
  modify (λ db. record db { teams = row ∷ db.teams })

abbrev pub new_team : Env → String → ℕ → Bool → Team
new_team env name captain_id is_solo = record {
  id = env.uuid 1;
  name = name;
  invite_token = env.uuid 0;
  captain_id = captain_id;
  bracket_id = none;
  created_at = env.now;
  deleted_at = none;
  is_solo = is_solo;
  is_auto_created = false;
  is_banned = false;
  banned_at = none;
  banned_reason = none;
  is_hidden = false;
}

-- `CreateTeamTx` of a team with these fields; the database draws the id.
unfoldable pub create_team_tx : Env → String → ℕ → Bool → Tx Team
create_team_tx env name captain_id is_solo = do
  insert_team (new_team env name captain_id is_solo)
  pure (new_team env name captain_id is_solo)

abbrev pub with_team : ℕ → (Team → Team) → Db → Db
with_team k f db = record db { teams = update_where (is_live_id k) f db.teams }

-- `UPDATE teams SET ... WHERE id = $1 AND deleted_at IS NULL RETURNING id`
abbrev pub update_live_team : ℕ → (Team → Team) → Tx (Unit {0})
update_live_team k f = do query (find_team k) team_not_found; modify (with_team k f)

-- `SoftDeleteTeamTx`
unfoldable pub soft_delete_team_tx : Env → ℕ → Tx (Unit {0})
soft_delete_team_tx env k = update_live_team k (λ t. record t { deleted_at = some env.now })

-- `UpdateTeamCaptainTx`: `UPDATE teams SET captain_id = $2 WHERE id = $1`, deleted teams included
unfoldable pub update_team_captain_tx : ℕ → ℕ → Tx (Unit {0})
update_team_captain_tx k captain_id = do
  query (λ db. select_one (λ t. t.id == k) db.teams) team_not_found
  modify λ db. record db {
    teams = update_where (λ t. t.id == k) (λ t. record t { captain_id = captain_id }) db.teams;
  }

-- `CreateTeamAuditLogTx`
unfoldable pub create_team_audit_log_tx :
    Env → ℕ → ℕ → TeamAuditAction → Details → ℕ → Tx (Unit {0})
create_team_audit_log_tx env team_id user_id action details n = modify λ db. record db {
  team_audit_log =
      record {
        id = env.uuid n;
        team_id = team_id;
        user_id = user_id;
        action = action;
        details = details;
        created_at = env.now;
      }
      ∷ db.team_audit_log;
}

abbrev pub of_team : ℕ → Solve → Bool
of_team k s = s.team_id == k

-- `DeleteSolvesByTeamIDTx`
unfoldable pub delete_solves_by_team_id_tx : ℕ → Tx (Unit {0})
delete_solves_by_team_id_tx k =
    modify (λ db. record db { solves = delete_where (of_team k) db.solves })
