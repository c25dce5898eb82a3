-- ===== src/TeamUseCase/Create.antt =====
-- backend/internal/usecase/team/team.go: `Create`, `TryCreate`, `ConfirmCreate`, `CreateSoloTeam`.
use ctfboard.Base.{ℕ, Bool, true, false, not, Option, none, some, String, if◌then◌else◌}
use ctfboard.Base.Int.{ℤ, pos}
use ctfboard.Entity.{User, Team, no_details, mode_solo, created}
use ctfboard.Entity.Errors.{team_already_exists, user_already_in_team}
use ctfboard.Guard.{require_team_switch_and_teams_mode, require_team_switch_and_solo_mode}
use ctfboard.Store.Transaction.{
  Db, Env, Result, ok, err, Tx, pure, fail_if, gets, run_transaction, ◌>>=◌, ◌>>◌,
}
use ctfboard.Store.Users.{
  lock_user_tx, get_user_by_id, get_users_by_team_id, update_user_team_id_tx,
}
use ctfboard.Store.Teams.{
  find_team_by_name, get_team_by_id, create_team_tx, create_team_audit_log_tx,
}
use Prim.Native.String.{◌++◌}
use ctfboard.Store.Challenges.{get_team_score_tx}
use ctfboard.TeamUseCase.Cleanup.{cleanup_if_in_team, guarded, should_cleanup_solo_team}

abbrev pub is_some : {A : Type 0} → Option A → Bool
is_some none = false
is_some (some _) = true

-- `validateTeamNameAvailableTx`
unfoldable pub validate_team_name_available_tx : String → Tx (Unit {0})
validate_team_name_available_tx name = do
  taken ← gets (λ db. is_some (find_team_by_name name db))
  fail_if taken team_already_exists

unfoldable pub create_tx : Env → String → ℕ → Bool → Bool → Tx Team
create_tx env name captain_id is_solo confirm_reset = do
  lock_user_tx captain_id
  validate_team_name_available_tx name
  user ← get_user_by_id captain_id
  cleanup_if_in_team env user captain_id confirm_reset
  team ← create_team_tx env name captain_id is_solo
  update_user_team_id_tx captain_id (some team.id)
  create_team_audit_log_tx env team.id captain_id created no_details 2
  pure team

-- `Create`
unfoldable pub create : Env → String → ℕ → Bool → Bool → Db → Result Team × Db
create env name captain_id is_solo confirm_reset =
    guarded env require_team_switch_and_teams_mode
      (create_tx env name captain_id is_solo confirm_reset)

-- `ConfirmCreate`
unfoldable pub confirm_create : Env → String → ℕ → Bool → Db → Result Team × Db
confirm_create env name captain_id is_solo = create env name captain_id is_solo true

-- `fmt.Sprintf("%s (Solo)", user.Username)` when a live team has the user's name
abbrev pub solo_team_name : Bool → String → String
solo_team_name taken username = if taken then username ++ " (Solo)" else username

unfoldable pub create_solo_team_tx : Env → ℕ → Bool → Tx Team
create_solo_team_tx env user_id confirm_reset = do
  lock_user_tx user_id
  user ← get_user_by_id user_id
  cleanup_if_in_team env user user_id confirm_reset
  taken ← gets (λ db. is_some (find_team_by_name user.username db))
  team ← create_team_tx env (solo_team_name taken user.username) user_id true
  update_user_team_id_tx user_id (some team.id)
  create_team_audit_log_tx env team.id user_id created mode_solo 2
  pure team

-- `CreateSoloTeam`
unfoldable pub create_solo_team : Env → ℕ → Bool → Db → Result Team × Db
create_solo_team env user_id confirm_reset =
    guarded env require_team_switch_and_solo_mode (create_solo_team_tx env user_id confirm_reset)

pub data ConfirmReason : Type 0 where
  no_reason solo_team_reset progress_loss : ConfirmReason

pub record AffectedData : Type 0 where
  pub solve_count : ℤ
  pub points : ℤ

pub record OperationResult : Type 0 where
  pub team : Option Team
  pub requires_confirm : Bool
  pub confirmation_reason : ConfirmReason
  pub affected_data : Option AffectedData

-- `tryCreateWhenInTeam`, for `*user.TeamID`: it only reads, and asks for a confirmation.
unfoldable pub try_create_when_in_team_tx : User → ℕ → ℕ → Tx OperationResult
try_create_when_in_team_tx user team_id captain_id = do
  lock_user_tx captain_id
  old_team ← get_team_by_id team_id
  members ← get_users_by_team_id team_id
  fail_if (not (should_cleanup_solo_team user members old_team)) user_already_in_team
  points ← get_team_score_tx team_id
  pure (record {
    team = none;
    requires_confirm = true;
    confirmation_reason = solo_team_reset;
    affected_data = some (record { solve_count = pos 0; points = points });
  })

abbrev wrap_team : Result Team × Db → Result OperationResult × Db
wrap_team (ok t, db) = (
  ok (record {
    team = some t;
    requires_confirm = false;
    confirmation_reason = no_reason;
    affected_data = none;
  }),
  db,
)
wrap_team (err e, db) = (err e, db)

abbrev try_create_for : Env → String → User → ℕ → Bool → Option ℕ → Db → Result OperationResult × Db
try_create_for env name user captain_id is_solo none db =
    wrap_team (create env name captain_id is_solo false db)
try_create_for env name user captain_id is_solo (some t) db =
    run_transaction env (try_create_when_in_team_tx user t captain_id) db

-- `TryCreate`
unfoldable pub try_create : Env → String → ℕ → Bool → Db → Result OperationResult × Db
unfolding create try_create_when_in_team_tx
try_create env name captain_id is_solo db =
    elim ((do require_team_switch_and_teams_mode; get_user_by_id captain_id) db) [
      | ok (user, _) ↦ try_create_for env name user captain_id is_solo user.team_id db
      | err e ↦ (err e, db)
    ]
