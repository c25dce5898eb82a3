-- ===== src/TeamUseCase/Cleanup.antt =====
-- backend/internal/usecase/team/team.go: a user who is alone in a solo team gives it up before
-- joining or creating another (`handleSoloTeamCleanup`), and the wrappers that start a transaction.
use ctfboard.Base.{ℕ, Bool, false, not, Option, none, some, List, [], ◌∷◌, ◌==◌, ◌&&◌, ◌||◌}
use ctfboard.Entity.{User, Team, reason_solo_team_cleanup, deleted}
use ctfboard.Entity.Errors.{user_already_in_team, confirmation_required}
use ctfboard.Entity.Competitions.{Competition}
use ctfboard.Store.Transaction.{
  Db, Env, Result, ok, err, Tx, pure, fail_if, run_transaction, ◌>>=◌, ◌>>◌,
}
use ctfboard.Store.Users.{get_users_by_team_id}
use ctfboard.Store.Teams.{
  get_team_by_id, soft_delete_team_tx, delete_solves_by_team_id_tx, create_team_audit_log_tx,
}

-- `len(members) == 1 && members[0].ID == user.ID && (oldTeam.IsSolo || oldTeam.IsAutoCreated)`
abbrev pub should_cleanup_solo_team : User → List User → Team → Bool
should_cleanup_solo_team user [] old_team = false
should_cleanup_solo_team user (m ∷ []) old_team =
    m.id == user.id && (old_team.is_solo || old_team.is_auto_created)
should_cleanup_solo_team user (m ∷ n ∷ ms) old_team = false

-- `handleSoloTeamCleanup`, for `*user.TeamID`
unfoldable pub handle_solo_team_cleanup : Env → User → ℕ → ℕ → Bool → Tx (Unit {0})
handle_solo_team_cleanup env user team_id actor_id confirm_reset = do
  old_team ← get_team_by_id team_id
  members ← get_users_by_team_id team_id
  fail_if (not (should_cleanup_solo_team user members old_team)) user_already_in_team
  fail_if (not confirm_reset) confirmation_required
  soft_delete_team_tx env team_id
  delete_solves_by_team_id_tx team_id
  create_team_audit_log_tx env team_id actor_id deleted reason_solo_team_cleanup 3

abbrev pub cleanup_team : Env → User → ℕ → Bool → Option ℕ → Tx (Unit {0})
cleanup_team env user actor_id confirm_reset none = pure tt
cleanup_team env user actor_id confirm_reset (some t) =
    handle_solo_team_cleanup env user t actor_id confirm_reset

-- `if user.TeamID != nil { handleSoloTeamCleanup }`
unfoldable pub cleanup_if_in_team : Env → User → ℕ → Bool → Tx (Unit {0})
cleanup_if_in_team env user actor_id confirm_reset =
    cleanup_team env user actor_id confirm_reset user.team_id

abbrev pub after_guard :
    {A B : Type 0} → Result (B × Db) → (Db → Result A × Db) → Db → Result A × Db
after_guard (ok _) body db = body db
after_guard (err e) body db = (err e, db)

-- A use case: first the guard, which reads outside the transaction, then the transaction.
abbrev pub guarded : {A : Type 0} → Env → Tx Competition → Tx A → Db → Result A × Db
guarded env guard fn db = after_guard (guard db) (run_transaction env fn) db
