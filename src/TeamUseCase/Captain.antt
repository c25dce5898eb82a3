-- ===== src/TeamUseCase/Captain.antt =====
-- backend/internal/usecase/team/team.go: what only the captain may do, `TransferCaptain`,
-- `KickMember` and `DisbandTeam`.
use ctfboard.Base.{ℕ, not, none, List, [], ◌∷◌, ◌==◌, is_some_of, if◌then◌else◌}
use ctfboard.Entity.{
  User, Team, transfer, target_user_id, reason_disbanded_by_captain, captain_transferred,
  member_kicked, deleted,
}
use ctfboard.Entity.Errors.{
  not_captain, new_captain_not_in_team, cannot_transfer_to_self, cannot_leave_as_only_member,
  user_not_found,
}
use ctfboard.Guard.{require_team_switch}
use ctfboard.Store.Transaction.{
  Db, Env, Result, err, Tx, pure, fail_if, run_transaction, ◌>>=◌, ◌>>◌,
}
use ctfboard.Store.Users.{
  lock_user_tx, get_user_by_id, get_users_by_team_id, update_user_team_id_tx,
}
use ctfboard.Store.Teams.{
  get_team_by_id, lock_team_tx, update_team_captain_tx, soft_delete_team_tx,
  create_team_audit_log_tx,
}
use ctfboard.TeamUseCase.Cleanup.{after_guard, guarded}
use ctfboard.TeamUseCase.Membership.{require_team}

-- `transferCaptainPrepare`: the captain, the captain's team, and the other user.
unfoldable pub captain_prepare : ℕ → ℕ → Tx (User × Team × User)
captain_prepare captain_id other_id = do
  lock_user_tx captain_id
  captain ← get_user_by_id captain_id
  team_id ← require_team captain
  lock_team_tx team_id
  team ← get_team_by_id team_id
  other ← get_user_by_id other_id
  pure (captain, team, other)

unfoldable pub transfer_captain_validate : Team → User → ℕ → Tx (Unit {0})
transfer_captain_validate team new_captain captain_id = do
  fail_if (not (team.captain_id == captain_id)) not_captain
  fail_if (not (is_some_of team.id new_captain.team_id)) new_captain_not_in_team

unfoldable pub transfer_captain_execute : Env → ℕ → ℕ → Team → Tx (Unit {0})
transfer_captain_execute env captain_id new_captain_id team = do
  update_team_captain_tx team.id new_captain_id
  create_team_audit_log_tx env team.id captain_id captain_transferred
      (transfer captain_id new_captain_id) 2

unfoldable pub transfer_captain_tx : Env → ℕ → ℕ → Tx (Unit {0})
unfolding captain_prepare transfer_captain_validate transfer_captain_execute
transfer_captain_tx env captain_id new_captain_id = do
  (captain, team, new_captain) ← captain_prepare captain_id new_captain_id
  transfer_captain_validate team new_captain captain_id
  transfer_captain_execute env captain_id new_captain_id team

-- `TransferCaptain`
unfoldable pub transfer_captain : Env → ℕ → ℕ → Db → Result (Unit {0}) × Db
transfer_captain env captain_id new_captain_id db =
    after_guard (require_team_switch db)
      (λ db'.
        if captain_id == new_captain_id
        then (err cannot_transfer_to_self, db')
        else run_transaction env (transfer_captain_tx env captain_id new_captain_id) db')
      db

-- `kickMemberPrepare`, which makes the same queries as `transferCaptainPrepare`
abbrev pub kick_member_prepare : ℕ → ℕ → Tx (User × Team × User)
kick_member_prepare captain_id target_id = captain_prepare captain_id target_id

unfoldable pub kick_member_validate : Team → User → ℕ → Tx (Unit {0})
kick_member_validate team target captain_id = do
  fail_if (not (team.captain_id == captain_id)) not_captain
  fail_if (not (is_some_of team.id target.team_id)) user_not_found

unfoldable pub kick_member_execute : Env → ℕ → ℕ → ℕ → Tx (Unit {0})
kick_member_execute env team_id captain_id target_id = do
  update_user_team_id_tx target_id none
  create_team_audit_log_tx env team_id captain_id member_kicked (target_user_id target_id) 2

unfoldable pub kick_member_tx : Env → ℕ → ℕ → Tx (Unit {0})
unfolding captain_prepare kick_member_validate kick_member_execute
kick_member_tx env captain_id target_id = do
  (captain, team, target) ← kick_member_prepare captain_id target_id
  kick_member_validate team target captain_id
  kick_member_execute env team.id captain_id target_id

-- `KickMember`
unfoldable pub kick_member : Env → ℕ → ℕ → Db → Result (Unit {0}) × Db
kick_member env captain_id target_id db =
    after_guard (require_team_switch db)
      (λ db'.
        if captain_id == target_id
        then (err cannot_leave_as_only_member, db')
        else run_transaction env (kick_member_tx env captain_id target_id) db')
      db

unfoldable pub disband_prepare : ℕ → Tx (User × Team × List User)
disband_prepare captain_id = do
  lock_user_tx captain_id
  user ← get_user_by_id captain_id
  team_id ← require_team user
  lock_team_tx team_id
  team ← get_team_by_id team_id
  members ← get_users_by_team_id team.id
  pure (user, team, members)

unfoldable pub disband_validate : Team → ℕ → Tx (Unit {0})
disband_validate team captain_id = fail_if (not (team.captain_id == captain_id)) not_captain

-- `for _, member := range members { UpdateUserTeamIDTx(member.ID, nil) }`
unfoldable pub release_members : List User → Tx (Unit {0})
release_members [] = pure tt
release_members (m ∷ ms) = do update_user_team_id_tx m.id none; release_members ms

unfoldable pub disband_execute : Env → Team → List User → ℕ → Tx (Unit {0})
disband_execute env team members captain_id = do
  soft_delete_team_tx env team.id
  release_members members
  create_team_audit_log_tx env team.id captain_id deleted reason_disbanded_by_captain 2

unfoldable pub disband_team_tx : Env → ℕ → Tx (Unit {0})
unfolding disband_prepare disband_validate disband_execute
disband_team_tx env captain_id = do
  (user, team, members) ← disband_prepare captain_id
  disband_validate team captain_id
  disband_execute env team members captain_id

-- `DisbandTeam`
unfoldable pub disband_team : Env → ℕ → Db → Result (Unit {0}) × Db
disband_team env captain_id = guarded env require_team_switch (disband_team_tx env captain_id)
