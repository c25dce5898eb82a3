-- ===== src/TeamUseCase/Validity/Crew.antt =====
-- `Leave`, `KickMember` and `TransferCaptain` keep the roster valid.
use ctfboard.Base.{ℕ, ◌≡◌, ◌≢◌, ap, ◌∙◌, arith, Option, none, some, not, false, is_some_of}
use ctfboard.Store.Transaction.{Db, Env}
use ctfboard.Store.Logic.{
  Ensures, ensure_modify, then_query, then_gets, then_fail_if, then_modify, then_block, then_pure,
}
use ctfboard.Store.Users.{
  lock_user_tx, get_user_by_id, get_users_by_team_id, update_user_team_id_tx,
}
use ctfboard.Store.Teams.{
  get_team_by_id, lock_team_tx, update_team_captain_tx, create_team_audit_log_tx,
}
use ctfboard.Roster.Users.{find_has_id, team_id_of}
use ctfboard.Roster.Teams.{captain_in-key}
use ctfboard.Roster.Invariant.{quit-IsRoster, crown-IsRoster}
use ctfboard.TeamUseCase.Membership.{leave_tx}
use ctfboard.TeamUseCase.Captain.{kick_member_tx, transfer_captain_tx}
use ctfboard.TeamUseCase.Validity.{IsValid, Valid}

is_some_of-eq : (t : ℕ) (o : Option ℕ) → not (is_some_of t o) ≡ false → o ≡ some t
is_some_of-eq t none h = cc
is_some_of-eq t (some s) h = ground (arith, h)

module _ (env : Env) (max : ℕ) (db : Db) (r : IsValid max db) where
  abbrev Keeps : {A : Type 0} → A → Db → Type 0
  Keeps = Valid max

  -- Only a member who is not the captain leaves.
  pub leave_tx-IsValid : (k : ℕ) → Ensures Keeps db (leave_tx env k)
  unfolding leave_tx lock_user_tx get_user_by_id lock_team_tx get_team_by_id get_users_by_team_id
      update_user_team_id_tx create_team_audit_log_tx
  leave_tx-IsValid k = then_block Keeps db _ _ _ (
      then_block Keeps db _ _ _ (
        then_query Keeps db _ _ _ λ _ _. then_gets Keeps db _ _ (
          then_block Keeps db _ _ _ (
            then_query Keeps db _ _ _ λ u found. then_block Keeps db _ _ _ (
              then_query Keeps db _ _ _ λ t mine. then_block Keeps db _ _ _ (
                then_block Keeps db _ _ _ (
                  then_query Keeps db _ _ _ λ _ _. then_pure Keeps db _ _ (
                    then_block Keeps db _ _ _ (
                      then_query Keeps db _ _ _ λ team e. then_block Keeps db _ _ _ (
                        then_gets Keeps db _ _ (
                          then_pure Keeps db _ _ (
                            then_block Keeps db _ _ _ (
                              then_fail_if Keeps db _ _ _ λ _. then_fail_if Keeps db _ _ _ λ crew.
                                then_block Keeps db _ _ _ (
                                  then_query Keeps db _ _ _ λ _ _. then_modify Keeps db _ _ (
                                    ensure_modify Keeps _ _ (
                                      (quit-IsRoster max db.users db.teams r k u found t mine (
                                        ground (
                                          arith,
                                          crew,
                                          e,
                                          find_has_id k u db.users found,
                                        )))))))))))))))))))

  -- The captain removes another member of the same team.
  pub kick_member_tx-IsValid : (c k : ℕ) → c ≢ k → Ensures Keeps db (kick_member_tx env c k)
  unfolding kick_member_tx lock_user_tx get_user_by_id lock_team_tx get_team_by_id
      update_user_team_id_tx create_team_audit_log_tx
  kick_member_tx-IsValid c k other = then_block Keeps db _ _ _ (
      then_block Keeps db _ _ _ (
        then_query Keeps db _ _ _ λ _ _. then_gets Keeps db _ _ (
          then_block Keeps db _ _ _ (
            then_query Keeps db _ _ _ λ u found. then_block Keeps db _ _ _ (
              then_query Keeps db _ _ _ λ t mine. then_block Keeps db _ _ _ (
                then_block Keeps db _ _ _ (
                  then_query Keeps db _ _ _ λ _ _. then_pure Keeps db _ _ (
                    then_block Keeps db _ _ _ (
                      then_query Keeps db _ _ _ λ team e. then_block Keeps db _ _ _ (
                        then_query Keeps db _ _ _ λ v found'. then_pure Keeps db _ _ (
                          then_block Keeps db _ _ _ (
                            then_fail_if Keeps db _ _ _ λ chief. then_fail_if Keeps db _ _ _ λ mate.
                              then_block Keeps db _ _ _ (
                                then_query Keeps db _ _ _ λ _ _. then_modify Keeps db _ _ (
                                  ensure_modify Keeps _ _ (
                                    (quit-IsRoster max db.users db.teams r k v found' team.id
                                      (is_some_of-eq team.id v.team_id mate)
                                      (ground (
                                        arith,
                                        chief,
                                        other,
                                        captain_in-key t team db.teams e,
                                      ))))))))))))))))))

  -- The captain hands over to another member of the same team.
  pub transfer_captain_tx-IsValid : (c k : ℕ) → Ensures Keeps db (transfer_captain_tx env c k)
  unfolding transfer_captain_tx lock_user_tx get_user_by_id lock_team_tx get_team_by_id
      update_team_captain_tx create_team_audit_log_tx
  transfer_captain_tx-IsValid c k = then_block Keeps db _ _ _ (
      then_block Keeps db _ _ _ (
        then_query Keeps db _ _ _ λ _ _. then_gets Keeps db _ _ (
          then_block Keeps db _ _ _ (
            then_query Keeps db _ _ _ λ u found. then_block Keeps db _ _ _ (
              then_query Keeps db _ _ _ λ t mine. then_block Keeps db _ _ _ (
                then_block Keeps db _ _ _ (
                  then_query Keeps db _ _ _ λ _ _. then_pure Keeps db _ _ (
                    then_block Keeps db _ _ _ (
                      then_query Keeps db _ _ _ λ team e. then_block Keeps db _ _ _ (
                        then_query Keeps db _ _ _ λ v found'. then_pure Keeps db _ _ (
                          then_block Keeps db _ _ _ (
                            then_fail_if Keeps db _ _ _ λ chief. then_fail_if Keeps db _ _ _ λ mate.
                              then_block Keeps db _ _ _ (
                                then_query Keeps db _ _ _ λ _ _. then_modify Keeps db _ _ (
                                  ensure_modify Keeps _ _ (
                                    (crown-IsRoster max db.users db.teams team.id k r (
                                      ap team_id_of found'
                                      ∙ is_some_of-eq team.id v.team_id mate)))))))))))))))))
