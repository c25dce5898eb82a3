-- ===== src/TeamUseCase/Validity/Disband.antt =====
-- `DisbandTeam` keeps the roster valid.
use ctfboard.Base.{ℕ, ◌≡◌, refl, none, some, List, [], ◌∷◌}
use ctfboard.Entity.{User}
use ctfboard.Store.Transaction.{Db, Env}
use ctfboard.Store.Logic.{
  Ensures, ensure_modify, ensure_pure, then_query, then_gets, then_fail_if, then_modify, then_block,
  then_pure, then_call,
}
use ctfboard.Store.Users.{
  with_user_team, members_of, lock_user_tx, get_user_by_id, get_users_by_team_id,
  update_user_team_id_tx,
}
use ctfboard.Store.Teams.{
  with_team, get_team_by_id, lock_team_tx, soft_delete_team_tx, create_team_audit_log_tx,
}
use ctfboard.Roster.Release.{release, release-IsRoster}
use ctfboard.TeamUseCase.Captain.{release_members, disband_team_tx}
use ctfboard.TeamUseCase.Validity.{IsValid, Valid}

-- `release_members` leaves the teams alone, and its updates of users are `release`.
abbrev ReleasedBy : List User → Db → Unit {0} → Db → Type 0
ReleasedBy ms db _ db' = (db'.users ≡ release ms db.users) × (db'.teams ≡ db.teams)

release_members-ReleasedBy :
    (ms : List User) (db : Db) → Ensures (ReleasedBy ms db) db (release_members ms)
unfolding release_members release update_user_team_id_tx
release_members-ReleasedBy [] db = ensure_pure (ReleasedBy [] db) db tt (refl, refl)
release_members-ReleasedBy (m ∷ ms) db =
    let P : Unit {0} → Db → Type 0 = ReleasedBy (m ∷ ms) db in
    then_block P db _ _ _ (
      then_query P db _ _ _
        λ _ _. then_modify P db _ _ (release_members-ReleasedBy ms (with_user_team m.id none db)))

module _ (env : Env) (max : ℕ) (db : Db) (r : IsValid max db) where
  abbrev Keeps : {A : Type 0} → A → Db → Type 0
  Keeps = Valid max

  abbrev after : ℕ → Db
  after t = with_team t (λ row. record row { deleted_at = some env.now }) db

  -- The captain deletes the team, and every member is released.
  pub disband_team_tx-IsValid : (k : ℕ) → Ensures Keeps db (disband_team_tx env k)
  unfolding disband_team_tx lock_user_tx get_user_by_id lock_team_tx get_team_by_id
      get_users_by_team_id soft_delete_team_tx create_team_audit_log_tx
  disband_team_tx-IsValid k = then_block Keeps db _ _ _ (
      then_block Keeps db _ _ _ (
        then_query Keeps db _ _ _ λ _ _. then_gets Keeps db _ _ (
          then_block Keeps db _ _ _ (
            then_query Keeps db _ _ _ λ u found. then_block Keeps db _ _ _ (
              then_query Keeps db _ _ _ λ t mine. then_block Keeps db _ _ _ (
                then_block Keeps db _ _ _ (
                  then_query Keeps db _ _ _ λ _ _. then_pure Keeps db _ _ (
                    then_block Keeps db _ _ _ (
                      then_query Keeps db _ _ _ λ team e. then_block Keeps db _ _ _ (
                        then_gets Keeps db _ _ (
                          then_pure Keeps db _ _ (
                            then_fail_if Keeps db _ _ _ λ chief. then_block Keeps db _ _ _ (
                              then_query Keeps db _ _ _ λ _ _. then_modify Keeps db _ _ (
                                then_call Keeps _
                                  (ReleasedBy (members_of team.id db.users) (after team.id)) _ _
                                  (release_members-ReleasedBy (members_of team.id db.users)
                                    (after team.id))
                                  λ _ db' w. ensure_modify Keeps db' _ (
                                    (rw (w.0, w.1)
                                      (release-IsRoster max env.now db.users db.teams team.id
                                        r)))))))))))))))))
