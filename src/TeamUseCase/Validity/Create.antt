-- ===== src/TeamUseCase/Validity/Create.antt =====
-- `Create` and `CreateSoloTeam` keep the roster valid.
use ctfboard.Base.{ℕ, ◌<◌, ◌≡◌, refl, Bool, true, none, some, List, ◌∷◌, select_one, String}
use ctfboard.Entity.{User, Team}
use ctfboard.Store.Transaction.{Db, Env}
use ctfboard.Store.Logic.{
  Ensures, ensure_pure, then_query, then_gets, then_fail_if, then_modify, then_block, then_pure,
  then_call,
}
use ctfboard.Store.Users.{has_id, lock_user_tx, get_user_by_id, update_user_team_id_tx}
use ctfboard.Store.Teams.{
  is_live, new_team, find_team_by_name, create_team_tx, create_team_audit_log_tx,
}
use ctfboard.Roster.Users.{moved, set_team, moved-moved, found-moved_self}
use ctfboard.Roster.Teams.{captain_in, captain_in-unused}
use ctfboard.Roster.Invariant.{IsRoster, found-IsRoster}
use ctfboard.TeamUseCase.Freed.{Freed, cleanup_if_in_team-Freed}
use ctfboard.TeamUseCase.Create.{
  is_some, solo_team_name, validate_team_name_available_tx, create_tx, create_solo_team_tx,
}
use ctfboard.TeamUseCase.Validity.{IsValid, Valid}

-- A user freed from their solo team founds another.
Freed-found :
    (max k : ℕ) (u : User) (us us' : List User) (ts ts' : List Team) (row : Team)
    → IsRoster max us ts
    → select_one (has_id k) us ≡ some u
    → Freed max k u us us' ts ts'
    → is_live row ≡ true
    → row.captain_id ≡ k
    → captain_in row.id ts' ≡ none
    → 0 < max
    → IsRoster max (moved k (some row.id) us') (row ∷ ts')
Freed-found max k u us us' ts ts' row r found f alive mine fresh room =
    rw (f.users, ← moved-moved k (some row.id) none us)
      (found-IsRoster max (moved k none us) ts' f.roster k (set_team none u)
        (found-moved_self k none u us found) row refl alive mine fresh room)

module _ (env : Env) (max : ℕ) (db : Db) (r : IsValid max db) (room : 0 < max) where
  abbrev Keeps : {A : Type 0} → A → Db → Type 0
  Keeps = Valid max

  -- The founder becomes the captain and the only member of the new team.
  pub create_tx-IsValid :
      (name : String) (k : ℕ) (is_solo confirm : Bool)
      → Ensures Keeps db (create_tx env name k is_solo confirm)
  unfolding create_tx lock_user_tx validate_team_name_available_tx get_user_by_id create_team_tx
      update_user_team_id_tx create_team_audit_log_tx
  create_tx-IsValid name k is_solo confirm = then_block Keeps db _ _ _ (
      then_query Keeps db _ _ _ λ _ _. then_gets Keeps db _ _ (
        then_block Keeps db _ _ _ (
          then_gets Keeps db _ _ (
            then_fail_if Keeps db _ _ _ λ _. then_query Keeps db _ _ _ λ u found.
              then_call Keeps db (λ _ db'. Freed max k u db.users db'.users db.teams db'.teams) _ _
                (cleanup_if_in_team-Freed env max k u db r found k confirm)
                λ _ db' f. then_block Keeps db' _ _ _ (
                  then_block Keeps db' _ _ _ (
                    then_gets Keeps db' _ _ (
                      then_block Keeps db' _ _ _ (
                        then_fail_if Keeps db' _ _ _ λ fresh. then_modify Keeps db' _ _ (
                          then_pure Keeps _ _ _ (
                            then_block Keeps _ _ _ _ (
                              then_query Keeps _ _ _ _ λ _ _. then_modify Keeps _ _ _ (
                                then_modify Keeps _ _ _ (
                                  ensure_pure Keeps _ _ (
                                    (Freed-found max k u db.users db'.users db.teams db'.teams
                                      (new_team env name k is_solo) r found f refl refl
                                      (captain_in-unused (env.uuid 1) name db'.teams fresh)
                                      room)))))))))))))))

  pub create_solo_team_tx-IsValid :
      (k : ℕ) (confirm : Bool) → Ensures Keeps db (create_solo_team_tx env k confirm)
  unfolding create_solo_team_tx lock_user_tx get_user_by_id create_team_tx update_user_team_id_tx
      create_team_audit_log_tx
  create_solo_team_tx-IsValid k confirm = then_block Keeps db _ _ _ (
      then_query Keeps db _ _ _ λ _ _. then_gets Keeps db _ _ (
        then_query Keeps db _ _ _ λ u found.
          then_call Keeps db (λ _ db'. Freed max k u db.users db'.users db.teams db'.teams) _ _
            (cleanup_if_in_team-Freed env max k u db r found k confirm)
            λ _ db' f. then_gets Keeps db' _ _ (
              then_block Keeps db' _ _ _ (
                then_block Keeps db' _ _ _ (
                  then_gets Keeps db' _ _ (
                    then_block Keeps db' _ _ _ (
                      then_fail_if Keeps db' _ _ _ λ fresh. then_modify Keeps db' _ _ (
                        then_pure Keeps _ _ _ (
                          then_block Keeps _ _ _ _ (
                            then_query Keeps _ _ _ _ λ _ _. then_modify Keeps _ _ _ (
                              then_modify Keeps _ _ _ (
                                ensure_pure Keeps _ _ (
                                  (Freed-found max k u db.users db'.users db.teams db'.teams
                                    (new_team env
                                      (solo_team_name (is_some (find_team_by_name u.username db'))
                                        u.username)
                                      k true)
                                    r found f refl refl
                                    (captain_in-unused (env.uuid 1)
                                      (solo_team_name (is_some (find_team_by_name u.username db'))
                                        u.username)
                                      db'.teams fresh)
                                    room))))))))))))))
