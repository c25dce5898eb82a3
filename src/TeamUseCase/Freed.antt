-- ===== src/TeamUseCase/Freed.antt =====
-- What `handleSoloTeamCleanup` leaves behind: the user's solo team is gone, and a roster in which the
-- user has no team is valid.
use ctfboard.Base.{
  ℕ, ◌≡◌, ◌≢◌, refl, sym, ap, subst, ◌∙◌, Bool, true, false, none, some, List, [], ◌∷◌, arith,
  select_one, length, not, Option,
}
use ctfboard.Entity.{User, Team}
use ctfboard.Store.Transaction.{Db, Env}
use ctfboard.Store.Logic.{
  Ensures, ensure_pure, ensure_modify, then_query, then_gets, then_fail_if, then_modify, then_block,
}
use ctfboard.Store.Users.{has_id, members_of, get_users_by_team_id}
use ctfboard.Store.Teams.{
  get_team_by_id, soft_delete_team_tx, delete_solves_by_team_id_tx, create_team_audit_log_tx,
}
use ctfboard.Roster.Users.{moved, moved_same, length-members_of}
use ctfboard.Roster.Teams.{captain_in, retired, captain_in-retired}
use ctfboard.Roster.Invariant.{IsRoster, retire-IsRoster}
use ctfboard.TeamUseCase.Cleanup.{
  should_cleanup_solo_team, handle_solo_team_cleanup, cleanup_team, cleanup_if_in_team,
}

-- Over the tables before and after: the user is `u`, with key `k`.
pub record Freed (max k : ℕ) (u : User) (us us' : List User) (ts ts' : List Team) : Type 0 where
  pub users : us' ≡ us
  pub roster : IsRoster max (moved k none us) ts'
  pub others : (s : ℕ) → u.team_id ≢ some s → captain_in s ts' ≡ captain_in s ts

should_cleanup-alone :
    (u : User) (ms : List User) (t : Team) → should_cleanup_solo_team u ms t ≡ true → length ms ≡ 1
should_cleanup-alone u [] t e = cc
should_cleanup-alone u (m ∷ []) t e = omega arith
should_cleanup-alone u (m ∷ n ∷ ms) t e = cc

module _ (env : Env) (max k : ℕ) (u : User) (db : Db) (r : IsRoster max db.users db.teams)
    (found : select_one (has_id k) db.users ≡ some u) where
  abbrev After : Unit {0} → Db → Type 0
  After _ db' = Freed max k u db.users db'.users db.teams db'.teams

  retired-Freed :
      (t : ℕ) (team : Team)
      → u.team_id ≡ some t
      → not (should_cleanup_solo_team u (members_of t db.users) team) ≡ false
      → Freed max k u db.users db.users db.teams (retired t env.now db.teams)
  retired-Freed t team mine solo = record {
    users = refl;
    roster = retire-IsRoster max db.users db.teams r k u found t env.now mine (
        ground (
          arith,
          should_cleanup-alone u (members_of t db.users) team,
          length-members_of t db.users,
        ));
    others = λ s n. ground (arith, captain_in-retired s t env.now db.teams);
  }

  handle_solo_team_cleanup-Freed :
      (t actor : ℕ) (confirm : Bool)
      → u.team_id ≡ some t
      → Ensures After db (handle_solo_team_cleanup env u t actor confirm)
  unfolding handle_solo_team_cleanup get_team_by_id get_users_by_team_id soft_delete_team_tx
      delete_solves_by_team_id_tx create_team_audit_log_tx
  handle_solo_team_cleanup-Freed t actor confirm mine = then_query After db _ _ _ λ team e.
      then_gets After db _ _ (
        then_fail_if After db _ _ _ λ solo. then_fail_if After db _ _ _ λ g.
          then_block After db _ _ _ (
            then_query After db _ _ _ λ row e'.
              then_modify After db _ _ (
                then_modify After _ _ _
                  (ensure_modify After _ _ (retired-Freed t team mine solo)))))

  stays-Freed : u.team_id ≡ none → Freed max k u db.users db.users db.teams db.teams
  stays-Freed free = record {
    users = refl;
    roster =
        subst (λ us. IsRoster max us db.teams)
          (sym (ap (λ t. moved k t db.users) (sym free) ∙ moved_same k u db.users r.distinct found))
          r;
    others = λ s n. refl;
  }

  cleanup_team-Freed :
      (actor : ℕ) (confirm : Bool) (o : Option ℕ)
      → u.team_id ≡ o
      → Ensures After db (cleanup_team env u actor confirm o)
  cleanup_team-Freed actor confirm none free = ensure_pure After db tt (stays-Freed free)
  cleanup_team-Freed actor confirm (some t) mine =
      handle_solo_team_cleanup-Freed t actor confirm mine

  pub cleanup_if_in_team-Freed :
      (actor : ℕ) (confirm : Bool) → Ensures After db (cleanup_if_in_team env u actor confirm)
  unfolding cleanup_if_in_team
  cleanup_if_in_team-Freed actor confirm = cleanup_team-Freed actor confirm u.team_id refl
