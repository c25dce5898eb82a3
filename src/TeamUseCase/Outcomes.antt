-- ===== src/TeamUseCase/Outcomes.antt =====
-- What the team operations return, and the tables that they leave, in the cases that users meet.
use ctfboard.Base.{
  ℕ, ◌<◌, ◌≤◌, ◌≡◌, refl, Bool, true, some, none, String, List, [], ◌∷◌, ◌==◌, arith, select_one,
  length, exists_where, str_eq, ◌||◌, delete_where, str_eq_iff,
}
use ctfboard.Entity.{User, Team, joined, no_details, deleted, reason_solo_team_cleanup}
use ctfboard.Entity.Errors.{team_full, unique_violation}
use ctfboard.Store.Transaction.{Db, Env, ok, err, ◌>>=◌}
use ctfboard.Store.Users.{
  find_user, with_user_team, members_of, lock_user_tx, get_user_by_id, get_users_by_team_id,
  update_user_team_id_tx,
}
use ctfboard.Store.Teams.{
  find_team, find_team_by_name, get_team_by_id, get_team_by_invite_token_tx, lock_team_tx,
  create_team_tx, soft_delete_team_tx, create_team_audit_log_tx, delete_solves_by_team_id_tx,
  is_live_id, of_team,
}
use ctfboard.TeamUseCase.Cleanup.{cleanup_if_in_team, handle_solo_team_cleanup}
use ctfboard.TeamUseCase.Membership.{join_tx}
use ctfboard.TeamUseCase.Create.{create_tx, validate_team_name_available_tx, create_solo_team_tx}
use ctfboard.TeamUseCase.Validity.Join.{invited}
use ctfboard.Roster.Teams.{row-found, retired}
use ctfboard.Roster.Users.{team_in, team_in-moved_self}

-- A full team takes nobody, and the tables stay as they were.
pub join_full :
    (env : Env) (max token k : ℕ) (confirm : Bool) (u : User) (t : Team) (db : Db)
    → find_user k db ≡ some u
    → invited token db ≡ some t
    → max ≤ length (members_of t.id db.users)
    → join_tx env max token k confirm db ≡ err team_full
unfolding join_tx lock_user_tx get_team_by_invite_token_tx lock_team_tx get_users_by_team_id ◌>>=◌
join_full env max token k confirm u t db eu et full =
    ground (arith, row-found (λ x. x.invite_token == token) t db.teams et)

-- The tables after a user has joined a team.
abbrev pub after_join : Env → ℕ → ℕ → Db → Db
after_join env k t db = record (with_user_team k (some t) db) {
  team_audit_log =
      record {
        id = env.uuid 2;
        team_id = t;
        user_id = k;
        action = joined;
        details = no_details;
        created_at = env.now;
      }
      ∷ db.team_audit_log;
}

-- A user without a team joins any team that has room: the user's row and the log change, nothing else.
pub join_free :
    (env : Env) (max token k : ℕ) (confirm : Bool) (u : User) (t : Team) (db : Db)
    → find_user k db ≡ some u
    → u.team_id ≡ none
    → invited token db ≡ some t
    → length (members_of t.id db.users) < max
    → join_tx env max token k confirm db ≡ ok (t, after_join env k t.id db)
unfolding join_tx lock_user_tx get_team_by_invite_token_tx lock_team_tx get_users_by_team_id
    get_user_by_id cleanup_if_in_team update_user_team_id_tx create_team_audit_log_tx ◌>>=◌
join_free env max token k confirm u t db eu free et room =
    ground (arith, row-found (λ x. x.invite_token == token) t db.teams et)

-- The tables after a user has given up a solo team.
abbrev pub after_cleanup : Env → ℕ → ℕ → Db → Db
after_cleanup env k t db = record db {
  teams = retired t env.now db.teams;
  solves = delete_where (of_team t) db.solves;
  team_audit_log =
      record {
        id = env.uuid 3;
        team_id = t;
        user_id = k;
        action = deleted;
        details = reason_solo_team_cleanup;
        created_at = env.now;
      }
      ∷ db.team_audit_log;
}

find_team-retired :
    (k now : ℕ) (ts : List Team) → select_one (is_live_id k) (retired k now ts) ≡ none
find_team-retired k now [] = refl
find_team-retired k now (t ∷ ts) = ground (arith, find_team-retired k now ts)

-- A user alone in a solo team who follows that team's own invitation and confirms the reset is told
-- that they joined, and is left in a deleted team.
pub join_own_solo :
    (env : Env) (max token k : ℕ) (u : User) (t : Team) (db : Db)
    → find_user k db ≡ some u
    → invited token db ≡ some t
    → find_team t.id db ≡ some t
    → u.team_id ≡ some t.id
    → members_of t.id db.users ≡ u ∷ []
    → t.is_solo ≡ true
    → 1 < max
    → (db' : Db) × (join_tx env max token k true db ≡ ok (t, db'))
      × (team_in k db'.users ≡ some t.id)
      × (find_team t.id db' ≡ none)
unfolding join_tx lock_user_tx get_team_by_invite_token_tx lock_team_tx get_users_by_team_id
    get_user_by_id cleanup_if_in_team handle_solo_team_cleanup get_team_by_id soft_delete_team_tx
    delete_solves_by_team_id_tx update_user_team_id_tx create_team_audit_log_tx ◌>>=◌
join_own_solo env max token k u t db eu et el mine alone solo room = (
  after_join env k t.id (after_cleanup env k t.id db),
  ground (arith, row-found (λ x. x.invite_token == token) t db.teams et),
  team_in-moved_self k (some t.id) db.users (λ e. ground (arith, e)),
  find_team-retired t.id env.now db.teams,
)

-- The name of a deleted team is available to the check and taken for the insert, so `Create` fails
-- with a violation of the database's constraint and not with `ErrTeamAlreadyExists`.
pub create_deleted_name :
    (env : Env) (name : String) (k : ℕ) (is_solo confirm : Bool) (u : User) (db : Db)
    → find_user k db ≡ some u
    → u.team_id ≡ none
    → find_team_by_name name db ≡ none
    → exists_where (λ t. t.id == env.uuid 1 || str_eq t.name name) db.teams ≡ true
    → create_tx env name k is_solo confirm db ≡ err unique_violation
unfolding create_tx lock_user_tx validate_team_name_available_tx get_user_by_id cleanup_if_in_team
    create_team_tx ◌>>=◌
create_deleted_name env name k is_solo confirm u db eu free live taken = ground arith

name_stays_taken :
    (k now fresh : ℕ) (name : String) (t : Team) (ts : List Team)
    → select_one (is_live_id k) ts ≡ some t
    → t.name ≡ name
    → exists_where (λ x. x.id == fresh || str_eq x.name name) (retired k now ts) ≡ true
name_stays_taken k now fresh name t [] e n = cc
name_stays_taken k now fresh name t (x ∷ ts) e n =
    ground (arith, name_stays_taken k now fresh name t ts, str_eq_iff x.name name)

-- A user alone in the solo team that bears their name asks for a new solo team and confirms the
-- reset. The old team's row keeps the name, so the request fails with the database's error and
-- nothing changes.
pub create_solo_again :
    (env : Env) (k : ℕ) (u : User) (t : Team) (db : Db)
    → find_user k db ≡ some u
    → find_team t.id db ≡ some t
    → u.team_id ≡ some t.id
    → members_of t.id db.users ≡ u ∷ []
    → t.is_solo ≡ true
    → t.name ≡ u.username
    → find_team_by_name u.username (after_cleanup env k t.id db) ≡ none
    → create_solo_team_tx env k true db ≡ err unique_violation
unfolding create_solo_team_tx lock_user_tx get_users_by_team_id get_user_by_id cleanup_if_in_team
    handle_solo_team_cleanup get_team_by_id soft_delete_team_tx delete_solves_by_team_id_tx
    create_team_tx create_team_audit_log_tx ◌>>=◌
create_solo_again env k u t db eu et mine alone solo same free =
    ground (arith, name_stays_taken t.id env.now (env.uuid 1) u.username t db.teams et same)
