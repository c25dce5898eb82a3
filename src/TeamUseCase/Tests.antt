-- ===== src/TeamUseCase/Tests.antt =====
-- Runs of the team operations on a small competition, and the theorems at those inputs.
use ctfboard.Samples.{running, user, team, start, at_time}
use ctfboard.Base.{◌≡◌, refl, true, false, some, none, List, [], ◌∷◌, map, arith, ℕ}
use ctfboard.Store.Transaction.{Db, Env}
use ctfboard.TeamUseCase.Validity.{IsValid}
use ctfboard.TeamUseCase.History.{
  Request, joins, leaves, kicks, transfers, disbands, creates, run, run-IsValid,
}
use ctfboard.TeamUseCase.History.{step}
use ctfboard.TeamUseCase.Create.{
  create, create_solo_team, create_tx, create_solo_team_tx, validate_team_name_available_tx,
  OperationResult, try_create, solo_team_reset, try_create_when_in_team_tx,
}
use ctfboard.TeamUseCase.Membership.{join, leave, join_tx, leave_tx}
use ctfboard.TeamUseCase.Captain.{
  transfer_captain, kick_member, disband_team, transfer_captain_tx, kick_member_tx, disband_team_tx,
  release_members,
}
use ctfboard.TeamUseCase.Cleanup.{cleanup_if_in_team, handle_solo_team_cleanup}
use ctfboard.Guard.{
  require_team_switch_and_teams_mode, require_team_switch_and_solo_mode, require_team_switch,
  get_competition,
}
use ctfboard.Entity.Competitions.{allows_solo, allows_teams}
use ctfboard.Store.Users.{
  lock_user_tx, get_user_by_id, get_users_by_team_id, update_user_team_id_tx,
}
use ctfboard.Store.Teams.{
  get_team_by_id, get_team_by_invite_token_tx, lock_team_tx, create_team_tx, soft_delete_team_tx,
  update_team_captain_tx, create_team_audit_log_tx, delete_solves_by_team_id_tx,
}
use ctfboard.Store.Transaction.{run_transaction, ◌>>=◌}
use ctfboard.Roster.Users.{size}
use ctfboard.TeamUseCase.Outcomes.{join_own_solo}
use ctfboard.Roster.Users.{team_in}
use ctfboard.Store.Teams.{find_team, with_team}
use ctfboard.Store.Users.{with_user_team}
use ctfboard.Store.Transaction.{ok}
use ctfboard.Entity.{
  TeamAuditAction, Details, member_kicked, target_user_id, captain_transferred, transfer, deleted,
  reason_solo_team_cleanup,
}
use ctfboard.TeamUseCase.Authority.{leader_of, kick_member_authority, transfer_captain_authority}
use ctfboard.Roster.Teams.{crowned, captain_in}
use ctfboard.Scoreboard.{World, get_scoreboard}
use ctfboard.TeamUseCase.Moderation.{ban_team}
use ctfboard.TeamUseCase.Banned.{after_ban, is_listed, ban_team_unlisted}
use ctfboard.Cache.Boards.{invalidate_all}
use ctfboard.Base.Int.{pos, ◌+ℤ◌}
use ctfboard.Store.Challenges.{get_team_score_tx, team_score, find_solve, find_challenge}
use ctfboard.TeamUseCase.Reset.{solo_reset_keeps_counts}

-- What a run of the operations unfolds.
opened : Unit {0}
unfolding run step create create_solo_team join leave transfer_captain kick_member disband_team
    create_tx create_solo_team_tx join_tx leave_tx transfer_captain_tx kick_member_tx
    disband_team_tx cleanup_if_in_team handle_solo_team_cleanup validate_team_name_available_tx
    release_members require_team_switch_and_teams_mode require_team_switch_and_solo_mode
    allows_teams allows_solo lock_user_tx get_user_by_id get_users_by_team_id update_user_team_id_tx
    get_team_by_id get_team_by_invite_token_tx lock_team_tx create_team_tx soft_delete_team_tx
    update_team_captain_tx create_team_audit_log_tx delete_solves_by_team_id_tx run_transaction
    ◌>>=◌
opened = tt

start-IsValid : IsValid 3 start
unfolding size
start-IsValid = record {
  distinct = (refl, (refl, (refl, (refl, tt))));
  led = λ t c e. ground (arith, e);
  live = λ k t e. ground (arith, e);
  within = λ t. ground arith;
}

abbrev requests : List (Env × Request)
requests =
    (at_time 1, joins 77 3 true)
    ∷ (at_time 2, joins 77 4 false)
    ∷ (at_time 3, transfers 1 3)
    ∷ (at_time 4, leaves 1)
    ∷ (at_time 5, kicks 3 2)
    ∷ (at_time 6, creates "blue" 1 false false)
    ∷ (at_time 7, disbands 3)
    ∷ []

run-IsValid_example : IsValid 3 (run 3 start requests)
unfolding opened
run-IsValid_example = run-IsValid 3 start requests (omega arith) start-IsValid (
  (λ t e q. ground (arith, e, q)),
  ((λ t e q. ground (arith, e, q)), (tt, (tt, (tt, (tt, (tt, tt)))))),
)

run-teams : map (λ u. u.team_id) (run 3 start requests).users ≡ some 1061 ∷ none ∷ none ∷ none ∷ []
unfolding opened
run-teams = refl

join_own_solo_example :
    (db' : Db) × (join_tx (at_time 1) 3 88 3 true start ≡ ok (team 20 "eve" 88 3 true, db'))
    × (team_in 3 db'.users ≡ some 20)
    × (find_team 20 db' ≡ none)
join_own_solo_example =
    join_own_solo (at_time 1) 3 88 3 (user 3 "eve" (some 20)) (team 20 "eve" 88 3 true) start refl
      refl refl refl refl refl (omega arith)

-- The tables after user 1 kicks user 2, hands the lead to user 2, and after user 2 leaves.
abbrev logged : Env → TeamAuditAction → Details → ℕ → Db → Db
logged env action details user_id db = record db {
  team_audit_log =
      record {
        id = env.uuid 2;
        team_id = 10;
        user_id = user_id;
        action = action;
        details = details;
        created_at = env.now;
      }
      ∷ db.team_audit_log;
}

kick_member_authority_example :
    (leader_of 1 start ≡ some 1)
    × (team_in 2 start.users ≡ team_in 1 start.users)
    × (team_in 2 (with_user_team 2 none start).users ≡ none)
unfolding opened
kick_member_authority_example =
    kick_member_authority (at_time 1) 1 2 2 start
      (logged (at_time 1) member_kicked (target_user_id 2) 1 (with_user_team 2 none start)) refl

transfer_captain_authority_example :
    (leader_of 1 start ≡ some 1)
    × (team_in 2 start.users ≡ team_in 1 start.users)
    × (leader_of 2 (record start { teams = crowned 10 2 start.teams }) ≡ some 2)
    × (captain_in 10 (crowned 10 2 start.teams) ≡ some 2)
unfolding opened
transfer_captain_authority_example =
    transfer_captain_authority (at_time 1) 1 2 10 start
      (logged (at_time 1) captain_transferred (transfer 1 2) 1
        (record start { teams = crowned 10 2 start.teams }))
      refl

abbrev world : World
world = record { db = start; boards = [] }

abbrev after_banning : World
after_banning = record { db = after_ban (at_time 1) 10 "cheating" start; boards = [] }

ban_team_unlisted_example : is_listed 10 (get_scoreboard 2 none after_banning).0 ≡ false
unfolding ban_team get_team_by_id invalidate_all ◌>>=◌
ban_team_unlisted_example = ban_team_unlisted (at_time 1) "cheating" 10 2 world after_banning refl

-- What user 3, alone in the solo team 20, is asked before a team "new" is created.
abbrev asked : OperationResult
asked = record {
  team = none;
  requires_confirm = true;
  confirmation_reason = solo_team_reset;
  affected_data = some (record { solve_count = pos 0; points = pos 0 });
}

eve_is_asked : try_create (at_time 1) "new" 3 false start ≡ (ok asked, start)
unfolding try_create try_create_when_in_team_tx require_team_switch_and_teams_mode
    require_team_switch get_competition get_user_by_id lock_user_tx get_users_by_team_id
    get_team_by_id get_team_score_tx run_transaction ◌>>=◌ allows_teams create team_score ◌+ℤ◌
eve_is_asked = refl

-- The solo team 20 has solved the only challenge.
abbrev played : Db
played = record running {
  solves = record { id = 1010; user_id = 3; team_id = 20; challenge_id = 5; solved_at = 1 } ∷ [];
}

abbrev reset : Db
reset = record (with_team 20 (λ t. record t { deleted_at = some 1 }) running) {
  team_audit_log =
      record {
        id = 1013;
        team_id = 20;
        user_id = 3;
        action = deleted;
        details = reason_solo_team_cleanup;
        created_at = 1;
      }
      ∷ [];
}

eve_is_reset :
    handle_solo_team_cleanup (at_time 1) (user 3 "eve" (some 20)) 20 3 true played ≡ ok (tt, reset)
unfolding handle_solo_team_cleanup get_team_by_id get_users_by_team_id soft_delete_team_tx
    delete_solves_by_team_id_tx create_team_audit_log_tx ◌>>=◌
eve_is_reset = refl

solo_reset_keeps_counts_example :
    (true ≡ true)
    × (find_solve 20 5 reset ≡ none)
    × (find_solve 10 5 reset ≡ find_solve 10 5 played)
    × (find_challenge 5 reset ≡ find_challenge 5 played)
solo_reset_keeps_counts_example =
    solo_reset_keeps_counts (at_time 1) (user 3 "eve" (some 20)) 20 3 10 5 true played reset
      (omega arith) eve_is_reset
