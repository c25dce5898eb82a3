-- ===== src/Store/Challenges.antt =====
-- The statements on the tables `challenges`, `solves` and `awards`:
-- backend/internal/repo/persistent/tx_competition.go and tx_core.go.
use ctfboard.Base.{
  not, true, ℕ, Bool, Option, none, some, List, [], ◌∷◌, ◌==◌, ◌&&◌, ◌||◌, select_one, update_where,
  exists_where, if◌then◌else◌, ◌≡◌, arith, delete_where, String, str_eq, mapped,
}
use ctfboard.Base.Int.{ℤ, pos, negsuc, ◌+ℤ◌, ltb_ℤ}
use ctfboard.Entity.{User, EntityId, Challenge, Solve, Award}
use ctfboard.Entity.Errors.{
  challenge_not_found, already_solved, int32_range, driver_failed, foreign_key_violation,
}
use ctfboard.Store.Transaction.{Db, Tx, query, gets, modify, fail_if, pure, ◌>>=◌, ◌>>◌, Env}

abbrev pub has_challenge_id : ℕ → Challenge → Bool
has_challenge_id k c = c.id == k

abbrev pub find_challenge : ℕ → Db → Option Challenge
find_challenge k db = select_one (has_challenge_id k) db.challenges

-- `GetChallengeByIDTx`, which locks the row, and `ChallengeRepo.GetByID`
unfoldable pub get_challenge_by_id : ℕ → Tx Challenge
get_challenge_by_id k = query (find_challenge k) challenge_not_found

abbrev pub with_challenge : ℕ → (Challenge → Challenge) → Db → Db
with_challenge k f db = record db { challenges = update_where (has_challenge_id k) f db.challenges }

-- `intToInt32Safe` refuses what `i < math.MinInt32 || i > math.MaxInt32`
unfoldable pub outside_int32 : ℤ → Bool
outside_int32 i = ltb_ℤ i (negsuc 2_147_483_647) || ltb_ℤ (pos 2_147_483_647) i

-- `UPDATE challenges SET solve_count = solve_count + 1 WHERE id = $1 RETURNING solve_count`: no row, like
-- a count that does not fit the column, is an error of the driver.
unfoldable pub increment_challenge_solve_count_tx : ℕ → Tx ℤ
increment_challenge_solve_count_tx k = do
  c ← query (find_challenge k) driver_failed
  fail_if (outside_int32 (c.solve_count +ℤ pos 1)) driver_failed
  modify (with_challenge k (λ c. record c { solve_count = c.solve_count +ℤ pos 1 }))
  pure (c.solve_count +ℤ pos 1)

-- `UpdateChallengePointsTx`
unfoldable pub update_challenge_points_tx : ℕ → ℤ → Tx (Unit {0})
update_challenge_points_tx k points = do
  fail_if (outside_int32 points) int32_range
  query (find_challenge k) challenge_not_found
  modify (with_challenge k (λ c. record c { points = points }))

-- `DeleteChallengeTx`: what refers to the challenge goes with it (`ON DELETE CASCADE`): its solves, its
-- submissions and comments, its hints and their unlocks.
unfoldable pub delete_challenge_tx : ℕ → Tx (Unit {0})
delete_challenge_tx k = do
  query (find_challenge k) challenge_not_found
  modify λ db. record db {
    challenges = delete_where (has_challenge_id k) db.challenges;
    solves = delete_where (λ s. s.challenge_id == k) db.solves;
    submissions = delete_where (λ s. s.challenge_id == k) db.submissions;
    comments = delete_where (λ c. c.challenge_id == k) db.comments;
    hints = delete_where (λ h. h.challenge_id == k) db.hints;
    hint_unlocks =
        delete_where (λ u. exists_where (λ h. h.id == u.hint_id && h.challenge_id == k) db.hints)
          db.hint_unlocks;
  }

abbrev pub is_solve_of : ℕ → ℕ → Solve → Bool
is_solve_of team_id challenge_id s = s.team_id == team_id && s.challenge_id == challenge_id

abbrev pub find_solve : ℕ → ℕ → Db → Option Solve
find_solve team_id challenge_id db = select_one (is_solve_of team_id challenge_id) db.solves

-- `CreateSolveTx`: a second solve of the team, or a key in use, is a unique violation, which the
-- repository reports as `ErrAlreadySolved`; the user, the team and the challenge must exist.
unfoldable pub create_solve_tx : Solve → Tx (Unit {0})
create_solve_tx s = do
  taken ←
      gets
        (λ db. exists_where (λ x. x.id == s.id || is_solve_of s.team_id s.challenge_id x) db.solves)
  fail_if taken already_solved
  known ← gets λ db.
      exists_where (λ u. u.id == s.user_id) db.users
      && (exists_where (λ t. t.id == s.team_id) db.teams
          && exists_where (has_challenge_id s.challenge_id) db.challenges)
  fail_if (not known) foreign_key_violation
  modify (λ db. record db { solves = s ∷ db.solves })

-- `GetSolveByTeamAndChallengeTx`, as a test for a row
unfoldable pub solve_exists_tx : ℕ → ℕ → Tx Bool
solve_exists_tx team_id challenge_id =
    gets (λ db. exists_where (is_solve_of team_id challenge_id) db.solves)

-- The points of a row that joins `solves` with `challenges` on the challenge's key.
abbrev pub points_of : Option Challenge → ℤ
points_of none = pos 0
points_of (some c) = c.points

-- `SELECT SUM(c.points) FROM solves s JOIN challenges c ON c.id = s.challenge_id WHERE s.team_id = k`
abbrev pub sum_solves : ℕ → List Challenge → List Solve → ℤ
sum_solves k cs [] = pos 0
sum_solves k cs (s ∷ ss) =
    if s.team_id == k
    then points_of (select_one (has_challenge_id s.challenge_id) cs) +ℤ sum_solves k cs ss
    else sum_solves k cs ss

-- `SELECT SUM(value) FROM awards WHERE team_id = k`
abbrev pub sum_awards : ℕ → List Award → ℤ
sum_awards k [] = pos 0
sum_awards k (a ∷ as_) = if a.team_id == k then a.value +ℤ sum_awards k as_ else sum_awards k as_

unfoldable pub team_score : ℕ → Db → ℤ
team_score k db = sum_solves k db.challenges db.solves +ℤ sum_awards k db.awards

-- `GetTeamScoreTx`
unfoldable pub get_team_score_tx : ℕ → Tx ℤ
get_team_score_tx k = gets (team_score k)

abbrev pub is_known : Option ℕ → List User → Bool
is_known none us = true
is_known (some k) us = exists_where (λ u. u.id == k) us

-- `CreateAwardTx`: the team, and the user who gives the award where there is one, must exist.
unfoldable pub create_award_tx : Award → Tx (Unit {0})
create_award_tx a = do
  fail_if (outside_int32 a.value) int32_range
  known ←
      gets (λ db. exists_where (λ t. t.id == a.team_id) db.teams && is_known a.created_by db.users)
  fail_if (not known) foreign_key_violation
  modify (λ db. record db { awards = a ∷ db.awards })

-- An update under a key that keeps the keys changes the row of that key and no other.
pub find_challenge-update :
    (j k : ℕ) (f : Challenge → Challenge) (cs : List Challenge)
    → ((c : Challenge) → (f c).id ≡ c.id)
    → select_one (has_challenge_id j) (update_where (has_challenge_id k) f cs) ≡ (
        if j == k
        then mapped f (select_one (has_challenge_id j) cs)
        else select_one (has_challenge_id j) cs)
find_challenge-update j k f [] h = ground arith
find_challenge-update j k f (c ∷ cs) h = ground (arith, h c, find_challenge-update j k f cs h)

pub found_challenge_key :
    (k : ℕ) (c : Challenge) (cs : List Challenge)
    → select_one (has_challenge_id k) cs ≡ some c
    → c.id ≡ k
found_challenge_key k c [] e = cc
found_challenge_key k c (x ∷ xs) e = ground (arith, e, found_challenge_key k c xs)

-- `strPtrOrNil`
abbrev pub str_ptr_or_nil : String → Option String
str_ptr_or_nil s = if str_eq s "" then none else some s

-- `CreateAuditLogTx`
unfoldable pub create_audit_log_tx :
    Env → Option ℕ → String → String → EntityId → String → Tx (Unit {0})
create_audit_log_tx env user_id action entity_type entity_id ip = modify λ db. record db {
  audit_log =
      record {
        id = env.uuid 2;
        user_id = user_id;
        action = action;
        entity_type = entity_type;
        entity_id = entity_id;
        ip = str_ptr_or_nil ip;
        created_at = env.now;
      }
      ∷ db.audit_log;
}
