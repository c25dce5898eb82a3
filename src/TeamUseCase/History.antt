-- ===== src/TeamUseCase/History.antt =====
-- Any sequence of team requests. Each request runs to its end before the next one starts, with the
-- clock, ids and pool that its own environment gives.
use ctfboard.Base.{ℕ, ◌<◌, ◌≡◌, ◌≢◌, Bool, some, String, List, [], ◌∷◌, ◌==◌, if-cases, arith}
use ctfboard.Entity.{Team}
use ctfboard.Store.Transaction.{Db, Env, Result}
use ctfboard.Guard.{
  require_team_switch, require_team_switch_and_teams_mode, require_team_switch_and_solo_mode,
}
use ctfboard.Roster.Users.{team_in}
use ctfboard.TeamUseCase.Create.{create, create_solo_team, create_tx, create_solo_team_tx}
use ctfboard.TeamUseCase.Membership.{join, leave, join_tx, leave_tx}
use ctfboard.TeamUseCase.Captain.{
  transfer_captain, kick_member, disband_team, transfer_captain_tx, kick_member_tx, disband_team_tx,
}
use ctfboard.TeamUseCase.Validity.{IsValid, guarded-Keeps, after_guard-Keeps, run_transaction-Keeps}
use ctfboard.TeamUseCase.Validity.Join.{invited, join_tx-IsValid}
use ctfboard.TeamUseCase.Validity.Create.{create_tx-IsValid, create_solo_team_tx-IsValid}
use ctfboard.TeamUseCase.Validity.Crew.{
  leave_tx-IsValid, kick_member_tx-IsValid, transfer_captain_tx-IsValid,
}
use ctfboard.TeamUseCase.Validity.Disband.{disband_team_tx-IsValid}

pub data Request : Type 0 where
  creates : String → ℕ → Bool → Bool → Request
  creates_solo : ℕ → Bool → Request
  joins : ℕ → ℕ → Bool → Request
  leaves : ℕ → Request
  transfers kicks : ℕ → ℕ → Request
  disbands : ℕ → Request

-- The tables after a request, whether it succeeds or fails.
unfoldable pub step : ℕ → Db → Env × Request → Db
step max db (env, creates name k is_solo confirm) = (create env name k is_solo confirm db).1
step max db (env, creates_solo k confirm) = (create_solo_team env k confirm db).1
step max db (env, joins token k confirm) = (join env max token k confirm db).1
step max db (env, leaves k) = (leave env k db).1
step max db (env, transfers c k) = (transfer_captain env c k db).1
step max db (env, kicks c k) = (kick_member env c k db).1
step max db (env, disbands k) = (disband_team env k db).1

-- No user follows an invitation to the team where they already are.
abbrev pub IsFair : Db → Request → Type 0
IsFair db (joins token k confirm) =
    (t : Team) → invited token db ≡ some t → team_in k db.users ≢ some t.id
IsFair db _ = Unit {0}

step-IsValid :
    (max : ℕ) (db : Db) (r : Env × Request)
    → 0 < max
    → IsValid max db
    → IsFair db r.1
    → IsValid max (step max db r)
unfolding step create create_solo_team join leave transfer_captain kick_member disband_team
step-IsValid max db (env, creates name k is_solo confirm) room v f =
    guarded-Keeps (IsValid max) env require_team_switch_and_teams_mode
      (create_tx env name k is_solo confirm) db v
      (create_tx-IsValid env max db v room name k is_solo confirm)
step-IsValid max db (env, creates_solo k confirm) room v f =
    guarded-Keeps (IsValid max) env require_team_switch_and_solo_mode
      (create_solo_team_tx env k confirm) db v
      (create_solo_team_tx-IsValid env max db v room k confirm)
step-IsValid max db (env, joins token k confirm) room v f =
    guarded-Keeps (IsValid max) env require_team_switch (join_tx env max token k confirm) db v
      (join_tx-IsValid env max db v token k confirm f)
step-IsValid max db (env, leaves k) room v f =
    guarded-Keeps (IsValid max) env require_team_switch (leave_tx env k) db v
      (leave_tx-IsValid env max db v k)
step-IsValid max db (env, transfers c k) room v f =
    after_guard-Keeps (IsValid max) (require_team_switch db) _ db v (
      if-cases (λ (r : Result (Unit {0}) × Db). IsValid max r.1) (c == k) _ _ (λ _. v)
        (λ _.
          run_transaction-Keeps (IsValid max) env (transfer_captain_tx env c k) db v
            (transfer_captain_tx-IsValid env max db v c k)))
step-IsValid max db (env, kicks c k) room v f =
    after_guard-Keeps (IsValid max) (require_team_switch db) _ db v (
      if-cases (λ (r : Result (Unit {0}) × Db). IsValid max r.1) (c == k) _ _ (λ _. v)
        (λ e.
          run_transaction-Keeps (IsValid max) env (kick_member_tx env c k) db v
            (kick_member_tx-IsValid env max db v c k (λ q. ground (arith, e, q)))))
step-IsValid max db (env, disbands k) room v f =
    guarded-Keeps (IsValid max) env require_team_switch (disband_team_tx env k) db v
      (disband_team_tx-IsValid env max db v k)

unfoldable pub run : ℕ → Db → List (Env × Request) → Db
unfolding step
run max db [] = db
run max db (r ∷ rs) = run max (step max db r) rs

abbrev pub AreFair : ℕ → Db → List (Env × Request) → Type 0
AreFair max db [] = Unit {0}
AreFair max db (r ∷ rs) = IsFair db r.1 × AreFair max (step max db r) rs

-- After any sequence of requests, failed ones included, the roster is valid: no two users share an
-- id, every live team is led by one of its members, every user with a team is in a live one, and no
-- team has more than `max` members. This holds where the roster is valid at the start, `max` is not
-- 0, and nobody follows an invitation to the team where they already are.
pub run-IsValid :
    (max : ℕ) (db : Db) (rs : List (Env × Request))
    → 0 < max
    → IsValid max db
    → AreFair max db rs
    → IsValid max (run max db rs)
unfolding run
run-IsValid max db [] room v f = v
run-IsValid max db (r ∷ rs) room v f =
    run-IsValid max (step max db r) rs room (step-IsValid max db r room v f.0) f.1
