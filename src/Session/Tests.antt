-- ===== src/Session/Tests.antt =====
-- A player of team 10 submits a flag with the access token of a login.
use ctfboard.Samples.{packages, jwt, start, at_time, user, settings}
use ctfboard.Entity.{User}
use ctfboard.Store.Transaction.{Db}
use ctfboard.Session.Middleware.{
  submit_gate, Identity, inject_user, competition_active, require_verified, require_team, auth,
  auth_bearer, split_space, pass,
}
use ctfboard.Base.{some, ◌∷◌, ℕ, true, ◌≡◌, refl}
use ctfboard.Session.Tokens.{validate_access_token}
use ctfboard.Store.Users.{get_user_by_id, find_user}
use ctfboard.Entity.Competitions.{Competition, is_submission_allowed}
use ctfboard.Store.Statement.{exec}
use ctfboard.Session.Gate.{submit_gate_sound, IsVerified, HasTeam}
use ctfboard.Session.Holder.{IsHolder}

abbrev zoe : User
zoe = user 3000 "zoe" (some 10)

abbrev joined : Db
joined = record start { users = zoe ∷ start.users }

passes :
    submit_gate packages jwt (at_time 310) true (some settings) "Bearer signed" joined
    ≡ pass (some zoe)
unfolding submit_gate inject_user competition_active require_verified require_team auth auth_bearer
    validate_access_token split_space get_user_by_id is_submission_allowed exec
passes = refl

submit_gate_sound_example :
    (u : User) × (who : Identity) × (k : ℕ) × (c : Competition) × (some zoe ≡ some u)
    × IsHolder packages jwt 310 joined who
    × (packages.parse_uuid who.user_id ≡ some k)
    × (find_user k joined ≡ some u)
    × (some settings ≡ some c)
    × (is_submission_allowed c 310 ≡ true)
    × IsVerified true u
    × HasTeam u
submit_gate_sound_example =
    submit_gate_sound packages jwt (at_time 310) true (some settings) "Bearer signed" (some zoe)
      joined passes
