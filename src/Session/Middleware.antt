-- ===== src/Session/Middleware.antt =====
-- backend/internal/controller/restapi/middleware: auth.go, user.go, require_verified.go,
-- require_team.go and competition.go, and their order in v1/router.go.
use Prim.Native.Char.{code}
use ctfboard.Base.{
  none, some, true, false, String, ℕ, Option, if◌then◌else◌, Bool, ◌==◌, str_eq, not, ltb, ◌||◌,
}
use ctfboard.Store.Statement.{exec}
use ctfboard.Session.Tokens.{CustomClaims, validate_access_token, Packages, JwtService}
use ctfboard.Entity.Accounts.{ApiToken}
use ctfboard.Store.Transaction.{Result, Env, Db, err, ok}
use ctfboard.Entity.{User}
use ctfboard.Entity.Competitions.{
  Competition, is_submission_allowed, CompetitionStatus, get_status, ended,
}
use ctfboard.Store.ApiTokens.{update_last_used_at, get_by_token_hash}
use ctfboard.Store.Users.{get_user_by_id}
use ctfboard.Golang.{trim_space}

-- `strings.SplitN(s, " ", 2)`, where it gives two parts
unfoldable pub split_space : String → Option (String × String)
split_space String.[] = none
split_space (String.◌∷◌ c s) =
    let rest = split_space s in
    if code c == 32
    then some ("", s)
    else elim rest [ none ↦ none | some (a, b) ↦ some (String.◌∷◌ c a, b) ]

-- What the context carries after `Auth`
pub record Identity : Type 0 where
  pub user_id : String
  pub role : String

-- A handler is called, or the request is answered with an HTTP status.
pub data Gate (A : Type 0) : Type 0 where
  pass : A → Gate A
  refuse : ℕ → Gate A

abbrev pub bearer_from : Option CustomClaims → Gate Identity
bearer_from none = refuse 401
bearer_from (some c) = pass (record { user_id = c.user_id; role = c.role })

-- `authBearer`
unfoldable pub auth_bearer : Packages → JwtService → ℕ → String → Gate Identity
unfolding validate_access_token
auth_bearer P J now text = bearer_from (validate_access_token P J now text)

-- `ValidateToken`
unfoldable pub validate_token : ℕ → Option ApiToken → Bool
validate_token now none = false
validate_token now (some t) = elim t.expires_at [ none ↦ true | some e ↦ not (ltb e now) ]

abbrev pub let_in : Packages → Env → ApiToken → Result User × Db → Gate Identity × Db
let_in P env t (err e, db) = (refuse 401, db)
let_in P env t (ok u, db) = (
  pass (record { user_id = P.uuid_string u.id; role = u.role }),
  (exec env 2 (update_last_used_at t.id env.now) db).1,
)

abbrev pub with_api_token : Packages → Env → Result (Option ApiToken) × Db → Gate Identity × Db
with_api_token P env (err e, db) = (refuse 401, db)
with_api_token P env (ok none, db) = (refuse 401, db)
with_api_token P env (ok (some t), db) =
    if validate_token env.now (some t)
    then let_in P env t (exec env 1 (get_user_by_id t.user_id) db)
    else (refuse 401, db)

-- `authAPIToken`; that the token was used is recorded if the database answers.
unfoldable pub auth_api_token : Packages → Env → String → Db → Gate Identity × Db
unfolding validate_token
auth_api_token P env plaintext db =
    if str_eq (trim_space plaintext) ""
    then (refuse 401, db)
    else with_api_token P env
        (exec env 0 (get_by_token_hash (P.sha256_hex (trim_space plaintext))) db)

abbrev pub auth_parts :
    Packages → JwtService → Env → Option (String × String) → Db → Gate Identity × Db
auth_parts P J env none db = (refuse 401, db)
auth_parts P J env (some (scheme, text)) db =
    if str_eq scheme "Bearer"
    then (auth_bearer P J env.now text, db)
    else if str_eq scheme "Token"
    then auth_api_token P env text db
    else (refuse 401, db)

-- `Auth`, with the header's value; an empty one has no space.
unfoldable pub auth : Packages → JwtService → Env → String → Db → Gate Identity × Db
unfolding auth_bearer auth_api_token
auth P J env header db = auth_parts P J env (split_space header) db

-- `Admin`
unfoldable pub admin : Identity → Gate (Unit {0})
admin who = if str_eq who.role "admin" then pass tt else refuse 403

abbrev pub injected : Result User × Db → Gate (Option User)
injected (ok u, db) = pass (some u)
injected (err e, db) = refuse 401

abbrev pub inject_parsed : Env → Db → Option ℕ → Gate (Option User)
inject_parsed env db none = refuse 400
inject_parsed env db (some k) = injected (exec env 3 (get_user_by_id k) db)

-- `InjectUser`, after `Auth`: the user in the context, if there is one. Where the context names nobody,
-- the request goes on without a user.
unfoldable pub inject_user : Packages → Env → Identity → Db → Gate (Option User)
inject_user P env who db =
    if str_eq who.user_id "" then pass none else inject_parsed env db (P.parse_uuid who.user_id)

abbrev verified : Option User → Gate (Option User)
verified none = refuse 401
verified (some u) = if str_eq u.role "admin" || u.is_verified then pass (some u) else refuse 403

-- `RequireVerified`, with the user in the context, like those below
unfoldable pub require_verified : Bool → Option User → Gate (Option User)
require_verified verify_emails o = if verify_emails then verified o else pass o

abbrev teamed : User → Option ℕ → Gate (Option User)
teamed u none = refuse 403
teamed u (some _) = pass (some u)

-- `RequireTeam`
unfoldable pub require_team : Option User → Gate (Option User)
require_team none = refuse 401
require_team (some u) = if str_eq u.role "admin" then pass (some u) else teamed u u.team_id

-- `CompetitionActive`, with what `CompetitionUseCase.Get` answers
unfoldable pub competition_active : ℕ → Option Competition → Option User → Gate (Option User)
competition_active now none o = refuse 500
competition_active now (some c) o = if is_submission_allowed c now then pass o else refuse 403

abbrev is_ended : CompetitionStatus → Bool
is_ended ended = true
is_ended _ = false

-- `CompetitionEnded`
unfoldable pub competition_ended : ℕ → Option Competition → Option User → Gate (Option User)
unfolding get_status
competition_ended now none o = refuse 500
competition_ended now (some c) o = if is_ended (get_status c now) then pass o else refuse 403

abbrev pub then_gate : {A B : Type 0} → Gate A → (A → Gate B) → Gate B
then_gate (pass a) f = f a
then_gate (refuse s) f = refuse s

-- The chain before `PostChallengesIDSubmit`, without the rate limits
unfoldable pub submit_gate :
    Packages → JwtService → Env → Bool → Option Competition → String → Db → Gate (Option User)
unfolding auth inject_user competition_active require_verified require_team
submit_gate P J env verify_emails comp header db =
    let (who, db') = auth P J env header db in
    then_gate who λ i. then_gate (inject_user P env i db') λ o.
      then_gate (competition_active env.now comp o)
        λ o. then_gate (require_verified verify_emails o) λ o. require_team o
