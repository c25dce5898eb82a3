-- ===== src/UserUseCase.antt =====
-- backend/internal/usecase/user/user.go and apitoken.go: registration, login and API tokens.
pub mod Registered
pub mod Login
pub mod Forms
pub mod Tokens
mod Tests
use ctfboard.Base.{
  [], ◌∷◌, none, some, true, false, List, ℕ, Option, String, if◌then◌else◌, ◌==◌, Bool, select_many,
  not, ◌+◌,
}
use ctfboard.Store.Statement.{Act, pure, fail, fail_if, exec, ◌>>=◌, ◌>>◌}
use ctfboard.Store.Transaction.{ok, err, Db, Env, Result, gets, run_transaction}
use ctfboard.Entity.Errors.{
  Error, invalid_field_id, custom_fields_invalid, user_already_exists, custom_fields_unsaved,
  hash_failed, invalid_credentials, invalid_token, user_not_found,
}
use ctfboard.Session.Tokens.{Packages, JwtService, TokenPair, generate_token_pair}
use ctfboard.FieldUseCase.{validate_values}
use ctfboard.Entity.{User, Solve}
use ctfboard.Store.Accounts.{get_by_username, get_by_email, create_user_tx}
use ctfboard.Store.Users.{get_user_by_id}
use ctfboard.Entity.Fields.{user_entity}
use ctfboard.Store.Fields.{upsert_field_value, delete_field_values}

-- `map[string]string`, in the order in which Go visits it
abbrev pub CustomFields : Type 0
CustomFields = List (String × String)

abbrev pub from_option : {A : Type 0} → Error → Option A → Act A
from_option e none = fail e
from_option e (some a) = pure a

abbrev pub masked_result : {A : Type 0} → Error → Result A × Db → Result A × Db
masked_result e (ok a, db) = (ok a, db)
masked_result e (err _, db) = (err e, db)

-- `if err := m; err != nil { return fmt.Errorf(...) }` without `%w`
abbrev pub masked : {A : Type 0} → Error → Act A → Act A
masked e m db = masked_result e (m db)

-- `fieldValues[id] = v`
abbrev pub put : ℕ → String → List (ℕ × String) → List (ℕ × String)
put k v [] = (k, v) ∷ []
put k v ((j, w) ∷ rest) = if j == k then (k, v) ∷ rest else (j, w) ∷ put k v rest

abbrev put_parsed : Option ℕ → String → List (ℕ × String) → Option (List (ℕ × String))
put_parsed none v values = none
put_parsed (some k) v values = some (put k v values)

unfoldable pub parse_fields :
    Packages → CustomFields → List (ℕ × String) → Option (List (ℕ × String))
parse_fields P [] values = some values
parse_fields P ((s, v) ∷ rest) values = elim (put_parsed (P.parse_uuid s) v values) [
  | none ↦ none
  | some values' ↦ parse_fields P rest values'
]

abbrev validate_parsed : Env → Option (List (ℕ × String)) → Act (Unit {0})
validate_parsed env none = fail invalid_field_id
validate_parsed env (some values) =
    masked custom_fields_invalid (validate_values env 0 user_entity values)

-- `registerValidateCustomFields`
unfoldable pub register_validate_custom_fields : Packages → Env → CustomFields → Act (Unit {0})
unfolding validate_values parse_fields
register_validate_custom_fields P env [] = pure tt
register_validate_custom_fields P env (c ∷ cs) = validate_parsed env (parse_fields P (c ∷ cs) [])

abbrev pub is_user_not_found : Error → Bool
is_user_not_found user_not_found = true
is_user_not_found _ = false

abbrev free : Result User × Db → Result (Unit {0}) × Db
free (ok _, db) = (err user_already_exists, db)
free (err e, db) = (if is_user_not_found e then ok tt else err e, db)

-- `registerCheckUsernameAvailable`
unfoldable pub register_check_username_available : Env → String → Act (Unit {0})
unfolding get_by_username
register_check_username_available env username db = free (exec env 1 (get_by_username username) db)

-- `registerCheckEmailAvailable`
unfoldable pub register_check_email_available : Env → String → Act (Unit {0})
unfolding get_by_email
register_check_email_available env email db = free (exec env 2 (get_by_email email) db)

-- The loop of `SetValues`, from its `n`-th statement on
unfoldable pub set_values : Packages → Env → ℕ → ℕ → CustomFields → Act (Unit {0})
set_values P env n k [] = pure tt
set_values P env n k ((s, v) ∷ rest) = do
  id ← from_option invalid_field_id (P.parse_uuid s)
  exec env n (upsert_field_value env n id k v)
  set_values P env (n + 1) k rest

-- `registerSetCustomFields`
unfoldable pub register_set_custom_fields : Packages → Env → ℕ → CustomFields → Act (Unit {0})
unfolding set_values
register_set_custom_fields P env k [] = pure tt
register_set_custom_fields P env k (c ∷ cs) =
    masked custom_fields_unsaved
      (do exec env 3 (delete_field_values k); set_values P env 4 k (c ∷ cs))

-- `Register`
unfoldable pub register : Packages → Env → String → String → String → CustomFields → Act User
unfolding register_validate_custom_fields register_check_username_available
    register_check_email_available create_user_tx register_set_custom_fields
register P env username email password custom_fields = do
  register_validate_custom_fields P env custom_fields
  register_check_username_available env username
  register_check_email_available env email
  hash ← from_option hash_failed (P.generate_from_password password)
  user ← run_transaction env (create_user_tx env username email hash "user")
  register_set_custom_fields P env user.id custom_fields
  pure user

abbrev known_user : Result User × Db → Result User × Db
known_user (ok u, db) = (ok u, db)
known_user (err e, db) = (err (if is_user_not_found e then invalid_credentials else e), db)

-- `Login`
unfoldable pub login : Packages → JwtService → Env → String → String → Act TokenPair
unfolding get_by_email
login P J env email password = do
  user ← λ db. known_user (exec env 0 (get_by_email email) db)
  fail_if (not (P.compare_hash_and_password user.password_hash password)) invalid_credentials
  from_option invalid_token
      (generate_token_pair P J env.now user.id user.email user.username user.role)

pub record UserProfile : Type 0 where
  pub user : User
  pub solves : List Solve

-- `GetProfile`
unfoldable pub get_profile : Env → ℕ → Act UserProfile
get_profile env k = do
  user ← exec env 0 (get_user_by_id k)
  solves ← exec env 1 (gets (λ db. select_many (λ s. s.user_id == k) db.solves))
  pure (record { user = record user { password_hash = "" }; solves = solves })
