-- ===== src/EmailUseCase.antt =====
-- backend/internal/usecase/email/email.go: tokens that prove that a user reads an email address. Each
-- repository call is a statement of its own; only the token's hash is stored.
pub mod Sent
pub mod Reset
pub mod Forgotten
mod Tests
use ctfboard.Base.{
  [], ◌∷◌, none, some, true, false, ℕ, String, Option, Bool, not, if◌then◌else◌, ◌+◌,
}
use ctfboard.Store.Statement.{Act, pure, fail, fail_if, exec, ◌>>=◌, ◌>>◌}
use ctfboard.Store.Transaction.{ok, err, Db, Env, Result, gets, run_transaction}
use ctfboard.Entity.Accounts.{
  TokenType, VerificationToken, same_type, email_verification, password_reset, is_expired, is_used,
}
use ctfboard.Entity.Errors.{
  mail_failed, token_not_found, token_expired, token_already_used, random_failed, hash_failed,
}
use ctfboard.Session.Tokens.{Packages}
use ctfboard.Store.Accounts.{
  delete_by_user_and_type, get_by_email, get_by_token, create_token, set_verified, update_password,
}
use ctfboard.Entity.{User}
use ctfboard.UserUseCase.{from_option, is_user_not_found}
use ctfboard.Store.Users.{get_user_by_id}

-- `EmailDeps`; times to live are in seconds, and `sends` tells whether the mailer takes a message.
pub record EmailDeps : Type 0 where
  pub verify_ttl : ℕ
  pub reset_ttl : ℕ
  pub enabled : Bool
  pub sends : Bool

-- The message, by what its template is filled with: the address, the name, and the token in the link
pub record Message : Type 0 where
  pub to : String
  pub username : String
  pub token : String
  pub purpose : TokenType

abbrev pub send : EmailDeps → Message → Act (Option Message)
send D msg = do fail_if (not D.sends) mail_failed; pure (some msg)

-- A fresh token for the user in place of the old ones, and the message that carries it
abbrev pub issue : Packages → EmailDeps → Env → TokenType → ℕ → User → Act (Option Message)
issue P D env type ttl user = do
  exec env 1 (delete_by_user_and_type user.id type)
  token ← from_option random_failed P.random_token
  exec env 2 (create_token env user.id (P.sha256_hex token) type (env.now + ttl))
  send D (record { to = user.email; username = user.username; token = token; purpose = type })

-- `SendVerificationEmail`: the message, if the use case is enabled
unfoldable pub send_verification_email : Packages → EmailDeps → Env → User → Act (Option Message)
unfolding delete_by_user_and_type create_token
send_verification_email P D env user =
    if D.enabled then issue P D env email_verification D.verify_ttl user else pure none

abbrev reset_for : Packages → EmailDeps → Env → Result User × Db → Result (Option Message) × Db
reset_for P D env (err e, db) = (if is_user_not_found e then ok none else err e, db)
reset_for P D env (ok user, db) = issue P D env password_reset D.reset_ttl user db

-- `SendPasswordResetEmail`: for an address that nobody has, nothing is sent and no error is told.
unfoldable pub send_password_reset_email :
    Packages → EmailDeps → Env → String → Act (Option Message)
unfolding get_by_email delete_by_user_and_type create_token
send_password_reset_email P D env email db =
    if D.enabled then reset_for P D env (exec env 0 (get_by_email email) db) else (ok none, db)

-- The checks of a stored token that both uses of one begin with
unfoldable pub accept_token : Env → TokenType → VerificationToken → Act VerificationToken
accept_token env type token = do
  fail_if (not (same_type token.token_type type)) token_not_found
  fail_if (is_expired env.now token) token_expired
  fail_if (is_used token) token_already_used
  pure token

abbrev pub checked_token : Packages → Env → TokenType → String → Act VerificationToken
checked_token P env type text = do
  token ← exec env 0 (get_by_token (P.sha256_hex text))
  accept_token env type token

-- `VerifyEmail`
unfoldable pub verify_email : Packages → Env → String → Act (Unit {0})
unfolding accept_token get_by_token set_verified delete_by_user_and_type
verify_email P env text = do
  token ← checked_token P env email_verification text
  exec env 1 (set_verified env token.user_id)
  exec env 2 (delete_by_user_and_type token.user_id email_verification)

-- `ResetPassword`
unfoldable pub reset_password : Packages → Env → String → String → Act (Unit {0})
unfolding accept_token get_by_token update_password delete_by_user_and_type
reset_password P env text new_password = do
  token ← checked_token P env password_reset text
  hash ← from_option hash_failed (P.generate_from_password new_password)
  exec env 1 (update_password token.user_id hash)
  exec env 2 (delete_by_user_and_type token.user_id password_reset)

abbrev resend_to : Packages → EmailDeps → Env → Result User × Db → Result (Option Message) × Db
resend_to P D env (err e, db) = (err e, db)
resend_to P D env (ok user, db) =
    if user.is_verified then (ok none, db) else send_verification_email P D env user db

-- `ResendVerification`
unfoldable pub resend_verification : Packages → EmailDeps → Env → ℕ → Act (Option Message)
unfolding send_verification_email
resend_verification P D env k db = resend_to P D env (exec env 0 (get_user_by_id k) db)
