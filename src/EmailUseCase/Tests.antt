-- ===== src/EmailUseCase/Tests.antt =====
-- Ann forgets her password.
use ctfboard.Samples.{packages, jwt, start, at_time, user}
use ctfboard.Store.Statement.{pure, fail_if, exec, ◌>>=◌}
use ctfboard.Store.Transaction
use ctfboard.Store.Transaction.{ok, err, Db, Env}
use ctfboard.EmailUseCase.{
  EmailDeps, Message, send_password_reset_email, reset_password, true, password_reset, get_by_email,
  accept_token, delete_by_user_and_type, get_by_token, some, create_token, update_password, ◌∷◌, [],
  token_not_found,
}
use ctfboard.EmailUseCase.Sent.{row_of}
use ctfboard.EmailUseCase.Reset.{after_reset, reset_password_once}
use ctfboard.Store.Accounts.{
  get_by_email, delete_by_user_and_type, create_token, get_by_token, update_password,
}
use ctfboard.Base.{◌≡◌, refl, arith, str_eq_iff}
use ctfboard.Session.Tokens.{TokenPair}
use ctfboard.UserUseCase.{login}
use ctfboard.EmailUseCase.Forgotten.{login-reset_password}

abbrev deps : EmailDeps
deps = record { verify_ttl = 600; reset_ttl = 100; enabled = true; sends = true }

abbrev message : Message
message = record { to = "ann"; username = "ann"; token = "fresh"; purpose = password_reset }

abbrev asked : Db
asked = record start {
  verification_tokens =
      row_of packages (at_time 200) password_reset 100 (user 1 "ann" (some 10)) "fresh" ∷ [];
}

sent :
    send_password_reset_email packages deps (at_time 200) "ann" start ≡ (ok (some message), asked)
unfolding send_password_reset_email get_by_email delete_by_user_and_type create_token exec pure
    fail_if ◌>>=◌ Transaction.◌>>=◌
sent = refl

abbrev changed : Db
changed =
    after_reset (row_of packages (at_time 200) password_reset 100 (user 1 "ann" (some 10)) "fresh")
      "new" asked

resets : reset_password packages (at_time 250) "fresh" "new" asked ≡ (ok tt, changed)
unfolding reset_password accept_token get_by_token update_password delete_by_user_and_type exec pure
    fail_if ◌>>=◌
resets = refl

login-reset_password_example :
    (db'' : Db) × (reset_password packages (at_time 250) "fresh" "new" asked ≡ (ok tt, db''))
    × (pair : TokenPair) × (login packages jwt (at_time 300) "ann" "new" db'' ≡ (ok pair, db''))
login-reset_password_example =
    login-reset_password packages deps jwt (at_time 200) (at_time 250) (at_time 300) "ann" "new"
      "new" message start asked (λ p h e. ground (arith, e, str_eq_iff h p))
      (λ s c. ("signed", refl)) sent (ground arith) refl (λ n. refl) refl

reset_password_once_example :
    reset_password packages (at_time 260) "fresh" "other" changed ≡ (err token_not_found, changed)
reset_password_once_example =
    reset_password_once packages (at_time 250) (at_time 260) "fresh" "new" "other" asked changed
      (refl, tt) resets refl
