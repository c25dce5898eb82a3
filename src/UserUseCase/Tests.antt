-- ===== src/UserUseCase/Tests.antt =====
-- A user registers and logs in, with fields that the competition asks for or without.
use ctfboard.Samples.{packages, jwt, field, start, at_time}
use ctfboard.Store.Statement.{exec, ◌>>=◌}
use ctfboard.Store.Transaction
use ctfboard.Store.Transaction.{ok, err, Db, Env, run_transaction}
use ctfboard.Entity.{User}
use ctfboard.Base.{
  ◌∷◌, String, true, not, arith, some, ◌≡◌, [], str_eq_iff, select_many, ◌==◌, refl, ap,
}
use ctfboard.UserUseCase.{
  register, login, register_validate_custom_fields, register_check_username_available, get_by_email,
  parse_fields, register_check_email_available, custom_fields_unsaved, create_user_tx,
  user_already_exists, register_set_custom_fields, get_by_username,
}
use ctfboard.UserUseCase.Login.{HashMatches, Signs, ReadsBack, access_claims, login-register}
use ctfboard.Session.Tokens.{TokenPair, validate_access_token}
use ctfboard.FieldUseCase.{
  check_form, check_values, check_required, validate_values, validate_value, accepts_value,
}
use ctfboard.Store.Accounts.{new_user, create_user_tx, get_by_username, get_by_email}
use ctfboard.UserUseCase.Registered.{IsRegistered, register-IsRegistered}
use ctfboard.Entity.Fields.{same_entity, user_entity}
use ctfboard.UserUseCase.Forms.{register_skips_required, register_half_done}
use ctfboard.Store.Fields.{get_by_entity_type}
use ctfboard.Entity.Errors.{field_required}
use ctfboard.Golang.{atoi}

abbrev zoe : User
zoe = new_user (at_time 200) "zoe" "zoe@x" "pw" "user"

abbrev after : Db
after = record start { users = zoe ∷ start.users }

registers : register packages (at_time 200) "zoe" "zoe@x" "pw" [] start ≡ (ok zoe, after)
unfolding register register_validate_custom_fields register_check_username_available
    register_check_email_available create_user_tx register_set_custom_fields run_transaction
    get_by_username get_by_email exec ◌>>=◌ Transaction.◌>>=◌
registers = refl

matches : HashMatches packages
matches password hash e = ground (arith, e, str_eq_iff hash password)

signs : Signs packages
signs secret c = ("signed", refl)

reads : ReadsBack packages "a" (access_claims packages jwt 300 zoe)
reads now text e soon late =
    let same : text ≡ "signed" = ground (arith, e) in ap (packages.parse now "a") same

register-IsRegistered_example :
    (hash : String) × (some "pw" ≡ some hash)
    × IsRegistered (at_time 200) "zoe" "zoe@x" hash zoe start after
register-IsRegistered_example =
    register-IsRegistered packages (at_time 200) "zoe" "zoe@x" "pw" [] zoe start after registers

login-register_example :
    (pair : TokenPair) × (login packages jwt (at_time 300) "zoe@x" "pw" after ≡ (ok pair, after))
    × (validate_access_token packages jwt 330 pair.access_token
        ≡ some (access_claims packages jwt 300 zoe))
    × (zoe.role ≡ "user")
login-register_example =
    login-register packages jwt (at_time 200) (at_time 300) 330 "zoe" "zoe@x" "pw" [] zoe start
      after matches signs reads refl registers (ground arith) (ground arith)

abbrev asking : Db
asking = record start { fields = field 7 "age" true ∷ [] }

lacks_age :
    check_form (select_many (λ f. same_entity f.entity_type user_entity) asking.fields) []
    ≡ some field_required
unfolding check_form check_values check_required
lacks_age = refl

register_skips_required_example :
    register packages (at_time 200) "zoe" "zoe@x" "pw" [] asking
    ≡ (ok zoe, record asking { users = zoe ∷ start.users })
register_skips_required_example =
    register_skips_required packages (at_time 200) "zoe" "zoe@x" "pw" "pw" asking
      (refl, refl, refl, refl) (refl, refl, refl) refl lacks_age

-- The database fails in the statement after the user is stored.
abbrev failing : Env
failing = record (at_time 200) { answers = λ n. not (n == 3) }

form_ok :
    register_validate_custom_fields packages failing (("7", "42") ∷ []) asking ≡ (ok tt, asking)
unfolding register_validate_custom_fields parse_fields validate_values get_by_entity_type check_form
    check_values check_required validate_value accepts_value atoi exec ◌>>=◌
form_ok = refl

register_half_done_example :
    (register packages failing "zoe" "zoe@x" "pw" (("7", "42") ∷ []) asking
      ≡ (err custom_fields_unsaved, record asking { users = zoe ∷ start.users }))
    × (register packages
          (at_time 300)
          "zoe"
          "zoe@x"
          "pw"
          (("7", "42") ∷ [])
          (record asking { users = zoe ∷ start.users })
        ≡ (err user_already_exists, record asking { users = zoe ∷ start.users }))
register_half_done_example =
    register_half_done packages failing (at_time 300) "zoe" "zoe@x" "pw" "pw" ("7", "42") [] asking
      (refl, refl, refl, refl) (refl, refl, refl) form_ok refl refl refl refl
