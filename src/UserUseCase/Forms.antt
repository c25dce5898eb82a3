-- ===== src/UserUseCase/Forms.antt =====
-- How a registration treats the competition's own fields.
use ctfboard.Base.{
  [], ◌∷◌, none, some, true, false, refl, ℕ, String, ◌≡◌, select_one, List, str_eq, exists_where,
  arith, select_many, str_eq_iff,
}
use ctfboard.Store.Statement.{exec, ◌>>=◌}
use ctfboard.Store.Transaction.{ok, err, Db, Env, Result, gets, run_transaction}
use ctfboard.Store.Accounts.{has_email, new_user, create_user_tx}
use ctfboard.Entity.{User}
use ctfboard.UserUseCase.{
  register_check_username_available, register_check_email_available, register,
  register_set_custom_fields, register_validate_custom_fields, Packages, CustomFields,
  custom_fields_unsaved, user_already_exists,
}
use ctfboard.Store.Fields.{delete_field_values, get_by_entity_type}
use ctfboard.UserUseCase.Registered.{clashes}
use ctfboard.FieldUseCase.{check_form}
use ctfboard.Entity.Errors.{driver_failed, field_required}
use ctfboard.Entity.Fields.{same_entity, user_entity}
use ctfboard.Store.Transaction

-- The database answers the checks of names, begins and commits.
abbrev pub Works : Env → Type 0
Works env =
    (env.answers 1 ≡ true) × (env.answers 2 ≡ true) × (env.begins ≡ true) × (env.commits ≡ true)

-- No user has the username, the email or the new id.
abbrev pub IsFree : Env → String → String → Db → Type 0
IsFree env username email db =
    (select_one (λ u. str_eq u.username username) db.users ≡ none)
    × (select_one (has_email email) db.users ≡ none)
    × (exists_where (clashes (new_user env username email "" "user")) db.users ≡ false)

abbrev with_new : Env → String → String → String → Db → Db
with_new env username email hash db = record db {
  users = new_user env username email hash "user" ∷ db.users;
}

-- `clashes` does not look at the hash.
clashes_hash :
    (env : Env) (username email hash : String) (us : List User)
    → exists_where (clashes (new_user env username email hash "user")) us
      ≡ exists_where (clashes (new_user env username email "" "user")) us
clashes_hash env username email hash us = refl

username-free :
    (env : Env) (username email : String) (db : Db)
    → Works env
    → IsFree env username email db
    → register_check_username_available env username db ≡ (ok tt, db)
unfolding register_check_username_available exec
username-free env username email db w f = ground (arith, w.0, f.0)

email-free :
    (env : Env) (username email : String) (db : Db)
    → Works env
    → IsFree env username email db
    → register_check_email_available env email db ≡ (ok tt, db)
unfolding register_check_email_available exec
email-free env username email db w f = ground (arith, w.1, f.1)

create-free :
    (env : Env) (username email hash : String) (db : Db)
    → Works env
    → IsFree env username email db
    → run_transaction env (create_user_tx env username email hash "user") db
      ≡ (ok (new_user env username email hash "user"), with_new env username email hash db)
unfolding run_transaction create_user_tx Transaction.◌>>=◌
create-free env username email hash db w f = ground (arith, w.2, w.3, f.2)

-- A registration without any field succeeds, whatever fields are required: they are checked only
-- when some field is filled in.
pub register_skips_required :
    (P : Packages) (env : Env) (username email password hash : String) (db : Db)
    → Works env
    → IsFree env username email db
    → P.generate_from_password password ≡ some hash
    → check_form (select_many (λ f. same_entity f.entity_type user_entity) db.fields) []
      ≡ some field_required
    → register P env username email password [] db
      ≡ (ok (new_user env username email hash "user"), with_new env username email hash db)
unfolding register register_validate_custom_fields register_set_custom_fields ◌>>=◌
register_skips_required P env username email password hash db w f g required = ground (
  arith,
  username-free env username email db w f,
  email-free env username email db w f,
  g,
  create-free env username email hash db w f,
)

delete-fails :
    (env : Env) (k : ℕ) (db : Db)
    → env.answers 3 ≡ false
    → exec env 3 (delete_field_values k) db ≡ (err driver_failed, db)
unfolding exec
delete-fails env k db e = ground (arith, e)

set_custom_fields-fails :
    (P : Packages) (env : Env) (k : ℕ) (c : String × String) (cs : CustomFields) (db : Db)
    → env.answers 3 ≡ false
    → register_set_custom_fields P env k (c ∷ cs) db ≡ (err custom_fields_unsaved, db)
unfolding register_set_custom_fields ◌>>=◌
set_custom_fields-fails P env k c cs db e = ground (arith, delete-fails env k db e)

username-taken :
    (env : Env) (username : String) (u : User) (db : Db)
    → env.answers 1 ≡ true
    → str_eq u.username username ≡ true
    → register_check_username_available env username (record db { users = u ∷ db.users })
      ≡ (err user_already_exists, record db { users = u ∷ db.users })
unfolding register_check_username_available exec
username-taken env username u db up same = ground (arith, up, same)

-- The check of the fields reads the definitions of fields only.
validate_again :
    (P : Packages) (env env' : Env) (c : String × String) (cs : CustomFields) (u : User) (db : Db)
    → env'.answers 0 ≡ true
    → register_validate_custom_fields P env (c ∷ cs) db ≡ (ok tt, db)
    → register_validate_custom_fields P env' (c ∷ cs) (record db { users = u ∷ db.users })
      ≡ (ok tt, record db { users = u ∷ db.users })
unfolding register_validate_custom_fields exec get_by_entity_type ◌>>=◌
validate_again P env env' c cs u db up valid = ground (arith, up, valid)

-- The fields are saved after the user is: where that fails, the registration fails, but the user is
-- there, and the same registration, with the same fields, is refused when it is tried again while the
-- database answers its first two reads.
pub register_half_done :
    (P : Packages) (env env' : Env) (username email password hash : String) (c : String × String)
    (cs : CustomFields) (db : Db)
    → Works env
    → IsFree env username email db
    → register_validate_custom_fields P env (c ∷ cs) db ≡ (ok tt, db)
    → P.generate_from_password password ≡ some hash
    → env.answers 3 ≡ false
    → env'.answers 0 ≡ true
    → env'.answers 1 ≡ true
    → (register P env username email password (c ∷ cs) db
        ≡ (err custom_fields_unsaved, with_new env username email hash db))
      × (register P env' username email password (c ∷ cs) (with_new env username email hash db)
          ≡ (err user_already_exists, with_new env username email hash db))
unfolding register register_validate_custom_fields ◌>>=◌
register_half_done P env env' username email password hash c cs db w f valid g lost up0 up = (
  ground (
    arith,
    valid,
    username-free env username email db w f,
    email-free env username email db w f,
    g,
    create-free env username email hash db w f,
    set_custom_fields-fails P env (env.uuid 0) c cs (with_new env username email hash db) lost,
  ),
  ground (
    arith,
    validate_again P env env' c cs (new_user env username email hash "user") db up0 valid,
    username-taken env' username (new_user env username email hash "user") db up
        ((str_eq_iff username username).1 refl),
  ),
)
