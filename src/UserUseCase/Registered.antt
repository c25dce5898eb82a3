-- ===== src/UserUseCase/Registered.antt =====
-- What a registration leaves behind, and who can log in then.
use ctfboard.Base.{
  [], ◌∷◌, none, some, false, refl, List, Bool, exists_where, String, ◌≡◌, arith, ◌||◌, str_eq, ℕ,
  Option, ◌∙◌, ◌+◌, subst,
}
use ctfboard.Store.Transaction
use ctfboard.Store.Statement.{
  ◌>>◌, pure, fail, exec, ◌>>=◌, KeepsUsers, bind-users, bind_kept-ok, bind-ok, Act,
}
use ctfboard.Store.Transaction.{ok, err, Db, Env, Result, gets, run_transaction}
use ctfboard.Entity.{User}
use ctfboard.UserUseCase.{
  register_validate_custom_fields, register_check_username_available,
  register_check_email_available, set_values, register_set_custom_fields, upsert_field_value,
  delete_field_values, Packages, CustomFields, Error, masked_result, custom_fields_unsaved,
  from_option, invalid_field_id, register, create_user_tx, hash_failed,
}
use ctfboard.Base.{◌==◌}
use ctfboard.Store.Fields.{get_by_entity_type, upsert_field_value, delete_field_values}
use ctfboard.Store.Accounts.{new_user, create_user_tx}

-- What `users` keeps unique, in two rows
abbrev pub clashes : User → User → Bool
clashes row u = u.id == row.id || (str_eq u.username row.username || str_eq u.email row.email)

abbrev pub IsUnique : List User → Type 0
IsUnique [] = Unit {0}
IsUnique (u ∷ us) = (exists_where (clashes u) us ≡ false) × IsUnique us

validate-keeps :
    (P : Packages) (env : Env) (cs : CustomFields) (db : Db)
    → (register_validate_custom_fields P env cs db).1 ≡ db
unfolding register_validate_custom_fields get_by_entity_type ◌>>=◌ gets
validate-keeps P env [] db = refl
validate-keeps P env (c ∷ cs) db = ground arith

username-keeps :
    (env : Env) (username : String) (db : Db)
    → (register_check_username_available env username db).1 ≡ db
unfolding register_check_username_available exec
username-keeps env username db = ground arith

email-keeps :
    (env : Env) (email : String) (db : Db) → (register_check_email_available env email db).1 ≡ db
unfolding register_check_email_available exec
email-keeps env email db = ground arith

upsert-users :
    (env : Env) (n k id : ℕ) (v : String)
    → KeepsUsers (exec env n (upsert_field_value env n id k v))
unfolding exec upsert_field_value
upsert-users env n k id v db = ground arith

from_option-users : {A : Type 0} (e : Error) (o : Option A) → KeepsUsers (from_option e o)
unfolding pure fail
from_option-users e none db = refl
from_option-users e (some a) db = refl

set_values-users :
    (P : Packages) (env : Env) (n k : ℕ) (cs : CustomFields) → KeepsUsers (set_values P env n k cs)
unfolding set_values pure
set_values-users P env n k [] db = refl
set_values-users P env n k ((s, v) ∷ rest) db =
    bind-users (from_option invalid_field_id (P.parse_uuid s)) _
      (from_option-users invalid_field_id (P.parse_uuid s))
      (λ id.
        bind-users (exec env n (upsert_field_value env n id k v)) _ (upsert-users env n k id v)
          (λ _. set_values-users P env (n + 1) k rest))
      db

masked_result-users :
    {A : Type 0} (e : Error) (r : Result A × Db) → (masked_result e r).1.users ≡ r.1.users
masked_result-users e (ok a, db) = refl
masked_result-users e (err x, db) = refl

delete-users : (env : Env) (k : ℕ) → KeepsUsers (exec env 3 (delete_field_values k))
unfolding exec delete_field_values
delete-users env k db = ground arith

set_custom_fields-users :
    (P : Packages) (env : Env) (k : ℕ) (cs : CustomFields)
    → KeepsUsers (register_set_custom_fields P env k cs)
unfolding register_set_custom_fields pure
set_custom_fields-users P env k [] db = refl
set_custom_fields-users P env k (c ∷ cs) db =
    masked_result-users custom_fields_unsaved _
    ∙ bind-users (exec env 3 (delete_field_values k)) (λ _. set_values P env 4 k (c ∷ cs))
        (delete-users env k) (λ _. set_values-users P env 4 k (c ∷ cs)) db

pub from_option-keeps :
    {A : Type 0} (e : Error) (o : Option A) (db : Db) → (from_option e o db).1 ≡ db
unfolding pure fail
from_option-keeps e none db = refl
from_option-keeps e (some a) db = refl

abbrev registered_row : Env → String → String → String → User
registered_row env username email hash = new_user env username email hash "user"

pub record IsRegistered (env : Env) (username email hash : String) (u : User) (db db' : Db)
    : Type 0 where
  pub row : u ≡ registered_row env username email hash
  pub users : db'.users ≡ u ∷ db.users
  pub apart : exists_where (clashes u) db.users ≡ false

insert-IsRegistered :
    (env : Env) (username email hash : String) (u : User) (db db' : Db)
    → run_transaction env (create_user_tx env username email hash "user") db ≡ (ok u, db')
    → IsRegistered env username email hash u db db'
unfolding run_transaction create_user_tx Transaction.◌>>=◌
insert-IsRegistered env username email hash u db db' e = ground (arith, e)

-- The last steps of `Register`, from the transaction on
abbrev insert_and_set : Packages → Env → String → String → CustomFields → String → Act User
insert_and_set P env username email cs hash = do
  user ← run_transaction env (create_user_tx env username email hash "user")
  register_set_custom_fields P env user.id cs
  pure user

last_steps :
    (P : Packages) (env : Env) (cs : CustomFields) (v u : User) (mid db' : Db)
    → (register_set_custom_fields P env v.id cs >> pure v) mid ≡ (ok u, db')
    → (v ≡ u) × (db'.users ≡ mid.users)
unfolding ◌>>=◌
last_steps P env cs v u mid db' e = ground (arith, e, set_custom_fields-users P env v.id cs mid)

insert_and_set-IsRegistered :
    (P : Packages) (env : Env) (username email hash : String) (cs : CustomFields) (u : User)
    (db db' : Db)
    → insert_and_set P env username email cs hash db ≡ (ok u, db')
    → IsRegistered env username email hash u db db'
insert_and_set-IsRegistered P env username email hash cs u db db' e =
    let (v, mid, ran, rest) =
      bind-ok (run_transaction env (create_user_tx env username email hash "user")) _ db e in
    let (same, kept) = last_steps P env cs v u mid db' rest in
    let row = insert-IsRegistered env username email hash v db mid ran in
    subst (λ x. IsRegistered env username email hash x db db') same
      (record { row = row.row; users = kept ∙ row.users; apart = row.apart })

pub from_option-ok :
    {A : Type 0} (e : Error) (o : Option A) (a : A) (db : Db)
    → from_option e o db ≡ (ok a, db)
    → o ≡ some a
unfolding pure fail
from_option-ok e none a db h = cc
from_option-ok e (some b) a db h = ground (arith, h)

hashed-IsRegistered :
    (P : Packages) (env : Env) (username email password : String) (cs : CustomFields) (u : User)
    (db db' : Db)
    → (from_option hash_failed (P.generate_from_password password)
          >>= insert_and_set P env username email cs)
        db
      ≡ (ok u, db')
    → (hash : String) × (P.generate_from_password password ≡ some hash)
      × IsRegistered env username email hash u db db'
hashed-IsRegistered P env username email password cs u db db' e =
    let (hash, g, rest) =
      bind_kept-ok (from_option hash_failed (P.generate_from_password password))
        (insert_and_set P env username email cs) db
        (from_option-keeps hash_failed (P.generate_from_password password) db) e in
    (
      hash,
      from_option-ok hash_failed (P.generate_from_password password) hash db g,
      insert_and_set-IsRegistered P env username email hash cs u db db' rest,
    )

-- A registration that succeeds adds one user, whose password is kept as its hash and whose username,
-- email and id no other user has.
pub register-IsRegistered :
    (P : Packages) (env : Env) (username email password : String) (cs : CustomFields) (u : User)
    (db db' : Db)
    → register P env username email password cs db ≡ (ok u, db')
    → (hash : String) × (P.generate_from_password password ≡ some hash)
      × IsRegistered env username email hash u db db'
unfolding register
register-IsRegistered P env username email password cs u db db' e =
    let (_, _, e1) =
      bind_kept-ok (register_validate_custom_fields P env cs) _ db (validate-keeps P env cs db) e in
    let (_, _, e2) =
      bind_kept-ok (register_check_username_available env username) _ db
        (username-keeps env username db) e1 in
    let (_, _, e3) =
      bind_kept-ok (register_check_email_available env email) _ db (email-keeps env email db) e2 in
    hashed-IsRegistered P env username email password cs u db db' e3
