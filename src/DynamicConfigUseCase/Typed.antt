-- ===== src/DynamicConfigUseCase/Typed.antt =====
-- What has been set is read back, typed.
use ctfboard.Store.Statement.{exec}
use ctfboard.Store.Transaction.{ok, err, Db, Env, Result}
use ctfboard.Entity.Records.{Config, ConfigValueType}
use ctfboard.Store.Configs.{put_row, upsert_config, has_key}
use ctfboard.Store.Challenges.{create_audit_log_tx}
use ctfboard.Base.{
  ℕ, String, List, ◌≡◌, some, select_one, arith, none, true, str_eq_iff, ap, ◌∷◌, sym, ◌∙◌,
  Bool-cases, str_eq, inl, inr, refl, [], subst, Option-cases,
}
use ctfboard.DynamicConfigUseCase.{
  set_config, DynamicConfig, key_id, audited, validate_value_type, new_config, trim_space, int_type,
  get_int, ℤ, atoi,
}
use ctfboard.DynamicConfigUseCase.Fresh.{IsFresh, IsKeyed, put_row-IsKeyed}
use ctfboard.DynamicConfigUseCase.Plain.{IsUp}
use ctfboard.DynamicConfigUseCase.Refines.{get_config-Served}

select_one-put_row :
    (row : Config) (cs : List Config) → select_one (has_key row.key) (put_row row cs) ≡ some row
unfolding put_row
select_one-put_row row [] = ground (arith, str_eq_iff row.key row.key)
select_one-put_row row (c ∷ cs) =
    ground (arith, str_eq_iff row.key row.key, select_one-put_row row cs)

upsert-ok :
    (env : Env) (row : Config) (db db' : Db)
    → exec env 0 (upsert_config row) db ≡ (ok tt, db')
    → db' ≡ record db { configs = put_row row db.configs }
unfolding exec upsert_config
upsert-ok env row db db' e = ground (arith, e)

audit-configs :
    (env : Env) (n : ℕ) (action key : String) (actor_id : ℕ) (client_ip : String) (db : Db)
    → (exec env n
        (create_audit_log_tx env (some actor_id) action "config" (key_id key) client_ip)
        db).1.configs
      ≡ db.configs
unfolding exec create_audit_log_tx
audit-configs env n action key actor_id client_ip db = ground arith

-- After the statement that writes has succeeded, the configs are its.
audited-ok :
    (env : Env) (n : ℕ) (action key : String) (actor_id : ℕ) (client_ip : String)
    (w w' : DynamicConfig) (r : Result (Unit {0}) × Db)
    → audited env n action key actor_id client_ip w r ≡ (ok tt, w')
    → (r.0 ≡ ok tt) × (w'.db.configs ≡ r.1.configs) × (w'.last_load ≡ none)
audited-ok env n action key actor_id client_ip w w' (ok tt, db) e = (
  refl,
  ap (λ (x : Result (Unit {0}) × DynamicConfig). x.1.db.configs) (sym e)
      ∙ audit-configs env n action key actor_id client_ip db,
  ap (λ (x : Result (Unit {0}) × DynamicConfig). x.1.last_load) (sym e),
)
audited-ok env n action key actor_id client_ip w w' (err x, db) e = cc

-- What a `Set` that succeeds has stored
stored :
    (env : Env) (key value description : String) (type : ConfigValueType) (actor_id : ℕ)
    (client_ip : String) (w w' : DynamicConfig)
    → set_config env key value description type actor_id client_ip w ≡ (ok tt, w')
    → (validate_value_type type value ≡ true)
      × (w'.db.configs
          ≡ put_row (new_config env (trim_space key) value description type) w.db.configs)
      × (w'.last_load ≡ none)
unfolding set_config
stored env key value description type actor_id client_ip w w' e =
    elim (Bool-cases (str_eq (trim_space key) "")) [
      | inl blank ↦ absurd (ground (arith, e, blank))
      | inr full ↦ elim (Bool-cases (validate_value_type type value)) [
        | inr bad ↦ absurd (ground (arith, e, full, bad))
        | inl good ↦
            let row = new_config env (trim_space key) value description type in
            let r = exec env 0 (upsert_config row) w.db in
            let h : audited env 1 "update" (trim_space key) actor_id client_ip w r ≡ (ok tt, w') =
              ground (arith, e, full, good) in
            let (done, same, cleared) =
              audited-ok env 1 "update" (trim_space key) actor_id client_ip w w' r h in
            (
              good,
              same
                  ∙ ap (λ (d : Db). d.configs)
                      (upsert-ok env row w.db r.1 (ap (λ x. (x, r.1)) done)),
              cleared,
            )
      ]
    ]

set_config-IsFresh :
    (env : Env) (key value description : String) (type : ConfigValueType) (actor_id : ℕ)
    (client_ip : String) (w w' : DynamicConfig)
    → IsFresh w
    → set_config env key value description type actor_id client_ip w ≡ (ok tt, w')
    → IsFresh w'
set_config-IsFresh env key value description type actor_id client_ip w w' f e =
    let (_, same, cleared) = stored env key value description type actor_id client_ip w w' e in
    record {
      keyed = subst IsKeyed (sym same) (
          put_row-IsKeyed (new_config env (trim_space key) value description type) w.db.configs
            f.keyed);
      agrees = λ t at. absurd (ground (arith, at, cleared));
    }

int_of :
    (value : String) → validate_value_type int_type value ≡ true → (z : ℤ) × (atoi value ≡ some z)
unfolding validate_value_type
int_of value good = elim (Option-cases (atoi value)) [
  | inl e ↦ absurd (ground (arith, good, e))
  | inr h ↦ h
]

-- From a state whose cache, while it is good, agrees with the table: a text that has been set as an
-- `int` is a number, and as long as the database answers the read, `GetInt` gives that number and not
-- the default that it is called with.
pub get_int-set_config :
    (env env' : Env) (key value description : String) (actor_id : ℕ) (client_ip : String)
    (default : ℤ) (w w' : DynamicConfig)
    → IsFresh w
    → IsUp env'
    → set_config env key value description int_type actor_id client_ip w ≡ (ok tt, w')
    → (z : ℤ) × (atoi value ≡ some z) × ((get_int env' (trim_space key) default w').0 ≡ z)
unfolding get_int
get_int-set_config env env' key value description actor_id client_ip default w w' f up e =
    let (good, same, _) = stored env key value description int_type actor_id client_ip w w' e in
    let (z, parsed) = int_of value good in
    let fresh = set_config-IsFresh env key value description int_type actor_id client_ip w w' f e in
    let (after, ran, _, _) = get_config-Served env' (trim_space key) w' up fresh in
    let row = new_config env (trim_space key) value description int_type in
    let found : select_one (has_key (trim_space key)) w'.db.configs ≡ some row =
      ap (select_one (has_key (trim_space key))) same ∙ select_one-put_row row w.db.configs in
    (z, parsed, ground (arith, ran, found, parsed))
