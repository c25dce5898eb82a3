-- ===== src/DynamicConfigUseCase/Refines.antt =====
-- What callers see of the cache: nothing, while the database answers.
use mathlib.Core.Path.{fun_ext}
use ctfboard.Base.{none, some, ◌∷◌, [], ◌≡◌, true, delete_where, refl}
use ctfboard.Store.Statement.{exec}
use ctfboard.Store.Transaction.{ok, err, Db, Env, Result}
use ctfboard.Entity.Records.{Config, ConfigValueType}
use mathlib.Core.Path.{fun_ext}
use ctfboard.Base.{
  String, select_one, List, ℕ, some, ◌≡◌, true, arith, ap, str_eq, Bool-cases, inl, Option-cases,
  false, inr, ◌∙◌, ◌∷◌, [],
}
use ctfboard.DynamicConfigUseCase.{
  DynamicConfig, get_config, set_config, lookup, refresh, upsert_config, get_all, trim_space,
  create_audit_log_tx, delete_config_by_key, from_cache, invalidate, after_refresh,
  validate_value_type, new_config, delete_config, cached_configs,
}
use ctfboard.Store.Configs.{get_config_by_key, has_key, upsert_config, delete_config}
use ctfboard.Store.Challenges.{create_audit_log_tx}
use ctfboard.DynamicConfigUseCase.Fresh.{
  IsFresh, Agrees, IsKeyed, refresh-Refreshed, put_row-IsKeyed, delete-IsKeyed,
}
use ctfboard.DynamicConfigUseCase.Fresh.{IsFresh, Agrees}
use ctfboard.DynamicConfigUseCase.Plain.{
  IsUp, Answer, Request, read, logged, plain_set, plain_delete, answered, serve, AllUp, get_every,
  plain, run, entries, get_one, run_plain, entry, set_one, done, delete_one, after_set,
  after_delete,
}
use ctfboard.Entity.Errors.{config_not_found}

refresh-run :
    (env : Env) (w : DynamicConfig)
    → IsUp env
    → IsFresh w
    → (w' : DynamicConfig) × (refresh env w ≡ (ok tt, w'))
      × IsFresh w'
      × (w'.db ≡ w.db)
      × Agrees w'.cache w'.db.configs
refresh-run env w up f = elim (refresh-Refreshed env w f) [
  | inl h ↦ absurd (ground (arith, h.0, up 0))
  | inr h ↦ h
]

by_key-run :
    (env : Env) (key : String) (db : Db)
    → IsUp env
    → (exec env 1 (get_config_by_key key) db).0 ≡ read key db
unfolding exec get_config_by_key
by_key-run env key db up = ground (arith, up 1)

from_cache-run :
    (env : Env) (key : String) (w : DynamicConfig)
    → IsUp env
    → Agrees w.cache w.db.configs
    → from_cache env key w (lookup key w.cache) ≡ (read key w.db, w)
from_cache-run env key w up a = elim (Option-cases (select_one (has_key key) w.db.configs)) [
  | inl e ↦ ground (arith, a key, e, by_key-run env key w.db up)
  | inr (c, e) ↦ ground (arith, a key, e)
]

-- The outcome of one request: the answer of the table, and a state that is fresh again
abbrev Served : {A : Type 0} → Result A × DynamicConfig → Result A × Db → Type 0
Served {A} r p = (w' : DynamicConfig) × (r ≡ (p.0, w')) × IsFresh w' × (w'.db ≡ p.1)

pub get_config-Served :
    (env : Env) (key : String) (w : DynamicConfig)
    → IsUp env
    → IsFresh w
    → Served (get_config env key w) (read key w.db, w.db)
unfolding get_config
get_config-Served env key w up f =
    let (w', ran, fresh, same, a) = refresh-run env w up f in
    (
      w',
      ap (after_refresh env key) ran
          ∙ from_cache-run env key w' up a
          ∙ ap (λ db. (read key db, w')) same,
      fresh,
      same,
    )

written-IsFresh :
    (w : DynamicConfig) (db : Db) → IsKeyed db.configs → IsFresh (invalidate (record w { db = db }))
written-IsFresh w db u = record { keyed = u; agrees = λ t e. absurd (ground (arith, e)) }

set_config-run :
    (env : Env) (key value description : String) (type : ConfigValueType) (actor_id : ℕ)
    (client_ip : String) (w : DynamicConfig)
    → IsUp env
    → str_eq (trim_space key) "" ≡ false
    → validate_value_type type value ≡ true
    → set_config env key value description type actor_id client_ip w ≡ (
      ok tt,
      invalidate (record w {
        db = after_set env (trim_space key) value description type actor_id client_ip w.db;
      }),
    )
unfolding set_config exec upsert_config create_audit_log_tx
set_config-run env key value description type actor_id client_ip w up full good =
    ground (arith, up 0, up 1, full, good)

set_config-Served :
    (env : Env) (key value description : String) (type : ConfigValueType) (actor_id : ℕ)
    (client_ip : String) (w : DynamicConfig)
    → IsUp env
    → IsFresh w
    → Served
        (set_config env key value description type actor_id client_ip w)
        (plain_set env (trim_space key) value description type actor_id client_ip w.db)
unfolding set_config
set_config-Served env key value description type actor_id client_ip w up f =
    elim (Bool-cases (str_eq (trim_space key) "")) [
      | inl blank ↦ (w, ground (arith, blank), f, ground (arith, blank))
      | inr full ↦ elim (Bool-cases (validate_value_type type value)) [
        | inl good ↦ (
          invalidate (record w {
            db = after_set env (trim_space key) value description type actor_id client_ip w.db;
          }),
          set_config-run env key value description type actor_id client_ip w up full good
              ∙ ground (arith, full, good),
          written-IsFresh w
              (after_set env (trim_space key) value description type actor_id client_ip w.db)
              (put_row-IsKeyed (new_config env (trim_space key) value description type) w.db.configs
                f.keyed),
          ground (arith, full, good),
        )
        | inr bad ↦ (w, ground (arith, full, bad), f, ground (arith, full, bad))
      ]
    ]

delete_config-run :
    (env : Env) (key : String) (actor_id : ℕ) (client_ip : String) (c : Config) (w : DynamicConfig)
    → IsUp env
    → str_eq (trim_space key) "" ≡ false
    → select_one (has_key (trim_space key)) w.db.configs ≡ some c
    → delete_config_by_key env key actor_id client_ip w ≡ (
      ok tt,
      invalidate (record w {
        db =
            logged env "delete"
              (trim_space key)
              actor_id
              client_ip
              (record w.db { configs = delete_where (has_key (trim_space key)) w.db.configs });
      }),
    )
unfolding delete_config_by_key exec get_config_by_key delete_config create_audit_log_tx
delete_config-run env key actor_id client_ip c w up full found =
    ground (arith, up 0, up 1, up 2, full, found)

delete_config-missing :
    (env : Env) (key : String) (actor_id : ℕ) (client_ip : String) (w : DynamicConfig)
    → IsUp env
    → str_eq (trim_space key) "" ≡ false
    → select_one (has_key (trim_space key)) w.db.configs ≡ none
    → delete_config_by_key env key actor_id client_ip w ≡ (err config_not_found, w)
unfolding delete_config_by_key exec get_config_by_key
delete_config-missing env key actor_id client_ip w up full missing =
    ground (arith, up 0, full, missing)

delete_config-Served :
    (env : Env) (key : String) (actor_id : ℕ) (client_ip : String) (w : DynamicConfig)
    → IsUp env
    → IsFresh w
    → Served
        (delete_config_by_key env key actor_id client_ip w)
        (plain_delete env (trim_space key) actor_id client_ip w.db)
unfolding delete_config_by_key
delete_config-Served env key actor_id client_ip w up f =
    elim (Bool-cases (str_eq (trim_space key) "")) [
      | inl blank ↦ (w, ground (arith, blank), f, ground (arith, blank))
      | inr full ↦ elim (Option-cases (select_one (has_key (trim_space key)) w.db.configs)) [
        | inl e ↦ (
          w,
          delete_config-missing env key actor_id client_ip w up full e ∙ ground (arith, full, e),
          f,
          ground (arith, full, e),
        )
        | inr (c, e) ↦ (
          invalidate (record w { db = after_delete env (trim_space key) actor_id client_ip w.db }),
          delete_config-run env key actor_id client_ip c w up full e ∙ ground (arith, full, e),
          written-IsFresh w (after_delete env (trim_space key) actor_id client_ip w.db)
              (delete-IsKeyed (trim_space key) w.db.configs f.keyed),
          ground (arith, full, e),
        )
      ]
    ]

answered-result :
    {A : Type 0} (f : A → Answer) (p : Result A × Db) (w : DynamicConfig)
    → answered f (p.0, w) ≡ ((answered f p).0, w)
answered-result f (ok a, db) w = refl
answered-result f (err e, db) w = refl

answered-state : {A : Type 0} (f : A → Answer) (p : Result A × Db) → p.1 ≡ (answered f p).1
answered-state f (ok a, db) = refl
answered-state f (err e, db) = refl

answered-Served :
    {A : Type 0} (f : A → Answer) (r : Result A × DynamicConfig) (p : Result A × Db)
    → Served r p
    → Served (answered f r) (answered f p)
answered-Served f r p (w', ran, fresh, same) =
    (w', ap (answered f) ran ∙ answered-result f p w', fresh, same ∙ answered-state f p)

get_all-Served :
    (env : Env) (w : DynamicConfig)
    → IsUp env
    → IsFresh w
    → Served (serve env get_every w) (plain env get_every w.db)
unfolding get_all
get_all-Served env w up f =
    let (w', ran, fresh, same, a) = refresh-run env w up f in
    (
      w',
      ap (λ r. answered (λ cache. entries (λ k. lookup k cache)) (cached_configs r)) ran
          ∙ ap (λ g. (ok (entries g), w'))
              (fun_ext a ∙ ap (λ (db : Db). λ k. select_one (has_key k) db.configs) same),
      fresh,
      same,
    )

serve-Served :
    (env : Env) (r : Request) (w : DynamicConfig)
    → IsUp env
    → IsFresh w
    → Served (serve env r w) (plain env r w.db)
serve-Served env (get_one key) w up f = answered-Served entry _ _ (get_config-Served env key w up f)
serve-Served env get_every w up f = get_all-Served env w up f
serve-Served env (set_one key value description type actor_id client_ip) w up f =
    answered-Served (λ _. done) _ _
      (set_config-Served env key value description type actor_id client_ip w up f)
serve-Served env (delete_one key actor_id client_ip) w up f =
    answered-Served (λ _. done) _ _ (delete_config-Served env key actor_id client_ip w up f)

-- While the database answers, any sequence of requests to the use case, at any times, is answered as
-- the table without a cache would answer it.
pub run-plain :
    (rs : List (Env × Request)) (w : DynamicConfig)
    → AllUp rs
    → IsFresh w
    → run rs w ≡ run_plain rs w.db
run-plain [] w up f = refl
run-plain ((env, r) ∷ rest) w up f =
    let (w', ran, fresh, same) = serve-Served env r w up.0 f in
    ap (λ x. x.0 ∷ run rest x.1) ran
    ∙ ap (λ l. (plain env r w.db).0 ∷ l) (run-plain rest w' up.1 fresh ∙ ap (run_plain rest) same)
