-- ===== src/DynamicConfigUseCase.antt =====
-- backend/internal/usecase/competition/dynamic_config.go: typed settings in the table `configs`, with a
-- cache in memory that is loaded whole and is good for 30 seconds.
pub mod Fresh
pub mod Plain
pub mod Refines
pub mod Typed
mod Tests
use ctfboard.Store.Statement.{Act, exec}
use ctfboard.Store.Transaction.{ok, err, Db, Env, Result}
use ctfboard.Entity.Records.{
  Config, ConfigValueType, other_type, string_type, int_type, bool_type, json_type,
}
use ctfboard.Golang.{atoi, trim_space}
use ctfboard.Base.{
  List, ℕ, [], String, none, Option, ◌∷◌, some, if◌then◌else◌, Bool, str_eq, false, true, ltb, ◌||◌,
  ◌+◌, not,
}
use ctfboard.Store.Configs.{
  get_all_configs, get_config_by_key, upsert_config, delete_config, new_config,
}
use ctfboard.Base.Int.{ℤ}
use ctfboard.Store.Challenges.{create_audit_log_tx}
use ctfboard.Entity.{key_id}
use ctfboard.Entity.Errors.{key_required, invalid_config}

-- `DynamicConfigUseCase`, with the tables; `last_load` is `none` for the zero time.
pub record DynamicConfig : Type 0 where
  pub db : Db
  pub cache : List (String × Config)
  pub last_load : Option ℕ

abbrev pub Op : Type 0 → Type 0
Op A = DynamicConfig → Result A × DynamicConfig

abbrev config_cache_ttl : ℕ
config_cache_ttl = 30

unfoldable pub new_dynamic_config_use_case : Db → DynamicConfig
new_dynamic_config_use_case db = record { db = db; cache = []; last_load = none }

abbrev pub lookup : String → List (String × Config) → Option Config
lookup key [] = none
lookup key ((k, c) ∷ rest) = if str_eq k key then some c else lookup key rest

-- `cache[key] = cfg`
unfoldable pub keep_config : String → Config → List (String × Config) → List (String × Config)
keep_config key cfg [] = (key, cfg) ∷ []
keep_config key cfg ((k, c) ∷ rest) =
    if str_eq k key then (key, cfg) ∷ rest else (k, c) ∷ keep_config key cfg rest

-- The loop of `loadAll`
unfoldable pub fill : List (String × Config) → List Config → List (String × Config)
unfolding keep_config
fill cache [] = cache
fill cache (c ∷ cs) = fill (keep_config c.key c cache) cs

abbrev pub is_cached : ℕ → Option ℕ → Bool
is_cached now none = false
is_cached now (some t) = ltb now (t + config_cache_ttl)

-- `invalidate`
abbrev pub invalidate : DynamicConfig → DynamicConfig
invalidate w = record w { last_load = none }

abbrev pub loaded : ℕ → DynamicConfig → Result (List Config) → Result (Unit {0}) × DynamicConfig
loaded now w (ok configs) = (ok tt, record w { cache = fill [] configs; last_load = some now })
loaded now w (err e) = (err e, w)

-- `loadAll`
unfoldable pub load_all : Env → Op (Unit {0})
unfolding fill get_all_configs
load_all env w = loaded env.now w (exec env 0 get_all_configs w.db).0

-- The load that `Get` and `GetAll` begin with
abbrev pub refresh : Env → Op (Unit {0})
refresh env w = if is_cached env.now w.last_load then (ok tt, w) else load_all env w

abbrev pub remember : String → DynamicConfig → Result Config → Result Config × DynamicConfig
remember key w (ok cfg) = (ok cfg, record w { cache = keep_config key cfg w.cache })
remember key w (err e) = (err e, w)

abbrev pub from_cache : Env → String → DynamicConfig → Option Config → Result Config × DynamicConfig
from_cache env key w none = remember key w (exec env 1 (get_config_by_key key) w.db).0
from_cache env key w (some cfg) = (ok cfg, w)

abbrev pub after_refresh :
    Env → String → Result (Unit {0}) × DynamicConfig → Result Config × DynamicConfig
after_refresh env key (ok _, w) = from_cache env key w (lookup key w.cache)
after_refresh env key (err e, w) = (err e, w)

-- `Get`
unfoldable pub get_config : Env → String → Op Config
unfolding load_all keep_config get_config_by_key
get_config env key w = after_refresh env key (refresh env w)

abbrev pub cached_configs :
    Result (Unit {0}) × DynamicConfig → Result (List (String × Config)) × DynamicConfig
cached_configs (ok _, w) = (ok w.cache, w)
cached_configs (err e, w) = (err e, w)

-- `GetAll`: the entries of the cache, with their keys; Go visits them in any order.
unfoldable pub get_all : Env → Op (List (String × Config))
unfolding load_all
get_all env w = cached_configs (refresh env w)

-- `validateValueType`
unfoldable pub validate_value_type : ConfigValueType → String → Bool
validate_value_type string_type value = true
validate_value_type int_type value = elim (atoi value) [ none ↦ false | some _ ↦ true ]
validate_value_type bool_type value = str_eq value "true" || str_eq value "false"
validate_value_type json_type value = true
validate_value_type (other_type _) value = false

abbrev pub on_db : {A : Type 0} → DynamicConfig → Result A × Db → Result A × DynamicConfig
on_db w (r, db) = (r, record w { db = db })

-- What follows the statement that writes: `invalidate`, and the entry of the audit log, the `n`-th
-- statement
abbrev pub audited :
    Env
    → ℕ
    → String
    → String
    → ℕ
    → String
    → DynamicConfig
    → Result (Unit {0}) × Db
    → Result (Unit {0}) × DynamicConfig
audited env n action key actor_id client_ip w (ok _, db) =
    on_db (invalidate w) (
      exec env n (create_audit_log_tx env (some actor_id) action "config" (key_id key) client_ip)
        db)
audited env n action key actor_id client_ip w (err e, db) = (err e, record w { db = db })

-- `Set`
unfoldable pub set_config :
    Env → String → String → String → ConfigValueType → ℕ → String → Op (Unit {0})
unfolding validate_value_type upsert_config create_audit_log_tx
set_config env key value description type actor_id client_ip w =
    if str_eq (trim_space key) ""
    then (err key_required, w)
    else if not (validate_value_type type value)
    then (err invalid_config, w)
    else audited env 1 "update" (trim_space key) actor_id client_ip w
        (exec env 0 (upsert_config (new_config env (trim_space key) value description type)) w.db)

abbrev pub delete_known :
    Env → String → ℕ → String → DynamicConfig → Result Config → Result (Unit {0}) × DynamicConfig
delete_known env key actor_id client_ip w (ok _) =
    audited env 2 "delete" key actor_id client_ip w (exec env 1 (delete_config key) w.db)
delete_known env key actor_id client_ip w (err e) = (err e, w)

-- `Delete`
unfoldable pub delete_config_by_key : Env → String → ℕ → String → Op (Unit {0})
unfolding get_config_by_key delete_config create_audit_log_tx
delete_config_by_key env key actor_id client_ip w =
    if str_eq (trim_space key) ""
    then (err key_required, w)
    else delete_known env (trim_space key) actor_id client_ip w
        (exec env 0 (get_config_by_key (trim_space key)) w.db).0

abbrev pub value_or :
    {A : Type 0} → A → (Config → A) → Result Config × DynamicConfig → A × DynamicConfig
value_or default f (ok cfg, w) = (f cfg, w)
value_or default f (err e, w) = (default, w)

-- `GetString`, `GetInt` and `GetBool`
unfoldable pub get_string : Env → String → String → DynamicConfig → String × DynamicConfig
unfolding get_config
get_string env key default w = value_or default (λ cfg. cfg.value) (get_config env key w)

abbrev pub int_or : ℤ → Option ℤ → ℤ
int_or default none = default
int_or default (some z) = z

unfoldable pub get_int : Env → String → ℤ → DynamicConfig → ℤ × DynamicConfig
unfolding get_config
get_int env key default w =
    value_or default (λ cfg. int_or default (atoi cfg.value)) (get_config env key w)

unfoldable pub get_bool : Env → String → Bool → DynamicConfig → Bool × DynamicConfig
unfolding get_config
get_bool env key default w =
    value_or default (λ cfg. str_eq cfg.value "true") (get_config env key w)
