-- ===== src/DynamicConfigUseCase/Plain.antt =====
-- Requests to the settings as the table alone would answer them.
use ctfboard.Base.{if◌then◌else◌, none, some, ◌∷◌, [], ◌≡◌, true, delete_where}
use ctfboard.Store.Transaction.{ok, err, Db, Env, Result}
use ctfboard.Entity.Records.{Config, ConfigValueType}
use ctfboard.Base.{String, select_one, List, ℕ, Option, some, ◌≡◌, true, str_eq, ◌∷◌, []}
use ctfboard.DynamicConfigUseCase.{
  DynamicConfig, get_config, set_config, lookup, get_all, key_id, trim_space, delete_config_by_key,
  validate_value_type, new_config, key_required, invalid_config,
}
use ctfboard.Store.Configs.{has_key, put_row}
use ctfboard.Store.Challenges.{str_ptr_or_nil}
use ctfboard.Entity.Errors.{config_not_found}

pub data Request : Type 0 where
  get_one : String → Request
  get_every : Request
  set_one : String → String → String → ConfigValueType → ℕ → String → Request
  delete_one : String → ℕ → String → Request

-- `entries` says for each key what is there: the order of the list is forgotten.
pub data Answer : Type 0 where
  entry : Config → Answer
  entries : (String → Option Config) → Answer
  done : Answer

abbrev pub answered : {A W : Type 0} → (A → Answer) → Result A × W → Result Answer × W
answered f (ok a, w) = (ok (f a), w)
answered f (err e, w) = (err e, w)

-- A request to the use case
abbrev pub serve : Env → Request → DynamicConfig → Result Answer × DynamicConfig
serve env (get_one key) w = answered entry (get_config env key w)
serve env get_every w = answered (λ cache. entries (λ k. lookup k cache)) (get_all env w)
serve env (set_one key value description type actor_id client_ip) w =
    answered (λ _. done) (set_config env key value description type actor_id client_ip w)
serve env (delete_one key actor_id client_ip) w =
    answered (λ _. done) (delete_config_by_key env key actor_id client_ip w)

-- What a request comes to at the table, without a cache
abbrev pub read : String → Db → Result Config
read key db = elim (select_one (has_key key) db.configs) [
  | none ↦ err config_not_found
  | some c ↦ ok c
]

abbrev pub logged : Env → String → String → ℕ → String → Db → Db
logged env action key actor_id client_ip db = record db {
  audit_log =
      record {
        id = env.uuid 2;
        user_id = some actor_id;
        action = action;
        entity_type = "config";
        entity_id = key_id key;
        ip = str_ptr_or_nil client_ip;
        created_at = env.now;
      }
      ∷ db.audit_log;
}

abbrev pub after_set : Env → String → String → String → ConfigValueType → ℕ → String → Db → Db
after_set env key value description type actor_id client_ip db =
    logged env "update" key actor_id client_ip
      (record db { configs = put_row (new_config env key value description type) db.configs })

abbrev pub after_delete : Env → String → ℕ → String → Db → Db
after_delete env key actor_id client_ip db =
    logged env "delete" key actor_id client_ip
      (record db { configs = delete_where (has_key key) db.configs })

abbrev pub plain_set :
    Env → String → String → String → ConfigValueType → ℕ → String → Db → Result (Unit {0}) × Db
plain_set env key value description type actor_id client_ip db =
    if str_eq key ""
    then (err key_required, db)
    else if validate_value_type type value
    then (ok tt, after_set env key value description type actor_id client_ip db)
    else (err invalid_config, db)

abbrev pub plain_delete : Env → String → ℕ → String → Db → Result (Unit {0}) × Db
plain_delete env key actor_id client_ip db =
    if str_eq key "" then (err key_required, db) else elim (select_one (has_key key) db.configs) [
      | none ↦ (err config_not_found, db)
      | some _ ↦ (ok tt, after_delete env key actor_id client_ip db)
    ]

abbrev pub plain : Env → Request → Db → Result Answer × Db
plain env (get_one key) db = answered entry (read key db, db)
plain env get_every db = (ok (entries (λ k. select_one (has_key k) db.configs)), db)
plain env (set_one key value description type actor_id client_ip) db =
    answered (λ _. done)
      (plain_set env (trim_space key) value description type actor_id client_ip db)
plain env (delete_one key actor_id client_ip) db =
    answered (λ _. done) (plain_delete env (trim_space key) actor_id client_ip db)

abbrev pub run : List (Env × Request) → DynamicConfig → List (Result Answer)
run [] w = []
run ((env, r) ∷ rest) w = (serve env r w).0 ∷ run rest (serve env r w).1

abbrev pub run_plain : List (Env × Request) → Db → List (Result Answer)
run_plain [] db = []
run_plain ((env, r) ∷ rest) db = (plain env r db).0 ∷ run_plain rest (plain env r db).1

abbrev pub IsUp : Env → Type 0
IsUp env = (n : ℕ) → env.answers n ≡ true

abbrev pub AllUp : List (Env × Request) → Type 0
AllUp [] = Unit {0}
AllUp ((env, r) ∷ rest) = IsUp env × AllUp rest
