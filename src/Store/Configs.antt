-- ===== src/Store/Configs.antt =====
-- backend/internal/repo/persistent/config_postgres.go. `GetAllConfigs` orders its rows by key; here they
-- come in the table's order.
use ctfboard.Store.Transaction.{Tx, Env, gets, modify, query}
use ctfboard.Entity.Records.{Config, ConfigValueType}
use ctfboard.Base.{String, List, Bool, select_one, ◌∷◌, delete_where, str_eq, if◌then◌else◌, []}
use ctfboard.Entity.Errors.{config_not_found}

abbrev pub has_key : String → Config → Bool
has_key key c = str_eq c.key key

abbrev pub new_config : Env → String → String → String → ConfigValueType → Config
new_config env key value description type = record {
  key = key;
  value = value;
  value_type = type;
  description = description;
  updated_at = env.now;
}

-- `ConfigRepo.GetAll`
unfoldable pub get_all_configs : Tx (List Config)
get_all_configs = gets (λ db. db.configs)

-- `ConfigRepo.GetByKey`
unfoldable pub get_config_by_key : String → Tx Config
get_config_by_key key = query (λ db. select_one (has_key key) db.configs) config_not_found

-- `INSERT ... ON CONFLICT (key) DO UPDATE`
unfoldable pub put_row : Config → List Config → List Config
put_row row [] = row ∷ []
put_row row (c ∷ cs) = if has_key row.key c then row ∷ cs else c ∷ put_row row cs

-- `ConfigRepo.Upsert`
unfoldable pub upsert_config : Config → Tx (Unit {0})
unfolding put_row
upsert_config row = modify (λ db. record db { configs = put_row row db.configs })

-- `ConfigRepo.Delete`
unfoldable pub delete_config : String → Tx (Unit {0})
delete_config key = modify (λ db. record db { configs = delete_where (has_key key) db.configs })
