-- ===== src/DynamicConfigUseCase/Tests.antt =====
-- A setting is set, read, and deleted, with the cache in between.
use ctfboard.Samples.{start, at_time}
use ctfboard.Golang.{atoi, trim_space}
use ctfboard.Store.Statement.{exec}
use ctfboard.Store.Transaction.{ok, Env}
use ctfboard.DynamicConfigUseCase.{
  DynamicConfig, new_dynamic_config_use_case, set_config, validate_value_type, atoi, upsert_config,
  get_int, int_type, create_audit_log_tx,
}
use ctfboard.Base.{List, ◌≡◌, some, ◌∷◌, refl, []}
use ctfboard.Base.Int.{ℤ, pos}
use ctfboard.DynamicConfigUseCase.Fresh.{IsFresh}
use ctfboard.DynamicConfigUseCase.Plain.{
  Request, run, after_set, get_one, run_plain, set_one, get_every, delete_one, AllUp,
}
use ctfboard.Store.Configs.{put_row, upsert_config}
use ctfboard.DynamicConfigUseCase.Typed.{get_int-set_config}
use ctfboard.DynamicConfigUseCase.Refines.{run-plain}
use ctfboard.Store.Challenges.{create_audit_log_tx}

abbrev empty : DynamicConfig
empty = new_dynamic_config_use_case start

empty-IsFresh : IsFresh empty
unfolding new_dynamic_config_use_case
empty-IsFresh = record { keyed = tt; agrees = λ t e. cc }

abbrev requests : List (Env × Request)
requests =
    (at_time 1, get_one "n")
    ∷ (at_time 2, set_one " n " "42" "" int_type 9 "")
    ∷ (at_time 3, get_every)
    ∷ (at_time 4, get_one "n")
    ∷ (at_time 5, delete_one "n" 9 "")
    ∷ (at_time 40, get_one "n")
    ∷ []

all_up : AllUp requests
all_up = (λ n. refl, (λ n. refl, (λ n. refl, (λ n. refl, (λ n. refl, (λ n. refl, tt))))))

run-plain_example : run requests empty ≡ run_plain requests start
unfolding new_dynamic_config_use_case
run-plain_example = run-plain requests empty all_up empty-IsFresh

abbrev saved : DynamicConfig
saved = record empty { db = after_set (at_time 2) "n" "42" "" int_type 9 "" start }

saves : set_config (at_time 2) " n " "42" "" int_type 9 "" empty ≡ (ok tt, saved)
unfolding set_config validate_value_type upsert_config put_row create_audit_log_tx exec
    new_dynamic_config_use_case trim_space atoi
saves = refl

get_int-set_config_example :
    (z : ℤ) × (atoi "42" ≡ some z) × ((get_int (at_time 3) "n" (pos 0) saved).0 ≡ z)
unfolding trim_space
get_int-set_config_example =
    get_int-set_config (at_time 2) (at_time 3) " n " "42" "" 9 "" (pos 0) empty saved empty-IsFresh
      (λ n. refl) saves
