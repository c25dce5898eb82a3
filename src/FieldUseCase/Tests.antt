-- ===== src/FieldUseCase/Tests.antt =====
-- A form with one required number.
use ctfboard.Samples.{field}
use ctfboard.FieldUseCase.{check_form, true, ◌∷◌, []}
use ctfboard.Base.{◌≡◌, none, ◌↔◌}
use ctfboard.FieldUseCase.Accepts.{Accepts, check_form_iff}

check_form_iff_example :
    (check_form (field 7 "age" true ∷ []) ((7, "42") ∷ []) ≡ none)
    ↔ Accepts (field 7 "age" true ∷ []) ((7, "42") ∷ [])
check_form_iff_example = check_form_iff (field 7 "age" true ∷ []) ((7, "42") ∷ [])
