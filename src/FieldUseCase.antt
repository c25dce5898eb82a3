-- ===== src/FieldUseCase.antt =====
-- backend/internal/usecase/settings/field.go and validator.go: the fields that a competition adds to
-- its forms, and what a form may hold in them.
pub mod Accepts
mod Tests
use ctfboard.Entity.Fields.{
  text_field, number_field, select_field, boolean_field, Field, FieldType, EntityType,
}
use ctfboard.Base.{
  [], ◌∷◌, none, some, true, false, String, ℕ, Option, List, Bool, select_one, str_eq, ◌==◌,
  exists_where, ◌||◌, leb, if◌then◌else◌, ◌&&◌, not,
}
use ctfboard.Store.Statement.{Act, pure, fail, fail_if, exec, ◌>>=◌, ◌>>◌}
use ctfboard.Golang.{atoi, len, trim_space}
use ctfboard.Entity.Errors.{
  Error, unknown_field, invalid_field_value, name_required, field_required,
}
use ctfboard.Store.Transaction.{Env}
use ctfboard.Base.Int.{ℤ, pos}
use ctfboard.Store.Fields.{
  get_by_entity_type, create_field, update_field, get_field_by_id, delete_field,
}

-- What `validateSelect` accepts
unfoldable pub validate_select : String → List String → Bool
validate_select value [] = true
validate_select value (o ∷ os) = str_eq o value || exists_where (λ p. str_eq p value) os

abbrev is_some : Option ℤ → Bool
is_some none = false
is_some (some _) = true

-- `validateNumber`, `validateBoolean`, `validateSelect` and `validateText`
unfoldable pub accepts_value : FieldType → List String → String → Bool
unfolding validate_select
accepts_value number_field options value = is_some (atoi value)
accepts_value boolean_field options value = str_eq value "true" || str_eq value "false"
accepts_value select_field options value = validate_select value options
accepts_value text_field options value = leb (len value) 500

-- `validateValue`
unfoldable pub validate_value : Field → String → Bool
unfolding accepts_value
validate_value f value = accepts_value f.field_type f.options value

abbrev pub find_field : ℕ → List Field → Option Field
find_field k = select_one (λ f. f.id == k)

abbrev pub check_value : Option Field → String → Option Error
check_value none value = some unknown_field
check_value (some f) value = if validate_value f value then none else some invalid_field_value

-- The first loop of `ValidateValues`; Go visits the map in any order, here in that of the list.
unfoldable pub check_values : List Field → List (ℕ × String) → Option Error
check_values fields [] = none
check_values fields ((k, value) ∷ rest) = elim (check_value (find_field k fields) value) [
  | some e ↦ some e
  | none ↦ check_values fields rest
]

abbrev pub is_given : ℕ → List (ℕ × String) → Bool
is_given k = exists_where (λ v. v.0 == k)

-- The second loop
unfoldable pub check_required : List Field → List (ℕ × String) → Option Error
check_required [] values = none
check_required (f ∷ fs) values =
    if f.required && not (is_given f.id values)
    then some field_required
    else check_required fs values

abbrev pub first_error : Option Error → Option Error → Option Error
first_error (some e) o = some e
first_error none o = o

unfoldable pub check_form : List Field → List (ℕ × String) → Option Error
unfolding check_values check_required
check_form fields values = first_error (check_values fields values) (check_required fields values)

abbrev pub reject : Option Error → Act (Unit {0})
reject none = pure tt
reject (some e) = fail e

-- `ValidateValues`; its query is the `n`-th statement of the operation that calls it.
unfoldable pub validate_values : Env → ℕ → EntityType → List (ℕ × String) → Act (Unit {0})
unfolding check_form
validate_values env n entity_type values = do
  fields ← exec env n (get_by_entity_type entity_type)
  reject (check_form fields values)

abbrev with_name : Field → String → FieldType → Bool → List String → ℤ → Field
with_name f name field_type required options order_index = record f {
  name = name;
  field_type = field_type;
  required = required;
  options = options;
  order_index = order_index;
}

abbrev new_field : Env → EntityType → Field
new_field env entity_type = record {
  id = env.uuid 0;
  name = "";
  field_type = text_field;
  entity_type = entity_type;
  required = false;
  options = [];
  order_index = pos 0;
  created_at = env.now;
}

-- `Create`
unfoldable pub create_custom_field :
    Env → String → FieldType → EntityType → Bool → List String → ℤ → Act Field
create_custom_field env name field_type entity_type required options order_index =
    let row =
      with_name (new_field env entity_type) (trim_space name) field_type required options
        order_index in
    do fail_if (str_eq (trim_space name) "") name_required; exec env 0 (create_field row); pure row

abbrev save_field : Env → Field → Act (Option Field)
save_field env row = do exec env 1 (update_field row); pure (some row)

abbrev save_named : Env → Bool → Field → Act (Option Field)
save_named env blank row = if blank then pure none else save_field env row

-- `Update`. For a blank name the code wraps the error of the query before, which is nil there, and so
-- returns no field and no error: `none`.
unfoldable pub update_custom_field :
    Env → ℕ → String → FieldType → Bool → List String → ℤ → Act (Option Field)
update_custom_field env k name field_type required options order_index = do
  f ← exec env 0 (get_field_by_id k)
  save_named env (str_eq (trim_space name) "")
      (with_name f (trim_space name) field_type required options order_index)

-- `Delete`
unfoldable pub delete_custom_field : Env → ℕ → Act (Unit {0})
delete_custom_field env k = exec env 0 (delete_field k)
