-- ===== src/Store/Fields.antt =====
-- backend/internal/repo/persistent/field_postgres.go. `GetFieldsByEntityType` orders its rows, which the
-- validator does not depend on; here they come in the table's order. A text that is written as JSON
-- is read back as it was.
use ctfboard.Store.Transaction.{◌>>=◌, ◌>>◌, Env, Tx, gets, query, modify, fail_if}
use ctfboard.Base.{
  ℕ, Bool, if◌then◌else◌, String, ◌==◌, List, exists_where, select_one, select_many, update_where,
  delete_where, ◌&&◌, not, ◌∷◌,
}
use ctfboard.Base.Int.{ℤ, pos}
use ctfboard.Entity.Fields.{Field, EntityType, FieldValue, same_entity}
use ctfboard.Store.Challenges.{outside_int32}
use ctfboard.Entity.Errors.{unique_violation, field_not_found, foreign_key_violation}

abbrev is_field : ℕ → Field → Bool
is_field k f = f.id == k

-- `int32PtrToInt (intToInt32Ptr i)`: what does not fit 32 bits is stored as NULL and read as 0.
abbrev order_stored : ℤ → ℤ
order_stored i = if outside_int32 i then pos 0 else i

-- `FieldRepo.Create`
unfoldable pub create_field : Field → Tx (Unit {0})
create_field row = do
  taken ← gets (λ db. exists_where (is_field row.id) db.fields)
  fail_if taken unique_violation
  modify λ db. record db {
    fields = record row { order_index = order_stored row.order_index } ∷ db.fields;
  }

-- `FieldRepo.GetByID`
unfoldable pub get_field_by_id : ℕ → Tx Field
get_field_by_id k = query (λ db. select_one (is_field k) db.fields) field_not_found

-- `FieldRepo.GetByEntityType`
unfoldable pub get_by_entity_type : EntityType → Tx (List Field)
get_by_entity_type e = gets (λ db. select_many (λ f. same_entity f.entity_type e) db.fields)

-- `FieldRepo.Update`: all but the key, the entity type and the time of creation
unfoldable pub update_field : Field → Tx (Unit {0})
update_field row = modify λ db. record db {
  fields =
      update_where (is_field row.id)
        (λ f. record f {
          name = row.name;
          field_type = row.field_type;
          required = row.required;
          options = row.options;
          order_index = order_stored row.order_index;
        })
        db.fields;
}

-- `FieldRepo.Delete`; the values of the field go with it (`ON DELETE CASCADE`).
unfoldable pub delete_field : ℕ → Tx (Unit {0})
delete_field k = modify λ db. record db {
  fields = delete_where (is_field k) db.fields;
  field_values = delete_where (λ v. v.field_id == k) db.field_values;
}

abbrev same_cell : ℕ → ℕ → FieldValue → Bool
same_cell field_id entity_id v = v.field_id == field_id && v.entity_id == entity_id

-- `UpsertFieldValue`: the field exists, and a value that is there is replaced.
unfoldable pub upsert_field_value : Env → ℕ → ℕ → ℕ → String → Tx (Unit {0})
upsert_field_value env n field_id entity_id value = do
  known ← gets (λ db. exists_where (is_field field_id) db.fields)
  fail_if (not known) foreign_key_violation
  modify λ db. record db {
    field_values =
        if exists_where (same_cell field_id entity_id) db.field_values
        then update_where (same_cell field_id entity_id) (λ v. record v { value = value })
            db.field_values
        else record {
          id = env.uuid n;
          field_id = field_id;
          entity_id = entity_id;
          value = value;
          created_at = env.now;
        }
          ∷ db.field_values;
  }

-- `DeleteFieldValuesByEntityID`
unfoldable pub delete_field_values : ℕ → Tx (Unit {0})
delete_field_values k =
    modify λ db. record db { field_values = delete_where (λ v. v.entity_id == k) db.field_values }
