-- ===== src/Entity/Fields.antt =====
-- backend/internal/entity/field.go: the fields that a competition adds to users and teams.
use ctfboard.Base.{ℕ, Bool, true, false, String, List}
use ctfboard.Base.Int.{ℤ}

-- `FieldType` is a text in the code; a text that is none of the four is not in a row, by the CHECK of
-- backend/schema/postgres.sql.
pub data FieldType : Type 0 where
  text_field number_field select_field boolean_field : FieldType

pub data EntityType : Type 0 where
  user_entity team_entity : EntityType

abbrev pub same_entity : EntityType → EntityType → Bool
same_entity user_entity user_entity = true
same_entity team_entity team_entity = true
same_entity _ _ = false

pub record Field : Type 0 where
  pub id : ℕ
  pub name : String
  pub field_type : FieldType
  pub entity_type : EntityType
  pub required : Bool
  pub options : List String
  pub order_index : ℤ
  pub created_at : ℕ

pub record FieldValue : Type 0 where
  pub id : ℕ
  pub field_id : ℕ
  pub entity_id : ℕ
  pub value : String
  pub created_at : ℕ
