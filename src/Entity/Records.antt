-- ===== src/Entity/Records.antt =====
-- backend/internal/entity/bracket.go, submission.go, comment.go and app_settings.go (`Config`).
use ctfboard.Base.{ℕ, Bool, Option, String}

pub record Bracket : Type 0 where
  pub id : ℕ
  pub name : String
  pub description : String
  pub is_default : Bool
  pub created_at : ℕ

pub record Submission : Type 0 where
  pub id : ℕ
  pub user_id : ℕ
  pub team_id : Option ℕ
  pub challenge_id : ℕ
  pub submitted_flag : String
  pub is_correct : Bool
  pub ip : String
  pub created_at : ℕ

pub record Comment : Type 0 where
  pub id : ℕ
  pub user_id : ℕ
  pub challenge_id : ℕ
  pub content : String
  pub created_at : ℕ
  pub updated_at : ℕ

pub record SubmissionWithDetails : Type 0 where
  pub submission : Submission
  pub username : String
  pub team_name : String
  pub challenge_title : String
  pub challenge_category : String

pub record SubmissionStats : Type 0 where
  pub total : ℕ
  pub correct : ℕ
  pub incorrect : ℕ

-- `ConfigValueType`; any other text is `other_type`.
pub data ConfigValueType : Type 0 where
  string_type int_type bool_type json_type : ConfigValueType
  other_type : String → ConfigValueType

pub record Config : Type 0 where
  pub key : String
  pub value : String
  pub value_type : ConfigValueType
  pub description : String
  pub updated_at : ℕ
