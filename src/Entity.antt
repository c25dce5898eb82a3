-- ===== src/Entity.antt =====
-- The rows and values that the backend works on: backend/internal/entity and the rows of
-- backend/internal/repo/persistent/sqlc/models.go. A `uuid.UUID` is a number (`uuid.Nil` is 0), a
-- point in time is a number, an `int` is an integer, and a pointer is an `Option`.
pub mod Errors
pub mod Competitions
pub mod Phases
pub mod Accounts
pub mod Fields
pub mod Records
use ctfboard.Base.{ℕ, Bool, true, false, Option, none, some, String}
use ctfboard.Base.Int.{ℤ}

pub record User : Type 0 where
  pub id : ℕ
  pub team_id : Option ℕ
  pub username : String
  pub email : String
  pub password_hash : String
  pub role : String
  pub is_verified : Bool
  pub verified_at : Option ℕ
  pub created_at : ℕ

-- The row of a team: the entity's fields, and the mark of a soft deletion.
pub record Team : Type 0 where
  pub id : ℕ
  pub name : String
  pub invite_token : ℕ
  pub captain_id : ℕ
  pub bracket_id : Option ℕ
  pub created_at : ℕ
  pub deleted_at : Option ℕ
  pub is_solo : Bool
  pub is_auto_created : Bool
  pub is_banned : Bool
  pub banned_at : Option ℕ
  pub banned_reason : Option String
  pub is_hidden : Bool

pub record Challenge : Type 0 where
  pub id : ℕ
  pub title : String
  pub description : String
  pub category : String
  pub points : ℤ
  pub initial_value : ℤ
  pub min_value : ℤ
  pub decay : ℤ
  pub solve_count : ℤ
  pub flag_hash : String
  pub is_hidden : Bool
  pub is_regex : Bool
  pub is_case_insensitive : Bool
  pub flag_regex : String
  pub flag_format_regex : Option String

pub record Solve : Type 0 where
  pub id : ℕ
  pub user_id : ℕ
  pub team_id : ℕ
  pub challenge_id : ℕ
  pub solved_at : ℕ

pub record Hint : Type 0 where
  pub id : ℕ
  pub challenge_id : ℕ
  pub content : String
  pub cost : ℤ
  pub order_index : ℤ

pub record HintUnlock : Type 0 where
  pub id : ℕ
  pub hint_id : ℕ
  pub team_id : ℕ
  pub unlocked_at : ℕ

pub record Award : Type 0 where
  pub id : ℕ
  pub team_id : ℕ
  pub value : ℤ
  pub description : String
  pub created_by : Option ℕ
  pub created_at : ℕ

pub data TeamAuditAction : Type 0 where
  created joined left captain_transferred deleted member_kicked : TeamAuditAction

-- The `details` maps that the team operations write.
pub data Details : Type 0 where
  no_details : Details
  mode_solo : Details
  reason_solo_team_cleanup : Details
  reason_disbanded_by_captain : Details
  transfer : ℕ → ℕ → Details
  target_user_id : ℕ → Details

pub record TeamAuditLog : Type 0 where
  pub id : ℕ
  pub team_id : ℕ
  pub user_id : ℕ
  pub action : TeamAuditAction
  pub details : Details
  pub created_at : ℕ

-- What an entry of the audit log is about: a row with a `uuid`, or a key of the configuration
pub data EntityId : Type 0 where
  row_id : ℕ → EntityId
  key_id : String → EntityId

pub record AuditLog : Type 0 where
  pub id : ℕ
  pub user_id : Option ℕ
  pub action : String
  pub entity_type : String
  pub entity_id : EntityId
  pub ip : Option String
  pub created_at : ℕ
