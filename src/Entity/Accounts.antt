-- ===== src/Entity/Accounts.antt =====
-- backend/internal/entity/verification_token.go and api_token.go.
use ctfboard.Base.{ℕ, Bool, true, false, Option, none, some, String, ltb}

pub data TokenType : Type 0 where
  email_verification password_reset : TokenType

abbrev pub same_type : TokenType → TokenType → Bool
same_type email_verification email_verification = true
same_type password_reset password_reset = true
same_type _ _ = false

pub record VerificationToken : Type 0 where
  pub id : ℕ
  pub user_id : ℕ
  pub token : String
  pub token_type : TokenType
  pub expires_at : ℕ
  pub used_at : Option ℕ
  pub created_at : ℕ

-- `time.Now().After(t.ExpiresAt)`
abbrev pub is_expired : ℕ → VerificationToken → Bool
is_expired now t = ltb t.expires_at now

abbrev pub is_used : VerificationToken → Bool
is_used t = elim t.used_at [ none ↦ false | some _ ↦ true ]

pub record ApiToken : Type 0 where
  pub id : ℕ
  pub user_id : ℕ
  pub token_hash : String
  pub description : String
  pub expires_at : Option ℕ
  pub last_used_at : Option ℕ
  pub created_at : ℕ
