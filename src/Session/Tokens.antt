-- ===== src/Session/Tokens.antt =====
-- backend/pkg/jwt/jwt.go, and what the accounts take from other packages.
use ctfboard.Base.{none, some, true, false, String, ℕ, Bool, Option, ◌+◌, if◌then◌else◌}

-- `TokenTypeAccess` and `TokenTypeRefresh`
pub data ClaimsType : Type 0 where
  access refresh : ClaimsType

-- `CustomClaims` with its registered claims
pub record CustomClaims : Type 0 where
  pub user_id : String
  pub email : String
  pub full_name : String
  pub role : String
  pub token_type : ClaimsType
  pub expires_at : ℕ
  pub issued_at : ℕ
  pub not_before : ℕ
  pub issuer : String

-- Third-party packages: google/uuid, crypto/rand with hex, crypto/sha256 with hex, bcrypt and
-- golang-jwt. `random_token` is what this request draws. `sign secret claims` is the signed text, and
-- `parse now secret text` its claims, where the signature is right and the time is within the claims.
pub record Packages : Type 0 where
  pub uuid_string : ℕ → String
  pub parse_uuid : String → Option ℕ
  pub random_token : Option String
  pub sha256_hex : String → String
  pub generate_from_password : String → Option String
  pub compare_hash_and_password : String → String → Bool
  pub sign : String → CustomClaims → Option String
  pub parse : ℕ → String → String → Option CustomClaims

-- `JWTService`; times to live are in seconds.
pub record JwtService : Type 0 where
  pub access_secret : String
  pub refresh_secret : String
  pub access_ttl : ℕ
  pub refresh_ttl : ℕ

pub record TokenPair : Type 0 where
  pub access_token : String
  pub refresh_token : String
  pub access_expires_at : ℕ
  pub refresh_expires_at : ℕ

abbrev pub claims_of : Packages → ℕ → ℕ → ClaimsType → ℕ → String → String → String → CustomClaims
claims_of P now ttl type user_id email name role = record {
  user_id = P.uuid_string user_id;
  email = email;
  full_name = name;
  role = role;
  token_type = type;
  expires_at = now + ttl;
  issued_at = now;
  not_before = now;
  issuer = "skypost-delivery-orchestrator";
}

abbrev pair_of : JwtService → ℕ → Option String → Option String → Option TokenPair
pair_of J now none r = none
pair_of J now (some a) none = none
pair_of J now (some a) (some r) = some (record {
  access_token = a;
  refresh_token = r;
  access_expires_at = now + J.access_ttl;
  refresh_expires_at = now + J.refresh_ttl;
})

-- `GenerateTokenPair` at the time `now`; `none` is an error.
unfoldable pub generate_token_pair :
    Packages → JwtService → ℕ → ℕ → String → String → String → Option TokenPair
generate_token_pair P J now user_id email name role =
    pair_of J now
      (P.sign J.access_secret (claims_of P now J.access_ttl access user_id email name role))
      (P.sign J.refresh_secret (claims_of P now J.refresh_ttl refresh user_id email name role))

abbrev same_claims_type : ClaimsType → ClaimsType → Bool
same_claims_type access access = true
same_claims_type refresh refresh = true
same_claims_type _ _ = false

abbrev of_claims_type : ClaimsType → Option CustomClaims → Option CustomClaims
of_claims_type type none = none
of_claims_type type (some c) = if same_claims_type c.token_type type then some c else none

-- `ValidateAccessToken`
unfoldable pub validate_access_token : Packages → JwtService → ℕ → String → Option CustomClaims
validate_access_token P J now text = of_claims_type access (P.parse now J.access_secret text)

-- `ValidateRefreshToken`
unfoldable pub validate_refresh_token : Packages → JwtService → ℕ → String → Option CustomClaims
validate_refresh_token P J now text = of_claims_type refresh (P.parse now J.refresh_secret text)

abbrev again : Packages → JwtService → ℕ → CustomClaims → Option ℕ → Option TokenPair
again P J now c none = none
again P J now c (some k) = generate_token_pair P J now k c.email c.full_name c.role

abbrev refresh_from : Packages → JwtService → ℕ → Option CustomClaims → Option TokenPair
refresh_from P J now none = none
refresh_from P J now (some c) = again P J now c (P.parse_uuid c.user_id)

-- `RefreshTokens`
unfoldable pub refresh_tokens : Packages → JwtService → ℕ → String → Option TokenPair
unfolding generate_token_pair validate_refresh_token
refresh_tokens P J now text = refresh_from P J now (validate_refresh_token P J now text)
