-- ===== src/UserUseCase/Login.antt =====
-- Who can log in, and as whom a request is let in after a login.
use ctfboard.Base.{
  some, true, inl, inr, String, ℕ, ◌≡◌, ◌≤◌, select_one, ◌<◌, ◌+◌, Option-cases, arith, str_eq_iff,
}
use ctfboard.Store.Statement.{exec, ◌>>=◌}
use ctfboard.Store.Transaction.{ok, Db, Env}
use ctfboard.Session.Tokens.{
  Packages, JwtService, generate_token_pair, CustomClaims, validate_access_token, TokenPair,
  claims_of, access, refresh,
}
use ctfboard.UserUseCase.{login, User, CustomFields, register}
use ctfboard.Store.Accounts.{has_email}
use ctfboard.UserUseCase.Registered.{register-IsRegistered}

-- What bcrypt promises: a password matches its own hash.
abbrev pub HashMatches : Packages → Type 0
HashMatches P =
    (password hash : String)
    → P.generate_from_password password ≡ some hash
    → P.compare_hash_and_password hash password ≡ true

-- What golang-jwt promises: any claims can be signed.
abbrev pub Signs : Packages → Type 0
Signs P =
    (secret : String) (claims : CustomClaims) → (text : String) × (P.sign secret claims ≡ some text)

-- And these are read back, with the secret that signed them, while they are valid.
abbrev pub ReadsBack : Packages → String → CustomClaims → Type 0
ReadsBack P secret claims =
    (now : ℕ) (text : String)
    → P.sign secret claims ≡ some text
    → claims.not_before ≤ now
    → now < claims.expires_at
    → P.parse now secret text ≡ some claims

abbrev pub access_claims : Packages → JwtService → ℕ → User → CustomClaims
access_claims P J now u = claims_of P now J.access_ttl access u.id u.email u.username u.role

-- A login gives a pair whose access token is accepted, until it expires, as that user's.
pub login_lem :
    (P : Packages) (J : JwtService) (env : Env) (later : ℕ) (email password : String) (u : User)
    (db : Db)
    → Signs P
    → ReadsBack P J.access_secret (access_claims P J env.now u)
    → env.answers 0 ≡ true
    → select_one (has_email email) db.users ≡ some u
    → P.compare_hash_and_password u.password_hash password ≡ true
    → env.now ≤ later
    → later < env.now + J.access_ttl
    → (pair : TokenPair) × (login P J env email password db ≡ (ok pair, db))
      × (validate_access_token P J later pair.access_token ≡ some (access_claims P J env.now u))
unfolding login generate_token_pair validate_access_token exec ◌>>=◌
login_lem P J env later email password u db signs reads up found right after before =
    let (a, sa) = signs J.access_secret (access_claims P J env.now u) in
    let (r, sr) =
      signs J.refresh_secret
        (claims_of P env.now J.refresh_ttl refresh u.id u.email u.username u.role) in
    let back = reads later a sa after before in
    (
      record {
        access_token = a;
        refresh_token = r;
        access_expires_at = env.now + J.access_ttl;
        refresh_expires_at = env.now + J.refresh_ttl;
      },
      ground (arith, up, found, right, sa, sr),
      ground (arith, back),
    )

-- Whoever has registered can log in with the email and the password of the registration, and the
-- access token of that login is accepted, until it expires, as the registered user's, with the role
-- of a player.
pub login-register :
    (P : Packages) (J : JwtService) (env env' : Env) (later : ℕ) (username email password : String)
    (cs : CustomFields) (u : User) (db db' : Db)
    → HashMatches P
    → Signs P
    → ReadsBack P J.access_secret (access_claims P J env'.now u)
    → env'.answers 0 ≡ true
    → register P env username email password cs db ≡ (ok u, db')
    → env'.now ≤ later
    → later < env'.now + J.access_ttl
    → (pair : TokenPair) × (login P J env' email password db' ≡ (ok pair, db'))
      × (validate_access_token P J later pair.access_token ≡ some (access_claims P J env'.now u))
      × (u.role ≡ "user")
login-register P J env env' later username email password cs u db db' matches signs reads up e after
      before =
    let (hash, g, r) = register-IsRegistered P env username email password cs u db db' e in
    let found : select_one (has_email email) db'.users ≡ some u =
      ground (arith, r.row, r.users, str_eq_iff email email) in
    let right : P.compare_hash_and_password u.password_hash password ≡ true =
      ground (arith, r.row, matches password hash g) in
    let (pair, logged, accepted) =
      login_lem P J env' later email password u db' signs reads up found right after before in
    (pair, logged, accepted, ground (arith, r.row))

-- A login succeeds only with the password of the user who has that email.
pub login_sound :
    (P : Packages) (J : JwtService) (env : Env) (email password : String) (pair : TokenPair)
    (db db' : Db)
    → login P J env email password db ≡ (ok pair, db')
    → (u : User) × (select_one (has_email email) db.users ≡ some u)
      × (P.compare_hash_and_password u.password_hash password ≡ true)
      × (db' ≡ db)
unfolding login exec ◌>>=◌
login_sound P J env email password pair db db' e =
    elim (Option-cases (select_one (has_email email) db.users)) [
      | inl nobody ↦ absurd (ground (arith, nobody, e))
      | inr (u, found) ↦ (u, found, ground (arith, found, e), ground (arith, found, e))
    ]
