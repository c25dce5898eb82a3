-- ===== src/Session/Holder.antt =====
-- Who is let in by the authentication of requests: `Auth` with an access token or an API token
use ctfboard.Store.Statement.{exec, exec-query-ok}
use ctfboard.Store.Transaction.{ok, err, Db, Env, Result}
use ctfboard.Base.{
  arith, ◌≡◌, Option, ℕ, true, ◌⊎◌, some, Bool-cases, str_eq, inl, inr, Option-cases, refl, none,
  String, select_one, ap, sym, ◌∙◌,
}
use ctfboard.Session.Middleware.{
  Gate, pass, let_in, Identity, auth_bearer, auth_api_token, auth, with_api_token, auth_parts,
  split_space, validate_token,
}
use ctfboard.Entity.{User}
use ctfboard.Store.Users.{get_user_by_id, find_user}
use ctfboard.Store.ApiTokens.{update_last_used_at, get_by_token_hash}
use ctfboard.Session.Tokens.{Packages, JwtService, CustomClaims, validate_access_token}
use ctfboard.Entity.Accounts.{ApiToken}
use ctfboard.Entity.Errors.{user_not_found}
use ctfboard.Golang.{trim_space}

let_in-users :
    (P : Packages) (env : Env) (t : ApiToken) (r : Result User × Db)
    → (let_in P env t r).1.users ≡ r.1.users
unfolding exec update_last_used_at
let_in-users P env t (err e, db) = refl
let_in-users P env t (ok u, db) = ground arith

-- A request whose access token is signed, in time and names this identity
abbrev pub IsBearer : Packages → JwtService → ℕ → Identity → Type 0
IsBearer P J now who =
    (text : String) × (c : CustomClaims) × (validate_access_token P J now text ≡ some c)
    × (who ≡ record { user_id = c.user_id; role = c.role })

-- A request with the text of an API token that is stored, has not expired, and belongs to this user
abbrev pub IsTokenUser : Packages → ℕ → Db → Identity → Type 0
IsTokenUser P now db who =
    (text : String) × (t : ApiToken) × (u : User) × (select_one
        (λ t. str_eq t.token_hash (P.sha256_hex text)) db.api_tokens
      ≡ some t)
    × (validate_token now (some t) ≡ true)
    × (find_user t.user_id db ≡ some u)
    × (who ≡ record { user_id = P.uuid_string u.id; role = u.role })

auth_bearer_sound :
    (P : Packages) (J : JwtService) (now : ℕ) (text : String) (who : Identity)
    → auth_bearer P J now text ≡ pass who
    → IsBearer P J now who
unfolding auth_bearer
auth_bearer_sound P J now text who e = elim (Option-cases (validate_access_token P J now text)) [
  | inl bad ↦ absurd (ground (arith, bad, e))
  | inr (c, good) ↦ (text, c, good, ground (arith, good, e))
]

-- `let_in` lets a user in whom the query has found.
let_in-pass :
    (P : Packages) (env : Env) (t : ApiToken) (r : Result User × Db) (who : Identity) (db' : Db)
    → let_in P env t r ≡ (pass who, db')
    → (u : User) × (mid : Db) × (r ≡ (ok u, mid))
      × (who ≡ record { user_id = P.uuid_string u.id; role = u.role })
let_in-pass P env t (err x, db) who db' e = cc
let_in-pass P env t (ok u, db) who db' e = (u, db, refl, ground (arith, e))

with_api_token-pass :
    (P : Packages) (env : Env) (r : Result (Option ApiToken) × Db) (who : Identity) (db' : Db)
    → with_api_token P env r ≡ (pass who, db')
    → (t : ApiToken) × (mid : Db) × (r ≡ (ok (some t), mid))
      × (validate_token env.now (some t) ≡ true)
      × (let_in P env t (exec env 1 (get_user_by_id t.user_id) mid) ≡ (pass who, db'))
with_api_token-pass P env (err x, db) who db' e = cc
with_api_token-pass P env (ok none, db) who db' e = cc
with_api_token-pass P env (ok (some t), db) who db' e =
    elim (Bool-cases (validate_token env.now (some t))) [
      | inl good ↦ (t, db, refl, good, ground (arith, good, e))
      | inr bad ↦ absurd (ground (arith, bad, e))
    ]

get_by_token_hash-ok :
    (env : Env) (hash : String) (o : Option ApiToken) (db mid : Db)
    → exec env 0 (get_by_token_hash hash) db ≡ (ok o, mid)
    → (select_one (λ t. str_eq t.token_hash hash) db.api_tokens ≡ o) × (mid ≡ db)
unfolding exec get_by_token_hash
get_by_token_hash-ok env hash o db mid e = ground (arith, e)

found-IsTokenUser :
    (P : Packages) (env : Env) (text : String) (who : Identity) (db db' : Db)
    → with_api_token P env (exec env 0 (get_by_token_hash (P.sha256_hex text)) db) ≡ (pass who, db')
    → IsTokenUser P env.now db who × (db'.users ≡ db.users)
unfolding get_user_by_id
found-IsTokenUser P env text who db db' e =
    let (t, mid, asked, good, e1) = with_api_token-pass P env _ who db' e in
    let (stored, kept) = get_by_token_hash-ok env (P.sha256_hex text) (some t) db mid asked in
    let (u, mid', asked', is) = let_in-pass P env t _ who db' e1 in
    let (found, kept') = exec-query-ok env 1 (find_user t.user_id) user_not_found mid asked' in
    (
      (text, t, u, stored, good, ap (find_user t.user_id) (sym kept) ∙ found, is),
      ap (λ (r : Gate Identity × Db). r.1.users) (sym e1)
          ∙ let_in-users P env t _
          ∙ ap (λ (r : Result User × Db). r.1.users) asked'
          ∙ ap (λ (d : Db). d.users) (kept' ∙ kept),
    )

auth_api_token-IsTokenUser :
    (P : Packages) (env : Env) (text : String) (who : Identity) (db db' : Db)
    → auth_api_token P env text db ≡ (pass who, db')
    → IsTokenUser P env.now db who × (db'.users ≡ db.users)
unfolding auth_api_token
auth_api_token-IsTokenUser P env text who db db' e =
    elim (Bool-cases (str_eq (trim_space text) "")) [
      | inl blank ↦ absurd (ground (arith, blank, e))
      | inr full ↦ found-IsTokenUser P env (trim_space text) who db db' (ground (arith, full, e))
    ]

abbrev pub IsHolder : Packages → JwtService → ℕ → Db → Identity → Type 0
IsHolder P J now db who = IsBearer P J now who ⊎ IsTokenUser P now db who

auth_parts-IsHolder :
    (P : Packages) (J : JwtService) (env : Env) (o : Option (String × String)) (who : Identity)
    (db db' : Db)
    → auth_parts P J env o db ≡ (pass who, db')
    → IsHolder P J env.now db who × (db'.users ≡ db.users)
auth_parts-IsHolder P J env none who db db' e = cc
auth_parts-IsHolder P J env (some (scheme, text)) who db db' e =
    elim (Bool-cases (str_eq scheme "Bearer")) [
      | inl b ↦ (
        inl (auth_bearer_sound P J env.now text who (ground (arith, b, e))),
        ground (arith, b, e),
      )
      | inr nb ↦ elim (Bool-cases (str_eq scheme "Token")) [
        | inl b ↦
            let (h, kept) =
              auth_api_token-IsTokenUser P env text who db db' (ground (arith, nb, b, e)) in
            (inr h, kept)
        | inr nt ↦ absurd (ground (arith, nb, nt, e))
      ]
    ]

-- A request is let in only with an access token that is signed and in time, or with an API token that
-- is stored and not expired and whose user exists; users are left alone.
pub auth_sound :
    (P : Packages) (J : JwtService) (env : Env) (header : String) (who : Identity) (db db' : Db)
    → auth P J env header db ≡ (pass who, db')
    → IsHolder P J env.now db who × (db'.users ≡ db.users)
unfolding auth
auth_sound P J env header who db db' e =
    auth_parts-IsHolder P J env (split_space header) who db db' e
