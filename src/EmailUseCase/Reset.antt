-- ===== src/EmailUseCase/Reset.antt =====
-- What a password reset does.
use ctfboard.Base.{
  [], ◌∷◌, none, some, true, false, inl, inr, refl, String, select_one, ◌≡◌, ◌≤◌, update_where,
  List, ℕ, arith, exists_where, delete_where, ◌∙◌, ap, Bool-cases, subst, str_eq_iff,
}
use ctfboard.Store.Statement.{exec, ◌>>=◌, ◌>>◌, bind-ok, bind_kept-ok, exec-query-ok}
use ctfboard.Store.Transaction.{ok, err, Db, Env}
use ctfboard.Session.Tokens.{Packages}
use ctfboard.Store.Accounts.{
  get_by_token, has_token, of_user_and_type, update_password, delete_by_user_and_type,
}
use ctfboard.Entity.Accounts.{TokenType, VerificationToken, same_type}
use ctfboard.EmailUseCase.{
  checked_token, update_password, reset_password, delete_by_user_and_type, password_reset,
  token_not_found, from_option, hash_failed, accept_token,
}
use ctfboard.Store.Users.{has_id}
use ctfboard.UserUseCase.Registered.{from_option-keeps, from_option-ok}

-- A token that the operation accepts
pub record IsAccepted (P : Packages) (env : Env) (type : TokenType) (text : String) (db : Db)
    (t : VerificationToken) : Type 0 where
  pub stored : select_one (has_token (P.sha256_hex text)) db.verification_tokens ≡ some t
  pub of_type : same_type t.token_type type ≡ true
  pub in_time : env.now ≤ t.expires_at
  pub unused : t.used_at ≡ none

abbrev IsGood : Env → TokenType → VerificationToken → Type 0
IsGood env type t =
    (same_type t.token_type type ≡ true) × (env.now ≤ t.expires_at) × (t.used_at ≡ none)

accept_token-ok :
    (env : Env) (type : TokenType) (t t' : VerificationToken) (db db' : Db)
    → accept_token env type t db ≡ (ok t', db')
    → (t ≡ t') × (db' ≡ db) × IsGood env type t
unfolding accept_token ◌>>=◌
accept_token-ok env type t t' db db' e = ground (arith, e)

pub checked_token-IsAccepted :
    (P : Packages) (env : Env) (type : TokenType) (text : String) (db db' : Db)
    (t : VerificationToken)
    → checked_token P env type text db ≡ (ok t, db')
    → IsAccepted P env type text db t × (db' ≡ db)
unfolding get_by_token
checked_token-IsAccepted P env type text db db' t e =
    let (found, mid, asked, rest) =
      bind-ok (exec env 0 (get_by_token (P.sha256_hex text))) (accept_token env type) db e in
    let (stored, kept) =
      exec-query-ok env 0 (λ db. select_one (has_token (P.sha256_hex text)) db.verification_tokens)
        token_not_found db asked in
    let (same, kept', good) = accept_token-ok env type found t mid db' rest in
    (
      subst (IsAccepted P env type text db) same
          (record { stored = stored; of_type = good.0; in_time = good.1; unused = good.2 }),
      kept' ∙ kept,
    )

-- The tables after a reset of `t`'s user
abbrev pub after_reset : VerificationToken → String → Db → Db
after_reset t hash db = record db {
  users = update_where (has_id t.user_id) (λ u. record u { password_hash = hash }) db.users;
  verification_tokens =
      delete_where (of_user_and_type t.user_id password_reset) db.verification_tokens;
}

set_and_delete :
    (env : Env) (t : VerificationToken) (hash : String) (db db' : Db)
    → (exec env 1 (update_password t.user_id hash)
          >> exec env 2 (delete_by_user_and_type t.user_id password_reset))
        db
      ≡ (ok tt, db')
    → db' ≡ after_reset t hash db
unfolding update_password delete_by_user_and_type exec ◌>>=◌
set_and_delete env t hash db db' e = ground (arith, e)

-- A reset that succeeds was asked for with a token that is stored, is meant for resets, has not expired
-- and was not used; it sets the password of that token's user, removes the user's reset tokens, and
-- changes nothing else.
pub reset_password_lem :
    (P : Packages) (env : Env) (text password : String) (db db' : Db)
    → reset_password P env text password db ≡ (ok tt, db')
    → (t : VerificationToken) × (hash : String) × IsAccepted P env password_reset text db t
      × (P.generate_from_password password ≡ some hash)
      × (db' ≡ after_reset t hash db)
unfolding reset_password
reset_password_lem P env text password db db' e =
    let (t, mid, checked, e1) = bind-ok (checked_token P env password_reset text) _ db e in
    let (accepted, kept) = checked_token-IsAccepted P env password_reset text db mid t checked in
    let (hash, g, e2) =
      bind_kept-ok (from_option hash_failed (P.generate_from_password password)) _ mid
        (from_option-keeps hash_failed (P.generate_from_password password) mid) e1 in
    (
      t,
      hash,
      accepted,
      from_option-ok hash_failed (P.generate_from_password password) hash mid g,
      set_and_delete env t hash mid db' e2 ∙ ap (after_reset t hash) kept,
    )

-- `token` is UNIQUE.
abbrev pub AreUnique : List VerificationToken → Type 0
AreUnique [] = Unit {0}
AreUnique (t ∷ ts) = (exists_where (has_token t.token) ts ≡ false) × AreUnique ts

select_one-absent :
    (text : String) (k : ℕ) (type : TokenType) (ts : List VerificationToken)
    → exists_where (has_token text) ts ≡ false
    → select_one (has_token text) (delete_where (of_user_and_type k type) ts) ≡ none
select_one-absent text k type [] h = refl
select_one-absent text k type (t ∷ ts) h = ground (arith, h, select_one-absent text k type ts)

-- Once the tokens of its user and type are deleted, a token is not found.
select_one-deleted :
    (text : String) (t : VerificationToken) (type : TokenType) (ts : List VerificationToken)
    → AreUnique ts
    → select_one (has_token text) ts ≡ some t
    → same_type t.token_type type ≡ true
    → select_one (has_token text) (delete_where (of_user_and_type t.user_id type) ts) ≡ none
select_one-deleted text t type [] u found same = cc
select_one-deleted text t type (x ∷ ts) u found same = elim (Bool-cases (has_token text x)) [
  | inl here ↦
      let first : x ≡ t = ground (arith, found, here) in
      let absent : exists_where (has_token text) ts ≡ false =
        subst (λ s. exists_where (has_token s) ts ≡ false) ((str_eq_iff x.token text).0 here) u.0 in
      ground (arith, first, same, select_one-absent text t.user_id type ts absent)
  | inr there ↦
      ground
        (arith, there, select_one-deleted text t type ts u.1 (ground (arith, found, there)) same)
]

-- A reset token works once: the same link is refused afterwards.
pub reset_password_once :
    (P : Packages) (env env' : Env) (text password password' : String) (db db' : Db)
    → AreUnique db.verification_tokens
    → reset_password P env text password db ≡ (ok tt, db')
    → env'.answers 0 ≡ true
    → reset_password P env' text password' db' ≡ (err token_not_found, db')
unfolding reset_password get_by_token exec ◌>>=◌
reset_password_once P env env' text password password' db db' u e up =
    let (t, hash, a, g, after) = reset_password_lem P env text password db db' e in
    let gone =
      select_one-deleted (P.sha256_hex text) t password_reset db.verification_tokens u a.stored
        a.of_type in
    ground (arith, up, after, gone)
