-- ===== src/EmailUseCase/Forgotten.antt =====
-- A forgotten password, from the request to the next login.
use ctfboard.Base.{
  if◌then◌else◌, [], ◌∷◌, none, some, true, ℕ, ◌≡◌, String, List, arith, ◌+◌, sym, ◌∙◌, Bool, ap,
  select_one, update_where, Option, ◌≤◌, str_eq_iff, Bool-cases, inl, inr, refl, subst,
}
use ctfboard.Store.Statement.{pure, fail, exec, ◌>>=◌, ◌>>◌, bind-run, exec-query-ok}
use ctfboard.Store.Transaction.{ok, Db, Env}
use ctfboard.Session.Tokens.{
  Packages, JwtService, generate_token_pair, TokenPair, claims_of, refresh,
}
use ctfboard.Store.Accounts.{
  delete_by_user_and_type, get_by_token, update_password, get_by_email, has_email,
}
use ctfboard.EmailUseCase.{
  EmailDeps, Message, User, VerificationToken, issue, from_option, reset_password, accept_token,
  get_by_token, update_password, password_reset, checked_token, hash_failed, Result,
  send_password_reset_email, reset_for, get_by_email, err, is_user_not_found,
}
use ctfboard.EmailUseCase.Reset.{IsAccepted, after_reset}
use ctfboard.Entity.Errors.{Error, user_not_found}
use ctfboard.UserUseCase.{login}
use ctfboard.UserUseCase.Login.{HashMatches, Signs, access_claims}
use ctfboard.Store.Users.{has_id}
use ctfboard.EmailUseCase.Sent.{row_of, IsSent, issue-IsSent}

from_option-run :
    {A : Type 0} (e : Error) (o : Option A) (a : A) (db : Db)
    → o ≡ some a
    → from_option e o db ≡ (ok a, db)
unfolding pure fail
from_option-run e o a db h = ground (arith, h)

-- An update that a test does not look at leaves what the test finds, updated.
select_one-update :
    (p q : User → Bool) (f : User → User) (us : List User) (u : User)
    → ((x : User) → p (f x) ≡ p x)
    → select_one p us ≡ some u
    → q u ≡ true
    → select_one p (update_where q f us) ≡ some (f u)
select_one-update p q f [] u h found yes_q = cc
select_one-update p q f (x ∷ us) u h found yes_q =
    ground (arith, h x, found, yes_q, select_one-update p q f us u h)

checked_token-run :
    (P : Packages) (env : Env) (text : String) (t : VerificationToken) (db : Db)
    → IsAccepted P env password_reset text db t
    → env.answers 0 ≡ true
    → checked_token P env password_reset text db ≡ (ok t, db)
unfolding accept_token get_by_token exec ◌>>=◌
checked_token-run P env text t db a up =
    ground (arith, up, a.stored, a.of_type, a.in_time, a.unused)

set_and_delete-run :
    (env : Env) (t : VerificationToken) (hash : String) (db : Db)
    → env.answers 1 ≡ true
    → env.answers 2 ≡ true
    → (exec env 1 (update_password t.user_id hash)
          >> exec env 2 (delete_by_user_and_type t.user_id password_reset))
        db
      ≡ (ok tt, after_reset t hash db)
unfolding update_password delete_by_user_and_type exec ◌>>=◌
set_and_delete-run env t hash db one two = ground (arith, one, two)

reset_password-run :
    (P : Packages) (env : Env) (text password hash : String) (t : VerificationToken) (db : Db)
    → IsAccepted P env password_reset text db t
    → P.generate_from_password password ≡ some hash
    → ((n : ℕ) → env.answers n ≡ true)
    → reset_password P env text password db ≡ (ok tt, after_reset t hash db)
unfolding reset_password
reset_password-run P env text password hash t db a g up =
    bind-run (checked_token P env password_reset text) _ t db db
      (checked_token-run P env text t db a (up 0))
    ∙ bind-run (from_option hash_failed (P.generate_from_password password)) _ hash db db
        (from_option-run hash_failed (P.generate_from_password password) hash db g)
    ∙ set_and_delete-run env t hash db (up 1) (up 2)

reset_for-ok :
    (P : Packages) (D : EmailDeps) (env : Env) (r : Result User × Db) (m : Message) (db' : Db)
    → reset_for P D env r ≡ (ok (some m), db')
    → (u : User) × (mid : Db) × (r ≡ (ok u, mid))
      × (issue P D env password_reset D.reset_ttl u mid ≡ (ok (some m), db'))
reset_for-ok P D env (err e, db) m db' h = elim (Bool-cases (is_user_not_found e)) [
  | inl b ↦ absurd (ground (arith, h, b))
  | inr b ↦ absurd (ground (arith, h, b))
]
reset_for-ok P D env (ok u, mid) m db' h = (u, mid, refl, h)

-- A message for a reset goes to a user who has the address.
send_password_reset_email-IsSent :
    (P : Packages) (D : EmailDeps) (env : Env) (email : String) (m : Message) (db db' : Db)
    → send_password_reset_email P D env email db ≡ (ok (some m), db')
    → (u : User) × (select_one (has_email email) db.users ≡ some u)
      × IsSent P env password_reset D.reset_ttl u m db db'
unfolding send_password_reset_email get_by_email
send_password_reset_email-IsSent P D env email m db db' e = elim (Bool-cases D.enabled) [
  | inl on ↦
      let h : reset_for P D env (exec env 0 (get_by_email email) db) ≡ (ok (some m), db') =
        ap
          (λ b. if b then reset_for P D env (exec env 0 (get_by_email email) db) else (ok none, db))
          (sym on)
        ∙ e in
      let (u, mid, asked, issued) =
        reset_for-ok P D env (exec env 0 (get_by_email email) db) m db' h in
      let (found, kept) =
        exec-query-ok env 0 (λ db. select_one (has_email email) db.users) user_not_found db asked in
      (
        u,
        found,
        subst (λ x. IsSent P env password_reset D.reset_ttl u m x db') kept
            (issue-IsSent P D env password_reset D.reset_ttl u m mid db' issued),
      )
  | inr off ↦ absurd (ground (arith, e, off))
]

sent-IsAccepted :
    (P : Packages) (env env' : Env) (ttl : ℕ) (u : User) (m : Message) (db db' : Db)
    → IsSent P env password_reset ttl u m db db'
    → env'.now ≤ env.now + ttl
    → IsAccepted P env' password_reset m.token db' (row_of P env password_reset ttl u m.token)
sent-IsAccepted P env env' ttl u m db db' s before = record {
  stored = ground (arith, s.tokens, str_eq_iff (P.sha256_hex m.token) (P.sha256_hex m.token));
  of_type = refl;
  in_time = before;
  unused = refl;
}

login-run :
    (P : Packages) (J : JwtService) (env : Env) (email password : String) (u : User) (db : Db)
    → Signs P
    → env.answers 0 ≡ true
    → select_one (has_email email) db.users ≡ some u
    → P.compare_hash_and_password u.password_hash password ≡ true
    → (pair : TokenPair) × (login P J env email password db ≡ (ok pair, db))
unfolding login generate_token_pair exec ◌>>=◌
login-run P J env email password u db signs up found right =
    let (a, sa) = signs J.access_secret (access_claims P J env.now u) in
    let (r, sr) =
      signs J.refresh_secret
        (claims_of P env.now J.refresh_ttl refresh u.id u.email u.username u.role) in
    (
      record {
        access_token = a;
        refresh_token = r;
        access_expires_at = env.now + J.access_ttl;
        refresh_expires_at = env.now + J.refresh_ttl;
      },
      ground (arith, up, found, right, sa, sr),
    )

-- Whoever is sent a message for a reset can set a new password with the token in it, until that
-- expires, and then log in with the address and the new password.
pub login-reset_password :
    (P : Packages) (D : EmailDeps) (J : JwtService) (env env' env'' : Env)
    (email password hash : String) (m : Message) (db db' : Db)
    → HashMatches P
    → Signs P
    → send_password_reset_email P D env email db ≡ (ok (some m), db')
    → env'.now ≤ env.now + D.reset_ttl
    → P.generate_from_password password ≡ some hash
    → ((n : ℕ) → env'.answers n ≡ true)
    → env''.answers 0 ≡ true
    → (db'' : Db) × (reset_password P env' m.token password db' ≡ (ok tt, db''))
      × (pair : TokenPair) × (login P J env'' email password db'' ≡ (ok pair, db''))
login-reset_password P D J env env' env'' email password hash m db db' matches signs e before g up
      up' =
    let (u, found, s) = send_password_reset_email-IsSent P D env email m db db' e in
    let t = row_of P env password_reset D.reset_ttl u m.token in
    let a = sent-IsAccepted P env env' D.reset_ttl u m db db' s before in
    let found' : select_one (has_email email) (after_reset t hash db').users
        ≡ some (record u { password_hash = hash }) =
      ap
        (λ us.
          select_one (has_email email)
            (update_where (has_id u.id) (λ x. record x { password_hash = hash }) us))
        s.users
      ∙ select_one-update (has_email email) (has_id u.id) (λ x. record x { password_hash = hash })
          db.users u (λ x. refl) found (ground arith) in
    let (pair, logged) =
      login-run P J env'' email password (record u { password_hash = hash })
        (after_reset t hash db') signs up' found' (matches password hash g) in
    (
      after_reset t hash db',
      reset_password-run P env' m.token password hash t db' a g up,
      pair,
      logged,
    )
