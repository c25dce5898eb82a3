-- ===== src/EmailUseCase/Sent.antt =====
-- What a message that was sent tells of the tables.
use ctfboard.Base.{◌∷◌, none, some, ℕ, ◌≡◌, String, List, arith, ◌+◌, sym, ◌∙◌, ap}
use ctfboard.Store.Statement.{exec, ◌>>=◌, ◌>>◌, bind-ok, bind_kept-ok}
use ctfboard.Store.Transaction.{ok, Db, Env}
use ctfboard.Session.Tokens.{Packages}
use ctfboard.Store.Accounts.{delete_by_user_and_type, create_token}
use ctfboard.EmailUseCase.{
  EmailDeps, TokenType, Message, User, send, VerificationToken, issue, from_option, random_failed,
}
use ctfboard.UserUseCase.Registered.{from_option-keeps}

abbrev pub row_of : Packages → Env → TokenType → ℕ → User → String → VerificationToken
row_of P env type ttl u token = record {
  id = env.uuid 1;
  user_id = u.id;
  token = P.sha256_hex token;
  token_type = type;
  expires_at = env.now + ttl;
  used_at = none;
  created_at = env.now;
}

-- What a message that was sent tells of the tables
pub record IsSent (P : Packages) (env : Env) (type : TokenType) (ttl : ℕ) (u : User) (m : Message)
    (db db' : Db) : Type 0 where
  pub to : m.to ≡ u.email
  pub rest : List VerificationToken
  pub tokens : db'.verification_tokens ≡ row_of P env type ttl u m.token ∷ rest
  pub users : db'.users ≡ db.users

delete-ok :
    (env : Env) (k : ℕ) (type : TokenType) (a : Unit {0}) (db mid : Db)
    → exec env 1 (delete_by_user_and_type k type) db ≡ (ok a, mid)
    → mid.users ≡ db.users
unfolding exec delete_by_user_and_type
delete-ok env k type a db mid e = ground (arith, e)

create-ok :
    (env : Env) (k : ℕ) (text : String) (type : TokenType) (until : ℕ) (a : Unit {0}) (db db' : Db)
    → exec env 2 (create_token env k text type until) db ≡ (ok a, db')
    → (db'.users ≡ db.users)
      × (db'.verification_tokens
          ≡ record {
            id = env.uuid 1;
            user_id = k;
            token = text;
            token_type = type;
            expires_at = until;
            used_at = none;
            created_at = env.now;
          }
            ∷ db.verification_tokens)
unfolding exec create_token
create-ok env k text type until a db db' e = ground (arith, e)

send-ok :
    (D : EmailDeps) (m m' : Message) (db db' : Db)
    → send D m db ≡ (ok (some m'), db')
    → (m ≡ m') × (db' ≡ db)
unfolding ◌>>=◌
send-ok D m m' db db' e = ground (arith, e)

message_of : TokenType → User → String → Message
message_of type u token = record {
  to = u.email;
  username = u.username;
  token = token;
  purpose = type;
}

stored_and_sent-ok :
    (P : Packages) (D : EmailDeps) (env : Env) (type : TokenType) (ttl : ℕ) (u : User) (m : Message)
    (token : String) (db db' : Db)
    → (exec env 2 (create_token env u.id (P.sha256_hex token) type (env.now + ttl))
          >> send D (message_of type u token))
        db
      ≡ (ok (some m), db')
    → (m ≡ message_of type u token)
      × (db'.users ≡ db.users)
      × (db'.verification_tokens ≡ row_of P env type ttl u token ∷ db.verification_tokens)
stored_and_sent-ok P D env type ttl u m token db db' e =
    let (b, mid, created, e1) =
      bind-ok (exec env 2 (create_token env u.id (P.sha256_hex token) type (env.now + ttl))) _ db
        e in
    let (same, kept) = send-ok D (message_of type u token) m mid db' e1 in
    let (users, tokens) =
      create-ok env u.id (P.sha256_hex token) type (env.now + ttl) b db mid created in
    (
      sym same,
      ap (λ (d : Db). d.users) kept ∙ users,
      ap (λ (d : Db). d.verification_tokens) kept ∙ tokens,
    )

stored-IsSent :
    (P : Packages) (env : Env) (type : TokenType) (ttl : ℕ) (u : User) (m : Message)
    (token : String) (db mid db' : Db)
    → mid.users ≡ db.users
    → (m ≡ message_of type u token)
      × (db'.users ≡ mid.users)
      × (db'.verification_tokens ≡ row_of P env type ttl u token ∷ mid.verification_tokens)
    → IsSent P env type ttl u m db db'
unfolding message_of
stored-IsSent P env type ttl u m token db mid db' kept h = record {
  to = ground (arith, h.0);
  rest = mid.verification_tokens;
  tokens = h.2 ∙ ground (arith, h.0);
  users = h.1 ∙ kept;
}

pub issue-IsSent :
    (P : Packages) (D : EmailDeps) (env : Env) (type : TokenType) (ttl : ℕ) (u : User) (m : Message)
    (db db' : Db)
    → issue P D env type ttl u db ≡ (ok (some m), db')
    → IsSent P env type ttl u m db db'
unfolding message_of
issue-IsSent P D env type ttl u m db db' e =
    let (a, mid, deleted, e1) = bind-ok (exec env 1 (delete_by_user_and_type u.id type)) _ db e in
    let (token, _, e2) =
      bind_kept-ok (from_option random_failed P.random_token) _ mid
        (from_option-keeps random_failed P.random_token mid) e1 in
    stored-IsSent P env type ttl u m token db mid db' (delete-ok env u.id type a db mid deleted)
      (stored_and_sent-ok P D env type ttl u m token mid db' e2)
