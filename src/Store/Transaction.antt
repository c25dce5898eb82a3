-- ===== src/Store/Transaction.antt =====
-- backend/internal/repo/persistent/tx_base.go: transactions over the tables. What the database does
-- when asked to begin or to commit is an argument, as are the clock and the ids that `uuid.New` and
-- the tables' defaults draw.
use ctfboard.Base.{ℕ, Bool, Option, none, some, List, if◌then◌else◌}
use ctfboard.Entity.Records.{Comment}
use ctfboard.Entity.{User, Team, Challenge, Solve, Hint, HintUnlock, Award, TeamAuditLog, AuditLog}
use ctfboard.Entity.Accounts.{VerificationToken, ApiToken}
use ctfboard.Entity.Fields.{Field, FieldValue}
use ctfboard.Entity.Records.{Bracket, Submission, Config}
use ctfboard.Entity.Errors.{Error, tx_failed}
use ctfboard.Entity.Competitions.{Competition}

pub record Db : Type 0 where
  pub competition : Option Competition
  pub users : List User
  pub teams : List Team
  pub challenges : List Challenge
  pub solves : List Solve
  pub hints : List Hint
  pub hint_unlocks : List HintUnlock
  pub awards : List Award
  pub team_audit_log : List TeamAuditLog
  pub audit_log : List AuditLog
  pub verification_tokens : List VerificationToken
  pub api_tokens : List ApiToken
  pub fields : List Field
  pub field_values : List FieldValue
  pub brackets : List Bracket
  pub submissions : List Submission
  pub configs : List Config
  pub comments : List Comment

-- What a request takes from outside: the time, fresh ids, whether the pool can begin and commit, and
-- whether it answers.
pub record Env : Type 0 where
  pub now : ℕ
  pub uuid : ℕ → ℕ
  pub begins : Bool
  pub commits : Bool
  -- Whether the `n`-th statement outside a transaction is answered.
  pub answers : ℕ → Bool
  -- How the database places submissions of the same time, by their keys
  pub ties : ℕ → ℕ

pub data Result (A : Type 0) : Type 0 where
  ok : A → Result A
  err : Error → Result A

-- A function that is handed a transaction.
abbrev pub Tx : Type 0 → Type 0
Tx A = Db → Result (A × Db)

unfoldable pub pure : {A : Type 0} → A → Tx A
pure a db = ok (a, db)

unfoldable pub fail : {A : Type 0} → Error → Tx A
fail e db = err e

unfoldable pub fail_if : Bool → Error → Tx (Unit {0})
fail_if c e db = if c then err e else ok (tt, db)

-- A query: its row, or the error that the repository returns for `pgx.ErrNoRows`.
unfoldable pub query : {A : Type 0} → (Db → Option A) → Error → Tx A
query f e db = elim (f db) [ some a ↦ ok (a, db) | none ↦ err e ]

unfoldable pub gets : {A : Type 0} → (Db → A) → Tx A
gets f db = ok (f db, db)

unfoldable pub modify : (Db → Db) → Tx (Unit {0})
modify f db = ok (tt, f db)

abbrev pub continue : {A B : Type 0} → Result (A × Db) → (A → Tx B) → Result (B × Db)
continue (ok (a, db)) f = f a db
continue (err e) f = err e

-- Opening this opens the actions above too.
infixl 5 ◌>>=◌ ◌>>◌
unfoldable pub ◌>>=◌ : {A B : Type 0} → Tx A → (A → Tx B) → Tx B
unfolding pure fail fail_if query gets modify
◌>>=◌ m f db = continue (m db) f

abbrev pub ◌>>◌ : {A B : Type 0} → Tx A → Tx B → Tx B
m >> k = m >>= λ _. k

-- The committed database after a transaction that began at `db`.
abbrev pub outcome : {A : Type 0} → Env → Db → Result (A × Db) → Result A × Db
outcome env db (ok (a, db')) = if env.commits then (ok a, db') else (err tx_failed, db)
outcome env db (err e) = (err e, db)

-- `RunTransaction`: roll back when the function fails, commit when it returns.
unfoldable pub run_transaction : {A : Type 0} → Env → Tx A → Db → Result A × Db
run_transaction env fn db = if env.begins then outcome env db (fn db) else (err tx_failed, db)
