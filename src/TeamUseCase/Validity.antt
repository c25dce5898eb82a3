-- ===== src/TeamUseCase/Validity.antt =====
-- What it means for the tables to hold a valid roster, and what a use case does to it.
pub mod Join
pub mod Create
pub mod Crew
pub mod Disband
use ctfboard.Base.{ℕ, if-cases}
use ctfboard.Entity.Competitions.{Competition}
use ctfboard.Store.Transaction.{Db, Env, Result, ok, err, Tx, outcome, run_transaction}
use ctfboard.Store.Logic.{Ensures, Holds}
use ctfboard.Roster.Invariant.{IsRoster}
use ctfboard.TeamUseCase.Cleanup.{after_guard, guarded}

-- The tables hold a valid roster, with at most `max` members to a team.
abbrev pub IsValid : ℕ → Db → Type 0
IsValid max db = IsRoster max db.users db.teams

abbrev pub Valid : ℕ → {A : Type 0} → A → Db → Type 0
Valid max _ db = IsValid max db

outcome-Keeps :
    (P : Db → Type 0) {A : Type 0} (env : Env) (db : Db) (r : Result (A × Db))
    → P db
    → Holds (λ _. P) r
    → P (outcome env db r).1
outcome-Keeps P {A} env db (ok (a, db')) h k =
    if-cases (λ (r : Result A × Db). P r.1) env.commits _ _ (λ _. k) (λ _. h)
outcome-Keeps P env db (err e) h k = h

-- A transaction that keeps a property of the tables, keeps it also where it fails to begin, rolls
-- back or fails to commit.
pub run_transaction-Keeps :
    (P : Db → Type 0) {A : Type 0} (env : Env) (fn : Tx A) (db : Db)
    → P db
    → Ensures (λ _. P) db fn
    → P (run_transaction env fn db).1
unfolding run_transaction
run_transaction-Keeps P {A} env fn db h k =
    if-cases (λ (r : Result A × Db). P r.1) env.begins _ _
      (λ _. outcome-Keeps P env db (fn db) h k.at) (λ _. h)

pub after_guard-Keeps :
    (P : Db → Type 0) {A B : Type 0} (r : Result (B × Db)) (body : Db → Result A × Db) (db : Db)
    → P db
    → P (body db).1
    → P (after_guard r body db).1
after_guard-Keeps P (ok _) body db h k = k
after_guard-Keeps P (err e) body db h k = h

pub guarded-Keeps :
    (P : Db → Type 0) {A : Type 0} (env : Env) (guard : Tx Competition) (fn : Tx A) (db : Db)
    → P db
    → Ensures (λ _. P) db fn
    → P (guarded env guard fn db).1
guarded-Keeps P env guard fn db h k =
    after_guard-Keeps P (guard db) (run_transaction env fn) db h
      (run_transaction-Keeps P env fn db h k)
