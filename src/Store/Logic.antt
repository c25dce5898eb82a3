-- ===== src/Store/Logic.antt =====
-- Reasoning about functions over a transaction: what holds of the value and the tables when one
-- succeeds, with one rule for each way to build such a function.
use ctfboard.Base.{Bool, true, false, Option, none, some, ◌≡◌, refl}
use ctfboard.Entity.Errors.{Error}
use ctfboard.Store.Transaction.{
  Db, Result, ok, err, Tx, pure, fail, fail_if, query, gets, modify, ◌>>=◌, continue,
}

abbrev pub Holds : {A : Type 0} → (A → Db → Type 0) → Result (A × Db) → Type 0
Holds P (ok (a, db)) = P a db
Holds P (err e) = Unit {0}

-- `m`, started at the tables `db`, fails or ends with a value and tables that satisfy `P`.
pub record Ensures {A : Type 0} (P : A → Db → Type 0) (db : Db) (m : Tx A) : Type 0 where
  pub at : Holds P (m db)

module _ {A : Type 0} (P : A → Db → Type 0) (db : Db) where
  pub ensure_pure : (a : A) → P a db → Ensures P db (pure a)
  unfolding pure
  ensure_pure a h = record { at = h }

  pub ensure_fail : (e : Error) → Ensures P db (fail e)
  unfolding fail
  ensure_fail e = record { at = tt }

pub ensure_modify :
    (P : Unit {0} → Db → Type 0) (db : Db) (f : Db → Db) → P tt (f db) → Ensures P db (modify f)
unfolding modify
ensure_modify P db f h = record { at = h }

pub ensure_fail_if :
    (P : Unit {0} → Db → Type 0) (db : Db) (c : Bool) (e : Error)
    → (c ≡ false → P tt db)
    → Ensures P db (fail_if c e)
unfolding fail_if
ensure_fail_if P db true e h = record { at = tt }
ensure_fail_if P db false e h = record { at = h refl }

module _ {B : Type 0} (P : B → Db → Type 0) (db : Db) where
  pub then_fail_if :
      (c : Bool) (e : Error) (k : Unit {0} → Tx B)
      → (c ≡ false → Ensures P db (k tt))
      → Ensures P db (fail_if c e >>= k)
  unfolding ◌>>=◌
  then_fail_if true e k h = record { at = tt }
  then_fail_if false e k h = record { at = (h refl).at }

  pub then_modify :
      (f : Db → Db) (k : Unit {0} → Tx B) → Ensures P (f db) (k tt) → Ensures P db (modify f >>= k)
  unfolding ◌>>=◌
  then_modify f k h = record { at = h.at }

module _ {A B : Type 0} (P : B → Db → Type 0) (db : Db) where
  query_value :
      (o : Option A) (e : Error) (k : A → Tx B)
      → ((a : A) → o ≡ some a → Ensures P db (k a))
      → Ensures P db (query (λ _. o) e >>= k)
  unfolding ◌>>=◌
  query_value none e k h = record { at = tt }
  query_value (some a) e k h = record { at = (h a refl).at }

  -- A query that finds no row fails; otherwise the rest runs on the row.
  pub then_query :
      (f : Db → Option A) (e : Error) (k : A → Tx B)
      → ((a : A) → f db ≡ some a → Ensures P db (k a))
      → Ensures P db (query f e >>= k)
  unfolding ◌>>=◌
  then_query f e k h = record { at = (query_value (f db) e k h).at }

  pub then_gets :
      (f : Db → A) (k : A → Tx B) → Ensures P db (k (f db)) → Ensures P db (gets f >>= k)
  unfolding ◌>>=◌
  then_gets f k h = record { at = h.at }

  pub then_pure : (a : A) (k : A → Tx B) → Ensures P db (k a) → Ensures P db (pure a >>= k)
  unfolding ◌>>=◌
  then_pure a k h = record { at = h.at }

  pub then_err : (e : Error) (k : A → Tx B) → Ensures P db (fail e >>= k)
  unfolding ◌>>=◌
  then_err e k = record { at = tt }

  continue-Holds :
      (Q : A → Db → Type 0) (r : Result (A × Db)) (k : A → Tx B)
      → Holds Q r
      → ((a : A) (db' : Db) → Q a db' → Ensures P db' (k a))
      → Holds P (continue r k)
  continue-Holds Q (ok (a, db')) k m h = (h a db' m).at
  continue-Holds Q (err e) k m h = tt

  -- Of a call that stays shut the rest has its postcondition.
  pub then_call :
      (Q : A → Db → Type 0) (m : Tx A) (k : A → Tx B)
      → Ensures Q db m
      → ((a : A) (db' : Db) → Q a db' → Ensures P db' (k a))
      → Ensures P db (m >>= k)
  unfolding ◌>>=◌
  then_call Q m k g h = record { at = continue-Holds Q (m db) k g.at h }

module _ {A B C : Type 0} (P : C → Db → Type 0) (db : Db) where
  continue_assoc :
      (r : Result (A × Db)) (k : A → Tx B) (l : B → Tx C)
      → Holds P (continue r (λ a. k a >>= l))
      → Holds P (continue (continue r k) l)
  unfolding ◌>>=◌
  continue_assoc (ok (a, db')) k l h = h
  continue_assoc (err e) k l h = h

  pub then_block :
      (m : Tx A) (k : A → Tx B) (l : B → Tx C)
      → Ensures P db (m >>= λ a. k a >>= l)
      → Ensures P db ((m >>= k) >>= l)
  unfolding ◌>>=◌
  then_block m k l h = record { at = continue_assoc (m db) k l h.at }
