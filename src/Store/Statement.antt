-- ===== src/Store/Statement.antt =====
-- Statements outside a transaction: each one commits by itself, so what an operation has written stays
-- written when a later statement of it fails. The `n`-th statement of an operation fails where the
-- database does not answer it (`env.answers n`).
use ctfboard.Base.{
  Option-cases, inl, inr, arith, ℕ, Bool, if◌then◌else◌, ◌≡◌, ◌∙◌, refl, sym, ap, Option, some,
}
use ctfboard.Entity.Errors.{Error, driver_failed}
use ctfboard.Store.Transaction
use ctfboard.Store.Transaction.{Db, Env, Result, ok, err, Tx, query}

abbrev pub Act : Type 0 → Type 0
Act A = Db → Result A × Db

unfoldable pub pure : {A : Type 0} → A → Act A
pure a db = (ok a, db)

unfoldable pub fail : {A : Type 0} → Error → Act A
fail e db = (err e, db)

unfoldable pub fail_if : Bool → Error → Act (Unit {0})
fail_if c e db = if c then (err e, db) else (ok tt, db)

abbrev pub settled : {A : Type 0} → Db → Result (A × Db) → Result A × Db
settled db (ok (a, db')) = (ok a, db')
settled db (err e) = (err e, db)

-- The `n`-th statement
unfoldable pub exec : {A : Type 0} → Env → ℕ → Tx A → Act A
unfolding Transaction.◌>>=◌
exec env n statement db =
    if env.answers n then settled db (statement db) else (err driver_failed, db)

abbrev pub continue : {A B : Type 0} → Result A × Db → (A → Act B) → Result B × Db
continue (ok a, db) f = f a db
continue (err e, db) f = (err e, db)

-- Opening this opens the actions above too.
infixl 5 ◌>>=◌ ◌>>◌
unfoldable pub ◌>>=◌ : {A B : Type 0} → Act A → (A → Act B) → Act B
unfolding pure fail fail_if exec
◌>>=◌ m f db = continue (m db) f

abbrev pub ◌>>◌ : {A B : Type 0} → Act A → Act B → Act B
m >> k = m >>= λ _. k

-- An operation that leaves `users` alone, whatever comes of it
abbrev pub KeepsUsers : {A : Type 0} → Act A → Type 0
KeepsUsers m = (db : Db) → (m db).1.users ≡ db.users

continue-users :
    {A B : Type 0} (r : Result A × Db) (f : A → Act B)
    → ((a : A) → KeepsUsers (f a))
    → (continue r f).1.users ≡ r.1.users
continue-users (ok a, db) f h = h a db
continue-users (err e, db) f h = refl

pub bind-users :
    {A B : Type 0} (m : Act A) (f : A → Act B)
    → KeepsUsers m
    → ((a : A) → KeepsUsers (f a))
    → KeepsUsers (m >>= f)
unfolding ◌>>=◌
bind-users m f h k db = continue-users (m db) f k ∙ h db

continue-ok :
    {A B : Type 0} (r : Result A × Db) (f : A → Act B) {b : B} {db' : Db}
    → continue r f ≡ (ok b, db')
    → (a : A) × (mid : Db) × (r ≡ (ok a, mid)) × (f a mid ≡ (ok b, db'))
continue-ok (ok a, mid) f e = (a, mid, refl, e)
continue-ok (err x, mid) f e = cc

-- A sequence that succeeds, taken apart
pub bind-ok :
    {A B : Type 0} (m : Act A) (f : A → Act B) (db : Db) {b : B} {db' : Db}
    → (m >>= f) db ≡ (ok b, db')
    → (a : A) × (mid : Db) × (m db ≡ (ok a, mid)) × (f a mid ≡ (ok b, db'))
unfolding ◌>>=◌
bind-ok m f db e = continue-ok (m db) f e

-- The same where the first part changes nothing
pub bind_kept-ok :
    {A B : Type 0} (m : Act A) (f : A → Act B) (db : Db) {b : B} {db' : Db}
    → (m db).1 ≡ db
    → (m >>= f) db ≡ (ok b, db')
    → (a : A) × (m db ≡ (ok a, db)) × (f a db ≡ (ok b, db'))
bind_kept-ok {A} m f db k e =
    let (a, mid, one, two) = bind-ok m f db e in
    let same : mid ≡ db = sym (ap (λ (r : Result A × Db). r.1) one) ∙ k in
    (a, one ∙ ap (λ (x : Db). (ok a, x)) same, ap (λ (x : Db). f a x) (sym same) ∙ two)

continue-run :
    {A B : Type 0} (r : Result A × Db) (f : A → Act B) (a : A) (mid : Db)
    → r ≡ (ok a, mid)
    → continue r f ≡ f a mid
continue-run r f a mid e = ap (λ x. continue x f) e

-- A sequence whose first part succeeds goes on from there.
pub bind-run :
    {A B : Type 0} (m : Act A) (f : A → Act B) (a : A) (db mid : Db)
    → m db ≡ (ok a, mid)
    → (m >>= f) db ≡ f a mid
unfolding ◌>>=◌
bind-run m f a db mid e = continue-run (m db) f a mid e

pub exec-query-ok :
    {A : Type 0} (env : Env) (n : ℕ) (f : Db → Option A) (x : Error) (db : Db) {a : A} {db' : Db}
    → exec env n (query f x) db ≡ (ok a, db')
    → (f db ≡ some a) × (db' ≡ db)
unfolding exec
exec-query-ok env n f x db e = elim (Option-cases (f db)) [
  | inl nothing ↦ absurd (ground (arith, e, nothing))
  | inr (a, found) ↦ (ground (arith, e, found), ground (arith, e, found))
]
