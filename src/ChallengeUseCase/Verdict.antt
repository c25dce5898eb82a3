-- ===== src/ChallengeUseCase/Verdict.antt =====
-- Which submissions are accepted, and that the others change nothing.
use ctfboard.Base.{
  ℕ, ◌≡◌, ◌≢◌, refl, Bool, true, false, Option, none, some, String, arith, str_eq_iff,
  if◌then◌else◌, ◌∷◌,
}
use ctfboard.Entity.{Challenge}
use ctfboard.Store.Transaction.{Env, ok, run_transaction, Result, Db, err}
use ctfboard.Scoring.{Float64}
use ctfboard.Scoreboard.{World, get_scoreboard, load_scoreboard}
use ctfboard.ChallengeUseCase.Flags.{
  Platform, store_flag, with_stored, submit_check_flag, submit_check_hash_flag,
}
use ctfboard.ChallengeUseCase.Submit.{submit_flag, recorded, submit_record_solve_tx, after_verdict}
use ctfboard.Base.Int.{ℤ}
use ctfboard.Store.Transaction.{Tx}
use ctfboard.Base.{refl}
use ctfboard.Scoreboard.Freshness.{get_scoreboard-invalidate_all}
use ctfboard.ChallengeUseCase.Solved.{solve_row, submit_record_solve_changes}

-- What is hashed when a flag is stored, and when one is submitted.
abbrev pub stored_form : Platform → Bool → String → String
stored_form P is_case_insensitive flag =
    if is_case_insensitive then P.to_lower (P.trim_space flag) else flag

abbrev pub submitted_form : Platform → Bool → String → String
submitted_form P is_case_insensitive flag =
    if is_case_insensitive then P.to_lower (P.trim_space flag) else P.trim_space flag

-- A flag that is not a pattern is accepted when the submission, without the space around it and in
-- small letters if case does not matter, is the flag that was stored.
pub stored_flag_accepted :
    (P : Platform) (c c' : Challenge) (flag submitted : String)
    → c.is_regex ≡ false
    → with_stored c (store_flag P flag false c.is_case_insensitive) ≡ ok c'
    → submitted_form P c.is_case_insensitive submitted ≡ stored_form P c.is_case_insensitive flag
    → submit_check_flag P c' (P.trim_space submitted) ≡ true
unfolding store_flag submit_check_flag submit_check_hash_flag
stored_flag_accepted P c c' flag submitted plain e same = ground (
  arith,
  plain,
  e,
  same,
  str_eq_iff (P.sha256_hex (submitted_form P c.is_case_insensitive submitted)) c'.flag_hash,
)

-- A flag whose case matters and that was stored with space around it can never be submitted, where
-- trimming twice is trimming once and no other text has the flag's hash.
pub stored_flag_unsolvable :
    (P : Platform) (c c' : Challenge) (flag submitted : String)
    → ((s : String) → P.trim_space (P.trim_space s) ≡ P.trim_space s)
    → ((s : String) → P.sha256_hex s ≡ P.sha256_hex flag → s ≡ flag)
    → c.is_regex ≡ false
    → c.is_case_insensitive ≡ false
    → with_stored c (store_flag P flag false c.is_case_insensitive) ≡ ok c'
    → P.trim_space flag ≢ flag
    → submit_check_flag P c' (P.trim_space submitted) ≡ false
unfolding store_flag submit_check_flag submit_check_hash_flag
stored_flag_unsolvable P c c' flag submitted trim no_collision plain sensitive e spaced = ground (
  arith,
  plain,
  sensitive,
  e,
  spaced,
  trim submitted,
  no_collision (P.trim_space submitted),
  str_eq_iff (P.sha256_hex (P.trim_space submitted)) c'.flag_hash,
)

recorded_changes :
    (t : ℕ) (w : World) (env : Env) (fn : Tx (Challenge × ℤ))
    → (recorded t w (run_transaction env fn w.db)).1 ≢ w
    → ((recorded t w (run_transaction env fn w.db)).0.is_correct ≡ true)
      × ((recorded t w (run_transaction env fn w.db)).0.error ≡ none)
      × ((recorded t w (run_transaction env fn w.db)).0.notice ≢ none)
unfolding run_transaction
recorded_changes t w env fn n = ground (arith, n)

-- Only a submission that is correct, meets no error and is broadcast changes the tables or the cached
-- scoreboards: one that is wrong, refused or fails in the database, for whatever reason, leaves all as
-- it was.
pub submit_flag_changes :
    (env : Env) (F : Float64) (P : Platform) (k : ℕ) (flag : String) (user : ℕ) (t : Option ℕ)
    (w : World)
    → (submit_flag env F P k flag user t w).1 ≢ w
    → ((submit_flag env F P k flag user t w).0.is_correct ≡ true)
      × ((submit_flag env F P k flag user t w).0.error ≡ none)
      × ((submit_flag env F P k flag user t w).0.notice ≢ none)
unfolding submit_flag
submit_flag_changes env F P k flag user none w n = absurd (n refl)
submit_flag_changes env F P k flag user (some t) w n =
    ground (arith, n, recorded_changes t w env (submit_record_solve_tx env F k user t))

run_transaction-ok :
    {A : Type 0} (env : Env) (fn : Tx A) (db : Db) {a : A} {db' : Db}
    → run_transaction env fn db ≡ (ok a, db')
    → fn db ≡ ok (a, db')
unfolding run_transaction
run_transaction-ok env fn db e = ground (arith, e)

-- The new solve is in the tables, and the overall scoreboard is theirs.
abbrev pub IsShown : Env → ℕ → ℕ → ℕ → ℕ → World → World → Type 0
IsShown env k user t now w w' =
    (w'.db.solves ≡ solve_row env k user t ∷ w.db.solves)
    × ((get_scoreboard now none w').0 ≡ load_scoreboard w'.db now none)

recorded-IsShown :
    (env : Env) (F : Float64) (k user t now : ℕ) (w : World) (r : Result (Challenge × ℤ) × Db)
    → run_transaction env (submit_record_solve_tx env F k user t) w.db ≡ r
    → (recorded t w r).0.notice ≢ none
    → IsShown env k user t now w (recorded t w r).1
recorded-IsShown env F k user t now w (ok (c, n), db) e h = (
  (submit_record_solve_changes env F k user t k (c, n) w.db db
      (run_transaction-ok env (submit_record_solve_tx env F k user t) w.db e)).0,
  get_scoreboard-invalidate_all now db w.boards,
)
recorded-IsShown env F k user t now w (err x, db) e h = absurd (h refl)

after_verdict-IsShown :
    (env : Env) (F : Float64) (k user t now : ℕ) (w : World) (v : Result (Bool × Db))
    → (after_verdict t w (run_transaction env (submit_record_solve_tx env F k user t)) v).0.notice
      ≢ none
    → IsShown env k user t now w
        (after_verdict t w (run_transaction env (submit_record_solve_tx env F k user t)) v).1
after_verdict-IsShown env F k user t now w (err e) n = absurd (n refl)
after_verdict-IsShown env F k user t now w (ok (false, _)) n = absurd (n refl)
after_verdict-IsShown env F k user t now w (ok (true, _)) n =
    recorded-IsShown env F k user t now w
      (run_transaction env (submit_record_solve_tx env F k user t) w.db) refl n

-- When a submission is broadcast, one solve has been added to the tables, of this challenge by this user
-- for the user's team, and the overall scoreboard that is read next is what the query gives on the
-- tables with that solve, or, while the board is frozen, on their rows up to the time of the freeze.
pub submit_flag-IsShown :
    (env : Env) (F : Float64) (P : Platform) (k : ℕ) (flag : String) (user : ℕ) (t : Option ℕ)
    (w : World) (now : ℕ)
    → (submit_flag env F P k flag user t w).0.notice ≢ none
    → (team : ℕ) × (t ≡ some team)
      × IsShown env k user team now w (submit_flag env F P k flag user t w).1
unfolding submit_flag
submit_flag-IsShown env F P k flag user none w now n = absurd (n refl)
submit_flag-IsShown env F P k flag user (some t) w now n =
    (t, refl, after_verdict-IsShown env F k user t now w _ n)
