-- ===== src/HintUseCase/Unlock.antt =====
-- What a team pays for a hint, and that it pays once.
use ctfboard.Base.{
  ℕ, ◌≡◌, false, String, ◌∷◌, arith, select_one, ◌≢◌, ◌==◌, none, ap, ◌∙◌, exists_where-none,
}
use ctfboard.Base.Int.{ℤ, pos, ◌+ℤ◌, ◌-ℤ◌, ◌<ℤ◌, ltb_ℤ, +ℤ_parts, -ℤ_parts, eq_of_parts, ◌≤ℤ◌}
use ctfboard.Entity.{Hint}
use ctfboard.Store.Transaction.{Db, Env, ok, ◌>>=◌, query}
use ctfboard.Store.Teams.{lock_team_tx}
use ctfboard.Store.Challenges.{
  get_team_score_tx, create_award_tx, team_score, sum_solves, sum_awards,
}
use ctfboard.Store.Hints.{create_hint_unlock_tx, is_unlock_of}
use ctfboard.Store.Transaction.{run_transaction, query}
use ctfboard.Store.Hints.{get_hint_by_id}
use ctfboard.Scoreboard.{World}
use ctfboard.HintUseCase.{
  unlock_hint_in_tx, hint_award, find_hint_unlock, err, hint_already_unlocked, insufficient_points,
  unlock_hint, run_transaction, get_hint_by_id,
}
use ctfboard.Entity.Errors.{Error}

-- The tables after a team has paid for a hint and unlocked it.
abbrev pub after_unlock : Env → (ℕ → String) → ℕ → ℕ → Hint → Db → Db
after_unlock env describe t k hint db = record db {
  awards = hint_award env describe t hint ∷ db.awards;
  hint_unlocks =
      record { id = env.uuid 0; hint_id = k; team_id = t; unlocked_at = env.now } ∷ db.hint_unlocks;
}

sum_charged : (s c a : ℤ) → s +ℤ ((pos 0 -ℤ c) +ℤ a) ≡ (s +ℤ a) -ℤ c
sum_charged s c a = eq_of_parts _ _ (
    ground (
      arith,
      +ℤ_parts s ((pos 0 -ℤ c) +ℤ a),
      +ℤ_parts (pos 0 -ℤ c) a,
      -ℤ_parts (pos 0) c,
      -ℤ_parts (s +ℤ a) c,
      +ℤ_parts s a,
    ))

score_charged :
    (env : Env) (describe : ℕ → String) (t k : ℕ) (hint : Hint) (db : Db)
    → team_score t (after_unlock env describe t k hint db) ≡ team_score t db -ℤ hint.cost
unfolding team_score
score_charged env describe t k hint db =
    ground
      (arith, sum_charged (sum_solves t db.challenges db.solves) hint.cost (sum_awards t db.awards))

unlocked_tables :
    (env : Env) (describe : ℕ → String) (t k : ℕ) (hint : Hint) (db db' : Db)
    → pos 0 <ℤ hint.cost
    → unlock_hint_in_tx env describe t k hint db ≡ ok (tt, db')
    → (db' ≡ after_unlock env describe t k hint db) × (ltb_ℤ (team_score t db) hint.cost ≡ false)
unfolding unlock_hint_in_tx lock_team_tx get_team_score_tx create_award_tx create_hint_unlock_tx
    ◌>>=◌
unlocked_tables env describe t k hint db db' cost e =
    ground (arith, e, exists_where-none (is_unlock_of t k) db.hint_unlocks)

-- When a team unlocks a hint that costs something, its score drops by exactly the cost, does not
-- become negative, and the unlock is recorded.
pub unlock_hint_paid :
    (env : Env) (describe : ℕ → String) (t k : ℕ) (hint : Hint) (db db' : Db)
    → pos 0 <ℤ hint.cost
    → unlock_hint_in_tx env describe t k hint db ≡ ok (tt, db')
    → (team_score t db' ≡ team_score t db -ℤ hint.cost)
      × (pos 0 ≤ℤ team_score t db')
      × (find_hint_unlock t k db' ≢ none)
unlock_hint_paid env describe t k hint db db' cost e =
    let h = unlocked_tables env describe t k hint db db' cost e in
    let s = score_charged env describe t k hint db in
    (
      ap (team_score t) h.0 ∙ s,
      ground (arith, h, s, -ℤ_parts (team_score t db) hint.cost),
      λ n. ground (arith, h, n),
    )

recorded :
    (env : Env) (describe : ℕ → String) (t k : ℕ) (hint : Hint) (db db' : Db)
    → unlock_hint_in_tx env describe t k hint db ≡ ok (tt, db')
    → (db'.teams ≡ db.teams)
      × (find_hint_unlock t k db' ≢ none)
      × (select_one (λ x. x.id == t) db.teams ≢ none)
unfolding unlock_hint_in_tx lock_team_tx get_team_score_tx create_award_tx create_hint_unlock_tx
    ◌>>=◌
recorded env describe t k hint db db' e =
    let free = exists_where-none (is_unlock_of t k) db.hint_unlocks in
    (ground (arith, e, free), (λ n. ground (arith, e, n, free)), λ n. ground (arith, e, n))

-- A hint is unlocked once: after a team has unlocked it, at any cost, another attempt is refused,
-- whatever the hint's row says by then.
pub unlock_hint_once :
    (env env' : Env) (describe : ℕ → String) (t k : ℕ) (hint hint' : Hint) (db db' : Db)
    → unlock_hint_in_tx env describe t k hint db ≡ ok (tt, db')
    → unlock_hint_in_tx env' describe t k hint' db' ≡ err hint_already_unlocked
unfolding unlock_hint_in_tx lock_team_tx get_team_score_tx create_award_tx create_hint_unlock_tx
    ◌>>=◌
unlock_hint_once env env' describe t k hint hint' db db' e =
    ground (arith, recorded env describe t k hint db db' e)

-- A team whose score is below the cost of a hint that it has not unlocked is refused.
pub unlock_hint_poor :
    (env : Env) (describe : ℕ → String) (t k : ℕ) (hint : Hint) (db : Db)
    → select_one (λ x. x.id == t) db.teams ≢ none
    → find_hint_unlock t k db ≡ none
    → pos 0 <ℤ hint.cost
    → team_score t db <ℤ hint.cost
    → unlock_hint_in_tx env describe t k hint db ≡ err insufficient_points
unfolding unlock_hint_in_tx lock_team_tx get_team_score_tx create_award_tx create_hint_unlock_tx
    ◌>>=◌
unlock_hint_poor env describe t k hint db live fresh cost poor = ground (arith, live, fresh)

-- An attempt to unlock a hint that fails, for whatever reason, leaves the tables and the cached
-- scoreboards as they were.
pub unlock_hint_fails :
    (env : Env) (describe : ℕ → String) (t k : ℕ) (e : Error) (w : World)
    → (unlock_hint env describe t k w).0 ≡ err e
    → (unlock_hint env describe t k w).1 ≡ w
unfolding unlock_hint run_transaction get_hint_by_id query
unlock_hint_fails env describe t k e w h = ground (arith, h)
