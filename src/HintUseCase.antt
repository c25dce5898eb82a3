-- ===== src/HintUseCase.antt =====
-- backend/internal/usecase/challenge/hint.go: a team pays points to read a hint.
pub mod Unlock
pub mod Shown
mod Tests
use ctfboard.Base.{ℕ, Option, none, some, String, ◌++◌, exists_where, ◌==◌}
use ctfboard.Base.Int.{ℤ, pos, ◌-ℤ◌, leb_ℤ, ltb_ℤ}
use ctfboard.Base.{if◌then◌else◌, Bool, true, false}
use ctfboard.Base.{[], List, map}
use ctfboard.Entity.{Hint, Award}
use ctfboard.Entity.Errors.{hint_already_unlocked, insufficient_points}
use ctfboard.Store.Transaction.{
  Db, Env, Tx, Result, ok, err, pure, gets, fail_if, run_transaction, ◌>>=◌, ◌>>◌,
}
use ctfboard.Store.Teams.{lock_team_tx}
use ctfboard.Store.Challenges.{get_team_score_tx, create_award_tx}
use ctfboard.Store.Hints.{
  find_hint_unlock, create_hint_unlock_tx, get_hint_by_id, create_hint, update_hint,
  get_unlocked_hint_ids, get_hints_by_challenge_id,
}
use ctfboard.Scoreboard.{World}
use ctfboard.Cache.Boards.{invalidate_all}

abbrev pub is_found : {A : Type 0} → Option A → Bool
is_found none = false
is_found (some _) = true

-- `unlockHintCheckAlreadyUnlocked`
unfoldable pub unlock_hint_check_already_unlocked : ℕ → ℕ → Tx (Unit {0})
unlock_hint_check_already_unlocked team_id hint_id = do
  unlocked ← gets (λ db. is_found (find_hint_unlock team_id hint_id db))
  fail_if unlocked hint_already_unlocked

-- The award that takes the cost of a hint from a team. `describe` is
-- `fmt.Sprintf("Hint unlock: %s", id)`.
abbrev pub hint_award : Env → (ℕ → String) → ℕ → Hint → Award
hint_award env describe team_id hint = record {
  id = env.uuid 1;
  team_id = team_id;
  value = pos 0 -ℤ hint.cost;
  description = describe hint.id;
  created_by = none;
  created_at = env.now;
}

-- The part of `unlockHintChargeIfNeeded` for a hint that costs something
unfoldable pub unlock_hint_charge : Env → (ℕ → String) → ℕ → Hint → Tx (Unit {0})
unlock_hint_charge env describe team_id hint = do
  team_score ← get_team_score_tx team_id
  fail_if (ltb_ℤ team_score hint.cost) insufficient_points
  create_award_tx (hint_award env describe team_id hint)

-- `unlockHintChargeIfNeeded`
unfoldable pub unlock_hint_charge_if_needed : Env → (ℕ → String) → ℕ → Hint → Tx (Unit {0})
unfolding unlock_hint_charge
unlock_hint_charge_if_needed env describe team_id hint =
    if leb_ℤ hint.cost (pos 0) then pure tt else unlock_hint_charge env describe team_id hint

-- `unlockHintInTx`
unfoldable pub unlock_hint_in_tx : Env → (ℕ → String) → ℕ → ℕ → Hint → Tx (Unit {0})
unfolding unlock_hint_check_already_unlocked unlock_hint_charge_if_needed
unlock_hint_in_tx env describe team_id hint_id hint = do
  lock_team_tx team_id
  unlock_hint_check_already_unlocked team_id hint_id
  unlock_hint_charge_if_needed env describe team_id hint
  create_hint_unlock_tx env team_id hint_id

abbrev finish_unlock : Hint → World → Result (Unit {0}) × Db → Result Hint × World
finish_unlock hint w (ok _, db) = (ok hint, record { db = db; boards = invalidate_all w.boards })
finish_unlock hint w (err e, db) = (err e, record { db = db; boards = w.boards })

-- `UnlockHint`; a transaction that it begins by hand is rolled back on every error.
unfoldable pub unlock_hint : Env → (ℕ → String) → ℕ → ℕ → World → Result Hint × World
unfolding unlock_hint_in_tx
unlock_hint env describe team_id hint_id w = elim (get_hint_by_id hint_id w.db) [
  | ok (hint, _) ↦
      finish_unlock hint w
        (run_transaction env (unlock_hint_in_tx env describe team_id hint_id hint) w.db)
  | err e ↦ (err e, w)
]

abbrev pub new_hint : Env → ℕ → String → ℤ → ℤ → Hint
new_hint env challenge_id content cost order_index = record {
  id = env.uuid 0;
  challenge_id = challenge_id;
  content = content;
  cost = cost;
  order_index = order_index;
}

-- `Create`; the repository draws the id.
unfoldable pub create_hint_for : Env → ℕ → String → ℤ → ℤ → Tx Hint
create_hint_for env challenge_id content cost order_index = do
  create_hint (new_hint env challenge_id content cost order_index)
  pure (new_hint env challenge_id content cost order_index)

-- `Update`
unfoldable pub update_hint_by_id : ℕ → String → ℤ → ℤ → Tx Hint
update_hint_by_id k content cost order_index = do
  hint ← get_hint_by_id k
  update_hint (record hint { content = content; cost = cost; order_index = order_index })
  pure (record hint { content = content; cost = cost; order_index = order_index })

pub record HintWithUnlockStatus : Type 0 where
  pub hint : Hint
  pub unlocked : Bool

abbrev pub with_status : Hint → Bool → HintWithUnlockStatus
with_status hint unlocked = record {
  hint = if unlocked then hint else record hint { content = "" };
  unlocked = unlocked;
}

-- What the loop of `GetByChallengeID` makes of a hint: a locked one has no content.
abbrev pub with_unlock_status : List ℕ → Hint → HintWithUnlockStatus
with_unlock_status unlocked_ids hint =
    with_status hint (exists_where (λ k. k == hint.id) unlocked_ids)

abbrev pub unlocked_ids_of : Option ℕ → ℕ → Tx (List ℕ)
unlocked_ids_of none challenge_id = pure []
unlocked_ids_of (some team_id) challenge_id = get_unlocked_hint_ids team_id challenge_id

-- `GetByChallengeID`
unfoldable pub get_by_challenge_id : ℕ → Option ℕ → Tx (List HintWithUnlockStatus)
get_by_challenge_id challenge_id team_id = do
  hints ← get_hints_by_challenge_id challenge_id
  unlocked_ids ← unlocked_ids_of team_id challenge_id
  pure (map (with_unlock_status unlocked_ids) hints)
