-- ===== src/Store/Hints.antt =====
-- The statements on the tables `hints` and `hint_unlocks`:
-- backend/internal/repo/persistent/hint_postgres.go and tx_competition.go.
use ctfboard.Base.{ℕ, Bool, Option, ◌∷◌, ◌==◌, ◌&&◌, select_one, exists_where, not}
use ctfboard.Base.{
  [], ◌∷◌, List, if◌then◌else◌, map, select_many, update_where, delete_where, exists_where,
}
use ctfboard.Entity.{Hint, HintUnlock}
use ctfboard.Entity.Errors.{hint_not_found, unique_violation, int32_range, foreign_key_violation}
use ctfboard.Store.Transaction.{Db, Env, Tx, query, gets, modify, fail_if, ◌>>=◌, ◌>>◌, pure}
use ctfboard.Base.Int.{leb_ℤ}
use ctfboard.Store.Challenges.{outside_int32}

abbrev pub has_hint_id : ℕ → Hint → Bool
has_hint_id k h = h.id == k

abbrev pub find_hint : ℕ → Db → Option Hint
find_hint k db = select_one (has_hint_id k) db.hints

-- `HintRepo.GetByID`
unfoldable pub get_hint_by_id : ℕ → Tx Hint
get_hint_by_id k = query (find_hint k) hint_not_found

abbrev pub is_unlock_of : ℕ → ℕ → HintUnlock → Bool
is_unlock_of team_id hint_id u = u.team_id == team_id && u.hint_id == hint_id

abbrev pub find_hint_unlock : ℕ → ℕ → Db → Option HintUnlock
find_hint_unlock team_id hint_id db = select_one (is_unlock_of team_id hint_id) db.hint_unlocks

abbrev pub is_hint_of : ℕ → ℕ → List Hint → Bool
is_hint_of challenge_id k hs = exists_where (λ h. h.id == k && h.challenge_id == challenge_id) hs

abbrev pub new_unlock : Env → ℕ → ℕ → HintUnlock
new_unlock env team_id hint_id = record {
  id = env.uuid 0;
  hint_id = hint_id;
  team_id = team_id;
  unlocked_at = env.now;
}

abbrev insert_unlock : Env → ℕ → ℕ → Tx (Unit {0})
insert_unlock env team_id hint_id = do
  taken ← gets (λ db. exists_where (λ u. u.id == env.uuid 0) db.hint_unlocks)
  fail_if taken unique_violation
  known ← gets λ db.
      exists_where (λ h. h.id == hint_id) db.hints && exists_where (λ t. t.id == team_id) db.teams
  fail_if (not known) foreign_key_violation
  modify λ db. record db { hint_unlocks = new_unlock env team_id hint_id ∷ db.hint_unlocks }

-- `CreateHintUnlockTx`: `INSERT ... ON CONFLICT (team_id, hint_id) DO NOTHING`; the table's default
-- sets `unlocked_at`.
unfoldable pub create_hint_unlock_tx : Env → ℕ → ℕ → Tx (Unit {0})
create_hint_unlock_tx env team_id hint_id = do
  unlocked ← gets (λ db. exists_where (is_unlock_of team_id hint_id) db.hint_unlocks)
  if unlocked then pure tt else insert_unlock env team_id hint_id

abbrev pub insert_hint : Hint → List Hint → List Hint
insert_hint h [] = h ∷ []
insert_hint h (x ∷ xs) =
    if leb_ℤ h.order_index x.order_index then h ∷ x ∷ xs else x ∷ insert_hint h xs

abbrev pub by_order_index : List Hint → List Hint
by_order_index [] = []
by_order_index (h ∷ hs) = insert_hint h (by_order_index hs)

-- `HintRepo.GetByChallengeID`: `ORDER BY order_index ASC`
unfoldable pub get_hints_by_challenge_id : ℕ → Tx (List Hint)
get_hints_by_challenge_id k =
    gets (λ db. by_order_index (select_many (λ h. h.challenge_id == k) db.hints))

-- `HintRepo.Create`: the challenge must exist.
unfoldable pub create_hint : Hint → Tx (Unit {0})
create_hint h = do
  fail_if (outside_int32 h.cost) int32_range
  fail_if (outside_int32 h.order_index) int32_range
  known ← gets (λ db. exists_where (λ c. c.id == h.challenge_id) db.challenges)
  fail_if (not known) foreign_key_violation
  modify (λ db. record db { hints = h ∷ db.hints })

-- `HintRepo.Update`: no row is no error.
unfoldable pub update_hint : Hint → Tx (Unit {0})
update_hint h = do
  fail_if (outside_int32 h.cost) int32_range
  fail_if (outside_int32 h.order_index) int32_range
  modify λ db. record db {
    hints =
        update_where (has_hint_id h.id)
          (λ x. record x { content = h.content; cost = h.cost; order_index = h.order_index })
          db.hints;
  }

-- `HintRepo.Delete`: the unlocks of the hint go with it (`ON DELETE CASCADE`).
unfoldable pub delete_hint : ℕ → Tx (Unit {0})
delete_hint k = modify λ db. record db {
  hints = delete_where (has_hint_id k) db.hints;
  hint_unlocks = delete_where (λ u. u.hint_id == k) db.hint_unlocks;
}

-- `GetUnlockedHintIDs`
unfoldable pub get_unlocked_hint_ids : ℕ → ℕ → Tx (List ℕ)
get_unlocked_hint_ids team_id challenge_id = gets λ db.
    map (λ u. u.hint_id)
      (select_many (λ u. u.team_id == team_id && is_hint_of challenge_id u.hint_id db.hints)
        db.hint_unlocks)
