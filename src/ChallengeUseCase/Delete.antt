-- ===== src/ChallengeUseCase/Delete.antt =====
-- backend/internal/usecase/challenge/challenge.go: `Delete`.
use ctfboard.Base.{ℕ, some, String}
use ctfboard.Store.Transaction.{Db, Env, Result, ok, err, Tx, run_transaction, ◌>>◌}
use ctfboard.Store.Challenges.{get_challenge_by_id, delete_challenge_tx, create_audit_log_tx}
use ctfboard.Scoreboard.{World}
use ctfboard.Cache.Boards.{invalidate_all}
use ctfboard.Entity.{row_id}

-- The transaction of `Delete`
unfoldable pub delete_tx : Env → ℕ → ℕ → String → Tx (Unit {0})
delete_tx env k actor_id client_ip = do
  get_challenge_by_id k
  delete_challenge_tx k
  create_audit_log_tx env (some actor_id) "delete" "challenge" (row_id k) client_ip

abbrev pub invalidating_after : World → Result (Unit {0}) × Db → Result (Unit {0}) × World
invalidating_after w (ok u, db) = (ok u, record { db = db; boards = invalidate_all w.boards })
invalidating_after w (err e, db) = (err e, record { db = db; boards = w.boards })

-- `Delete`
unfoldable pub delete_challenge : Env → ℕ → ℕ → String → World → Result (Unit {0}) × World
unfolding delete_tx
delete_challenge env k actor_id client_ip w =
    invalidating_after w (run_transaction env (delete_tx env k actor_id client_ip) w.db)
