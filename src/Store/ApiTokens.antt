-- ===== src/Store/ApiTokens.antt =====
-- backend/internal/repo/persistent/api_token_postgres.go
use ctfboard.Base.{
  Option, List, ℕ, String, some, ◌∷◌, if◌then◌else◌, ◌==◌, leb, none, [], select_many, select_one,
  delete_where, update_where, str_eq, ◌&&◌, exists_where, ◌||◌, not,
}
use ctfboard.Entity.Accounts.{ApiToken}
use ctfboard.Store.Transaction.{◌>>=◌, ◌>>◌, Tx, gets, modify, fail_if}
use ctfboard.Entity.Errors.{unique_violation, foreign_key_violation}
use ctfboard.Store.Users.{has_id}

-- `time.Time.IsZero`; the zero time is 0.
abbrev nonzero_time : Option ℕ → Option ℕ
nonzero_time none = none
nonzero_time (some t) = if t == 0 then none else some t

-- `APITokenRepo.Create`: the key and the hash are unique, and the user exists.
unfoldable pub create_api_token : ApiToken → Tx (Unit {0})
create_api_token row = do
  taken ←
      gets
        λ db. exists_where (λ t. t.id == row.id || str_eq t.token_hash row.token_hash) db.api_tokens
  fail_if taken unique_violation
  known ← gets (λ db. exists_where (has_id row.user_id) db.users)
  fail_if (not known) foreign_key_violation
  modify λ db. record db {
    api_tokens = record row { expires_at = nonzero_time row.expires_at } ∷ db.api_tokens;
  }

-- Later rows last: `ORDER BY created_at DESC`
abbrev insert_token : ApiToken → List ApiToken → List ApiToken
insert_token a [] = a ∷ []
insert_token a (b ∷ bs) =
    if leb b.created_at a.created_at then a ∷ b ∷ bs else b ∷ insert_token a bs

abbrev sort_tokens : List ApiToken → List ApiToken
sort_tokens [] = []
sort_tokens (a ∷ rest) = insert_token a (sort_tokens rest)

-- `APITokenRepo.GetByUserID`
unfoldable pub get_api_tokens_by_user_id : ℕ → Tx (List ApiToken)
get_api_tokens_by_user_id k =
    gets (λ db. sort_tokens (select_many (λ t. t.user_id == k) db.api_tokens))

-- `APITokenRepo.GetByTokenHash`: no row is no error.
unfoldable pub get_by_token_hash : String → Tx (Option ApiToken)
get_by_token_hash hash = gets (λ db. select_one (λ t. str_eq t.token_hash hash) db.api_tokens)

-- `DELETE FROM api_tokens WHERE id = $1 AND user_id = $2`
unfoldable pub delete_api_token : ℕ → ℕ → Tx (Unit {0})
delete_api_token k user_id = modify λ db. record db {
  api_tokens = delete_where (λ t. t.id == k && t.user_id == user_id) db.api_tokens;
}

-- `UPDATE api_tokens SET last_used_at = $2 WHERE id = $1`
unfoldable pub update_last_used_at : ℕ → ℕ → Tx (Unit {0})
update_last_used_at k now = modify λ db. record db {
  api_tokens =
      update_where (λ t. t.id == k) (λ t. record t { last_used_at = some now }) db.api_tokens;
}
