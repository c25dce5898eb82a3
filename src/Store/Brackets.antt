-- ===== src/Store/Brackets.antt =====
-- backend/internal/repo/persistent/bracket_postgres.go
use ctfboard.Store.Transaction.{◌>>=◌, ◌>>◌, Tx, gets, modify, fail_if, query}
use ctfboard.Entity.Records.{Bracket}
use ctfboard.Base.{
  ℕ, String, exists_where, List, Bool, ◌||◌, select_one, ◌&&◌, delete_where, ◌==◌, str_eq, not,
  update_where, is_some_of, none, ◌∷◌,
}
use ctfboard.Entity.Errors.{bracket_name_conflict, bracket_not_found}

abbrev pub has_bracket_id : ℕ → Bracket → Bool
has_bracket_id k b = b.id == k

abbrev pub has_name : String → Bracket → Bool
has_name name b = str_eq b.name name

-- `BracketRepo.Create`: a key or a name in use is a unique violation, reported as a conflict of names.
unfoldable pub create_bracket : Bracket → Tx (Unit {0})
create_bracket row = do
  taken ←
      gets (λ db. exists_where (λ b. has_bracket_id row.id b || has_name row.name b) db.brackets)
  fail_if taken bracket_name_conflict
  modify (λ db. record db { brackets = row ∷ db.brackets })

-- `BracketRepo.GetByID`
unfoldable pub get_bracket_by_id : ℕ → Tx Bracket
get_bracket_by_id k = query (λ db. select_one (has_bracket_id k) db.brackets) bracket_not_found

-- `BracketRepo.GetAll`; the rows come in the table's order, where the query sorts them by name.
unfoldable pub get_all_brackets : Tx (List Bracket)
get_all_brackets = gets (λ db. db.brackets)

abbrev pub is_renamed : ℕ → String → Bracket → Bool
is_renamed k name b = not (has_bracket_id k b) && has_name name b

-- `BracketRepo.Update`: all but the key and the time of creation; another row's name is a conflict.
unfoldable pub update_bracket : Bracket → Tx (Unit {0})
update_bracket row = do
  taken ← gets λ db.
      exists_where (has_bracket_id row.id) db.brackets
      && exists_where (is_renamed row.id row.name) db.brackets
  fail_if taken bracket_name_conflict
  modify λ db. record db {
    brackets =
        update_where (has_bracket_id row.id)
          (λ b. record b {
            name = row.name;
            description = row.description;
            is_default = row.is_default;
          })
          db.brackets;
  }

-- `BracketRepo.Delete`; teams of the bracket have none then (`ON DELETE SET NULL`).
unfoldable pub delete_bracket : ℕ → Tx (Unit {0})
delete_bracket k = modify λ db. record db {
  brackets = delete_where (has_bracket_id k) db.brackets;
  teams =
      update_where (λ t. is_some_of k t.bracket_id) (λ t. record t { bracket_id = none }) db.teams;
}
