-- ===== src/BracketUseCase/Names.antt =====
-- Brackets have names of their own.
use ctfboard.Store.Statement.{exec, ◌>>=◌}
use ctfboard.Store.Transaction
use ctfboard.Store.Transaction.{ok, err, Db, Env, Result}
use ctfboard.Entity.Records.{Bracket}
use ctfboard.Base.{
  ℕ, List, Bool, String, ◌∷◌, ◌≡◌, exists_where, delete_where, str_eq, false, true, update_where,
  refl, [], arith, Bool-cases, ◌⊎◌, inl, ◌&&◌, subst, sym, inr, select_one, some, ◌∙◌, Option-cases,
}
use ctfboard.Store.Brackets.{
  has_bracket_id, is_renamed, update_bracket, create_bracket, delete_bracket, get_bracket_by_id,
}
use ctfboard.BracketUseCase.{
  add_bracket, remove_bracket, edit_bracket, create_bracket, delete_bracket, trim_space,
  new_bracket, get_bracket_by_id, edited,
}
use ctfboard.Golang.Trim.{trim_space-has_ink, trim_space_again}
use ctfboard.BracketUseCase.Rows.{
  AreNamed, IsProperName, clashes, with_edit, delete-AreNamed, edit-AreNamed,
}

pub data Request : Type 0 where
  add : String → String → Bool → Request
  edit : ℕ → String → String → Bool → Request
  remove : ℕ → Request

abbrev pub after : Env → Request → Db → Db
after env (add name description is_default) db = (add_bracket env name description is_default db).1
after env (edit k name description is_default) db =
    (edit_bracket env k name description is_default db).1
after env (remove k) db = (remove_bracket env k db).1

abbrev pub run : List (Env × Request) → Db → Db
run [] db = db
run ((env, r) ∷ rest) db = run rest (after env r db)

trimmed : (name : String) → str_eq (trim_space name) "" ≡ false → IsProperName (trim_space name)
trimmed name full = (trim_space-has_ink name full, trim_space_again name)

added :
    (env : Env) (name description : String) (is_default : Bool) (db : Db)
    → ((add_bracket env name description is_default db).1 ≡ db)
      ⊎ ((str_eq (trim_space name) "" ≡ false)
          × (exists_where (clashes (env.uuid 0) (trim_space name)) db.brackets ≡ false)
          × ((add_bracket env name description is_default db).1 ≡ record db {
            brackets = new_bracket env (trim_space name) description is_default ∷ db.brackets;
          }))
unfolding add_bracket create_bracket exec ◌>>=◌ Transaction.◌>>=◌
added env name description is_default db = ground arith

removed :
    (env : Env) (k : ℕ) (db : Db)
    → ((remove_bracket env k db).1 ≡ db)
      ⊎ ((remove_bracket env k db).1.brackets ≡ delete_where (has_bracket_id k) db.brackets)
unfolding remove_bracket delete_bracket exec
removed env k db = ground arith

updated :
    (env : Env) (row : Bracket) (db : Db)
    → ((exec env 1 (update_bracket row) db).1 ≡ db)
      ⊎ (((exists_where (has_bracket_id row.id) db.brackets
              && exists_where (is_renamed row.id row.name) db.brackets)
            ≡ false)
          × ((exec env 1 (update_bracket row) db).1.brackets
              ≡ update_where (has_bracket_id row.id) (with_edit row) db.brackets))
unfolding exec update_bracket Transaction.◌>>=◌
updated env row db = ground arith

found-exists :
    (k : ℕ) (b : Bracket) (bs : List Bracket)
    → select_one (has_bracket_id k) bs ≡ some b
    → (b.id ≡ k) × (exists_where (has_bracket_id k) bs ≡ true)
found-exists k b [] e = cc
found-exists k b (x ∷ bs) e = elim (Bool-cases (has_bracket_id k x)) [
  | inl here ↦ (ground (arith, here, e), ground (arith, here))
  | inr there ↦
      let h = found-exists k b bs (ground (arith, there, e)) in (h.0, ground (arith, there, h.1))
]

edit-cases :
    (env : Env) (k : ℕ) (name description : String) (is_default : Bool) (db : Db)
    → ((edit_bracket env k name description is_default db).1 ≡ db)
      ⊎ ((b : Bracket) × (select_one (has_bracket_id k) db.brackets ≡ some b)
          × (str_eq (trim_space name) "" ≡ false)
          × ((edit_bracket env k name description is_default db).1
              ≡ (exec env 1
                  (update_bracket (edited b (trim_space name) description is_default))
                  db).1))
unfolding edit_bracket exec get_bracket_by_id ◌>>=◌
edit-cases env k name description is_default db =
    elim (Option-cases (select_one (has_bracket_id k) db.brackets)) [
      | inl e ↦ inl (ground (arith, e))
      | inr (b, e) ↦ elim (Bool-cases (str_eq (trim_space name) "")) [
        | inl blank ↦ inl (ground (arith, e, blank))
        | inr full ↦ elim (Bool-cases (env.answers 0)) [
          | inl up ↦ inr (b, e, full, ground (arith, e, full, up))
          | inr down ↦ inl (ground (arith, down))
        ]
      ]
    ]

edited-AreNamed :
    (env : Env) (k : ℕ) (b row : Bracket) (db : Db)
    → AreNamed db.brackets
    → select_one (has_bracket_id k) db.brackets ≡ some b
    → row.id ≡ b.id
    → IsProperName row.name
    → AreNamed (exec env 1 (update_bracket row) db).1.brackets
edited-AreNamed env k b row db u found same full = elim (updated env row db) [
  | inl e ↦ subst (λ (d : Db). AreNamed d.brackets) (sym e) u
  | inr h ↦
      let (is, there) = found-exists k b db.brackets found in
      let there' : exists_where (has_bracket_id row.id) db.brackets ≡ true =
        subst (λ j. exists_where (has_bracket_id j) db.brackets ≡ true) (sym (same ∙ is)) there in
      subst AreNamed (sym h.1) (edit-AreNamed row db.brackets u full (ground (arith, h.0, there')))
]

after-AreNamed :
    (env : Env) (r : Request) (db : Db) → AreNamed db.brackets → AreNamed (after env r db).brackets
after-AreNamed env (add name description is_default) db u =
    elim (added env name description is_default db) [
      | inl e ↦ subst (λ (d : Db). AreNamed d.brackets) (sym e) u
      | inr h ↦ subst (λ (d : Db). AreNamed d.brackets) (sym h.2) (trimmed name h.0, h.1, u)
    ]
after-AreNamed env (edit k name description is_default) db u =
    elim (edit-cases env k name description is_default db) [
      | inl e ↦ subst (λ (d : Db). AreNamed d.brackets) (sym e) u
      | inr (b, found, full, e) ↦
          subst (λ (d : Db). AreNamed d.brackets) (sym e)
            (edited-AreNamed env k b (edited b (trim_space name) description is_default) db u found
              refl (trimmed name full))
    ]
after-AreNamed env (remove k) db u = elim (removed env k db) [
  | inl e ↦ subst (λ (d : Db). AreNamed d.brackets) (sym e) u
  | inr e ↦ subst AreNamed (sym e) (delete-AreNamed k db.brackets u)
]

-- Whatever is asked of the use case, in any order and whether or not the database answers, brackets
-- keep names that have some character that is not a space, that have no space at either end, and that no
-- two of them share.
pub run-AreNamed :
    (rs : List (Env × Request)) (db : Db) → AreNamed db.brackets → AreNamed (run rs db).brackets
run-AreNamed [] db u = u
run-AreNamed ((env, r) ∷ rest) db u = run-AreNamed rest (after env r db) (after-AreNamed env r db u)
