-- ===== src/BracketUseCase/Rows.antt =====
-- The rows of brackets with names of their own, and what keeps them so.
use ctfboard.Entity.Records.{Bracket}
use ctfboard.Base.{
  ℕ, List, Bool, String, ◌∷◌, ◌≡◌, exists_where, delete_where, str_eq, false, true, if◌then◌else◌,
  update_where, refl, [], ◌||◌, arith, not, Bool-cases, inl, subst, sym, inr, str_eq_iff,
}
use ctfboard.Golang.{trim_space}
use ctfboard.Golang.Trim.{has_ink}
use ctfboard.Store.Brackets.{has_bracket_id, has_name, is_renamed}

abbrev pub clashes : ℕ → String → Bracket → Bool
clashes k name b = has_bracket_id k b || has_name name b

-- Some character of the name is not a space, and there is no space at either end of it.
abbrev pub IsProperName : String → Type 0
IsProperName name = (has_ink name ≡ true) × (trim_space name ≡ name)

-- No name is blank, and no two brackets have the same key or the same name.
abbrev pub AreNamed : List Bracket → Type 0
AreNamed [] = Unit {0}
AreNamed (b ∷ bs) =
    IsProperName b.name × (exists_where (clashes b.id b.name) bs ≡ false) × AreNamed bs

AreNamed-if :
    (c : Bool) (xs ys : List Bracket)
    → (c ≡ true → AreNamed xs)
    → (c ≡ false → AreNamed ys)
    → AreNamed (if c then xs else ys)
AreNamed-if true xs ys f g = f refl
AreNamed-if false xs ys f g = g refl

absent-delete :
    (k : ℕ) (name : String) (gone : ℕ) (bs : List Bracket)
    → exists_where (clashes k name) bs ≡ false
    → exists_where (clashes k name) (delete_where (has_bracket_id gone) bs) ≡ false
absent-delete k name gone [] e = refl
absent-delete k name gone (b ∷ bs) e = ground (arith, e, absent-delete k name gone bs)

pub delete-AreNamed :
    (gone : ℕ) (bs : List Bracket) → AreNamed bs → AreNamed (delete_where (has_bracket_id gone) bs)
delete-AreNamed gone [] u = tt
delete-AreNamed gone (b ∷ bs) u =
    AreNamed-if (not (has_bracket_id gone b)) (b ∷ delete_where (has_bracket_id gone) bs)
      (delete_where (has_bracket_id gone) bs)
      (λ _. (u.0, absent-delete b.id b.name gone bs u.1, delete-AreNamed gone bs u.2))
      (λ _. delete-AreNamed gone bs u.2)

abbrev pub with_edit : Bracket → Bracket → Bracket
with_edit row b = record b {
  name = row.name;
  description = row.description;
  is_default = row.is_default;
}

-- A row that is not there is not edited.
edit-absent :
    (row : Bracket) (name : String) (bs : List Bracket)
    → exists_where (clashes row.id name) bs ≡ false
    → update_where (has_bracket_id row.id) (with_edit row) bs ≡ bs
edit-absent row name [] e = refl
edit-absent row name (b ∷ bs) e = ground (arith, e, edit-absent row name bs)

-- The new name is free where neither the key nor another row has it.
free_name :
    (row : Bracket) (name : String) (bs : List Bracket)
    → exists_where (clashes row.id name) bs ≡ false
    → exists_where (is_renamed row.id row.name) bs ≡ false
    → exists_where (clashes row.id row.name) bs ≡ false
free_name row name [] e f = refl
free_name row name (b ∷ bs) e f = ground (arith, e, f, free_name row name bs)

absent-edit :
    (k : ℕ) (name : String) (row : Bracket) (bs : List Bracket)
    → exists_where (clashes k name) bs ≡ false
    → str_eq row.name name ≡ false
    → exists_where (clashes k name) (update_where (has_bracket_id row.id) (with_edit row) bs)
      ≡ false
absent-edit k name row [] e f = refl
absent-edit k name row (b ∷ bs) e f = ground (arith, e, f, absent-edit k name row bs)

pub edit-AreNamed :
    (row : Bracket) (bs : List Bracket)
    → AreNamed bs
    → IsProperName row.name
    → exists_where (is_renamed row.id row.name) bs ≡ false
    → AreNamed (update_where (has_bracket_id row.id) (with_edit row) bs)
edit-AreNamed row [] u full f = tt
edit-AreNamed row (b ∷ bs) u full f = elim (Bool-cases (has_bracket_id row.id b)) [
  | inl here ↦
      let k : b.id ≡ row.id = ground (arith, here) in
      let apart : exists_where (clashes row.id b.name) bs ≡ false =
        subst (λ j. exists_where (clashes j b.name) bs ≡ false) k u.1 in
      let others : exists_where (is_renamed row.id row.name) bs ≡ false = ground (arith, f, here) in
      let head : (if has_bracket_id row.id b then with_edit row b else b) ≡ with_edit row b =
        ground (arith, here) in
      let rest = edit-absent row b.name bs apart in
      subst (λ x. AreNamed (x ∷ update_where (has_bracket_id row.id) (with_edit row) bs)) (sym head)
        (subst (λ xs. AreNamed (with_edit row b ∷ xs)) (sym rest)
          (
            full,
            subst (λ j. exists_where (clashes j row.name) bs ≡ false) (sym k)
                (free_name row b.name bs apart others),
            u.2,
          ))
  | inr there ↦
      let head : (if has_bracket_id row.id b then with_edit row b else b) ≡ b =
        ground (arith, there) in
      let differs : str_eq row.name b.name ≡ false =
        ground (arith, f, there, str_eq_iff row.name b.name, str_eq_iff b.name row.name) in
      let others : exists_where (is_renamed row.id row.name) bs ≡ false = ground (arith, f) in
      subst (λ x. AreNamed (x ∷ update_where (has_bracket_id row.id) (with_edit row) bs)) (sym head)
        (u.0, absent-edit b.id b.name row bs u.1 differs, edit-AreNamed row bs u.2 full others)
]
