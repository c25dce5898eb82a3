-- ===== src/Base/Lists.antt =====
-- Lists over the native numbers, and tables: lists of rows that SQL statements filter and update.
use Prim.Native.Nat.{ℕ, zero, suc, ◌+◌, ◌≤◌}
use mathlib.Core.Bool.{Bool, true, false, not}
use mathlib.Core.Option.{Option, none, some}
use mathlib.Core.List.{List, [], ◌∷◌, ◌++◌}
use ctfboard.Base.Tests.{if◌then◌else◌}
use mathlib.Core.Path.{◌≡◌, refl, ap, ◌∙◌, sym}
use native.Mathlib.Omega.{arith}

module _ {ℓ} {A : Type ℓ} where
  abbrev pub length : List A → ℕ
  length [] = 0
  length (x ∷ xs) = suc (length xs)

  abbrev pub take : ℕ → List A → List A
  take zero xs = []
  take (suc n) [] = []
  take (suc n) (x ∷ xs) = x ∷ take n xs

  abbrev pub drop : ℕ → List A → List A
  drop zero xs = xs
  drop (suc n) [] = []
  drop (suc n) (x ∷ xs) = drop n xs

  take-nil : (n : ℕ) → take n [] ≡ []
  take-nil zero = refl
  take-nil (suc n) = refl

  -- A longer prefix is a shorter one and what comes next.
  pub take-++ : (m n : ℕ) (xs : List A) → take m xs ++ take n (drop m xs) ≡ take (m + n) xs
  take-++ zero n xs = ap (λ k. take k xs) (omega arith)
  take-++ (suc m) n [] = take-nil n ∙ sym (take-nil (suc m + n))
  take-++ (suc m) n (x ∷ xs) =
      ap (λ l. x ∷ l) (take-++ m n xs)
      ∙ ap (λ k. take k (x ∷ xs)) {x = suc (m + n)} {y = suc m + n} (omega arith)

  pub take_all : (n : ℕ) (xs : List A) → length xs ≤ n → take n xs ≡ xs
  take_all zero [] h = refl
  take_all zero (x ∷ xs) h = absurd (omega arith)
  take_all (suc n) [] h = refl
  take_all (suc n) (x ∷ xs) h = ap (λ l. x ∷ l) (take_all n xs (omega arith))

  -- `SELECT ... WHERE p` as `:one`: the first row, or no rows.
  abbrev pub select_one : (A → Bool) → List A → Option A
  select_one p [] = none
  select_one p (x ∷ xs) = if p x then some x else select_one p xs

  -- `SELECT ... WHERE p` as `:many`.
  abbrev pub select_many : (A → Bool) → List A → List A
  select_many p [] = []
  select_many p (x ∷ xs) = if p x then x ∷ select_many p xs else select_many p xs

  -- `UPDATE ... SET f WHERE p`.
  abbrev pub update_where : (A → Bool) → (A → A) → List A → List A
  update_where p f [] = []
  update_where p f (x ∷ xs) = (if p x then f x else x) ∷ update_where p f xs

  -- `DELETE ... WHERE p`.
  abbrev pub delete_where : (A → Bool) → List A → List A
  delete_where p = select_many (λ x. not (p x))

  abbrev pub exists_where : (A → Bool) → List A → Bool
  exists_where p [] = false
  exists_where p (x ∷ xs) = if p x then true else exists_where p xs

  -- Where a query finds no row, none exists.
  pub exists_where-none :
      (p : A → Bool) (xs : List A) → select_one p xs ≡ none → exists_where p xs ≡ false
  exists_where-none p [] e = refl
  exists_where-none p (x ∷ xs) e = ground (arith, exists_where-none p xs)

  -- A deletion leaves no row that it was for.
  pub select_one-delete_where :
      (p q : A → Bool) (xs : List A)
      → ((x : A) → q x ≡ true → p x ≡ true)
      → select_one q (delete_where p xs) ≡ none
  select_one-delete_where p q [] h = refl
  select_one-delete_where p q (x ∷ xs) h = ground (arith, h x, select_one-delete_where p q xs h)
