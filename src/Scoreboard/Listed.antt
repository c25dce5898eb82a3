-- ===== src/Scoreboard/Listed.antt =====
-- What a row of the scoreboard says of its team: the conditions of `GetScoreboardByBracket`, written as
-- they are meant and not as the query computes them.
use mathlib.Core.List.{Memᴰ, List, [], ◌∷◌}
use mathlib.Core.List.Memᴰ
use ctfboard.Entity.{Team, Solve, Challenge}
use ctfboard.Store.Transaction.{Db}
use ctfboard.Scoreboard.Query.{
  Standing, last_solved, is_shown, in_bracket, is_solved_challenge, later,
}
use ctfboard.Base.{
  ℕ, ◌≡◌, Option, some, false, ◌&&◌, select_many, true, Bool, ◌≤◌, ◌⊎◌, inl, if-cases, none, arith,
  Bool-cases, ◌==◌, subst, inr, ap, refl,
}
use ctfboard.Store.Challenges.{team_score, has_challenge_id}

-- A solve by this team of a challenge that exists
abbrev pub Counts : ℕ → List Challenge → Solve → Type 0
Counts k cs s = (s.team_id ≡ k) × (c : Challenge) × Memᴰ c cs × (c.id ≡ s.challenge_id)

-- Every solve of the team is at this time or before, and one of them is at it; there is no time where
-- there is no solve.
pub record IsLastSolve (k : ℕ) (cs : List Challenge) (ss : List Solve) (o : Option ℕ) : Type 0 where
  pub bound : (s : Solve) → Memᴰ s ss → Counts k cs s → (m : ℕ) × (o ≡ some m) × (s.solved_at ≤ m)
  pub reached : (m : ℕ) → o ≡ some m → (s : Solve) × Memᴰ s ss × Counts k cs s × (s.solved_at ≡ m)

-- A row with the name, the points and the last solve of a team
abbrev pub IsStanding : Db → Standing → Type 0
IsStanding db r =
    (r.points ≡ team_score r.team.id db)
    × IsLastSolve r.team.id db.challenges db.solves r.last_solved

-- A team that the scoreboard of a bracket shows, or that of all brackets where none is asked for
abbrev pub IsListed : Option ℕ → Team → Type 0
IsListed bracket_id t =
    (t.is_banned ≡ false)
    × (t.is_hidden ≡ false)
    × (t.deleted_at ≡ none)
    × ((bracket_id ≡ none) ⊎ (t.bracket_id ≡ bracket_id))

IsListed-of_shown :
    (bracket_id : Option ℕ) (t : Team)
    → (is_shown t && in_bracket bracket_id t) ≡ true
    → IsListed bracket_id t
IsListed-of_shown none t e = (ground (arith, e), ground (arith, e), ground (arith, e), inl refl)
IsListed-of_shown (some b) t e =
    (ground (arith, e), ground (arith, e), ground (arith, e), inr (ground (arith, e)))

shown_of_IsListed :
    (bracket_id : Option ℕ) (t : Team)
    → IsListed bracket_id t
    → (is_shown t && in_bracket bracket_id t) ≡ true
shown_of_IsListed none t (b, h, d, i) = ground (arith, b, h, d)
shown_of_IsListed (some k) t (b, h, d, inl e) = cc
shown_of_IsListed (some k) t (b, h, d, inr e) = ground (arith, b, h, d, e)

-- The rows of a list that satisfy `P`, in its order
pub data Chosen {A : Type 0} (P : A → Type 0) : List A → List A → Type 0 where
  nothing : Chosen P [] []
  chosen : {a : A} {as_ bs : List A} → P a → Chosen P as_ bs → Chosen P (a ∷ as_) (a ∷ bs)
  passed_over : {a : A} {as_ bs : List A} → ¬ P a → Chosen P as_ bs → Chosen P (a ∷ as_) bs

pub shown_teams-Chosen :
    (bracket_id : Option ℕ) (ts : List Team)
    → Chosen (IsListed bracket_id) ts (select_many (λ t. is_shown t && in_bracket bracket_id t) ts)
shown_teams-Chosen bracket_id [] = nothing
shown_teams-Chosen bracket_id (t ∷ ts) =
    if-cases (λ (r : List Team). Chosen (IsListed bracket_id) (t ∷ ts) r)
      (is_shown t && in_bracket bracket_id t) _ _
      (λ e. chosen (IsListed-of_shown bracket_id t e) (shown_teams-Chosen bracket_id ts))
      (λ e.
        passed_over (λ h. cc (shown_of_IsListed bracket_id t h, e))
          (shown_teams-Chosen bracket_id ts))

-- The test of a join finds a challenge of the solve.
joined :
    (s : Solve) (cs : List Challenge)
    → is_solved_challenge cs s ≡ true
    → (c : Challenge) × Memᴰ c cs × (c.id ≡ s.challenge_id)
joined s [] e = cc
joined s (c ∷ cs) e = elim (Bool-cases (has_challenge_id s.challenge_id c)) [
  | inl here ↦ (c, Memᴰ.head refl, ground (arith, here))
  | inr there ↦ let (d, m, is) = joined s cs (ground (arith, there, e)) in (d, Memᴰ.tail m, is)
]

joins :
    (s : Solve) (cs : List Challenge) (c : Challenge)
    → Memᴰ c cs
    → c.id ≡ s.challenge_id
    → is_solved_challenge cs s ≡ true
joins s [] c m is = absurd (Memᴰ.not-nil m)
joins s (x ∷ xs) c (Memᴰ.head e) is = ground (arith, ap (λ (y : Challenge). y.id) e, is)
joins s (x ∷ xs) c (Memᴰ.tail m) is = ground (arith, joins s xs c m is)

abbrev is_counted : ℕ → List Challenge → Solve → Bool
is_counted k cs s = s.team_id == k && is_solved_challenge cs s

Counts-of_counted :
    (k : ℕ) (cs : List Challenge) (s : Solve) → is_counted k cs s ≡ true → Counts k cs s
Counts-of_counted k cs s e =
    let (c, m, is) = joined s cs (ground (arith, e)) in (ground (arith, e), c, m, is)

counted_of_Counts :
    (k : ℕ) (cs : List Challenge) (s : Solve) → Counts k cs s → is_counted k cs s ≡ true
counted_of_Counts k cs s (own, c, m, is) = ground (arith, own, joins s cs c m is)

later-bound : (a : ℕ) (o : Option ℕ) → (a ≤ later a o) × ((m : ℕ) → o ≡ some m → m ≤ later a o)
later-bound a none = (ground arith, λ m e. cc)
later-bound a (some b) = (ground arith, λ m e. ground (arith, e))

later-reached : (a : ℕ) (o : Option ℕ) → (a ≡ later a o) ⊎ (o ≡ some (later a o))
later-reached a none = inl refl
later-reached a (some b) = ground arith

-- One more solve of the team
one_more :
    (k : ℕ) (cs : List Challenge) (s : Solve) (ss : List Solve) (o : Option ℕ)
    → Counts k cs s
    → IsLastSolve k cs ss o
    → IsLastSolve k cs (s ∷ ss) (some (later s.solved_at o))
one_more k cs s ss o h last = record {
  bound = λ x m counts. elim (Memᴰ.cases_cons m) [
    | inl e ↦ (
      later s.solved_at o,
      refl,
      ground (arith, ap (λ (y : Solve). y.solved_at) e, (later-bound s.solved_at o).0),
    )
    | inr m' ↦
        let (t, is, le) = last.bound x m' counts in
        (later s.solved_at o, refl, ground (arith, le, (later-bound s.solved_at o).1 t is))
  ];
  reached = λ m e. elim (later-reached s.solved_at o) [
    | inl here ↦ (s, Memᴰ.head refl, h, ground (arith, here, e))
    | inr there ↦
        let (x, m', counts, at) = last.reached (later s.solved_at o) there in
        (x, Memᴰ.tail m', counts, ground (arith, at, e))
  ];
}

-- A solve that does not count
one_aside :
    (k : ℕ) (cs : List Challenge) (s : Solve) (ss : List Solve) (o : Option ℕ)
    → ¬ Counts k cs s
    → IsLastSolve k cs ss o
    → IsLastSolve k cs (s ∷ ss) o
one_aside k cs s ss o h last = record {
  bound = λ x m counts. elim (Memᴰ.cases_cons m) [
    | inl e ↦ absurd (h (subst (Counts k cs) e counts))
    | inr m' ↦ last.bound x m' counts
  ];
  reached = λ m e. let (x, m', counts, at) = last.reached m e in (x, Memᴰ.tail m', counts, at);
}

pub last_solved-IsLastSolve :
    (k : ℕ) (cs : List Challenge) (ss : List Solve) → IsLastSolve k cs ss (last_solved k cs ss)
last_solved-IsLastSolve k cs [] = record {
  bound = λ s m counts. absurd (Memᴰ.not-nil m);
  reached = λ m e. cc;
}
last_solved-IsLastSolve k cs (s ∷ ss) =
    if-cases (λ (o : Option ℕ). IsLastSolve k cs (s ∷ ss) o) (is_counted k cs s) _ _
      (λ e.
        one_more k cs s ss (last_solved k cs ss) (Counts-of_counted k cs s e)
          (last_solved-IsLastSolve k cs ss))
      (λ e.
        one_aside k cs s ss (last_solved k cs ss) (λ h. cc (counted_of_Counts k cs s h, e))
          (last_solved-IsLastSolve k cs ss))
