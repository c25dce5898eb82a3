-- ===== src/Scoreboard/Order.antt =====
-- The order of the scoreboard, and who is on it.
use ctfboard.Scoreboard.Query.{
  Standing, goes_before, insert, sort, standings, standing_of, shown_teams, coalesce_far,
}
use ctfboard.Scoreboard.Listed.{
  Chosen, IsListed, IsStanding, shown_teams-Chosen, last_solved-IsLastSolve,
}
use mathlib.Core.List.{Perm, List, ◌∷◌, map}
use mathlib.Core.List.Perm
use ctfboard.Entity.{Team}
use ctfboard.Store.Transaction.{Db}
use ctfboard.Base.Int.{◌<ℤ◌, ltb_ℤ, eq_of_parts}
use ctfboard.Base.{
  ◌≡◌, if-cases, Option, [], ◌⊎◌, true, false, ℕ, ◌≤◌, Bool-cases, arith, inl, inr, subst, sym, ◌∙◌,
  refl,
}
use ctfboard.Store.Challenges.{team_score}

-- `a` may stand above `b`: it has more points, or as many and a last solve that is not later, where to
-- have none counts as the end of the year 9999.
abbrev pub StandsAbove : Standing → Standing → Type 0
StandsAbove a b =
    (b.points <ℤ a.points)
    ⊎ ((a.points ≡ b.points) × (coalesce_far a.last_solved ≤ coalesce_far b.last_solved))

abbrev pub Each : {A : Type 0} → (A → Type 0) → List A → Type 0
Each P [] = Unit {0}
Each P (a ∷ as_) = P a × Each P as_

-- Each row may stand above all that come after it.
abbrev pub IsOrdered : List Standing → Type 0
IsOrdered [] = Unit {0}
IsOrdered (a ∷ as_) = Each (StandsAbove a) as_ × IsOrdered as_

StandsAbove-of : (a b : Standing) → goes_before a b ≡ true → StandsAbove a b
StandsAbove-of a b e = elim (Bool-cases (ltb_ℤ b.points a.points)) [
  | inl more ↦ inl (ground (arith, more))
  | inr same ↦
      inr (eq_of_parts a.points b.points (ground (arith, e, same)), ground (arith, e, same))
]

-- Of two standings one may stand above the other.
StandsAbove-total : (a b : Standing) → goes_before a b ≡ false → StandsAbove b a
StandsAbove-total a b e = StandsAbove-of b a (ground (arith, e))

StandsAbove-trans : (a b c : Standing) → StandsAbove a b → StandsAbove b c → StandsAbove a c
StandsAbove-trans a b c (inl p) (inl q) = inl (omega (arith, p, q))
StandsAbove-trans a b c (inl p) (inr (e, _)) = inl (subst (λ z. z <ℤ a.points) e p)
StandsAbove-trans a b c (inr (e, _)) (inl q) = inl (subst (λ z. c.points <ℤ z) (sym e) q)
StandsAbove-trans a b c (inr (e, p)) (inr (f, q)) = inr (e ∙ f, omega (arith, p, q))

Each-map :
    {A : Type 0} (P Q : A → Type 0) (as_ : List A) → ((a : A) → P a → Q a) → Each P as_ → Each Q as_
Each-map P Q [] f h = tt
Each-map P Q (a ∷ as_) f h = (f a h.0, Each-map P Q as_ f h.1)

insert-Each :
    (P : Standing → Type 0) (a : Standing) (bs : List Standing)
    → P a
    → Each P bs
    → Each P (insert a bs)
insert-Each P a [] p h = (p, tt)
insert-Each P a (b ∷ bs) p h =
    if-cases (λ (r : List Standing). Each P r) (goes_before a b) _ _ (λ _. (p, h))
      (λ _. (h.0, insert-Each P a bs p h.1))

sort-Each : (P : Standing → Type 0) (as_ : List Standing) → Each P as_ → Each P (sort as_)
sort-Each P [] h = tt
sort-Each P (a ∷ as_) h = insert-Each P a (sort as_) h.0 (sort-Each P as_ h.1)

insert-IsOrdered : (a : Standing) (bs : List Standing) → IsOrdered bs → IsOrdered (insert a bs)
insert-IsOrdered a [] s = (tt, tt)
insert-IsOrdered a (b ∷ bs) s =
    if-cases (λ (r : List Standing). IsOrdered r) (goes_before a b) _ _
      (λ e.
        let above = StandsAbove-of a b e in
        (
          (
            above,
            Each-map (StandsAbove b) (StandsAbove a) bs
                (λ c below. StandsAbove-trans a b c above below) s.0,
          ),
          s,
        ))
      (λ e.
        (insert-Each (StandsAbove b) a bs (StandsAbove-total a b e) s.0, insert-IsOrdered a bs s.1))

sort-IsOrdered : (as_ : List Standing) → IsOrdered (sort as_)
sort-IsOrdered [] = tt
sort-IsOrdered (a ∷ as_) = insert-IsOrdered a (sort as_) (sort-IsOrdered as_)

abbrev pub team_of : Standing → Team
team_of s = s.team

insert-Perm :
    (a : Standing) (bs : List Standing) → Perm (map team_of (insert a bs)) (a.team ∷ map team_of bs)
insert-Perm a [] = Perm.refl (a.team ∷ [])
insert-Perm a (b ∷ bs) =
    if-cases (λ (r : List Standing). Perm (map team_of r) (a.team ∷ b.team ∷ map team_of bs))
      (goes_before a b) _ _ (λ _. Perm.refl (a.team ∷ b.team ∷ map team_of bs))
      (λ _.
        Perm.trans (Perm.cons b.team (insert-Perm a bs)) (Perm.swap a.team b.team (map team_of bs)))

sort-Perm : (db : Db) (ts : List Team) → Perm (map team_of (sort (map (standing_of db) ts))) ts
sort-Perm db [] = Perm.refl []
sort-Perm db (t ∷ ts) =
    Perm.trans (insert-Perm (standing_of db t) (sort (map (standing_of db) ts)))
      (Perm.cons t (sort-Perm db ts))

standing_of-Each : (db : Db) (ts : List Team) → Each (IsStanding db) (map (standing_of db) ts)
unfolding team_score
standing_of-Each db [] = tt
standing_of-Each db (t ∷ ts) =
    ((refl, last_solved-IsLastSolve t.id db.challenges db.solves), standing_of-Each db ts)

-- The scoreboard of a bracket, or of all brackets, has one row for each row of `teams` that is not
-- banned, hidden or deleted and is in the bracket, and no other row. A row has the team's score, as
-- `GetTeamScoreTx` counts it, and the latest time of its solves of challenges that exist. Of any two
-- rows, the one above has more points, or as many and a last solve that is not later, where to have none
-- counts as the end of the year 9999.
pub standings-IsOrdered :
    (bracket_id : Option ℕ) (db : Db)
    → IsOrdered (standings bracket_id db)
      × Each (IsStanding db) (standings bracket_id db)
      × (shown : List Team) × Chosen (IsListed bracket_id) db.teams shown
      × Perm (map team_of (standings bracket_id db)) shown
unfolding standings
standings-IsOrdered bracket_id db =
    let shown = shown_teams bracket_id db in
    let rows : List Standing = map (standing_of db) shown in
    (
      sort-IsOrdered rows,
      sort-Each (IsStanding db) rows (standing_of-Each db shown),
      shown,
      shown_teams-Chosen bracket_id db.teams,
      sort-Perm db shown,
    )
