-- ===== src/Roster/Users.antt =====
-- The membership that the table `users` holds, and how an update of one user's team changes it.
use ctfboard.Base.{
  ℕ, ◌+◌, ◌≡◌, refl, ◌≢◌, ap, ◌∙◌, ℕ_discrete, Bool, Option, none, some, List, [], ◌∷◌, ◌==◌, ◌<◌,
  arith, length, select_one, update_where, is_some_of, if◌then◌else◌,
}
use ctfboard.Entity.{User}
use ctfboard.Store.Users.{has_id, members_of}

abbrev pub team_id_of : Option User → Option ℕ
team_id_of none = none
team_id_of (some u) = u.team_id

abbrev pub set_team : Option ℕ → User → User
set_team t u = record u { team_id = t }

-- No two rows share their primary key.
abbrev pub Distinct : List User → Type 0
Distinct [] = Unit {0}
Distinct (u ∷ us) = (select_one (has_id u.id) us ≡ none) × Distinct us

abbrev pub team_in : ℕ → List User → Option ℕ
team_in k us = team_id_of (select_one (has_id k) us)

abbrev pub moved : ℕ → Option ℕ → List User → List User
moved k t = update_where (has_id k) (set_team t)

pub find-moved :
    (j k : ℕ) (t : Option ℕ) (us : List User)
    → select_one (has_id j) us ≡ none
    → select_one (has_id j) (moved k t us) ≡ none
find-moved j k t [] e = refl
find-moved j k t (u ∷ us) e = ground (arith, find-moved j k t us)

pub moved-Distinct : (k : ℕ) (t : Option ℕ) (us : List User) → Distinct us → Distinct (moved k t us)
moved-Distinct k t [] d = tt
moved-Distinct k t (u ∷ us) d =
    ground (arith, find-moved u.id k t us d.0, moved-Distinct k t us d.1)

find-moved_ne :
    (j k : ℕ) (t : Option ℕ) (us : List User)
    → j ≢ k
    → select_one (has_id j) (moved k t us) ≡ select_one (has_id j) us
find-moved_ne j k t [] n = refl
find-moved_ne j k t (u ∷ us) n = ground (arith, find-moved_ne j k t us)

pub team_in-moved_self :
    (k : ℕ) (t : Option ℕ) (us : List User)
    → select_one (has_id k) us ≢ none
    → team_in k (moved k t us) ≡ t
team_in-moved_self k t [] h = absurd (h refl)
team_in-moved_self k t (u ∷ us) h = ground (arith, team_in-moved_self k t us)

-- Moving a user changes that user's team and nobody else's.
pub team_in-moved :
    (j k : ℕ) (t : Option ℕ) (us : List User)
    → select_one (has_id k) us ≢ none
    → team_in j (moved k t us) ≡ (if j == k then t else team_in j us)
team_in-moved j k t us h = elim (ℕ_discrete j k) [
  | yes same ↦ ground (arith, team_in-moved_self k t us)
  | no other ↦ ground (arith, ap team_id_of (find-moved_ne j k t us other))
]

abbrev pub one_if : Bool → ℕ
one_if b = if b then 1 else 0

-- How many members a team has.
unfoldable pub size : ℕ → List User → ℕ
size s [] = 0
size s (u ∷ us) = one_if (is_some_of s u.team_id) + size s us

pub length-members_of : (s : ℕ) (us : List User) → length (members_of s us) ≡ size s us
unfolding size
length-members_of s [] = refl
length-members_of s (u ∷ us) = ground (arith, length-members_of s us)

moved_missing :
    (k : ℕ) (t : Option ℕ) (us : List User) → select_one (has_id k) us ≡ none → moved k t us ≡ us
moved_missing k t [] e = refl
moved_missing k t (u ∷ us) e = ground (arith, moved_missing k t us)

moved_missing_at :
    (j k : ℕ) (t : Option ℕ) (us : List User)
    → j ≡ k
    → select_one (has_id j) us ≡ none
    → moved k t us ≡ us
moved_missing_at j k t us q e = moved_missing k t us (rw (← q) e)

-- A move takes one member from the old team and gives one to the new.
pub size-moved :
    (s k : ℕ) (t : Option ℕ) (u : User) (us : List User)
    → Distinct us
    → select_one (has_id k) us ≡ some u
    → size s (moved k t us) + one_if (is_some_of s u.team_id) ≡ size s us + one_if (is_some_of s t)
unfolding size
size-moved s k t u [] d e = cc
size-moved s k t u (x ∷ us) d e = elim (ℕ_discrete x.id k) [
  | yes same ↦ ground (arith, ap (size s) (moved_missing_at x.id k t us same d.0))
  | no other ↦ ground (arith, size-moved s k t u us d.1)
]

team_in-cons :
    (k : ℕ) (u : User) (us : List User)
    → Distinct (u ∷ us)
    → team_in k us ≢ none
    → team_in k (u ∷ us) ≡ team_in k us
team_in-cons k u us d h = elim (ℕ_discrete k u.id) [
  | yes same ↦ absurd (h (rw (same, d.0) refl))
  | no other ↦ ground arith
]

-- A team that no user names has no members.
pub size_none :
    (s : ℕ) (us : List User) → Distinct us → ((k : ℕ) → team_in k us ≢ some s) → size s us ≡ 0
unfolding size
size_none s [] d h = refl
size_none s (u ∷ us) d h = ground (
  arith,
  h u.id,
  size_none s us d.1 (λ k e. h k (team_in-cons k u us d (λ n. ground (arith, e, n)) ∙ e)),
)

-- A user's team has a member.
pub size_pos : (j s : ℕ) (us : List User) → team_in j us ≡ some s → 0 < size s us
unfolding size
size_pos j s [] e = cc
size_pos j s (u ∷ us) e = ground (arith, size_pos j s us)

-- Of two moves of one user the later counts.
pub moved-moved :
    (k : ℕ) (t s : Option ℕ) (us : List User) → moved k t (moved k s us) ≡ moved k t us
moved-moved k t s [] = refl
moved-moved k t s (u ∷ us) = ground (arith, moved-moved k t s us)

pub found-moved :
    (j k : ℕ) (t : Option ℕ) (us : List User)
    → select_one (has_id j) us ≢ none
    → select_one (has_id j) (moved k t us) ≢ none
found-moved j k t [] h = h
found-moved j k t (u ∷ us) h = ground (arith, found-moved j k t us)

pub found-moved_self :
    (k : ℕ) (t : Option ℕ) (u : User) (us : List User)
    → select_one (has_id k) us ≡ some u
    → select_one (has_id k) (moved k t us) ≡ some (set_team t u)
found-moved_self k t u [] e = cc
found-moved_self k t u (x ∷ us) e = ground (arith, found-moved_self k t u us)

-- A move to the team where the user is changes nothing.
pub moved_same :
    (k : ℕ) (u : User) (us : List User)
    → Distinct us
    → select_one (has_id k) us ≡ some u
    → moved k u.team_id us ≡ us
moved_same k u [] d e = refl
moved_same k u (x ∷ us) d e = elim (ℕ_discrete x.id k) [
  | yes same ↦ ground (arith, moved_missing_at x.id k u.team_id us same d.0)
  | no other ↦ ground (arith, moved_same k u us d.1)
]

pub find_has_id : (k : ℕ) (u : User) (us : List User) → select_one (has_id k) us ≡ some u → u.id ≡ k
find_has_id k u [] e = cc
find_has_id k u (x ∷ us) e = ground (arith, find_has_id k u us)
