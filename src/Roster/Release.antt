-- ===== src/Roster/Release.antt =====
-- Taking all members out of a team, one row after the other, as `disbandExecute` does.
use ctfboard.Base.{
  ℕ, ◌≤◌, ◌≡◌, refl, true, Bool, false, none, some, List, [], ◌∷◌, ◌==◌, arith, select_one,
  exists_where, if◌then◌else◌, ℕ_discrete,
}
use ctfboard.Entity.{User, Team}
use ctfboard.Store.Users.{has_id, members_of}
use ctfboard.Roster.Users.{Distinct, team_in, moved, moved-Distinct, size}
use ctfboard.Roster.Teams.{retired, captain_in-retired}
use ctfboard.Roster.Invariant.{IsRoster}

unfoldable pub release : List User → List User → List User
release [] us = us
release (m ∷ ms) us = release ms (moved m.id none us)

abbrev pub listed : ℕ → List User → Bool
listed j = exists_where (has_id j)

team_in-moved-none :
    (j k : ℕ) (us : List User)
    → team_in j (moved k none us) ≡ (if j == k then none else team_in j us)
team_in-moved-none j k [] = ground arith
team_in-moved-none j k (u ∷ us) = ground (arith, team_in-moved-none j k us)

team_in-release :
    (j : ℕ) (ms us : List User)
    → team_in j (release ms us) ≡ (if listed j ms then none else team_in j us)
unfolding release
team_in-release j [] us = refl
team_in-release j (m ∷ ms) us =
    ground (arith, team_in-release j ms (moved m.id none us), team_in-moved-none j m.id us)

size-moved-none : (s k : ℕ) (us : List User) → size s (moved k none us) ≤ size s us
unfolding size
size-moved-none s k [] = omega arith
size-moved-none s k (u ∷ us) = ground (arith, size-moved-none s k us)

size-release : (s : ℕ) (ms us : List User) → size s (release ms us) ≤ size s us
unfolding release
size-release s [] us = omega arith
size-release s (m ∷ ms) us =
    omega (arith, size-release s ms (moved m.id none us), size-moved-none s m.id us)

release-Distinct : (ms us : List User) → Distinct us → Distinct (release ms us)
unfolding release
release-Distinct [] us d = d
release-Distinct (m ∷ ms) us d =
    release-Distinct ms (moved m.id none us) (moved-Distinct m.id none us d)

listed_member :
    (j t : ℕ) (us : List User) → team_in j us ≡ some t → listed j (members_of t us) ≡ true
listed_member j t [] e = cc
listed_member j t (u ∷ us) e = ground (arith, listed_member j t us)

unlisted :
    (j t : ℕ) (us : List User)
    → select_one (has_id j) us ≡ none
    → listed j (members_of t us) ≡ false
unlisted j t [] e = refl
unlisted j t (u ∷ us) e = ground (arith, unlisted j t us)

member_listed :
    (j t : ℕ) (us : List User)
    → Distinct us
    → listed j (members_of t us) ≡ true
    → team_in j us ≡ some t
member_listed j t [] d e = cc
member_listed j t (u ∷ us) d e = elim (ℕ_discrete j u.id) [
  | yes same ↦ ground (arith, unlisted u.id t us d.0, same)
  | no other ↦ ground (arith, member_listed j t us d.1)
]

-- A team that is deleted with all its members released leaves a valid roster.
pub release-IsRoster :
    (max now : ℕ) (us : List User) (ts : List Team) (t : ℕ)
    → IsRoster max us ts
    → IsRoster max (release (members_of t us) us) (retired t now ts)
release-IsRoster max now us ts t r = record {
  distinct = release-Distinct (members_of t us) us r.distinct;
  led = λ s c e. ground (
    arith,
    r.led s c,
    captain_in-retired s t now ts,
    team_in-release c (members_of t us) us,
    member_listed c t us r.distinct,
  );
  live = λ j s e. ground (
    arith,
    r.live j s,
    captain_in-retired s t now ts,
    team_in-release j (members_of t us) us,
    listed_member j t us,
  );
  within = λ s. omega (arith, r.within s, size-release s (members_of t us) us);
}
