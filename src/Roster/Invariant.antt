-- ===== src/Roster/Invariant.antt =====
-- The invariant that ties users to teams, and that each kind of change to the roster keeps it.
use ctfboard.Base.{ℕ, ◌<◌, ◌≤◌, ◌≡◌, ◌≢◌, true, none, some, List, ◌∷◌, arith, select_one}
use ctfboard.Entity.{User, Team}
use ctfboard.Store.Users.{has_id}
use ctfboard.Store.Teams.{is_live}
use ctfboard.Roster.Users.{
  Distinct, team_in, moved, size, moved-Distinct, team_in-moved, size-moved, size_none, size_pos,
}
use ctfboard.Roster.Teams.{captain_in, retired, crowned, captain_in-retired, captain_in-crowned}

-- Over the tables `users` and `teams`: the keys of users are distinct, the captain of a live team is
-- a member of it, a user's team is live, and no team has more than `max` members.
pub record IsRoster (max : ℕ) (us : List User) (ts : List Team) : Type 0 where
  pub distinct : Distinct us
  pub led : (t c : ℕ) → captain_in t ts ≡ some c → team_in c us ≡ some t
  pub live : (k t : ℕ) → team_in k us ≡ some t → captain_in t ts ≢ none
  pub within : (t : ℕ) → size t us ≤ max

module _ (max : ℕ) (us : List User) (ts : List Team) (r : IsRoster max us ts) (k : ℕ) (u : User)
    (found : select_one (has_id k) us ≡ some u) where
  exists : select_one (has_id k) us ≢ none
  exists e = cc

  -- A user without a team enters a live team that has room.
  pub enter-IsRoster :
      (t : ℕ)
      → u.team_id ≡ none
      → captain_in t ts ≢ none
      → size t us < max
      → IsRoster max (moved k (some t) us) ts
  enter-IsRoster t free alive room = record {
    distinct = moved-Distinct k (some t) us r.distinct;
    led = λ s c e. ground (arith, r.led s c e, team_in-moved c k (some t) us exists);
    live = λ j s e. ground (arith, r.live j s, team_in-moved j k (some t) us exists);
    within = λ s. ground (arith, r.within s, size-moved s k (some t) u us r.distinct found);
  }

  -- A member who is not the captain goes.
  pub quit-IsRoster :
      (t : ℕ) → u.team_id ≡ some t → captain_in t ts ≢ some k → IsRoster max (moved k none us) ts
  quit-IsRoster t mine crew = record {
    distinct = moved-Distinct k none us r.distinct;
    led = λ s c e. ground (arith, r.led s c e, team_in-moved c k none us exists);
    live = λ j s e. ground (arith, r.live j s, team_in-moved j k none us exists);
    within = λ s. ground (arith, r.within s, size-moved s k none u us r.distinct found);
  }

  -- The only member goes, and the team with them.
  pub retire-IsRoster :
      (t now : ℕ)
      → u.team_id ≡ some t
      → size t us ≡ 1
      → IsRoster max (moved k none us) (retired t now ts)
  retire-IsRoster t now mine alone = record {
    distinct = moved-Distinct k none us r.distinct;
    led = λ s c e.
        ground (arith, r.led s c, team_in-moved c k none us exists, captain_in-retired s t now ts);
    live = λ j s e. ground (
      arith,
      r.live j s,
      team_in-moved j k none us exists,
      captain_in-retired s t now ts,
      size_pos j t (moved k none us),
      size-moved t k none u us r.distinct found,
    );
    within = λ s. ground (arith, r.within s, size-moved s k none u us r.distinct found);
  }

  -- A user without a team founds one and leads it.
  pub found-IsRoster :
      (row : Team)
      → u.team_id ≡ none
      → is_live row ≡ true
      → row.captain_id ≡ k
      → captain_in row.id ts ≡ none
      → 0 < max
      → IsRoster max (moved k (some row.id) us) (row ∷ ts)
  found-IsRoster row free alive mine fresh room = record {
    distinct = moved-Distinct k (some row.id) us r.distinct;
    led = λ s c e. ground (arith, r.led s c, team_in-moved c k (some row.id) us exists);
    live = λ j s e. ground (arith, r.live j s, team_in-moved j k (some row.id) us exists);
    within = λ s. ground (
      arith,
      r.within s,
      size-moved s k (some row.id) u us r.distinct found,
      size_none row.id us r.distinct (λ j e. r.live j row.id e fresh),
    );
  }

-- A member takes over from the captain.
pub crown-IsRoster :
    (max : ℕ) (us : List User) (ts : List Team) (t c : ℕ)
    → IsRoster max us ts
    → team_in c us ≡ some t
    → IsRoster max us (crowned t c ts)
crown-IsRoster max us ts t c r member = record {
  distinct = r.distinct;
  led = λ s d e. ground (arith, r.led s d, captain_in-crowned s t c ts (r.live c t member));
  live = λ j s e. ground (arith, r.live j s, captain_in-crowned s t c ts (r.live c t member));
  within = r.within;
}
