-- ===== src/TeamUseCase/Authority.antt =====
-- Who may lead, leave and end a team.
use ctfboard.Base.{
  ℕ, ◌≡◌, ◌≢◌, Option, none, some, List, arith, if◌then◌else◌, ◌==◌, Option-cases, inl, inr,
  select_one, is_some_of,
}
use ctfboard.Store.Transaction.{Db, Env, ok, ◌>>=◌}
use ctfboard.Store.Users.{
  lock_user_tx, get_user_by_id, get_users_by_team_id, update_user_team_id_tx, find_user,
}
use ctfboard.Store.Teams.{
  lock_team_tx, get_team_by_id, update_team_captain_tx, create_team_audit_log_tx, is_live_id,
}
use ctfboard.TeamUseCase.Membership.{leave_tx}
use ctfboard.TeamUseCase.Captain.{kick_member_tx, transfer_captain_tx}
use ctfboard.Roster.Users.{team_in, team_in-moved, find_has_id}
use ctfboard.Roster.Teams.{captain_in, captain_in-crowned, found_key, captain_in-key}
use ctfboard.Entity.{Team}

-- The captain of the live team that a user is in.
abbrev pub captain_of_team : Option ℕ → Db → Option ℕ
captain_of_team none db = none
captain_of_team (some t) db = captain_in t db.teams

abbrev pub leader_of : ℕ → Db → Option ℕ
leader_of k db = captain_of_team (team_in k db.users) db

-- The row of the team that a user's row names, if it is live, carries the id that was asked for.
abbrev pub named_team : (o : Option ℕ) (ts : List Team) → Option Team
named_team none ts = none
named_team (some t) ts = select_one (is_live_id t) ts

abbrev pub own_team : ℕ → Db → Option Team
own_team k db = named_team (team_in k db.users) db.teams

named_team_key :
    (o : Option ℕ) (t : Team) (ts : List Team) → named_team o ts ≡ some t → o ≡ some t.id
named_team_key none t ts e = cc
named_team_key (some k) t ts e = ground (arith, found_key k t ts e)

own_team_key :
    (k : ℕ) (db : Db) (t : Team) → own_team k db ≡ some t → team_in k db.users ≡ some t.id
own_team_key k db t e = named_team_key (team_in k db.users) t db.teams e

named_team_led :
    (o : Option ℕ) (t : Team) (ts : List Team)
    → named_team o ts ≡ some t
    → captain_in t.id ts ≡ some t.captain_id
named_team_led none t ts e = cc
named_team_led (some k) t ts e = captain_in-key k t ts e

-- Only the captain of a user's own team can kick that user, and the kick frees that user and moves
-- nobody else.
pub kick_member_authority :
    (env : Env) (c k j : ℕ) (db db' : Db)
    → kick_member_tx env c k db ≡ ok (tt, db')
    → (leader_of c db ≡ some c)
      × (team_in k db.users ≡ team_in c db.users)
      × (team_in j db'.users ≡ (if j == k then none else team_in j db.users))
unfolding kick_member_tx lock_user_tx get_user_by_id lock_team_tx get_team_by_id
    update_user_team_id_tx create_team_audit_log_tx ◌>>=◌
kick_member_authority env c k j db db' e = (
  ground (arith, e),
  elim (Option-cases (own_team c db)) [
    | inl absent ↦ ground (arith, e, absent)
    | inr (t, found) ↦ ground (arith, e, found, own_team_key c db t found)
  ],
  ground (arith, e, team_in-moved j k none db.users),
)

-- Only the captain can pass the lead on, and only to a member of the team, who leads it from then
-- on; every other team keeps its captain.
pub transfer_captain_authority :
    (env : Env) (c k s : ℕ) (db db' : Db)
    → transfer_captain_tx env c k db ≡ ok (tt, db')
    → (leader_of c db ≡ some c)
      × (team_in k db.users ≡ team_in c db.users)
      × (leader_of k db' ≡ some k)
      × (captain_in s db'.teams
          ≡ (if is_some_of s (team_in c db.users) then some k else captain_in s db.teams))
unfolding transfer_captain_tx lock_user_tx get_user_by_id lock_team_tx get_team_by_id
    update_team_captain_tx create_team_audit_log_tx ◌>>=◌
transfer_captain_authority env c k s db db' e = elim (Option-cases (own_team c db)) [
  | inl absent ↦ absurd (ground (arith, e, absent))
  | inr (t, found) ↦
      let key : team_in c db.users ≡ some t.id = own_team_key c db t found in
      let led = named_team_led (team_in c db.users) t db.teams found in
      (
        ground (arith, e),
        ground (arith, e, found, key),
        ground (arith, e, found, key, led, captain_in-crowned t.id t.id k db.teams),
        ground (arith, e, found, key, led, captain_in-crowned s t.id k db.teams),
      )
]

-- A member who leaves is not the captain, and the others stay in their teams.
pub leave_authority :
    (env : Env) (k j : ℕ) (db db' : Db)
    → leave_tx env k db ≡ ok (tt, db')
    → (leader_of k db ≢ none)
      × (leader_of k db ≢ some k)
      × (team_in j db'.users ≡ (if j == k then none else team_in j db.users))
unfolding leave_tx lock_user_tx get_user_by_id lock_team_tx get_team_by_id get_users_by_team_id
    update_user_team_id_tx create_team_audit_log_tx ◌>>=◌
leave_authority env k j db db' e = (
  (λ n. ground (arith, e, n)),
  (λ n. elim (Option-cases (find_user k db)) [
    | inl absent ↦ ground (arith, e, absent)
    | inr (u, found) ↦ ground (arith, e, n, found, find_has_id k u db.users found)
  ]),
  ground (arith, e, team_in-moved j k none db.users),
)
