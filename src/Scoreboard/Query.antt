-- ===== src/Scoreboard/Query.antt =====
-- `GetScoreboardByBracket` and `GetScoreboardByBracketFrozen` of backend/queries/solves.sql: the teams
-- that are shown, by points and then by the time of the last solve.
use ctfboard.Base.{
  ℕ, Bool, true, false, not, Option, none, some, List, [], ◌∷◌, ◌==◌, ◌&&◌, ◌||◌, ltb, leb,
  if◌then◌else◌, map, select_one, select_many, is_some_of,
}
use ctfboard.Base.Int.{ℤ, ◌+ℤ◌, ltb_ℤ, eqb_ℤ}
use ctfboard.Entity.{Team, Solve, Challenge}
use ctfboard.Store.Transaction.{Db}
use ctfboard.Store.Teams.{is_live}
use ctfboard.Store.Challenges.{sum_solves, sum_awards, has_challenge_id}
use ctfboard.Cache.Boards.{ScoreboardEntry}

-- `'9999-12-31'::timestamp`, in seconds
abbrev pub far_future : ℕ
far_future = 253_402_214_400

-- A row of the result, before it is converted.
pub record Standing : Type 0 where
  pub team : Team
  pub points : ℤ
  pub last_solved : Option ℕ

abbrev pub later : ℕ → Option ℕ → ℕ
later a none = a
later a (some b) = if ltb b a then a else b

abbrev pub is_solved_challenge : List Challenge → Solve → Bool
is_solved_challenge cs s = elim (select_one (has_challenge_id s.challenge_id) cs) [
  | none ↦ false
  | some _ ↦ true
]

-- `MAX(s.solved_at)` over the solves of a team that join a challenge
abbrev pub last_solved : ℕ → List Challenge → List Solve → Option ℕ
last_solved k cs [] = none
last_solved k cs (s ∷ ss) =
    if s.team_id == k && is_solved_challenge cs s
    then some (later s.solved_at (last_solved k cs ss))
    else last_solved k cs ss

-- `t.is_banned = false AND t.is_hidden = false AND t.deleted_at IS NULL`
abbrev pub is_shown : Team → Bool
is_shown t = not t.is_banned && (not t.is_hidden && is_live t)

-- `bracket_id IS NULL OR t.bracket_id = bracket_id`
abbrev pub in_bracket : Option ℕ → Team → Bool
in_bracket none t = true
in_bracket (some b) t = is_some_of b t.bracket_id

abbrev pub standing_of : Db → Team → Standing
standing_of db t = record {
  team = t;
  points = sum_solves t.id db.challenges db.solves +ℤ sum_awards t.id db.awards;
  last_solved = last_solved t.id db.challenges db.solves;
}

abbrev pub coalesce_far : Option ℕ → ℕ
coalesce_far none = far_future
coalesce_far (some t) = t

-- `ORDER BY points DESC, COALESCE(last_solved, '9999-12-31'::timestamp) ASC`
abbrev pub goes_before : Standing → Standing → Bool
goes_before a b =
    ltb_ℤ b.points a.points
    || (eqb_ℤ a.points b.points && leb (coalesce_far a.last_solved) (coalesce_far b.last_solved))

abbrev pub insert : Standing → List Standing → List Standing
insert a [] = a ∷ []
insert a (b ∷ bs) = if goes_before a b then a ∷ b ∷ bs else b ∷ insert a bs

abbrev pub sort : List Standing → List Standing
sort [] = []
sort (a ∷ as_) = insert a (sort as_)

-- `toScoreboardEntryByBracket`; `timeFromNullable` gives the zero time for NULL
abbrev pub to_scoreboard_entry : Standing → ScoreboardEntry
to_scoreboard_entry s = record {
  team_id = s.team.id;
  team_name = s.team.name;
  points = s.points;
  solved_at = elim s.last_solved [ none ↦ 0 | some t ↦ t ];
}

abbrev pub shown_teams : Option ℕ → Db → List Team
shown_teams bracket_id db = select_many (λ t. is_shown t && in_bracket bracket_id t) db.teams

unfoldable pub standings : Option ℕ → Db → List Standing
standings bracket_id db = sort (map (standing_of db) (shown_teams bracket_id db))

unfoldable pub scoreboard_by_bracket : Option ℕ → Db → List ScoreboardEntry
unfolding standings
scoreboard_by_bracket bracket_id db = map to_scoreboard_entry (standings bracket_id db)

-- `WHERE s.solved_at <= $1` and `WHERE awards.created_at <= $2`
abbrev pub until : ℕ → Db → Db
until freeze_time db = record db {
  solves = select_many (λ s. leb s.solved_at freeze_time) db.solves;
  awards = select_many (λ a. leb a.created_at freeze_time) db.awards;
}

unfoldable pub scoreboard_by_bracket_frozen : ℕ → Option ℕ → Db → List ScoreboardEntry
unfolding scoreboard_by_bracket
scoreboard_by_bracket_frozen freeze_time bracket_id db =
    scoreboard_by_bracket bracket_id (until freeze_time db)
