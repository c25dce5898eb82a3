-- ===== src/TeamUseCase/Banned.antt =====
-- What a ban does to a team's submissions and to its place on the scoreboard.
use ctfboard.Base.{refl, ap, ◌∙◌}
use ctfboard.Base.{
  ℕ, ◌≡◌, true, false, some, String, List, [], ◌∷◌, arith, update_where, select_one, Option-cases,
  inl, inr, Option, exists_where, none, ◌==◌, map, select_many, Bool, ◌&&◌, if-cases,
}
use ctfboard.Entity.{Team}
use ctfboard.Entity.Errors.{team_banned}
use ctfboard.Store.Transaction.{Env, ok, ◌>>=◌, Db}
use ctfboard.Store.Teams.{get_team_by_id, is_live_id, find_team}
use ctfboard.Scoring.{Float64}
use ctfboard.Scoreboard.{World, load_scoreboard, get_scoreboard, is_frozen, freeze_time_of}
use ctfboard.ChallengeUseCase.Flags.{Platform}
use ctfboard.ChallengeUseCase.Submit.{submit_flag, submit_verdict, refused, submit_validate_team}
use ctfboard.TeamUseCase.Moderation.{ban_team}
use ctfboard.Cache.Boards.{ScoreboardEntry, invalidate_all}
use ctfboard.Scoreboard.Query.{
  Standing, to_scoreboard_entry, is_shown, scoreboard_by_bracket, insert, sort,
  scoreboard_by_bracket_frozen, standing_of, in_bracket, standings, goes_before, shown_teams, until,
}
use ctfboard.Scoreboard.Freshness.{get_scoreboard-invalidate_all}

found_banned :
    (k now : ℕ) (reason : String) (t : Team) (ts : List Team)
    → select_one (is_live_id k) ts ≡ some t
    → select_one (is_live_id k) (
        update_where
          (is_live_id k)
          (λ t. record t { is_banned = true; banned_at = some now; banned_reason = some reason })
          ts)
      ≡ some (record t { is_banned = true; banned_at = some now; banned_reason = some reason })
found_banned k now reason t [] e = cc
found_banned k now reason t (x ∷ xs) e = ground (arith, e, found_banned k now reason t xs)

-- After a team is banned every submission for it is refused, right or wrong, and changes nothing.
pub ban_team_refuses :
    (env env' : Env) (reason : String) (k : ℕ) (w w' : World) (F : Float64) (P : Platform)
    (challenge_id user : ℕ) (flag : String)
    → ban_team env k reason w ≡ (ok tt, w')
    → submit_flag env' F P challenge_id flag user (some k) w' ≡ (refused false team_banned, w')
unfolding ban_team submit_flag submit_verdict submit_validate_team get_team_by_id ◌>>=◌
ban_team_refuses env env' reason k w w' F P challenge_id user flag e =
    elim (Option-cases (find_team k w.db)) [
      | inl absent ↦ absurd (ground (arith, e, absent))
      | inr (t, found) ↦ ground (arith, e, found, found_banned k env.now reason t w.db.teams found)
    ]

abbrev pub is_listed : ℕ → List ScoreboardEntry → Bool
is_listed k = exists_where (λ e. e.team_id == k)

insert_listed :
    (k : ℕ) (a : Standing) (bs : List Standing)
    → (a.team.id == k) ≡ false
    → is_listed k (map to_scoreboard_entry bs) ≡ false
    → is_listed k (map to_scoreboard_entry (insert a bs)) ≡ false
insert_listed k a [] h n = ground (arith, h)
insert_listed k a (b ∷ bs) h n =
    if-cases (λ (r : List Standing). is_listed k (map to_scoreboard_entry r) ≡ false)
      (goes_before a b) _ _ (λ _. ground (arith, h, n))
      (λ _. ground (arith, h, n, insert_listed k a bs h))

none_listed :
    (k : ℕ) (db : Db) (ts : List Team)
    → exists_where (λ t. t.id == k) ts ≡ false
    → is_listed k (map to_scoreboard_entry (sort (map (standing_of db) ts))) ≡ false
none_listed k db [] h = refl
none_listed k db (t ∷ ts) h =
    insert_listed k (standing_of db t) (sort (map (standing_of db) ts)) (ground (arith, h))
      (none_listed k db ts (ground (arith, h)))

banned_not_shown :
    (k now : ℕ) (reason : String) (b : Option ℕ) (ts : List Team)
    → exists_where
        (λ t. t.id == k)
        (select_many
          (λ t. is_shown t && in_bracket b t)
          (update_where
            (is_live_id k)
            (λ t. record t { is_banned = true; banned_at = some now; banned_reason = some reason })
            ts))
      ≡ false
banned_not_shown k now reason b [] = refl
banned_not_shown k now reason b (t ∷ ts) = ground (arith, banned_not_shown k now reason b ts)

not_loaded :
    (k now : ℕ) (b : Option ℕ) (db : Db)
    → exists_where (λ t. t.id == k) (shown_teams b db) ≡ false
    → is_listed k (load_scoreboard db now b) ≡ false
unfolding load_scoreboard scoreboard_by_bracket scoreboard_by_bracket_frozen standings
not_loaded k now b db h =
    if-cases (λ (r : List ScoreboardEntry). is_listed k r ≡ false) (is_frozen db.competition now) _
      _ (λ _. none_listed k (until (freeze_time_of db.competition) db) (shown_teams b db) h)
      (λ _. none_listed k db (shown_teams b db) h)

abbrev pub after_ban : Env → ℕ → String → Db → Db
after_ban env k reason db = record db {
  teams =
      update_where (is_live_id k)
        (λ t. record t { is_banned = true; banned_at = some env.now; banned_reason = some reason })
        db.teams;
}

ban_team-tables :
    (env : Env) (reason : String) (k : ℕ) (w w' : World)
    → ban_team env k reason w ≡ (ok tt, w')
    → w' ≡ record { db = after_ban env k reason w.db; boards = invalidate_all w.boards }
unfolding ban_team get_team_by_id ◌>>=◌
ban_team-tables env reason k w w' e = elim (Option-cases (find_team k w.db)) [
  | inl absent ↦ absurd (ground (arith, e, absent))
  | inr (t, found) ↦ ground (arith, e, found)
]

-- As soon as a team is banned it is not on the overall scoreboard, frozen or not.
pub ban_team_unlisted :
    (env : Env) (reason : String) (k now : ℕ) (w w' : World)
    → ban_team env k reason w ≡ (ok tt, w')
    → is_listed k (get_scoreboard now none w').0 ≡ false
ban_team_unlisted env reason k now w w' e =
    let db : Db = after_ban env k reason w.db in
    rw (ban_team-tables env reason k w w' e) (
      ap (is_listed k) (get_scoreboard-invalidate_all now db w.boards)
      ∙ not_loaded k now none db (banned_not_shown k env.now reason none w.db.teams))
