-- ===== src/HintUseCase/Shown.antt =====
-- Which contents `GetByChallengeID` shows.
use ctfboard.Base.{
  ℕ, ◌≡◌, refl, Bool, true, false, Option, none, some, List, [], ◌∷◌, ◌==◌, ◌||◌, ◌&&◌, arith,
  exists_where, select_many, map, str_eq,
}
use ctfboard.Entity.{Hint, HintUnlock}
use ctfboard.Store.Transaction.{Db, ok, ◌>>=◌}
use ctfboard.Store.Hints.{
  is_unlock_of, is_hint_of, get_hints_by_challenge_id, get_unlocked_hint_ids, by_order_index,
}
use ctfboard.HintUseCase.{
  HintWithUnlockStatus, with_unlock_status, get_by_challenge_id, with_status,
}

abbrev pub unlocked_by : Option ℕ → ℕ → List HintUnlock → Bool
unlocked_by none k us = false
unlocked_by (some t) k us = exists_where (is_unlock_of t k) us

-- An entry shows no content, or the content of a hint that the team has unlocked.
abbrev pub is_masked : Option ℕ → List HintUnlock → HintWithUnlockStatus → Bool
is_masked team_id us h = str_eq h.hint.content "" || unlocked_by team_id h.hint.id us

abbrev pub all_masked : Option ℕ → List HintUnlock → List HintWithUnlockStatus → Bool
all_masked team_id us [] = true
all_masked team_id us (h ∷ hs) = is_masked team_id us h && all_masked team_id us hs

unlocked_ids :
    (t c k : ℕ) (hs : List Hint) (us : List HintUnlock)
    → exists_where
        (λ j. j == k)
        (map (λ u. u.hint_id) (select_many (λ u. u.team_id == t && is_hint_of c u.hint_id hs) us))
      ≡ true
    → exists_where (is_unlock_of t k) us ≡ true
unlocked_ids t c k hs [] e = cc
unlocked_ids t c k hs (u ∷ us) e = ground (arith, e, unlocked_ids t c k hs us)

masked_one :
    (team_id : Option ℕ) (us : List HintUnlock) (x : Hint) (b : Bool)
    → (b ≡ true → unlocked_by team_id x.id us ≡ true)
    → is_masked team_id us (with_status x b) ≡ true
masked_one team_id us x true h = ground (arith, h refl)
masked_one team_id us x false h = refl

masked :
    (team_id : Option ℕ) (ids : List ℕ) (us : List HintUnlock) (hs : List Hint)
    → ((k : ℕ) → exists_where (λ j. j == k) ids ≡ true → unlocked_by team_id k us ≡ true)
    → all_masked team_id us (map (with_unlock_status ids) hs) ≡ true
masked team_id ids us [] h = refl
masked team_id ids us (x ∷ xs) h = ground (
  arith,
  masked_one team_id us x (exists_where (λ j. j == x.id) ids) (h x.id),
  masked team_id ids us xs h,
)

-- Nobody reads the content of a hint that their team has not unlocked, and without a team nobody reads
-- any; the tables stay as they are.
pub get_by_challenge_id_masked :
    (c : ℕ) (team_id : Option ℕ) (hs : List HintWithUnlockStatus) (db db' : Db)
    → get_by_challenge_id c team_id db ≡ ok (hs, db')
    → (db' ≡ db) × (all_masked team_id db.hint_unlocks hs ≡ true)
unfolding get_by_challenge_id get_hints_by_challenge_id get_unlocked_hint_ids ◌>>=◌
get_by_challenge_id_masked c none hs db db' e = (
  ground (arith, e),
  ground (
    arith,
    e,
    masked none [] db.hint_unlocks
        (by_order_index (select_many (λ h. h.challenge_id == c) db.hints))
        (λ k n. ground (arith, n)),
  ),
)
get_by_challenge_id_masked c (some t) hs db db' e = (
  ground (arith, e),
  ground (
    arith,
    e,
    masked (some t) _ db.hint_unlocks
        (by_order_index (select_many (λ h. h.challenge_id == c) db.hints))
        (λ k. unlocked_ids t c k db.hints db.hint_unlocks),
  ),
)
