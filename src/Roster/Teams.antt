-- ===== src/Roster/Teams.antt =====
-- The leadership that the table `teams` holds, and how the statements on a team change it.
use ctfboard.Base.{
  ℕ, ◌≡◌, refl, ◌≢◌, Option, none, some, List, [], ◌∷◌, ◌==◌, ◌||◌, arith, select_one, update_where,
  exists_where, if◌then◌else◌, false, Bool, String, str_eq, ◌&&◌, ap,
}
use ctfboard.Entity.{Team}
use ctfboard.Store.Teams.{is_live, is_live_id}

abbrev pub captain_id_of : Option Team → Option ℕ
captain_id_of none = none
captain_id_of (some t) = some t.captain_id

-- The captain of a team that is not deleted.
abbrev pub captain_in : ℕ → List Team → Option ℕ
captain_in k ts = captain_id_of (select_one (is_live_id k) ts)

abbrev pub has_team_id : ℕ → Team → Bool
has_team_id k t = t.id == k

-- `UPDATE teams SET deleted_at = now WHERE id = k AND deleted_at IS NULL`
abbrev pub retired : ℕ → ℕ → List Team → List Team
retired k now = update_where (is_live_id k) (λ t. record t { deleted_at = some now })

-- `UPDATE teams SET captain_id = c WHERE id = k`
abbrev pub crowned : ℕ → ℕ → List Team → List Team
crowned k c = update_where (has_team_id k) (λ t. record t { captain_id = c })

-- A soft deletion takes one team out, and leaves the others.
pub captain_in-retired :
    (j k now : ℕ) (ts : List Team)
    → captain_in j (retired k now ts) ≡ (if j == k then none else captain_in j ts)
captain_in-retired j k now [] = ground arith
captain_in-retired j k now (t ∷ ts) = ground (arith, captain_in-retired j k now ts)

captain_in-crowned_ne :
    (j k c : ℕ) (ts : List Team) → j ≢ k → captain_in j (crowned k c ts) ≡ captain_in j ts
captain_in-crowned_ne j k c [] n = refl
captain_in-crowned_ne j k c (t ∷ ts) n = ground (arith, captain_in-crowned_ne j k c ts)

captain_in-crowned_self :
    (k c : ℕ) (ts : List Team) → captain_in k ts ≢ none → captain_in k (crowned k c ts) ≡ some c
captain_in-crowned_self k c [] h = absurd (h refl)
captain_in-crowned_self k c (t ∷ ts) h = ground (arith, captain_in-crowned_self k c ts)

-- A live team gets its new captain, and the others keep theirs.
pub captain_in-crowned :
    (j k c : ℕ) (ts : List Team)
    → captain_in k ts ≢ none
    → captain_in j (crowned k c ts) ≡ (if j == k then some c else captain_in j ts)
captain_in-crowned j k c ts h =
    ground (arith, captain_in-crowned_self k c ts, captain_in-crowned_ne j k c ts)

-- A key that no row has belongs to no live team.
pub captain_in-unused :
    (k : ℕ) (name : String) (ts : List Team)
    → exists_where (λ t. t.id == k || str_eq t.name name) ts ≡ false
    → captain_in k ts ≡ none
captain_in-unused k name [] e = refl
captain_in-unused k name (t ∷ ts) e = ground (arith, captain_in-unused k name ts)

-- A live row that a query finds is a live team under its key.
pub captain_in-found :
    (p : Team → Bool) (t : Team) (ts : List Team)
    → select_one (λ x. p x && is_live x) ts ≡ some t
    → captain_in t.id ts ≢ none
captain_in-found p t [] e = cc
captain_in-found p t (x ∷ ts) e = ground (arith, captain_in-found p t ts)

pub found_key :
    (k : ℕ) (t : Team) (ts : List Team) → select_one (is_live_id k) ts ≡ some t → t.id ≡ k
found_key k t [] e = cc
found_key k t (x ∷ ts) e = ground (arith, found_key k t ts)

-- The row that is found under a key carries it, so its captain is the captain of its own key.
pub captain_in-key :
    (k : ℕ) (t : Team) (ts : List Team)
    → select_one (is_live_id k) ts ≡ some t
    → captain_in t.id ts ≡ some t.captain_id
captain_in-key k t ts e = rw (found_key k t ts e) (ap captain_id_of e)

pub row-found :
    (p : Team → Bool) (t : Team) (ts : List Team)
    → select_one (λ x. p x && is_live x) ts ≡ some t
    → select_one (has_team_id t.id) ts ≢ none
row-found p t [] e = cc
row-found p t (x ∷ ts) e = ground (arith, row-found p t ts)
