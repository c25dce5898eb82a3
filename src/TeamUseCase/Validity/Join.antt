-- ===== src/TeamUseCase/Validity/Join.antt =====
-- `Join` keeps the roster valid, unless the invitation is to the user's own team.
use ctfboard.Base.{
  ℕ, ◌<◌, ◌≡◌, ◌≢◌, refl, sym, ap, ◌∙◌, Bool, Option, none, some, List, arith, select_one, ◌==◌,
  ◌&&◌,
}
use ctfboard.Entity.{User, Team}
use ctfboard.Store.Transaction.{Db, Env}
use ctfboard.Store.Logic.{
  Ensures, ensure_pure, then_query, then_gets, then_fail_if, then_modify, then_block, then_pure,
  then_call,
}
use ctfboard.Store.Users.{
  has_id, lock_user_tx, get_user_by_id, get_users_by_team_id, update_user_team_id_tx,
}
use ctfboard.Store.Teams.{
  is_live, get_team_by_invite_token_tx, lock_team_tx, create_team_audit_log_tx,
}
use ctfboard.Roster.Users.{
  team_in, moved, set_team, size, length-members_of, moved-moved, found-moved_self, size-moved,
  team_id_of,
}
use ctfboard.Roster.Teams.{captain_in, captain_in-found}
use ctfboard.Roster.Invariant.{IsRoster, enter-IsRoster}
use ctfboard.TeamUseCase.Freed.{Freed, cleanup_if_in_team-Freed}
use ctfboard.TeamUseCase.Membership.{join_tx}
use ctfboard.TeamUseCase.Validity.{IsValid, Valid}

-- The team that an invitation leads to, as `GetTeamByInviteToken` finds it.
abbrev pub invited : ℕ → Db → Option Team
invited token db = select_one (λ t. t.invite_token == token && is_live t) db.teams

-- A user freed from their solo team enters another.
Freed-enter :
    (max k : ℕ) (u : User) (us us' : List User) (ts ts' : List Team) (t : ℕ)
    → IsRoster max us ts
    → select_one (has_id k) us ≡ some u
    → Freed max k u us us' ts ts'
    → u.team_id ≢ some t
    → captain_in t ts ≢ none
    → size t us < max
    → IsRoster max (moved k (some t) us') ts'
Freed-enter max k u us us' ts ts' t r found f other alive room =
    rw (f.users, ← moved-moved k (some t) none us)
      (enter-IsRoster max (moved k none us) ts' f.roster k (set_team none u)
        (found-moved_self k none u us found) t refl (λ e. alive (sym (f.others t other) ∙ e))
        (ground (arith, size-moved t k none u us r.distinct found)))

module _ (env : Env) (max : ℕ) (db : Db) (r : IsValid max db) where
  abbrev Keeps : {A : Type 0} → A → Db → Type 0
  Keeps = Valid max

  pub join_tx-IsValid :
      (token k : ℕ) (confirm : Bool)
      → ((t : Team) → invited token db ≡ some t → team_in k db.users ≢ some t.id)
      → Ensures Keeps db (join_tx env max token k confirm)
  unfolding join_tx lock_user_tx get_team_by_invite_token_tx lock_team_tx get_users_by_team_id
      get_user_by_id update_user_team_id_tx create_team_audit_log_tx
  join_tx-IsValid token k confirm other = then_block Keeps db _ _ _ (
      then_query Keeps db _ _ _ λ _ _. then_gets Keeps db _ _ (
        then_query Keeps db _ _ _ λ t inv. then_block Keeps db _ _ _ (
          then_query Keeps db _ _ _ λ _ _. then_pure Keeps db _ _ (
            then_gets Keeps db _ _ (
              then_fail_if Keeps db _ _ _ λ room. then_query Keeps db _ _ _ λ u found.
                then_call Keeps db (λ _ db'. Freed max k u db.users db'.users db.teams db'.teams) _
                  _ (cleanup_if_in_team-Freed env max k u db r found k confirm)
                  λ _ db' f. then_block Keeps db' _ _ _ (
                    then_query Keeps db' _ _ _ λ v found'. then_modify Keeps db' _ _ (
                      then_modify Keeps _ _ _ (
                        ensure_pure Keeps _ _ (
                          Freed-enter max k u db.users db'.users db.teams db'.teams t.id r found f
                            (λ e. other t inv (ap team_id_of found ∙ e))
                            (captain_in-found (λ x. x.invite_token == token) t db.teams inv)
                            (ground (arith, room, length-members_of t.id db.users)))))))))))
