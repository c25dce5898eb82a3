-- ===== src/Session/Gate.antt =====
-- Who is let in by the middleware of requests, and to what.
use ctfboard.Store.Statement.{exec, exec-query-ok}
use ctfboard.Store.Transaction.{ok, err, Db, Env, Result}
use ctfboard.Base.{
  arith, ◌≡◌, Option, ℕ, Bool, true, ◌⊎◌, str_eq_iff, some, Bool-cases, str_eq, inl, inr,
  Option-cases, refl, none, String, select_one, ap, sym, ◌∙◌, false,
}
use ctfboard.Session.Middleware.{
  Gate, competition_active, require_verified, require_team, then_gate, pass, refuse, injected,
  inject_parsed, let_in, Identity, auth, submit_gate, inject_user,
}
use ctfboard.Entity.{User}
use ctfboard.Store.Users.{get_user_by_id, find_user, has_id}
use ctfboard.Session.Tokens.{Packages, JwtService}
use ctfboard.Entity.Competitions.{Competition, is_submission_allowed}
use ctfboard.Entity.Errors.{user_not_found}
use ctfboard.Session.Holder.{IsHolder, auth_sound}

then_gate-pass :
    {A B : Type 0} (m : Gate A) (f : A → Gate B) {b : B}
    → then_gate m f ≡ pass b
    → (a : A) × (m ≡ pass a) × (f a ≡ pass b)
then_gate-pass (pass a) f e = (a, refl, e)
then_gate-pass (refuse s) f e = cc

injected-pass :
    (r : Result User × Db) (o : Option User)
    → injected r ≡ pass o
    → (u : User) × (mid : Db) × (o ≡ some u) × (r ≡ (ok u, mid))
injected-pass (ok v, mid) o e = (v, mid, ground (arith, e), refl)
injected-pass (err x, mid) o e = cc

inject_parsed-pass :
    (env : Env) (db : Db) (i : Option ℕ) (o : Option User)
    → inject_parsed env db i ≡ pass o
    → (u : User) × (k : ℕ) × (o ≡ some u) × (i ≡ some k) × (find_user k db ≡ some u)
unfolding get_user_by_id
inject_parsed-pass env db none o e = cc
inject_parsed-pass env db (some k) o e =
    let (u, mid, is, asked) = injected-pass (exec env 3 (get_user_by_id k) db) o e in
    (u, k, is, refl, (exec-query-ok env 3 (find_user k) user_not_found db asked).0)

-- Where a user comes out of `InjectUser`, the identity is that user's.
inject_user-pass :
    (P : Packages) (env : Env) (who : Identity) (db : Db) (u : User)
    → inject_user P env who db ≡ pass (some u)
    → (k : ℕ) × (P.parse_uuid who.user_id ≡ some k) × (find_user k db ≡ some u)
unfolding inject_user
inject_user-pass P env who db u e = elim (Bool-cases (str_eq who.user_id "")) [
  | inl blank ↦ absurd (ground (arith, e, blank))
  | inr full ↦
      let (v, k, is, parsed, found) =
        inject_parsed-pass env db (P.parse_uuid who.user_id) (some u) (ground (arith, e, full)) in
      (k, parsed, found ∙ sym is)
]

competition_active-pass :
    (now : ℕ) (comp : Option Competition) (o p : Option User)
    → competition_active now comp o ≡ pass p
    → (o ≡ p) × (c : Competition) × (comp ≡ some c) × (is_submission_allowed c now ≡ true)
unfolding competition_active
competition_active-pass now none o p e = cc
competition_active-pass now (some c) o p e = (ground (arith, e), c, refl, ground (arith, e))

-- What is asked of a user who submits
abbrev pub IsVerified : Bool → User → Type 0
IsVerified verify_emails u = (verify_emails ≡ false) ⊎ ((u.role ≡ "admin") ⊎ (u.is_verified ≡ true))

abbrev pub HasTeam : User → Type 0
HasTeam u = (u.role ≡ "admin") ⊎ ((t : ℕ) × (u.team_id ≡ some t))

require_verified-pass :
    (verify_emails : Bool) (o : Option User) (u : User)
    → require_verified verify_emails o ≡ pass (some u)
    → (o ≡ some u) × IsVerified verify_emails u
unfolding require_verified
require_verified-pass false o u e = (ground (arith, e), inl refl)
require_verified-pass true none u e = cc
require_verified-pass true (some v) u e = elim (Bool-cases (str_eq v.role "admin")) [
  | inl a ↦
      let same : v ≡ u = ground (arith, e, a) in
      (
        ap some same,
        inr (inl (ap (λ (x : User). x.role) (sym same) ∙ (str_eq_iff v.role "admin").0 a)),
      )
  | inr a ↦ (ground (arith, e, a), inr (inr (ground (arith, e, a))))
]

require_team-pass :
    (o : Option User) (p : Option User)
    → require_team o ≡ pass p
    → (u : User) × (o ≡ some u) × (p ≡ some u) × HasTeam u
unfolding require_team
require_team-pass none p e = cc
require_team-pass (some u) p e = elim (Bool-cases (str_eq u.role "admin")) [
  | inl a ↦ (u, refl, ground (arith, e, a), inl ((str_eq_iff u.role "admin").0 a))
  | inr a ↦ elim (Option-cases u.team_id) [
    | inl none_at ↦ absurd (ground (arith, e, a, none_at))
    | inr (t, at) ↦ (u, refl, ground (arith, e, a, at), inr (t, at))
  ]
]

-- A request that passes the chain before a submission has a user in its context, though the chain's
-- parts by themselves may go on without one. The request was let in for an identity that is this user's,
-- who exists; the competition takes submissions; the user is verified, or an administrator, where emails
-- are verified; and has a team, or is an administrator.
pub submit_gate_sound :
    (P : Packages) (J : JwtService) (env : Env) (verify_emails : Bool) (comp : Option Competition)
    (header : String) (p : Option User) (db : Db)
    → submit_gate P J env verify_emails comp header db ≡ pass p
    → (u : User) × (who : Identity) × (k : ℕ) × (c : Competition) × (p ≡ some u)
      × IsHolder P J env.now db who
      × (P.parse_uuid who.user_id ≡ some k)
      × (find_user k db ≡ some u)
      × (comp ≡ some c)
      × (is_submission_allowed c env.now ≡ true)
      × IsVerified verify_emails u
      × HasTeam u
unfolding submit_gate
submit_gate_sound P J env verify_emails comp header p db e =
    let r = auth P J env header db in
    let (who, let_in, e1) = then_gate-pass r.0 _ e in
    let (holds, kept) = auth_sound P J env header who db r.1 (ap (λ g. (g, r.1)) let_in) in
    let (o1, injected, e2) = then_gate-pass (inject_user P env who r.1) _ e1 in
    let (o2, active, e3) = then_gate-pass (competition_active env.now comp o1) _ e2 in
    let (same1, c, is_c, runs) = competition_active-pass env.now comp o1 o2 active in
    let (o3, verified, e4) = then_gate-pass (require_verified verify_emails o2) _ e3 in
    let (u, is3, is_p, teamed) = require_team-pass o3 p e4 in
    let (same2, verified') = require_verified-pass verify_emails o2 u (verified ∙ ap pass is3) in
    let (k, parsed, found) =
      inject_user-pass P env who r.1 u (injected ∙ ap pass (same1 ∙ same2)) in
    (
      u,
      who,
      k,
      c,
      is_p,
      holds,
      parsed,
      ap (λ us. select_one (has_id k) us) (sym kept) ∙ found,
      is_c,
      runs,
      verified',
      teamed,
    )
