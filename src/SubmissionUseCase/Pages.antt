-- ===== src/SubmissionUseCase/Pages.antt =====
-- The pages of a list of submissions, put together, are the list.
use ctfboard.Store.Statement.{exec, ◌>>=◌}
use ctfboard.Store.Transaction.{ok, err, Db, Env, Result}
use ctfboard.Base.{
  List, ℕ, ◌++◌, [], ◌≤◌, ◌≡◌, suc, true, false, arith, ◌*◌, take, length, drop, ap, ◌∙◌, take-++,
  take_all, ◌+◌, ◌==◌, select_many, subst, sym,
}
use ctfboard.Base.Int.{ℤ, pos}
use ctfboard.Store.Challenges.{outside_int32}
use ctfboard.SubmissionUseCase.{
  paginate, page_or_first, per_page_or_twenty, get_submissions_by_challenge, count_where,
  submissions_by_challenge,
}
use Prim.Native.Nat.{zero}
use ctfboard.SubmissionUseCase.Newest.{
  HaveTimes, select-HaveTimes, length-join_rows, length-newest_first, newest_first-ties,
}
use ctfboard.Store.Submissions.{newest_first, join_rows}

abbrev append_page : {A : Type 0} → Result (List A) → Result (List A × ℕ) → Result (List A)
append_page (err e) _ = err e
append_page (ok xs) (err e) = err e
append_page (ok xs) (ok (ys, _)) = ok (xs ++ ys)

-- The first `n` pages, one behind the other
abbrev pub collect : {A : Type 0} → (ℤ → Result (List A × ℕ)) → ℕ → Result (List A)
collect page zero = ok []
collect page (suc n) = append_page (collect page n) (page (pos (suc n)))

-- The database answers every page's queries.
abbrev pub IsUp : (ℤ → Env) → Type 0
IsUp envs = (p : ℤ) (m : ℕ) → (envs p).answers m ≡ true

le_chain : {a b c : ℕ} → a ≤ b → b ≤ c → a ≤ c
le_chain h k = omega (arith, h, k)

in_range : (n : ℕ) → n ≤ 2_147_483_647 → outside_int32 (pos n) ≡ false
unfolding outside_int32
in_range n h = ground (arith, h)

paginate-run :
    {A : Type 0} (env : Env) (rows : Db → List A) (count : Db → ℕ) (per_page : ℤ) (n : ℕ) (db : Db)
    → ((n : ℕ) → env.answers n ≡ true)
    → n * per_page_or_twenty per_page ≤ 2_147_483_647
    → (paginate env rows count (pos (suc n)) per_page db).0
      ≡ ok (
        take (per_page_or_twenty per_page) (drop (n * per_page_or_twenty per_page) (rows db)),
        count db,
      )
unfolding paginate page_or_first exec ◌>>=◌
paginate-run env rows count per_page n db up h =
    ground (arith, up 0, up 1, in_range (n * per_page_or_twenty per_page) h)

collect-take :
    {A : Type 0} (envs : ℤ → Env) (rows : Env → Db → List A) (all : List A) (count : Db → ℕ)
    (per_page : ℤ) (n : ℕ) (db : Db)
    → IsUp envs
    → ((env : Env) → rows env db ≡ all)
    → n * per_page_or_twenty per_page ≤ 2_147_483_647
    → collect (λ p. (paginate (envs p) (rows (envs p)) count p per_page db).0) n
      ≡ ok (take (n * per_page_or_twenty per_page) all)
collect-take envs rows all count per_page zero db up same h =
    ap (λ k. ok (take k all)) {x = 0} {y = 0 * per_page_or_twenty per_page} (omega arith)
collect-take envs rows all count per_page (suc n) db up same h =
    let limit = per_page_or_twenty per_page in
    let env = envs (pos (suc n)) in
    let next = paginate-run env (rows env) count per_page n db (up (pos (suc n))) (omega arith) in
    let before = collect-take envs rows all count per_page n db up same (omega arith) in
    ap (λ x. append_page x (paginate env (rows env) count (pos (suc n)) per_page db).0) before
    ∙ ap (append_page (ok (take (n * limit) all))) next
    ∙ ap (λ l. ok (take (n * limit) all ++ take limit (drop (n * limit) l))) (same env)
    ∙ ap ok (
        take-++ (n * limit) limit all
        ∙ ap (λ k. take k all) {x = n * limit + limit} {y = suc n * limit} (omega arith))

-- Each page of the submissions of a challenge is asked for on its own, and the database may place
-- submissions of the same time differently for each. Where no two submissions have the same time, and
-- while the database answers, the pages, asked for one after another until they can hold as many rows as
-- the count that comes with them, are together the list that the query gives without a limit, whatever
-- orders the database chose for the pages and for that list. The last page's offset must fit 32 bits.
pub collect-get_submissions_by_challenge :
    (envs : ℤ → Env) (ties : ℕ → ℕ) (k : ℕ) (per_page : ℤ) (n : ℕ) (db : Db)
    → IsUp envs
    → HaveTimes db.submissions
    → n * per_page_or_twenty per_page ≤ 2_147_483_647
    → count_where (λ s. s.challenge_id == k) db ≤ n * per_page_or_twenty per_page
    → collect (λ p. (get_submissions_by_challenge (envs p) k p per_page db).0) n
      ≡ ok (submissions_by_challenge ties k db)
unfolding get_submissions_by_challenge
collect-get_submissions_by_challenge envs ties k per_page n db up times h all =
    let of_challenge = select_many (λ s. s.challenge_id == k) db.submissions in
    let times' = select-HaveTimes (λ s. s.challenge_id == k) db.submissions times in
    let size = n * per_page_or_twenty per_page in
    let rows = submissions_by_challenge ties k db in
    let joined : length rows ≤ length (newest_first ties of_challenge) =
      length-join_rows _ (newest_first ties of_challenge) in
    let short : length rows ≤ size =
      le_chain joined (subst (λ m. m ≤ size) (sym (length-newest_first ties of_challenge)) all) in
    collect-take envs (λ env. submissions_by_challenge env.ties k) rows
      (count_where (λ s. s.challenge_id == k)) per_page n db up
      (λ env. ap (join_rows _) (newest_first-ties env.ties ties of_challenge times')) h
    ∙ ap ok (take_all size rows short)
