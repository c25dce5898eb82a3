-- ===== src/CommentUseCase/Ownership.antt =====
-- Nobody but its author touches a comment.
use ctfboard.Store.Statement.{exec, ◌>>=◌}
use ctfboard.Store.Transaction
use ctfboard.Store.Transaction.{ok, err, Db, Env, Result}
use ctfboard.Entity.Records.{Comment}
use ctfboard.Base.{
  ℕ, List, Bool, select_many, ◌∷◌, ◌≡◌, exists_where, delete_where, select_one, true, subst, ◌⊎◌,
  false, not, some, sym, arith, if◌then◌else◌, ap, ◌==◌, refl, [], Bool-cases, inl, Option-cases,
  String, inr, ◌∙◌,
}
use ctfboard.Store.Comments.{create_comment, delete_comment, has_comment_id, get_comment_by_id}
use ctfboard.CommentUseCase.{
  remove_comment, add_comment, get_comment_by_id, get_challenge_by_id, new_comment, trim_space,
}
use ctfboard.Store.Challenges.{get_challenge_by_id}

abbrev pub own : ℕ → List Comment → List Comment
own k = select_many (λ c. c.user_id == k)

-- `id` is the primary key.
abbrev pub IsKeyed : List Comment → Type 0
IsKeyed [] = Unit {0}
IsKeyed (c ∷ cs) = (exists_where (has_comment_id c.id) cs ≡ false) × IsKeyed cs

IsKeyed-if :
    (b : Bool) (xs ys : List Comment)
    → (b ≡ true → IsKeyed xs)
    → (b ≡ false → IsKeyed ys)
    → IsKeyed (if b then xs else ys)
IsKeyed-if true xs ys f g = f refl
IsKeyed-if false xs ys f g = g refl

absent-delete :
    (k gone : ℕ) (cs : List Comment)
    → exists_where (has_comment_id k) cs ≡ false
    → exists_where (has_comment_id k) (delete_where (has_comment_id gone) cs) ≡ false
absent-delete k gone [] e = refl
absent-delete k gone (c ∷ cs) e = ground (arith, e, absent-delete k gone cs)

delete-IsKeyed :
    (gone : ℕ) (cs : List Comment) → IsKeyed cs → IsKeyed (delete_where (has_comment_id gone) cs)
delete-IsKeyed gone [] u = tt
delete-IsKeyed gone (c ∷ cs) u =
    IsKeyed-if (not (has_comment_id gone c)) (c ∷ delete_where (has_comment_id gone) cs)
      (delete_where (has_comment_id gone) cs)
      (λ _. (absent-delete c.id gone cs u.0, delete-IsKeyed gone cs u.1))
      (λ _. delete-IsKeyed gone cs u.1)

delete-absent :
    (gone : ℕ) (cs : List Comment)
    → exists_where (has_comment_id gone) cs ≡ false
    → delete_where (has_comment_id gone) cs ≡ cs
delete-absent gone [] e = refl
delete-absent gone (c ∷ cs) e = ground (arith, e, delete-absent gone cs)

-- Deleting a comment of somebody else leaves one's own.
own-delete :
    (k gone : ℕ) (c : Comment) (cs : List Comment)
    → IsKeyed cs
    → select_one (has_comment_id gone) cs ≡ some c
    → (c.user_id == k) ≡ false
    → own k (delete_where (has_comment_id gone) cs) ≡ own k cs
own-delete k gone c [] u found other = refl
own-delete k gone c (x ∷ cs) u found other = elim (Bool-cases (has_comment_id gone x)) [
  | inl here ↦
      let first : x ≡ c = ground (arith, here, found) in
      let absent : exists_where (has_comment_id gone) cs ≡ false = ground (arith, here, u.0) in
      ground (arith, here, first, other, delete-absent gone cs absent)
  | inr there ↦
      ground (arith, there, own-delete k gone c cs u.1 (ground (arith, there, found)) other)
]

-- From `db` to `db'` the keys stay unique, and `k`'s comments are as they were.
abbrev Spares : ℕ → Db → Db → Type 0
Spares k db db' =
    IsKeyed db.comments → IsKeyed db'.comments × (own k db'.comments ≡ own k db.comments)

untouched : (k : ℕ) (db db' : Db) → db' ≡ db → Spares k db db'
untouched k db db' same u =
    (subst (λ (d : Db). IsKeyed d.comments) (sym same) u, ap (λ (d : Db). own k d.comments) same)

created :
    (env : Env) (row : Comment) (db : Db)
    → ((exec env 1 (create_comment row) db).1 ≡ db)
      ⊎ ((exists_where (has_comment_id row.id) db.comments ≡ false)
          × ((exec env 1 (create_comment row) db).1 ≡ record db { comments = row ∷ db.comments }))
unfolding exec create_comment Transaction.◌>>=◌
created env row db = ground arith

create-Spares :
    (env : Env) (k : ℕ) (row : Comment) (db : Db)
    → (row.user_id == k) ≡ false
    → Spares k db (exec env 1 (create_comment row) db).1
create-Spares env k row db other u = elim (created env row db) [
  | inl same ↦ untouched k db _ same u
  | inr h ↦ (
    subst (λ (d : Db). IsKeyed d.comments) (sym h.1) (h.0, u),
    ap (λ (d : Db). own k d.comments) h.1 ∙ ground (arith, other),
  )
]

deleted :
    (env : Env) (gone : ℕ) (db : Db)
    → ((exec env 1 (delete_comment gone) db).1 ≡ db)
      ⊎ ((exec env 1 (delete_comment gone) db).1
          ≡ record db { comments = delete_where (has_comment_id gone) db.comments })
unfolding exec delete_comment
deleted env gone db = ground arith

delete-Spares :
    (env : Env) (k gone : ℕ) (c : Comment) (db : Db)
    → select_one (has_comment_id gone) db.comments ≡ some c
    → (c.user_id == k) ≡ false
    → Spares k db (exec env 1 (delete_comment gone) db).1
delete-Spares env k gone c db found other u = elim (deleted env gone db) [
  | inl same ↦ untouched k db _ same u
  | inr h ↦ (
    subst (λ (d : Db). IsKeyed d.comments) (sym h) (delete-IsKeyed gone db.comments u),
    ap (λ (d : Db). own k d.comments) h ∙ own-delete k gone c db.comments u found other,
  )
]

-- What `Delete` leaves: the tables as they were, or what the statement leaves, for the author.
removed :
    (env : Env) (gone user_id : ℕ) (db : Db)
    → ((remove_comment env gone user_id db).1 ≡ db)
      ⊎ ((c : Comment) × (select_one (has_comment_id gone) db.comments ≡ some c)
          × (c.user_id ≡ user_id)
          × ((remove_comment env gone user_id db).1 ≡ (exec env 1 (delete_comment gone) db).1))
unfolding remove_comment exec get_comment_by_id ◌>>=◌
removed env gone user_id db = elim (Option-cases (select_one (has_comment_id gone) db.comments)) [
  | inl e ↦ inl (ground (arith, e))
  | inr (c, e) ↦ elim (Bool-cases (c.user_id == user_id)) [
    | inl mine ↦ elim (Bool-cases (env.answers 0)) [
      | inl up ↦ inr (c, e, ground (arith, mine), ground (arith, e, mine, up))
      | inr down ↦ inl (ground (arith, down))
    ]
    | inr other ↦ inl (ground (arith, e, other))
  ]
]

added :
    (env : Env) (user_id challenge_id : ℕ) (content : String) (db : Db)
    → ((add_comment env user_id challenge_id content db).1 ≡ db)
      ⊎ ((add_comment env user_id challenge_id content db).1
          ≡ (exec env 1
              (create_comment (new_comment env user_id challenge_id (trim_space content)))
              db).1)
unfolding add_comment get_challenge_by_id exec ◌>>=◌
added env user_id challenge_id content db = ground arith

pub data Request : Type 0 where
  add : ℕ → ℕ → String → Request
  remove : ℕ → ℕ → Request

-- The user who asks
abbrev pub actor : Request → ℕ
actor (add user_id _ _) = user_id
actor (remove _ user_id) = user_id

abbrev pub after : Env → Request → Db → Db
after env (add user_id challenge_id content) db =
    (add_comment env user_id challenge_id content db).1
after env (remove k user_id) db = (remove_comment env k user_id db).1

abbrev pub run : List (Env × Request) → Db → Db
run [] db = db
run ((env, r) ∷ rest) db = run rest (after env r db)

-- None of the requests is `k`'s.
abbrev pub AreOthers : ℕ → List (Env × Request) → Type 0
AreOthers k [] = Unit {0}
AreOthers k ((env, r) ∷ rest) = ((actor r == k) ≡ false) × AreOthers k rest

after-Spares :
    (env : Env) (k : ℕ) (r : Request) (db : Db)
    → (actor r == k) ≡ false
    → Spares k db (after env r db)
after-Spares env k (add user_id challenge_id content) db other =
    elim (added env user_id challenge_id content db) [
      | inl same ↦ untouched k db _ same
      | inr same ↦
          subst (Spares k db) (sym same) (
            create-Spares env k (new_comment env user_id challenge_id (trim_space content)) db
              other)
    ]
after-Spares env k (remove gone user_id) db other = elim (removed env gone user_id db) [
  | inl same ↦ untouched k db _ same
  | inr (c, found, mine, same) ↦
      subst (Spares k db) (sym same)
        (delete-Spares env k gone c db found (ap (λ u. u == k) mine ∙ other))
]

run-Spares :
    (k : ℕ) (rs : List (Env × Request)) (db : Db) → AreOthers k rs → Spares k db (run rs db)
run-Spares k [] db others u = (u, refl)
run-Spares k ((env, r) ∷ rest) db others u =
    let (u1, same1) = after-Spares env k r db others.0 u in
    let (u2, same2) = run-Spares k rest (after env r db) others.1 u1 in (u2, same2 ∙ same1)

-- Whatever the others add and remove, in any order and whether or not the database answers, a user's
-- comments stay as they are.
pub own-run :
    (k : ℕ) (rs : List (Env × Request)) (db : Db)
    → IsKeyed db.comments
    → AreOthers k rs
    → own k (run rs db).comments ≡ own k db.comments
own-run k rs db u others = (run-Spares k rs db others u).1
