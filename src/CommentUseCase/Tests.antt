-- ===== src/CommentUseCase/Tests.antt =====
-- Two users comment on one challenge.
use ctfboard.Samples.{start, at_time, challenge}
use ctfboard.Store.Transaction.{Db, Env}
use ctfboard.Base.{◌∷◌, List, [], ◌≡◌, refl}
use ctfboard.CommentUseCase.Ownership.{own, Request, run, add, remove, own-run}
use ctfboard.CommentUseCase.{new_comment}

abbrev talk : Db
talk = record start {
  challenges = challenge ∷ [];
  comments = new_comment (at_time 1) 2 5 "mine" ∷ [];
}

-- User 1 adds a comment, tries to remove that of user 2, and removes a new one.
abbrev requests : List (Env × Request)
requests =
    (at_time 2, add 1 5 " hi ") ∷ (at_time 3, remove 1010 1) ∷ (at_time 4, remove 1020 1) ∷ []

own-run_example : own 2 (run requests talk).comments ≡ own 2 talk.comments
own-run_example = own-run 2 requests talk (refl, tt) (refl, (refl, (refl, tt)))
