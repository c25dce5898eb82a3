-- ===== src/SubmissionUseCase/Newest.antt =====
-- The order of submissions: where times differ, it does not depend on how the database places equals.
use ctfboard.Entity.Records.{Submission, SubmissionWithDetails}
use ctfboard.Base.{
  ℕ, List, Bool, Option, ◌==◌, ◌∷◌, exists_where, select_many, length, ◌≡◌, if-cases, false, arith,
  [], ◌||◌, ◌∙◌, suc, ◌≤◌, ap, refl,
}
use ctfboard.Store.Submissions.{insert_row, newest_first, join_rows}

abbrev is_at : ℕ → Submission → Bool
is_at t s = s.created_at == t

-- No two of the submissions have the same time.
abbrev pub HaveTimes : List Submission → Type 0
HaveTimes [] = Unit {0}
HaveTimes (s ∷ rest) = (exists_where (is_at s.created_at) rest ≡ false) × HaveTimes rest

insert_row-is_at :
    (ties : ℕ → ℕ) (t : ℕ) (a : Submission) (bs : List Submission)
    → exists_where (is_at t) (insert_row ties a bs) ≡ (is_at t a || exists_where (is_at t) bs)
insert_row-is_at ties t a [] = ground arith
insert_row-is_at ties t a (b ∷ bs) = ground (arith, insert_row-is_at ties t a bs)

newest_first-is_at :
    (ties : ℕ → ℕ) (t : ℕ) (bs : List Submission)
    → exists_where (is_at t) (newest_first ties bs) ≡ exists_where (is_at t) bs
newest_first-is_at ties t [] = refl
newest_first-is_at ties t (b ∷ bs) =
    ground (arith, insert_row-is_at ties t b (newest_first ties bs), newest_first-is_at ties t bs)

insert_row-ties :
    (ties ties' : ℕ → ℕ) (a : Submission) (bs : List Submission)
    → exists_where (is_at a.created_at) bs ≡ false
    → insert_row ties a bs ≡ insert_row ties' a bs
insert_row-ties ties ties' a [] e = refl
insert_row-ties ties ties' a (b ∷ bs) e = ground (arith, e, insert_row-ties ties ties' a bs)

pub newest_first-ties :
    (ties ties' : ℕ → ℕ) (bs : List Submission)
    → HaveTimes bs
    → newest_first ties bs ≡ newest_first ties' bs
newest_first-ties ties ties' [] h = refl
newest_first-ties ties ties' (b ∷ bs) h =
    insert_row-ties ties ties' b (newest_first ties bs)
      (newest_first-is_at ties b.created_at bs ∙ h.0)
    ∙ ap (insert_row ties' b) (newest_first-ties ties ties' bs h.1)

select-is_at :
    (p : Submission → Bool) (t : ℕ) (bs : List Submission)
    → exists_where (is_at t) bs ≡ false
    → exists_where (is_at t) (select_many p bs) ≡ false
select-is_at p t [] e = refl
select-is_at p t (b ∷ bs) e = ground (arith, e, select-is_at p t bs)

pub select-HaveTimes :
    (p : Submission → Bool) (bs : List Submission) → HaveTimes bs → HaveTimes (select_many p bs)
select-HaveTimes p [] h = tt
select-HaveTimes p (b ∷ bs) h =
    if-cases (λ (r : List Submission). HaveTimes r) (p b) _ _
      (λ _. (select-is_at p b.created_at bs h.0, select-HaveTimes p bs h.1))
      (λ _. select-HaveTimes p bs h.1)

length-insert_row :
    (ties : ℕ → ℕ) (a : Submission) (bs : List Submission)
    → length (insert_row ties a bs) ≡ suc (length bs)
length-insert_row ties a [] = refl
length-insert_row ties a (b ∷ bs) = ground (arith, length-insert_row ties a bs)

pub length-newest_first :
    (ties : ℕ → ℕ) (bs : List Submission) → length (newest_first ties bs) ≡ length bs
length-newest_first ties [] = refl
length-newest_first ties (b ∷ bs) =
    length-insert_row ties b (newest_first ties bs) ∙ ap suc (length-newest_first ties bs)

pub length-join_rows :
    (f : Submission → Option SubmissionWithDetails) (bs : List Submission)
    → length (join_rows f bs) ≤ length bs
length-join_rows f [] = ground arith
length-join_rows f (b ∷ bs) = ground (arith, length-join_rows f bs)
