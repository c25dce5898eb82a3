-- ===== src/BracketUseCase/Tests.antt =====
-- Brackets are added, renamed and removed.
use ctfboard.Samples.{start, at_time}
use ctfboard.Store.Transaction.{Env}
use ctfboard.Base.{List, true, ◌∷◌, false, []}
use ctfboard.BracketUseCase.Names.{Request, run, add, run-AreNamed, edit, remove}
use ctfboard.BracketUseCase.Rows.{AreNamed}

abbrev requests : List (Env × Request)
requests =
    (at_time 1, add " a " "" true)
    ∷ (at_time 2, add "b" "" false)
    ∷ (at_time 3, edit 1020 "a" "" false)
    ∷ (at_time 4, remove 1010)
    ∷ []

run-AreNamed_example : AreNamed (run requests start).brackets
run-AreNamed_example = run-AreNamed requests start tt
