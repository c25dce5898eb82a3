-- ===== src/Scoring/Tests.antt =====
-- The score at some inputs, with whole numbers in the place of `float64`.
use ctfboard.Base.{◌≡◌, refl, arith}
use ctfboard.Base.Int.{pos, ◌≤ℤ◌}
use ctfboard.Scoring.{calculate_dynamic_score}
use ctfboard.Scoring.Whole.{whole, whole-IsRounded}
use ctfboard.Scoring.Curve.{calculate_dynamic_score-bounds, calculate_dynamic_score-antitone}

whole_scores : calculate_dynamic_score whole (pos 500) (pos 100) (pos 20) (pos 21) ≡ pos 100
unfolding calculate_dynamic_score
whole_scores = refl

calculate_dynamic_score-bounds_example :
    (pos 100 ≤ℤ calculate_dynamic_score whole (pos 500) (pos 100) (pos 20) (pos 7))
    × (calculate_dynamic_score whole (pos 500) (pos 100) (pos 20) (pos 7) ≤ℤ pos 500)
calculate_dynamic_score-bounds_example =
    calculate_dynamic_score-bounds whole whole-IsRounded (pos 500) (pos 100) (omega arith)
      (omega arith, omega arith) (pos 20) (pos 7)

calculate_dynamic_score-antitone_example :
    calculate_dynamic_score whole (pos 500) (pos 100) (pos 20) (pos 9)
    ≤ℤ calculate_dynamic_score whole (pos 500) (pos 100) (pos 20) (pos 7)
calculate_dynamic_score-antitone_example =
    calculate_dynamic_score-antitone whole whole-IsRounded (pos 500) (pos 100) (omega arith)
      (omega arith, omega arith) (pos 20) (pos 7) (pos 9) (omega arith)
