-- ===== src/Scoring.antt =====
-- backend/internal/usecase/competition/scoring.go: how the points of a challenge fall as it is solved.
pub mod Curve
pub mod Whole
mod Tests
use ctfboard.Base.{Bool, if◌then◌else◌}
use ctfboard.Base.Int.{ℤ, pos, ◌-ℤ◌, ltb_ℤ, leb_ℤ, eqb_ℤ}

-- The operations of `float64` and `math.Ceil` that the formula uses; `ceil` is `int(math.Ceil(x))`.
pub record Float64 : Type 1 where
  pub Carrier : Type 0
  pub of_int : ℤ → Carrier
  pub add : Carrier → Carrier → Carrier
  pub sub : Carrier → Carrier → Carrier
  pub mul : Carrier → Carrier → Carrier
  pub div : Carrier → Carrier → Carrier
  pub ceil : Carrier → ℤ

unfoldable pub at_least : ℤ → ℤ → ℤ
at_least min_score score = if ltb_ℤ score min_score then min_score else score

-- `if decay == 0 { decay = 1 }`
abbrev pub decay_or_one : ℤ → ℤ
decay_or_one decay = if eqb_ℤ decay (pos 0) then pos 1 else decay

module _ (F : Float64) where
  -- `float64(initial) + ((float64(minScore)-float64(initial))/(decayFloat*decayFloat))*(solveCount*solveCount)`
  abbrev pub curve : ℤ → ℤ → ℤ → ℤ → F.Carrier
  curve initial min_score decay solve_count =
      let d = F.of_int decay in
      let n = F.of_int solve_count in
      F.add (F.of_int initial)
        (F.mul (F.div (F.sub (F.of_int min_score) (F.of_int initial)) (F.mul d d)) (F.mul n n))

  -- `CalculateDynamicScore`
  unfoldable pub calculate_dynamic_score : ℤ → ℤ → ℤ → ℤ → ℤ
  unfolding at_least
  calculate_dynamic_score initial min_score decay solves =
      if leb_ℤ solves (pos 0)
      then initial
      else if ltb_ℤ (decay_or_one decay) solves
      then min_score
      else at_least min_score
          (F.ceil (curve initial min_score (decay_or_one decay) (solves -ℤ pos 1)))
