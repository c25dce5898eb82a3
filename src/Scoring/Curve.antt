-- ===== src/Scoring/Curve.antt =====
-- Bounds and monotonicity of the score.
use ctfboard.Base.{if◌then◌else◌, ◌≡◌, ◌≤◌, ◌^◌, arith, if-cases}
use ctfboard.Base.Int.{ℤ, pos, ◌≤ℤ◌, neg_part, pos_part, ◌-ℤ◌, eq_of_parts, -ℤ_parts, leb_ℤ, ltb_ℤ}
use ctfboard.Scoring.{Float64, curve, calculate_dynamic_score, decay_or_one, at_least}

-- What IEEE 754 promises of these operations on the finite numbers that the formula meets: they are
-- rounded to nearest, so they keep order and signs, and sums with zero and whole numbers are exact.
-- The formula stays far from overflow, since a column of the table has 32 bits.
pub record IsRounded (F : Float64) : Type 1 where
  pub Le : F.Carrier → F.Carrier → Type 0
  pub of_int_mono : (a b : ℤ) → a ≤ℤ b → Le (F.of_int a) (F.of_int b)
  pub sub_sign : (a b : F.Carrier) → Le a b → Le (F.sub a b) (F.of_int (pos 0))
  pub div_sign :
      (a b : F.Carrier)
      → Le a (F.of_int (pos 0))
      → Le (F.of_int (pos 0)) b
      → Le (F.div a b) (F.of_int (pos 0))
  pub square_sign : (a : F.Carrier) → Le (F.of_int (pos 0)) (F.mul a a)
  pub square_mono :
      (a b : F.Carrier) → Le (F.of_int (pos 0)) a → Le a b → Le (F.mul a a) (F.mul b b)
  pub mul_sign :
      (a b : F.Carrier)
      → Le a (F.of_int (pos 0))
      → Le (F.of_int (pos 0)) b
      → Le (F.mul a b) (F.of_int (pos 0))
  pub mul_antitone :
      (a b c : F.Carrier) → Le a (F.of_int (pos 0)) → Le b c → Le (F.mul a c) (F.mul a b)
  pub add_mono : (a b c : F.Carrier) → Le b c → Le (F.add a b) (F.add a c)
  pub add_zero_le : (a : F.Carrier) → Le (F.add a (F.of_int (pos 0))) a
  pub add_zero_ge : (a : F.Carrier) → Le a (F.add a (F.of_int (pos 0)))
  pub mul_zero : (a : F.Carrier) → Le (F.of_int (pos 0)) (F.mul a (F.of_int (pos 0)))
  pub square_zero : F.mul (F.of_int (pos 0)) (F.of_int (pos 0)) ≡ F.of_int (pos 0)
  pub ceil_mono : (a b : F.Carrier) → Le a b → F.ceil a ≤ℤ F.ceil b
  pub ceil_exact : (a : ℤ) → neg_part a ≤ 2 ^ 53 → pos_part a ≤ 2 ^ 53 → F.ceil (F.of_int a) ≡ a
  pub le_trans : (a b c : F.Carrier) → Le a b → Le b c → Le a c

module _ (F : Float64) (R : IsRounded F) (initial min_score decay : ℤ)
    (falls : min_score ≤ℤ initial) where
  slope_sign :
      R.Le
        (F.div
          (F.sub (F.of_int min_score) (F.of_int initial))
          (F.mul (F.of_int decay) (F.of_int decay)))
        (F.of_int (pos 0))
  slope_sign =
      R.div_sign _ _ (R.sub_sign _ _ (R.of_int_mono min_score initial falls)) (R.square_sign _)

  curve-antitone :
      (m n : ℤ)
      → pos 0 ≤ℤ m
      → m ≤ℤ n
      → R.Le (curve F initial min_score decay n) (curve F initial min_score decay m)
  curve-antitone m n z h = R.add_mono _ _ _ (
      R.mul_antitone _ _ _ slope_sign
        (R.square_mono _ _ (R.of_int_mono (pos 0) m z) (R.of_int_mono m n h)))

  curve_le : (n : ℤ) → R.Le (curve F initial min_score decay n) (F.of_int initial)
  curve_le n =
      R.le_trans _ _ _ (R.add_mono _ _ _ (R.mul_sign _ _ slope_sign (R.square_sign _)))
        (R.add_zero_le _)

  curve_start : R.Le (F.of_int initial) (curve F initial min_score decay (pos 0))
  curve_start =
      R.le_trans _ _ _ (R.add_zero_ge _) (R.add_mono _ _ _ (rw R.square_zero (R.mul_zero _)))

-- A number that a column of type INT holds.
abbrev pub IsInt32 : ℤ → Type 0
IsInt32 a = (neg_part a ≤ 2_147_483_648) × (pos_part a ≤ 2_147_483_647)

-- The score by the number of solves, when the formula's value is at hand.
abbrev score_from : ℤ → ℤ → ℤ → ℤ → ℤ → ℤ
score_from initial min_score decay solves value =
    if leb_ℤ solves (pos 0)
    then initial
    else if ltb_ℤ decay solves
    then min_score
    else at_least min_score value

at_least-mono : (low a b : ℤ) → a ≤ℤ b → at_least low a ≤ℤ at_least low b
unfolding at_least
at_least-mono low a b h = ground (arith, h)

at_least-bounds :
    (low a high : ℤ) → low ≤ℤ high → a ≤ℤ high → (low ≤ℤ at_least low a) × (at_least low a ≤ℤ high)
unfolding at_least
at_least-bounds low a high h k = (ground (arith, h, k), ground (arith, h, k))

score_from-bounds :
    (initial low decay n a : ℤ)
    → low ≤ℤ initial
    → a ≤ℤ initial
    → (low ≤ℤ score_from initial low decay n a) × (score_from initial low decay n a ≤ℤ initial)
score_from-bounds initial low decay n a h k =
    let b = at_least-bounds low a initial h k in (ground (arith, h, b), ground (arith, h, b))

score_from-antitone :
    (initial low decay m n a b : ℤ)
    → low ≤ℤ initial
    → a ≤ℤ initial
    → b ≤ℤ initial
    → m ≤ℤ n
    → (pos 1 ≤ℤ m → b ≤ℤ a)
    → score_from initial low decay n b ≤ℤ score_from initial low decay m a
score_from-antitone initial low decay m n a b h k kb l f =
    let P : ℤ → Type 0 = λ r. score_from initial low decay n b ≤ℤ r in
    let at_most = score_from-bounds initial low decay n b h kb in
    if-cases P (leb_ℤ m (pos 0)) _ _ (λ _. at_most.1)
      (λ p.
        if-cases P (ltb_ℤ decay m) _ _ (λ q. ground (arith, p, q, l))
          (λ q. ground (
            arith,
            p,
            q,
            l,
            (at_least-bounds low a initial h k).0,
            at_least-mono low b a (f (ground (arith, p))),
          )))

module _ (F : Float64) (R : IsRounded F) (initial min_score : ℤ) (falls : min_score ≤ℤ initial)
    (small : IsInt32 initial) where
  ceil_initial : F.ceil (F.of_int initial) ≡ initial
  ceil_initial = R.ceil_exact initial (ground arith) (ground arith)

  ceil_curve_le : (decay n : ℤ) → F.ceil (curve F initial min_score decay n) ≤ℤ initial
  ceil_curve_le decay n =
      ground (arith, ceil_initial, R.ceil_mono _ _ (curve_le F R initial min_score decay falls n))

  ceil_curve_start : (decay : ℤ) → initial ≤ℤ F.ceil (curve F initial min_score decay (pos 0))
  ceil_curve_start decay =
      ground (arith, ceil_initial, R.ceil_mono _ _ (curve_start F R initial min_score decay falls))

  ceil_curve-antitone :
      (decay m n : ℤ)
      → pos 0 ≤ℤ m
      → m ≤ℤ n
      → F.ceil (curve F initial min_score decay n) ≤ℤ F.ceil (curve F initial min_score decay m)
  ceil_curve-antitone decay m n z h =
      R.ceil_mono _ _ (curve-antitone F R initial min_score decay falls m n z h)

  -- A challenge's score never leaves the range from its minimum to its initial value, whatever the
  -- decay and the number of solves, where the minimum is not above the initial value.
  pub calculate_dynamic_score-bounds :
      (decay solves : ℤ)
      → (min_score ≤ℤ calculate_dynamic_score F initial min_score decay solves)
        × (calculate_dynamic_score F initial min_score decay solves ≤ℤ initial)
  unfolding calculate_dynamic_score
  calculate_dynamic_score-bounds decay solves =
      score_from-bounds initial min_score (decay_or_one decay) solves _ falls
        (ceil_curve_le (decay_or_one decay) (solves -ℤ pos 1))

  -- Where the minimum is not above the initial value, which the code does not check, and `F` has the
  -- order laws of rounded arithmetic, more solves never raise the score.
  pub calculate_dynamic_score-antitone :
      (decay m n : ℤ)
      → m ≤ℤ n
      → calculate_dynamic_score F initial min_score decay n
        ≤ℤ calculate_dynamic_score F initial min_score decay m
  unfolding calculate_dynamic_score
  calculate_dynamic_score-antitone decay m n h =
      let d = decay_or_one decay in
      score_from-antitone initial min_score d m n _ _ falls (ceil_curve_le d (m -ℤ pos 1))
        (ceil_curve_le d (n -ℤ pos 1)) h
        (λ p.
          ceil_curve-antitone d (m -ℤ pos 1) (n -ℤ pos 1) (ground (arith, p, -ℤ_parts m (pos 1)))
            (ground (arith, h, -ℤ_parts m (pos 1), -ℤ_parts n (pos 1))))

  -- The first solve is worth the initial value, unless the decay is negative.
  pub calculate_dynamic_score_first :
      (decay : ℤ)
      → pos 0 ≤ℤ decay
      → calculate_dynamic_score F initial min_score decay (pos 1) ≡ initial
  unfolding calculate_dynamic_score ◌-ℤ◌ at_least
  calculate_dynamic_score_first decay d = eq_of_parts _ _ (
      ground (
        arith,
        ceil_curve_le (decay_or_one decay) (pos 0),
        ceil_curve_start (decay_or_one decay),
        d,
        falls,
      ))
