-- ===== src/Golang/Trim.antt =====
-- What `strings.TrimSpace` gives: a text with no space at either end.
use Prim.Native.Char.{Char, code}
use ctfboard.Base.{
  if◌then◌else◌, Bool, true, false, String, not, ◌||◌, ◌≡◌, refl, arith, str_eq, ap, ◌∙◌, if-cases,
  ◌&&◌,
}
use ctfboard.Golang.{is_space, trim_left, trim_right, trim_space, keep}

-- Some character is not a space.
abbrev pub has_ink : String → Bool
has_ink String.[] = false
has_ink (String.◌∷◌ c s) = not (is_space (code c)) || has_ink s

no_ink : (b : Bool) → (b && true) ≡ true → false ≡ (not b || false)
no_ink true e = refl
no_ink false e = cc

has_ink-keep : (c : Char) (s : String) → has_ink (keep c s) ≡ has_ink (String.◌∷◌ c s)
has_ink-keep c String.[] =
    if-cases (λ (r : String). has_ink r ≡ has_ink (String.◌∷◌ c "")) (is_space (code c) && true) ""
      (String.◌∷◌ c "") (λ e. no_ink (is_space (code c)) e) (λ _. refl)
has_ink-keep c (String.◌∷◌ d s) = ground arith

has_ink-trim_right : (s : String) → has_ink (trim_right s) ≡ has_ink s
unfolding trim_right
has_ink-trim_right String.[] = refl
has_ink-trim_right (String.◌∷◌ c s) =
    ground (arith, has_ink-keep c (trim_right s), has_ink-trim_right s)

-- What is left has a first character that is not a space, or none.
abbrev starts_with_ink : String → Bool
starts_with_ink String.[] = true
starts_with_ink (String.◌∷◌ c s) = not (is_space (code c))

trim_left_starts : (s : String) → starts_with_ink (trim_left s) ≡ true
unfolding trim_left
trim_left_starts String.[] = refl
trim_left_starts (String.◌∷◌ c s) = ground (arith, trim_left_starts s)

trim_right_starts : (s : String) → starts_with_ink s ≡ true → starts_with_ink (trim_right s) ≡ true
unfolding trim_right
trim_right_starts String.[] e = refl
trim_right_starts (String.◌∷◌ c s) e = ground (arith, e)

trim_left_again : (s : String) → starts_with_ink s ≡ true → trim_left s ≡ s
unfolding trim_left
trim_left_again String.[] e = refl
trim_left_again (String.◌∷◌ c s) e = ground (arith, e)

trim_right-keep : (c : Char) (s : String) → trim_right s ≡ s → trim_right (keep c s) ≡ keep c s
unfolding trim_right
trim_right-keep c String.[] e =
    if-cases (λ (r : String). trim_right r ≡ r) (is_space (code c) && true) "" (String.◌∷◌ c "")
      (λ _. refl) (λ f. ap (λ (b : Bool). if b then "" else String.◌∷◌ c "") f)
trim_right-keep c (String.◌∷◌ d s) e = ground (arith, e)

trim_right_again : (s : String) → trim_right (trim_right s) ≡ trim_right s
unfolding trim_right
trim_right_again String.[] = refl
trim_right_again (String.◌∷◌ c s) = trim_right-keep c (trim_right s) (trim_right_again s)

-- Trimming twice is trimming once.
pub trim_space_again : (s : String) → trim_space (trim_space s) ≡ trim_space s
unfolding trim_space
trim_space_again s =
    ap trim_right (
      trim_left_again (trim_right (trim_left s))
        (trim_right_starts (trim_left s) (trim_left_starts s)))
    ∙ trim_right_again (trim_left s)

starts-has_ink : (s : String) → starts_with_ink s ≡ true → str_eq s "" ≡ false → has_ink s ≡ true
starts-has_ink String.[] e full = ground (arith, full)
starts-has_ink (String.◌∷◌ c s) e full = ground (arith, e)

-- A text that is not empty once it is trimmed is not made of spaces.
pub trim_space-has_ink :
    (s : String) → str_eq (trim_space s) "" ≡ false → has_ink (trim_space s) ≡ true
unfolding trim_space
trim_space-has_ink s full =
    starts-has_ink (trim_right (trim_left s)) (trim_right_starts (trim_left s) (trim_left_starts s))
      full
