-- ===== src/Golang.antt =====
-- What the backend uses of Go's standard library on texts: `len`, `strings.TrimSpace` and
-- `strconv.Atoi`. A `String` is a sequence of code points, which Go stores in UTF-8.
pub mod Trim
use Prim.Native.Char.{Char, code}
use ctfboard.Base.{
  ℕ, ◌+◌, ◌-◌, ◌*◌, ◌^◌, Bool, true, false, Option, none, some, String, ◌==◌, ltb, leb, ◌&&◌, ◌||◌,
  if◌then◌else◌, ◌≡◌, refl,
}
use ctfboard.Base.Int.{ℤ, pos, ◌-ℤ◌, negsuc}

-- Of one code point, in UTF-8
abbrev byte_length : ℕ → ℕ
byte_length c = if ltb c 128 then 1 else if ltb c 2048 then 2 else if ltb c 65536 then 3 else 4

-- `len(s)`
unfoldable pub len : String → ℕ
len String.[] = 0
len (String.◌∷◌ c s) = byte_length (code c) + len s

-- `unicode.IsSpace`
abbrev pub is_space : ℕ → Bool
is_space c =
    (leb 9 c && leb c 13)
    || (c == 32
        || (c == 133
            || (c == 160
                || (c == 5760
                    || ((leb 8192 c && leb c 8202)
                        || (c == 8232
                            || (c == 8233 || (c == 8239 || (c == 8287 || c == 12288)))))))))

unfoldable pub trim_left : String → String
trim_left String.[] = ""
trim_left (String.◌∷◌ c s) = if is_space (code c) then trim_left s else String.◌∷◌ c s

abbrev pub is_empty : String → Bool
is_empty String.[] = true
is_empty (String.◌∷◌ c s) = false

abbrev pub keep : Char → String → String
keep c s = if is_space (code c) && is_empty s then "" else String.◌∷◌ c s

unfoldable pub trim_right : String → String
trim_right String.[] = ""
trim_right (String.◌∷◌ c s) = keep c (trim_right s)

-- `strings.TrimSpace`
unfoldable pub trim_space : String → String
unfolding trim_left trim_right
trim_space s = trim_right (trim_left s)

abbrev is_digit : ℕ → Bool
is_digit c = leb 48 c && leb c 57

-- The decimal digits of `s`, after those of `n`
unfoldable pub digits : ℕ → String → Option ℕ
digits n String.[] = some n
digits n (String.◌∷◌ c s) =
    let rest = digits (n * 10 + (code c - 48)) s in if is_digit (code c) then rest else none

abbrev unsigned : String → Option ℕ
unsigned String.[] = none
unsigned (String.◌∷◌ c s) = digits 0 (String.◌∷◌ c s)

abbrev positive : Option ℕ → Option ℤ
positive none = none
positive (some n) = if ltb n (2 ^ 63) then some (pos n) else none

abbrev negative : Option ℕ → Option ℤ
negative none = none
negative (some n) = if leb n (2 ^ 63) then some (pos 0 -ℤ pos n) else none

-- `strconv.Atoi`, where `int` has 64 bits; `none` for an error
unfoldable pub atoi : String → Option ℤ
unfolding digits
atoi String.[] = none
atoi (String.◌∷◌ c s) =
    if code c == 45
    then negative (unsigned s)
    else if code c == 43
    then positive (unsigned s)
    else positive (unsigned (String.◌∷◌ c s))

atoi_cases :
    (atoi "-120" ≡ some (negsuc 119))
    × (atoi "+7" ≡ some (pos 7))
    × (atoi "7a" ≡ none)
    × (atoi "9223372036854775808" ≡ none)
unfolding atoi ◌-ℤ◌
atoi_cases = (refl, refl, refl, refl)

trim_space_cases : (trim_space " a b\n" ≡ "a b") × (trim_space " " ≡ "") × (len "né" ≡ 3)
unfolding trim_space len
trim_space_cases = (refl, refl, refl)
