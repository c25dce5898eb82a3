-- ===== src/ChallengeUseCase/Flags.antt =====
-- backend/internal/usecase/challenge/challenge.go: how a flag is stored (`Create`, `Update`) and how a
-- submitted one is compared (`submitCheckFlag`).
use ctfboard.Base.{Bool, false, Option, none, some, String, str_eq, if◌then◌else◌}
use Prim.Native.String.{◌++◌}
use ctfboard.Entity.{Challenge}
use ctfboard.Entity.Errors.{service_not_configured, encrypt_failed}
use ctfboard.Store.Transaction.{Result, ok, err}

-- `pkg/crypto.Service`; `none` is an error.
pub record CryptoService : Type 0 where
  pub encrypt : String → Option String
  pub decrypt : String → Option String

-- The packages that flags pass through: `strings.TrimSpace`, `strings.ToLower`, the hex form of
-- `sha256.Sum256`, `regexp.Compile` with `MatchString` (`none` for a pattern that does not compile),
-- and the configured encryption, if there is one.
pub record Platform : Type 0 where
  pub trim_space : String → String
  pub to_lower : String → String
  pub sha256_hex : String → String
  pub compile : String → Option (String → Bool)
  pub crypto : Option CryptoService

pub record StoredFlag : Type 0 where
  pub flag_hash : String
  pub flag_regex : String

abbrev pub hash_of_flag : Platform → String → Bool → String
hash_of_flag P flag is_case_insensitive =
    P.sha256_hex (if is_case_insensitive then P.to_lower (P.trim_space flag) else flag)

abbrev pub encrypted : Option String → Result StoredFlag
encrypted none = err encrypt_failed
encrypted (some c) = ok (record { flag_hash = "REGEX_CHALLENGE"; flag_regex = c })

abbrev pub store_regex : Option CryptoService → String → Result StoredFlag
store_regex none flag = err service_not_configured
store_regex (some s) flag = encrypted (s.encrypt flag)

-- The flag's part of `Create`
unfoldable pub store_flag : Platform → String → Bool → Bool → Result StoredFlag
store_flag P flag is_regex is_case_insensitive =
    if is_regex
    then store_regex P.crypto flag
    else ok (record { flag_hash = hash_of_flag P flag is_case_insensitive; flag_regex = "" })

abbrev pub with_stored : Challenge → Result StoredFlag → Result Challenge
with_stored c (ok f) = ok (record c { flag_hash = f.flag_hash; flag_regex = f.flag_regex })
with_stored c (err e) = err e

-- `challengeUpdateApplyFlag`
unfoldable pub challenge_update_apply_flag :
    Platform → Challenge → String → Bool → Bool → Result Challenge
unfolding store_flag
challenge_update_apply_flag P c flag is_regex is_case_insensitive =
    if str_eq flag "" then ok c else with_stored c (store_flag P flag is_regex is_case_insensitive)

-- `submitCheckHashFlag`; `flag` is trimmed already.
unfoldable pub submit_check_hash_flag : Platform → Challenge → String → Bool
submit_check_hash_flag P c flag =
    str_eq (P.sha256_hex (if c.is_case_insensitive then P.to_lower flag else flag)) c.flag_hash

abbrev pub matches : Option (String → Bool) → String → Bool
matches none flag = false
matches (some m) flag = m flag

abbrev pub check_pattern : Platform → Bool → String → Option String → Bool
check_pattern P is_case_insensitive flag none = false
check_pattern P is_case_insensitive flag (some pattern) =
    matches (P.compile (if is_case_insensitive then "(?i)" ++ pattern else pattern)) flag

abbrev pub check_encrypted : Platform → Challenge → String → Option CryptoService → Bool
check_encrypted P c flag none = false
check_encrypted P c flag (some s) =
    check_pattern P c.is_case_insensitive flag (s.decrypt c.flag_regex)

-- `submitCheckRegexFlag`; `getCompiledRegex` gives what `regexp.Compile` gives.
unfoldable pub submit_check_regex_flag : Platform → Challenge → String → Bool
submit_check_regex_flag P c flag = check_encrypted P c flag P.crypto

-- `submitCheckFlag`
unfoldable pub submit_check_flag : Platform → Challenge → String → Bool
unfolding submit_check_hash_flag submit_check_regex_flag
submit_check_flag P c flag =
    if c.is_regex then submit_check_regex_flag P c flag else submit_check_hash_flag P c flag
