-- ===== src/Samples.antt =====
-- A small competition for the tests: its settings, users and teams.
use ctfboard.Base.{refl, ap, ◌==◌}
use ctfboard.Base.{
  ℕ, ◌∷◌, [], Bool, true, false, Option, none, some, String, ◌+◌, ◌*◌, arith, str_eq_iff, ◌≡◌,
}
use ctfboard.Base.Int.{pos}
use ctfboard.Base.{str_eq, if◌then◌else◌}
use ctfboard.Entity.{User, Team, Challenge}
use ctfboard.Entity.Competitions.{Competition}
use ctfboard.Store.Transaction.{Db, Env}
use ctfboard.ChallengeUseCase.Flags.{Platform}
use ctfboard.Cache.Bounded.{BoundedCache}
use ctfboard.Cache.Bounded.Queue.{IsIndexed}
use ctfboard.Session.Tokens.{CustomClaims, Packages, JwtService, access}
use ctfboard.Entity.Fields.{Field, number_field, user_entity}

abbrev pub settings : Competition
settings = record {
  id = 1;
  name = "CTF";
  start_time = some 100;
  end_time = some 900;
  freeze_time = some 800;
  is_paused = false;
  is_public = true;
  flag_regex = none;
  mode = "flexible";
  allow_team_switch = true;
  min_team_size = pos 1;
  max_team_size = pos 10;
  created_at = 0;
  updated_at = 0;
}

abbrev pub user : ℕ → String → Option ℕ → User
user id name team = record {
  id = id;
  team_id = team;
  username = name;
  email = name;
  password_hash = "";
  role = "user";
  is_verified = true;
  verified_at = none;
  created_at = 0;
}

abbrev pub team : ℕ → String → ℕ → ℕ → Bool → Team
team id name token captain solo = record {
  id = id;
  name = name;
  invite_token = token;
  captain_id = captain;
  bracket_id = none;
  created_at = 0;
  deleted_at = none;
  is_solo = solo;
  is_auto_created = false;
  is_banned = false;
  banned_at = none;
  banned_reason = none;
  is_hidden = false;
}

-- Users 1 and 2 are in team 10, which user 1 leads; user 3 is alone in the solo team 20.
abbrev pub start : Db
start = record {
  competition = some settings;
  users =
      user 1 "ann" (some 10)
      ∷ user 2 "bob" (some 10)
      ∷ user 3 "eve" (some 20)
      ∷ user 4 "kim" none
      ∷ [];
  teams = team 10 "red" 77 1 false ∷ team 20 "eve" 88 3 true ∷ [];
  challenges = [];
  solves = [];
  hints = [];
  hint_unlocks = [];
  awards = [];
  team_audit_log = [];
  audit_log = [];
  verification_tokens = [];
  api_tokens = [];
  fields = [];
  field_values = [];
  brackets = [];
  submissions = [];
  configs = [];
  comments = [];
}

abbrev pub at_time : ℕ → Env
at_time t = record {
  now = t;
  uuid = λ n. 1000 + t * 10 + n;
  begins = true;
  commits = true;
  answers = λ n. true;
  ties = λ n. n;
}

-- A platform whose hash is the text itself, where `" x "` is the only text with space around it.
abbrev pub platform : Platform
platform = record {
  trim_space = λ s. if str_eq s " x " then "x" else s;
  to_lower = λ s. if str_eq s "X" then "x" else s;
  sha256_hex = λ s. s;
  compile = λ p. some (str_eq p);
  crypto = none;
}

abbrev pub challenge : Challenge
challenge = record {
  id = 5;
  title = "warmup";
  description = "";
  category = "misc";
  points = pos 500;
  initial_value = pos 500;
  min_value = pos 100;
  decay = pos 2;
  solve_count = pos 1;
  flag_hash = "x";
  is_hidden = false;
  is_regex = false;
  is_case_insensitive = false;
  flag_regex = "";
  flag_format_regex = none;
}

abbrev pub running : Db
running = record start { challenges = challenge ∷ [] }

-- A full cache of two entries.
abbrev pub full_cache : BoundedCache ℕ
full_cache = record {
  entries = ("a", 1) ∷ ("b", 2) ∷ [];
  index = ("b", 1) ∷ ("a", 0) ∷ [];
  max_size = 2;
}

a_is_not_b : (s : String) → str_eq s "a" ≡ true → str_eq s "b" ≡ false
a_is_not_b s e =
    let h : s ≡ "a" = ground (arith, e, str_eq_iff s "a") in ap (λ (x : String). str_eq x "b") h

pub full_cache-IsIndexed : IsIndexed full_cache
full_cache-IsIndexed = record {
  agrees = λ k.
      ground (
        arith,
        a_is_not_b k,
        str_eq_iff "a" k,
        str_eq_iff "b" k,
        str_eq_iff k "a",
        str_eq_iff k "b",
      );
  distinct = (refl, (refl, tt));
  room = omega arith;
  within = omega arith;
}

-- Packages where a hash is the text itself, and where the one text that can be read back is that of the
-- claims of user 3000, who logs in at 300.
abbrev pub claims : CustomClaims
claims = record {
  user_id = "3000";
  email = "zoe@x";
  full_name = "zoe";
  role = "user";
  token_type = access;
  expires_at = 360;
  issued_at = 300;
  not_before = 300;
  issuer = "skypost-delivery-orchestrator";
}

abbrev pub packages : Packages
packages = record {
  uuid_string = λ k. if k == 3000 then "3000" else "1";
  parse_uuid = λ s. if str_eq s "3000" then some 3000 else if str_eq s "7" then some 7 else none;
  random_token = some "fresh";
  sha256_hex = λ s. s;
  generate_from_password = λ s. some s;
  compare_hash_and_password = λ h s. str_eq h s;
  sign = λ secret c. some "signed";
  parse = λ now secret text. if str_eq text "signed" then some claims else none;
}

abbrev pub jwt : JwtService
jwt = record { access_secret = "a"; refresh_secret = "r"; access_ttl = 60; refresh_ttl = 600 }

abbrev pub field : ℕ → String → Bool → Field
field id name required = record {
  id = id;
  name = name;
  field_type = number_field;
  entity_type = user_entity;
  required = required;
  options = [];
  order_index = pos 0;
  created_at = 0;
}
