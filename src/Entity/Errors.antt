-- ===== src/Entity/Errors.antt =====
-- The sentinel errors of backend/internal/entity/error, which callers tell apart by `errors.Is`.
-- Wrapping (`usecaseutil.Wrap`, `%w`) keeps the sentinel, so a wrapped error is its sentinel here.
-- The last six lines stand for errors that have no sentinel: they come from the database driver, from
-- other services, from `crypto/rand`, `bcrypt` and `regexp`, and from checks that return a bare `fmt.Errorf`.

pub data Error : Type 0 where
  team_not_found team_already_exists user_already_in_team team_full not_captain : Error
  cannot_leave_as_only_member new_captain_not_in_team cannot_transfer_to_self : Error
  no_team_selected solo_mode_not_allowed confirmation_required roster_frozen team_banned : Error
  user_not_found competition_not_found : Error
  challenge_not_found user_must_be_in_team invalid_flag_format : Error
  hint_not_found hint_already_unlocked insufficient_points : Error
  solve_not_found already_solved : Error
  user_already_exists invalid_credentials token_not_found token_expired token_already_used : Error
  comment_not_found comment_forbidden content_required : Error
  field_not_found bracket_not_found bracket_name_conflict config_not_found : Error
  ctf_event_not_found global_rating_not_found : Error
  custom_fields_invalid custom_fields_unsaved : Error
  invalid_field_id invalid_field_value unknown_field field_required name_required key_required :
      Error
  invalid_config invalid_token invalid_event : Error
  driver_failed mail_failed hash_failed random_failed : Error
  unique_violation foreign_key_violation tx_failed int32_range : Error
  service_not_configured bad_regex encrypt_failed zero_award : Error
