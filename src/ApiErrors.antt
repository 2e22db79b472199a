-- ===== src/ApiErrors.antt =====
-- internal/apierror: the status that an error answers with (error.go, status.go) and whose fault it is
-- (codes.go). An envelope's keys other than the code are left out.
pub mod Statuses
mod Tests
use data_info.Common.{
  ℕ, zero, suc, Bool, true, false, Code, err_bad_or_missing_field, err_illegal_argument,
  err_invalid_json, err_bad_request, err_bad_query_parameter, err_missing_query_param,
  err_not_authorized, err_not_owner, err_forbidden, err_not_found, err_conflict, err_config_invalid,
  err_request_failed, err_unavailable, err_unchecked_exception,
}

pub data Style : Type 0 where
  style_trap style_ok : Style

-- The table of statusFor.
unfoldable pub trap_status : Code → ℕ
trap_status err_bad_or_missing_field = 400
trap_status err_illegal_argument = 400
trap_status err_invalid_json = 400
trap_status err_bad_request = 400
trap_status err_bad_query_parameter = 400
trap_status err_missing_query_param = 400
trap_status err_not_authorized = 401
trap_status err_not_owner = 403
trap_status err_forbidden = 403
trap_status err_not_found = 404
trap_status err_conflict = 409
trap_status _ = 500

unfoldable pub status_for : Code → Style → ℕ
unfolding trap_status
status_for code style_ok = 500
status_for code style_trap = trap_status code

unfoldable pub is_server_fault : Code → Bool
is_server_fault err_config_invalid = true
is_server_fault err_request_failed = true
is_server_fault err_unavailable = true
is_server_fault err_unchecked_exception = true
is_server_fault _ = false

-- `status` is 0 where none has been pinned.
pub record ApiError : Type 0 where
  pub code : Code
  pub style : Style
  pub status : ℕ
  pub schema : Bool

unfoldable pub new : Code → ApiError
new code = record { code = code; style = style_trap; status = 0; schema = false }

unfoldable pub with_status : ℕ → ApiError → ApiError
with_status status e = record e { status = status }

unfoldable pub with_style : Style → ApiError → ApiError
with_style style e = record e { style = style }

unfoldable pub as_schema_failure : ApiError → ApiError
as_schema_failure e = record e { schema = true }

-- HTTPStatus
unfoldable pub http_status : ApiError → ℕ
unfolding status_for
http_status e = pinned e.status
  where
    pinned : ℕ → ℕ
    pinned zero = status_for e.code e.style
    pinned (suc n) = suc n

-- schemaError of internal/handlers/deps.go.
unfoldable pub schema_error : ApiError
unfolding new as_schema_failure with_status
schema_error = with_status 400 (as_schema_failure (new err_illegal_argument))
