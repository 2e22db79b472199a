-- ===== src/ApiErrors/Statuses.antt =====
-- What a status tells of a failure.
use data_info.Common.{◌≡◌, refl, true, Code, arith}
use data_info.ApiErrors.{
  Style, style_trap, style_ok, trap_status, status_for, is_server_fault, new, with_style,
  http_status, schema_error,
}

-- An error whose status nobody has pinned answers with 500 if this service or a backend is at fault;
-- with any other status, the caller's request was refused.
pub is_server_fault-status :
    (code : Code) (style : Style)
    → is_server_fault code ≡ true
    → http_status (with_style style (new code)) ≡ 500
unfolding http_status with_style new status_for trap_status is_server_fault
is_server_fault-status code style_ok h = refl
is_server_fault-status code style_trap h = ground (arith, h)

-- A request that does not fit its endpoint's schema is a 400 whatever the style of the route.
pub schema_error-status : (style : Style) → http_status (with_style style schema_error) ≡ 400
unfolding http_status with_style schema_error
schema_error-status style = refl
