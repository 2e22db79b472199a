-- ===== src/ApiErrors/Tests.antt =====
-- The status of an error that a backend is at fault for.
use data_info.Common.{◌≡◌, refl, err_unavailable}
use data_info.ApiErrors.{style_trap, is_server_fault, new, with_style, http_status}
use data_info.ApiErrors.Statuses.{is_server_fault-status}

is_server_fault-status_example : http_status (with_style style_trap (new err_unavailable)) ≡ 500
is_server_fault-status_example =
    is_server_fault-status err_unavailable style_trap (unfold is_server_fault in refl)
