-- ===== src/Common/Codes.antt =====
-- internal/apierror/codes.go: the error codes that callers read.
pub data Code : Type 0 where
  err_bad_or_missing_field err_bad_query_parameter err_bad_request err_config_invalid : Code
  err_conflict err_does_not_exist err_exists err_forbidden : Code
  err_illegal_argument err_incomplete_rename err_invalid_json err_missing_query_param : Code
  err_not_a_file err_not_a_folder err_not_a_user err_not_authorized : Code
  err_not_found err_not_owner err_not_readable err_not_writeable : Code
  err_request_failed err_ticket_does_not_exist err_ticket_exists err_too_many_results : Code
  err_unavailable err_unchecked_exception err_bad_basename_length err_bad_dirname_length : Code
  err_bad_path_length err_chunk_too_small err_invalid_page err_page_not_pos : Code
  err_too_many_paths : Code
