-- ===== src/Client/Errors.antt =====
-- The client's errors: client/src/error.rs.
use remote_file_system.Prelude.{ℕ}
use remote_file_system.Paths.{Text}

-- An error that the server reports in the body of its response, and two of the client's own.
pub data FuseError : Type 0 where
  unauthorized : Text → FuseError
  not_found : Text → FuseError
  already_exists : Text → FuseError
  not_a_directory : Text → FuseError
  is_a_directory : Text → FuseError
  directory_not_empty : Text → FuseError
  permission_denied : Text → FuseError
  operation_not_permitted : Text → FuseError
  storage_full : Text → FuseError
  out_of_memory : Text → FuseError
  invalid_input : Text → FuseError
  file_too_large : Text → FuseError
  unsupported : Text → FuseError
  cross_device_link : Text → FuseError
  io_error : Text → FuseError
  text_file_busy : Text → FuseError
  resource_busy : Text → FuseError
  try_again : Text → FuseError
  internal_error : Text → FuseError
  not_implemented : FuseError
  invalid_file_handle : ℕ → FuseError

-- `Request` and `Other` wrap an error of another crate, of which only the text is kept.
pub data NetworkError : Type 0 where
  connection_failed : Text → NetworkError
  invalid_credentials : NetworkError
  invalid_input : Text → NetworkError
  request : Text → NetworkError
  server_error : FuseError → NetworkError
  unexpected_response : Text → NetworkError
  other : Text → NetworkError

pub data FsModelError : Type 0 where
  not_found : Text → FsModelError
  permission_denied : Text → FsModelError
  invalid_input : Text → FsModelError
  conversion_failed : Text → FsModelError
  file_handler_error : FsModelError
  writer_error : FsModelError
  no_data : Text → FsModelError
  server_error : NetworkError → FsModelError
  other : Text → FsModelError
