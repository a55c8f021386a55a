-- ===== src/Server/Errors.antt =====
-- The server's errors: server/src/error.rs. The text of an error is kept without what is
-- formatted into it.
use remote_file_system.Prelude.{◌++◌}
use remote_file_system.Paths.{Text, text}

pub data ApiError : Type 0 where
  unauthorized : Text → ApiError
  not_found : Text → ApiError
  already_exists : Text → ApiError
  not_a_directory : Text → ApiError
  is_a_directory : Text → ApiError
  directory_not_empty : Text → ApiError
  permission_denied : Text → ApiError
  operation_not_permitted : Text → ApiError
  storage_full : Text → ApiError
  out_of_memory : Text → ApiError
  invalid_input : Text → ApiError
  file_too_large : Text → ApiError
  unsupported : Text → ApiError
  cross_device_link : Text → ApiError
  io_error : Text → ApiError
  text_file_busy : Text → ApiError
  resource_busy : Text → ApiError
  try_again : Text → ApiError
  internal_error : Text → ApiError

pub data DatabaseError : Type 0 where
  creation_error : Text → DatabaseError
  connection_error : Text → DatabaseError
  migration_error : Text → DatabaseError
  query_error : Text → DatabaseError
  other : Text → DatabaseError

-- `std::io::ErrorKind`, with the kinds the server tells apart.
pub data ErrorKind : Type 0 where
  kind_not_found kind_already_exists kind_permission_denied : ErrorKind
  kind_directory_not_empty kind_unsupported kind_other : ErrorKind

-- `std::io::Error`: its kind and its text.
pub record IoError : Type 0 where
  pub kind : ErrorKind
  pub message : Text

-- `Other` wraps an error of another crate, of which only the text is kept.
pub data StorageError : Type 0 where
  io : IoError → StorageError
  not_found : Text → StorageError
  invalid_path : Text → StorageError
  already_exists : Text → StorageError
  permission_denied : StorageError
  directory_not_empty : Text → StorageError
  unsupported_operation : Text → StorageError
  conversion_failed : StorageError
  metadata_error : Text → StorageError
  other : Text → StorageError

pub data CommandError : Type 0 where
  invalid_command : Text → CommandError
  missing_argument : Text → CommandError
  execution_failed : Text → CommandError
  other : Text → CommandError

pub data AuthenticationError : Type 0 where
  unauthorized : Text → AuthenticationError
  not_found : Text → AuthenticationError

unfoldable pub storage_of_kind : ErrorKind → IoError → StorageError
storage_of_kind kind_not_found e = not_found e.message
storage_of_kind kind_already_exists e = already_exists e.message
storage_of_kind kind_permission_denied e = permission_denied
storage_of_kind kind_directory_not_empty e = directory_not_empty e.message
storage_of_kind kind_unsupported e = unsupported_operation e.message
storage_of_kind kind_other e = io e

-- `StorageError::from`
unfoldable pub storage_of_io : IoError → StorageError
storage_of_io e = storage_of_kind e.kind e

-- `ApiError::from`, of an error of the storage
unfoldable pub api_of_storage : StorageError → ApiError
api_of_storage (io e) = io_error e.message
api_of_storage (not_found e) = not_found e
api_of_storage (invalid_path e) = invalid_input (text "Invalid path: " ++ e)
api_of_storage (already_exists e) = already_exists e
api_of_storage permission_denied = permission_denied (text "Permission denied")
api_of_storage (unsupported_operation e) = unsupported e
api_of_storage (directory_not_empty e) = directory_not_empty e
api_of_storage conversion_failed = internal_error (text "Conversion failed")
api_of_storage (metadata_error e) = internal_error (text "Metadata error: " ++ e)
api_of_storage (other e) = internal_error (text "Other storage error: " ++ e)

unfoldable pub api_of_authentication : AuthenticationError → ApiError
api_of_authentication (unauthorized e) = unauthorized e
api_of_authentication (not_found e) = not_found e

unfoldable pub api_of_database : DatabaseError → ApiError
api_of_database (creation_error e) = internal_error (text "Database creation error: " ++ e)
api_of_database (connection_error e) = internal_error (text "Database connection error: " ++ e)
api_of_database (migration_error e) = internal_error (text "Database migration error: " ++ e)
api_of_database (query_error e) = internal_error (text "Database query error: " ++ e)
api_of_database (other e) = internal_error (text "Database other error: " ++ e)
