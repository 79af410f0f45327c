-- ===== src/Native/Errors.antt =====
-- What the code looks for in the chains of errors of other libraries:
-- `error_chain_contains_storage_io`, `error_chain_contains_merge_byte_limit` and the errors made
-- from them.
use fornacast.Prelude.{Bool, true, false, if◌then◌else◌}
use fornacast.Prelude.Bytes.{Bytes, codes, bytes_eq}
use fornacast.Native.{NativeError, native_error}

-- An error with what `source` or `get_ref` give. The error of a loose object has the action that
-- failed and the I/O error; an I/O error may wrap another error.
pub data StdError : Type 0 where
  loose_io : Bytes → StdError → StdError
  loose_other : StdError
  index_inaccessible : StdError
  io_plain : StdError
  io_wrapping : StdError → StdError
  merge_byte_limit : StdError
  caused_by : StdError → StdError
  without_source : StdError

unfoldable pub error_chain_contains_storage_io : StdError → Bool
error_chain_contains_storage_io (loose_io action source) =
    if bytes_eq action (codes "inflate")
    then false
    else if bytes_eq action (codes "open or map")
    then error_chain_contains_storage_io source
    else false
error_chain_contains_storage_io loose_other = false
error_chain_contains_storage_io index_inaccessible = true
error_chain_contains_storage_io io_plain = true
error_chain_contains_storage_io (io_wrapping inner) = error_chain_contains_storage_io inner
error_chain_contains_storage_io merge_byte_limit = false
error_chain_contains_storage_io (caused_by source) = error_chain_contains_storage_io source
error_chain_contains_storage_io without_source = false

-- The source of an I/O error that wraps an error is the source of that error.
unfoldable mutual
  pub error_chain_contains_merge_byte_limit : StdError → Bool
  error_chain_contains_merge_byte_limit (loose_io action source) =
      error_chain_contains_merge_byte_limit source
  error_chain_contains_merge_byte_limit loose_other = false
  error_chain_contains_merge_byte_limit index_inaccessible = false
  error_chain_contains_merge_byte_limit io_plain = false
  error_chain_contains_merge_byte_limit (io_wrapping inner) = source_contains_limit inner
  error_chain_contains_merge_byte_limit merge_byte_limit = true
  error_chain_contains_merge_byte_limit (caused_by source) =
      error_chain_contains_merge_byte_limit source
  error_chain_contains_merge_byte_limit without_source = false

  pub source_contains_limit : StdError → Bool
  source_contains_limit (loose_io action source) = error_chain_contains_merge_byte_limit source
  source_contains_limit loose_other = false
  source_contains_limit index_inaccessible = false
  source_contains_limit io_plain = false
  source_contains_limit (io_wrapping inner) = source_contains_limit inner
  source_contains_limit merge_byte_limit = false
  source_contains_limit (caused_by source) = error_chain_contains_merge_byte_limit source
  source_contains_limit without_source = false

unfoldable pub diff_read_error : StdError → NativeError
diff_read_error error =
    if error_chain_contains_storage_io error
    then native_error "storage_unavailable" "object could not be read"
    else native_error "corrupt_repository" "object could not be read"

unfoldable pub merge_operation_error : StdError → NativeError
merge_operation_error error =
    if error_chain_contains_merge_byte_limit error
    then native_error "merge_byte_limit" "merge operation failed"
    else if error_chain_contains_storage_io error
    then native_error "storage_unavailable" "merge operation failed"
    else native_error "corrupt_repository" "merge operation failed"
