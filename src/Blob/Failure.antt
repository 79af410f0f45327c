-- ===== src/Blob/Failure.antt =====
-- `ErrorKind`, `Error` and `DecodeResult` of bounded_blob.rs. A detail that the code formats from
-- numbers is kept without them.
use fornacast.Prelude.{Option, none, some, String, Result, ok, err}

pub data ErrorKind : Type 0 where
  storage_unavailable corrupt_repository work_limit_reached stop_requested : ErrorKind

pub record Error : Type 0 where
  pub kind : ErrorKind
  pub detail : String

abbrev pub DecodeResult {ℓ} : Type ℓ → Type ℓ
DecodeResult A = Result Error A

abbrev pub corrupt : String → Error
corrupt detail = record { kind = corrupt_repository; detail = detail }

abbrev pub storage : String → Error
storage detail = record { kind = storage_unavailable; detail = detail }

abbrev pub work_limit : String → Error
work_limit detail = record { kind = work_limit_reached; detail = detail }

abbrev pub stopped : Error
stopped = record { kind = stop_requested; detail = "blob visit stopped cooperatively" }

-- `Option::ok_or_else(..)?`
abbrev pub ok_or : {A : Type 0} → Option A → Error → DecodeResult A
ok_or none e = err e
ok_or (some a) e = ok a
