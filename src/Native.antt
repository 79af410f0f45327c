-- ===== src/Native.antt =====
-- Errors of the native functions in apps/git_core/native/fornacast_git_core/src/lib.rs
-- (`NativeError`, `native_error`), and code that looks at the clock. A detail that the code formats
-- from an error of another library is kept as a fixed text.
pub mod Clock
pub mod Errors
pub mod Outcome
use fornacast.Prelude.{String, Result, ok, err, Option, none, some}

pub record NativeError : Type 0 where
  pub kind : String
  pub detail : String

abbrev pub native_error : String → String → NativeError
native_error kind detail = record { kind = kind; detail = detail }

abbrev pub NativeResult {ℓ} : Type ℓ → Type ℓ
NativeResult A = Result NativeError A

abbrev pub ok_or : {A : Type 0} → Option A → NativeError → NativeResult A
ok_or none e = err e
ok_or (some a) e = ok a
