-- ===== src/Tools/Error.antt =====
-- `Error` and `ErrorCode` of src/tools/error.h.
use qstorage.Prelude.{ℕ, ◌%◌, List, []}
use qstorage.Prelude.Words.{u64_mod}

-- `enum class ErrorCode : size_t`, which holds every number of its type; two have names.
abbrev pub ErrorCode : Type 0
ErrorCode = ℕ

abbrev pub ok : ErrorCode
ok = 0

abbrev pub malloc_err : ErrorCode
malloc_err = 200

-- `ErrorCode(n)`, as `LogWriter::init` makes of an `errno`
abbrev pub error_code : ℕ → ErrorCode
error_code n = n % u64_mod

pub record Error : Type 0 where
  pub msg : List ℕ
  pub code : ErrorCode

-- The two constructors
abbrev pub error : List ℕ → ErrorCode → Error
error msg code = record { msg = msg; code = code }

abbrev pub no_error : Error
no_error = error [] ok

-- `msg()` and `code()` give references, which the caller may write through.
abbrev pub set_msg : Error → List ℕ → Error
set_msg e m = record e { msg = m }

abbrev pub set_code : Error → ErrorCode → Error
set_code e c = record e { code = c }
