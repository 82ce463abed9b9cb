-- ===== src/Infra/Logger.antt =====
-- `LogLevel` and `levelName` of src/infra/logger.h.
use Prim.Native.String.{String}
use text.Mathlib.Text.{◌==◌ as str_eq}
use qstorage.Prelude.{ℕ, ◌≡◌, refl, sym, ap, ◌∙◌, ◌≤◌, ◌<◌, arith, ◌==◌, if◌then◌else◌}

pub data LogLevel : Type 0 where
  k_trace k_debug k_info k_warn k_error k_fatal : LogLevel

abbrev pub level_value : LogLevel → ℕ
level_value k_trace = 0
level_value k_debug = 1
level_value k_info = 2
level_value k_warn = 3
level_value k_error = 4
level_value k_fatal = 5

-- `levelName` of a level, which can be any byte
unfoldable pub level_name : ℕ → String
level_name l =
    if l == level_value k_trace
    then "TRACE"
    else if l == level_value k_debug
    then "DEBUG"
    else if l == level_value k_info
    then "INFO"
    else if l == level_value k_warn
    then "WARN"
    else if l == level_value k_error
    then "ERROR"
    else if l == level_value k_fatal
    then "FATAL"
    else "UNKNOWN"

-- The level of a name, and 6 if there is none
abbrev pub named : String → ℕ
named s =
    if str_eq s "TRACE"
    then 0
    else if str_eq s "DEBUG"
    then 1
    else if str_eq s "INFO"
    then 2
    else if str_eq s "WARN"
    then 3
    else if str_eq s "ERROR"
    then 4
    else if str_eq s "FATAL"
    then 5
    else 6

named-level_name : (l : LogLevel) → named (level_name (level_value l)) ≡ level_value l
unfolding level_name
named-level_name k_trace = refl
named-level_name k_debug = refl
named-level_name k_info = refl
named-level_name k_warn = refl
named-level_name k_error = refl
named-level_name k_fatal = refl

level_value_below : (l : LogLevel) → level_value l < 6
level_value_below k_trace = omega arith
level_value_below k_debug = omega arith
level_value_below k_info = omega arith
level_value_below k_warn = omega arith
level_value_below k_error = omega arith
level_value_below k_fatal = omega arith

named_below : (l : LogLevel) → named (level_name (level_value l)) < named "UNKNOWN"
named_below l = omega (arith, named-level_name l, level_value_below l)

-- Each level has a name of its own, and exactly the bytes that are no level are called `UNKNOWN`.
pub level_name_lem :
    ((l m : LogLevel)
      → level_name (level_value l) ≡ level_name (level_value m)
      → level_value l ≡ level_value m)
    × ((n : ℕ) → 6 ≤ n → level_name n ≡ "UNKNOWN")
    × ((l : LogLevel) → named (level_name (level_value l)) < named "UNKNOWN")
unfolding level_name
level_name_lem = (
  λ l m e. sym (named-level_name l) ∙ (ap named e ∙ named-level_name m),
  λ n h. ground arith,
  λ l. named_below l,
)
