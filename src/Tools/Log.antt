-- ===== src/Tools/Log.antt =====
-- The macros and `LogShorterFileName` of src/tools/log.h. A text is the list of its characters,
-- without the byte of zero that ends it; a pointer into a text is how many characters it is from
-- its beginning.
use qstorage.Prelude.{ℕ, ◌+◌, ◌-◌, ◌≤◌, ◌<◌, List, ◌∷◌, ◌++◌, length, ltb, arith, if◌then◌else◌}

pub data InfoLogLevel : Type 0 where
  debug_level info_level warn_level error_level fatal_level header_level num_info_log_levels :
      InfoLogLevel

-- What `Log` is called with: the level, the format, and the pointer into a text that is its first
-- argument
pub record LogCall (A : Type 0) : Type 0 where
  pub level : InfoLogLevel
  pub format : List ℕ
  pub file : List ℕ
  pub offset : ℕ
  pub args : List A

-- `Log` has an empty body: whatever is observed is as before.
unfoldable pub log : {A W : Type 0} → LogCall A → W → W
log c w = w

-- `LOG_PREPEND_FILE_LINE` with the digits of a line: the format begins with "[%s:", the line and
-- "]".
abbrev pub log_prepend_file_line : (line fmt : List ℕ) → List ℕ
log_prepend_file_line line fmt = b'[' ∷ b'%' ∷ b's' ∷ b':' ∷ line ++ b']' ∷ fmt

-- `LogShorterFileName` adds to `file` what `sizeof` of its own `__FILE__` is over 18; that is the
-- name of log.h as it is included, `here`.
unfoldable pub log_shorter_file_name : (here file : List ℕ) → ℕ
log_shorter_file_name here file = let size = length here + 1 in if ltb 18 size then size - 18 else 0

-- `LOG_LEVEL`; in it `__FILE__` is the file of the caller.
unfoldable pub log_level :
    {A : Type 0} → (here file line : List ℕ) → InfoLogLevel → (fmt : List ℕ) → List A → LogCall A
log_level here file line level fmt args = record {
  level = level;
  format = log_prepend_file_line line fmt;
  file = file;
  offset = log_shorter_file_name here file;
  args = args;
}

unfoldable pub log_warn : {A : Type 0} → (here file line fmt : List ℕ) → List A → LogCall A
unfolding log_level
log_warn here file line fmt args = log_level here file line warn_level fmt args

unfoldable pub log_info : {A : Type 0} → (here file line fmt : List ℕ) → List A → LogCall A
unfolding log_level
log_info here file line fmt args = log_level here file line info_level fmt args

unfoldable pub log_debug : {A : Type 0} → (here file line fmt : List ℕ) → List A → LogCall A
unfolding log_level
log_debug here file line fmt args = log_level here file line debug_level fmt args

unfoldable pub log_error : {A : Type 0} → (here file line fmt : List ℕ) → List A → LogCall A
unfolding log_level
log_error here file line fmt args = log_level here file line error_level fmt args

unfoldable pub log_fatal : {A : Type 0} → (here file line fmt : List ℕ) → List A → LogCall A
unfolding log_level
log_fatal here file line fmt args = log_level here file line fatal_level fmt args

-- A pointer that is within a text or at its end
abbrev pub Within : {A : Type 0} → LogCall A → Type 0
Within c = c.offset ≤ length c.file

-- The shortened name is within the caller's only if that is at most 17 shorter than the name of
-- log.h, and then it has all but that many characters of it; `sizeof` counts the end of the text.
pub log_level-Within :
    {A : Type 0} (here file line : List ℕ) (level : InfoLogLevel) (fmt : List ℕ) (args : List A)
    → (length here ≤ length file + 17 → Within (log_level here file line level fmt args))
      × (length file + 17 < length here
          → length file < (log_level here file line level fmt args).offset)
unfolding log_level log_shorter_file_name
log_level-Within here file line level fmt args = (λ h. ground arith, λ h. ground arith)
