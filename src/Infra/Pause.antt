-- ===== src/Infra/Pause.antt =====
-- `AsmVolatilePause` of src/infra/port_posix.h: the instruction on each kind of processor.
use Prim.Native.String.{String}
use qstorage.Prelude.{Option, none, some}

-- The macros that the compiler may define
pub data Arch : Type 0 where
  i386 x86_64 aarch64 powerpc64 loongarch64 other_arch : Arch

abbrev pub asm_volatile_pause : Arch → Option String
asm_volatile_pause i386 = some "pause"
asm_volatile_pause x86_64 = some "pause"
asm_volatile_pause aarch64 = some "yield"
asm_volatile_pause powerpc64 = some "or 27,27,27"
asm_volatile_pause loongarch64 = some "dbar 0"
asm_volatile_pause other_arch = none
