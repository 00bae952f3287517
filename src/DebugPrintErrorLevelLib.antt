-- ===== src/DebugPrintErrorLevelLib.antt =====
-- MountPkg/Library/FixedDebugPrintErrorLevelLib: which debug messages reach the serial line.
use Prim.Native.Nat.{ℕ, bit_or}
use mathlib.Core.Bool.{Bool, true}

-- The levels of a debug message, as MdePkg/Include/Library/DebugLib.h defines them.
pub record DebugLevels : Type 0 where
  pub debug_init : ℕ
  pub debug_warn : ℕ
  pub debug_load : ℕ
  pub debug_info : ℕ
  pub debug_error : ℕ

unfoldable pub get_debug_print_error_level : DebugLevels → ℕ
get_debug_print_error_level l =
    bit_or (bit_or (bit_or (bit_or l.debug_error l.debug_init) l.debug_warn) l.debug_load)
      l.debug_info

-- The level that is asked for is ignored.
unfoldable pub set_debug_print_error_level : ℕ → Bool
set_debug_print_error_level error_level = true
