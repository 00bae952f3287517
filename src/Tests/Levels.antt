-- ===== src/Tests/Levels.antt =====
-- The fixed mask of debug messages.
use mathlib.Core.Path.{◌≡◌, refl}
use mount.DebugPrintErrorLevelLib.{DebugLevels, get_debug_print_error_level}

-- The values of the EDK II documentation.
abbrev levels : DebugLevels
levels = record {
  debug_init = 0x1;
  debug_warn = 0x2;
  debug_load = 0x4;
  debug_info = 0x40;
  debug_error = 0x8000_0000;
}

fixed_mask : get_debug_print_error_level levels ≡ 0x8000_0047
unfolding get_debug_print_error_level
fixed_mask = refl
