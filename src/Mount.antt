-- ===== src/Mount.antt =====
-- MountPkg/Application/Mount/Mount.c: the entry point. A run that does not end in `rounds` is
-- `none`; `full` is what the local arrays hold before they are written.
pub mod Dispatch
pub mod Unknown
pub mod Exit
pub mod Machine
pub mod Plain
pub mod Cases
pub mod Session
pub mod Bounded
pub mod History
pub mod Survival
pub mod Served
pub mod Passes
use mount.Prelude.{
  ℕ, ◌||◌, Option, none, some, List, [], ◌∷◌, ◌==◌, if◌then◌else◌, Text, codes, text_eq,
}
use mount.Efi.{
  Status, efi_success, efi_error, status_invalid_parameter, Message, Firmware, M, pure, ◌>>=◌, ◌>>◌,
  ask, say,
}
use mount.Formats.{FormatEntry, formats, find_format, unit, next}
use mount.FsDriver.Run.{mount_run_format}
use mount.LoopDisk.Iso.{mount_run_iso}
use mount.MapReport.Report.{map_print_current_mappings}
use mount.SelfTest.{mount_self_test}

-- The version on the console.
abbrev pub print_version : M (Unit {0})
print_version = say Message.version

-- The lines of the table.
unfoldable pub print_formats : List FormatEntry → M (Unit {0})
print_formats [] = pure tt
print_formats (e ∷ es) = do
  say (Message.format_line e.name e.driver_file e.notes e.tested)
  print_formats es

unfoldable pub print_help : M (Unit {0})
print_help = do say Message.help; print_formats formats

module _ (fw : Firmware) (rounds : ℕ) (full : Text) where
  unfoldable pub run_iso : List Text → M (Option Status)
  run_iso [] = do say Message.iso_requires_path; pure (some status_invalid_parameter)
  run_iso (path ∷ rest) = mount_run_iso fw rounds path full

  -- The word behind the dash.
  unfoldable pub run_option : Text → M (Option Status)
  run_option name = elim (find_format (some name)) [
    | none ↦ (do
      say (Message.unknown_format name)
      print_help
      pure (some status_invalid_parameter))
    | some e ↦ mount_run_format fw rounds (some e) full
  ]

  -- Argv[1], and what follows it.
  unfoldable pub run_word : Text → List Text → M (Option Status)
  run_word word rest =
      if text_eq word (codes "-?") || text_eq word (codes "-h")
      then (do print_help; pure (some efi_success))
      else if text_eq word (codes "selftest")
      then (mount_self_test fw full >>= λ status. pure (some status))
      else if text_eq word (codes "-ISO")
      then run_iso rest
      else if unit word == b'-'
      then run_option (next word)
      else (do say (Message.unknown_option word); pure (some status_invalid_parameter))

  unfoldable pub list_mappings : M (Option Status)
  list_mappings = do map_print_current_mappings; print_help; pure (some efi_success)

  -- Argv
  unfoldable pub run_arguments : List Text → M (Option Status)
  run_arguments [] = list_mappings
  run_arguments (program ∷ []) = list_mappings
  run_arguments (program ∷ word ∷ rest) = run_word word rest

  unfoldable pub uefi_main : M (Option Status)
  uefi_main = do
    print_version
    (status, arguments) ← ask (λ l. fw.arguments l)
    if efi_error status then (do print_help; pure (some efi_success)) else run_arguments arguments
