-- ===== src/FsDriver/Run.antt =====
-- `MountRunFormat`: the flow of `mount -<FORMAT>`.
pub mod Flow
pub mod Reported
pub mod Images
pub mod Once
use mount.Prelude.{ℕ, not, Option, none, some, List, ◌==◌, if◌then◌else◌, Text}
use mount.Efi.{
  Status, efi_success, status_invalid_parameter, Ptr, Handle, Message, Firmware, M, pure, ◌>>=◌,
  ◌>>◌, say, free_unless_null,
}
use mount.Formats.{FormatEntry}
use mount.FsDriver.Loaded.{mount_driver_loaded}
use mount.FsDriver.Load.{mount_load_driver}
use mount.MapReport.Handles.{map_snapshot_fs_handles, map_connect_all_controllers}
use mount.MapReport.Refresh.{map_refresh_shell}
use mount.MapReport.Report.{map_print_new_volumes}

module _ (fw : Firmware) (rounds : ℕ) where
  -- The rescan, the refresh and the report; `none` if the refresh does not end in `rounds`. The
  -- flow of `mount -ISO` ends with the same calls.
  unfoldable pub rescan_and_report : Ptr → List Handle → M (Option Status)
  rescan_and_report buffer old = map_connect_all_controllers fw >>= λ _. do
    refreshed ← map_refresh_shell fw rounds
    elim refreshed [
      | none ↦ pure none
      | some _ ↦ (do map_print_new_volumes fw old; free_unless_null buffer; pure (some efi_success))
    ]

  -- The driver is loaded already, or is loaded now.
  unfoldable pub ensure_driver : FormatEntry → Text → M Status
  ensure_driver e full = do
    loaded ← mount_driver_loaded fw e.driver_file
    if loaded
        then (do say (Message.driver_already_loaded e.name); pure efi_success)
        else mount_load_driver fw (some e.driver_file) full

  unfoldable pub mount_run_format : Option FormatEntry → Text → M (Option Status)
  mount_run_format none full = pure (some status_invalid_parameter)
  mount_run_format (some e) full = do
    (_, buffer, old) ← map_snapshot_fs_handles fw
    status ← ensure_driver e full
    if not (status == efi_success)
        then (do free_unless_null buffer; pure (some status))
        else rescan_and_report buffer old
