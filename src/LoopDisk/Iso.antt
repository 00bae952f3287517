-- ===== src/LoopDisk/Iso.antt =====
-- `MountRunIso`: the flow of `mount -ISO`.
use mount.Prelude.{ℕ, not, ◌&&◌, Option, some, List, ◌==◌, if◌then◌else◌, Text, codes}
use mount.Efi.{
  Status, efi_success, Ptr, Handle, Message, Firmware, M, pure, ◌>>=◌, ◌>>◌, say, free_unless_null,
  connect_controller,
}
pub mod Flow
pub mod Mounted
pub mod Reported
use mount.MapReport.Handles.{map_snapshot_fs_handles}
use mount.FsDriver.Loaded.{mount_driver_loaded}
use mount.FsDriver.Load.{mount_load_driver}
use mount.FsDriver.Run.{rescan_and_report}
use mount.LoopDisk.Create.{Loop, loop_create}

abbrev pub iso9660_driver_file : Text
iso9660_driver_file = codes "drivers\\iso9660_x64.efi"

module _ (fw : Firmware) (rounds : ℕ) where
  -- The driver that a pure ISO9660 image needs is loaded, if it is not yet: EFI_SUCCESS if the
  -- flow may go on to connect the device.
  unfoldable pub claim_driver : Loop → Text → M Status
  claim_driver loop full =
      if loop.iso9660 && not loop.udf
      then (do
        loaded ← mount_driver_loaded fw iso9660_driver_file
        if loaded then pure efi_success else mount_load_driver fw (some iso9660_driver_file) full)
      else pure efi_success

  -- From the message on that the loop device is created.
  unfoldable pub connect_loop : Text → Loop → Text → Ptr → List Handle → M (Option Status)
  connect_loop iso_path loop full buffer old = do
    say (Message.loop_created iso_path)
    status ← claim_driver loop full
    if not (status == efi_success)
        then (do
          say Message.iso9660_driver_missing
          say Message.loop_device_kept
          free_unless_null buffer
          pure (some efi_success))
        else (connect_controller fw loop.handle >>= λ _. rescan_and_report fw rounds buffer old)

  unfoldable pub mount_run_iso : (iso_path full : Text) → M (Option Status)
  mount_run_iso iso_path full = do
    (_, buffer, old) ← map_snapshot_fs_handles fw
    (status, loop) ← loop_create fw iso_path full
    if not (status == efi_success)
        then (do free_unless_null buffer; pure (some status))
        else connect_loop iso_path loop full buffer old
