-- ===== src/FsDriver/Load.antt =====
-- `MountLoadDriver`.
pub mod Outcome
pub mod Blocked
use mount.Prelude.{◌||◌, Option, none, some, ◌==◌, if◌then◌else◌, Text}
use mount.Efi.{
  Status, efi_success, efi_load_error, efi_invalid_parameter, efi_not_found, efi_security_violation,
  efi_error, status_invalid_parameter, status_driver_missing, status_secure_boot, Ptr, DevicePath,
  Message, Event, Firmware, M, pure, ◌>>=◌, ◌>>◌, emit, say, load_image, start_image,
}
use mount.FsDriver.SelfPath.{mount_build_driver_device_path}
use mount.FsDriver.Loaded.{mount_driver_loaded}

module _ (fw : Firmware) where
  -- From StartImage on.
  unfoldable pub start_driver : (driver_file : Text) → Ptr → M Status
  start_driver driver_file image = do
    status ← start_image fw image
    if efi_error status
        then (do
          say (Message.start_image_failed status)
          emit (Event.image_unloaded image)
          pure status_driver_missing)
        else (do say (Message.driver_loaded_line driver_file); pure efi_success)

  -- From LoadImage on.
  unfoldable pub load_driver_image : (driver_file : Text) → DevicePath → M Status
  load_driver_image driver_file path = do
    (status, image) ← load_image fw path
    emit (Event.freed path.address)
    if status == efi_not_found || status == efi_load_error || status == efi_invalid_parameter
        then (do say (Message.driver_not_found driver_file); pure status_driver_missing)
        else if status == efi_security_violation
        then (do say Message.driver_blocked; pure status_secure_boot)
        else if efi_error status
        then (do say (Message.load_image_failed driver_file status); pure status_driver_missing)
        else start_driver driver_file image

  -- A NULL file is `none`; `full` is what a local array holds before it is written.
  unfoldable pub mount_load_driver : Option Text → Text → M Status
  mount_load_driver none full = pure status_invalid_parameter
  mount_load_driver (some driver_file) full = do
    loaded ← mount_driver_loaded fw driver_file
    if loaded then pure efi_success else do
      (status, path) ← mount_build_driver_device_path fw driver_file full
      elim path [
        | none ↦ (do say (Message.no_self_directory status); pure status_driver_missing)
        | some path ↦ load_driver_image driver_file path
      ]
