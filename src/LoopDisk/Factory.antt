-- ===== src/LoopDisk/Factory.antt =====
-- `MountLoopFactoryGet` and `MountIsoFileDevicePath`.
use mount.Prelude.{not, Option, none, some, ◌==◌, if◌then◌else◌, Text, codes}
use mount.Efi.{
  Status, efi_success, efi_security_violation, efi_error, status_driver_missing, status_secure_boot,
  Ptr, DevicePath, Message, Event, Firmware, M, pure, ◌>>=◌, ◌>>◌, emit, ask, say, new_path,
  load_image, start_image,
}
use mount.FsDriver.SelfPath.{mount_build_driver_device_path}

-- LOOP_DRIVER_FILE
abbrev pub loop_driver_file : Text
loop_driver_file = codes "drivers\\loop_x64.efi"

module _ (fw : Firmware) where
  -- The last look for the factory.
  unfoldable pub locate_again : M Status
  locate_again = do
    status ← ask (λ l. fw.locate_factory l)
    if efi_error status
        then (do say Message.no_loop_factory; pure status_driver_missing)
        else pure efi_success

  unfoldable pub start_loop_driver : Ptr → M Status
  start_loop_driver image = do
    status ← start_image fw image
    if efi_error status
        then (do
          say (Message.loop_driver_start_failed status)
          emit (Event.image_unloaded image)
          pure status_driver_missing)
        else locate_again

  unfoldable pub load_loop_driver : DevicePath → M Status
  load_loop_driver path = do
    (status, image) ← load_image fw path
    emit (Event.freed path.address)
    if efi_error status
        then (if status == efi_security_violation
            then (do say Message.loop_driver_blocked; pure status_secure_boot)
            else (do say (Message.loop_driver_load_failed status); pure status_driver_missing))
        else start_loop_driver image

  -- The factory itself is the one that the driver publishes; the result is the status. `full` is
  -- what a local array holds before it is written.
  unfoldable pub mount_loop_factory_get : Text → M Status
  mount_loop_factory_get full = do
    status ← ask (λ l. fw.locate_factory l)
    if not (efi_error status) then pure efi_success else do
      (status, path) ← mount_build_driver_device_path fw loop_driver_file full
      elim path [
        | none ↦ (do say (Message.no_self_directory status); pure status)
        | some path ↦ load_loop_driver path
      ]

  unfoldable pub mount_iso_file_device_path : Text → M (Option DevicePath)
  mount_iso_file_device_path iso_path = do
    status ← ask (λ l. fw.locate_shell l)
    if efi_error status then pure none else new_path (λ l. fw.path_of_file l iso_path)
