-- ===== src/LoopDisk/Create.antt =====
-- `LoopCreate`: an image file is opened, checked and sniffed, and becomes a loop device.
pub mod Parts
pub mod Ownership
pub mod Disk
pub mod Blocks
pub mod Success
pub mod Failed
pub mod Entry
pub mod Bounded
use mount.Prelude.{
  ℕ, ◌-◌, ◌*◌, ◌/◌, ◌%◌, Bool, true, false, not, ◌&&◌, Option, none, some, ltb, ◌==◌, if◌then◌else◌,
  Text,
}
use mount.Efi.{
  Status, efi_success, efi_out_of_resources, efi_error, status_driver_missing, status_secure_boot,
  status_iso_error, Ptr, Handle, DevicePath, Message, Event, Firmware, M, pure, ◌>>=◌, ◌>>◌, emit,
  ask, say, when, allocate,
}
use mount.LoopDxe.Factory.{m_factory}
use mount.LoopDisk.Sniff.{block, loop_sniff}
use mount.LoopDisk.Factory.{mount_loop_factory_get, mount_iso_file_device_path}

-- LOOP_MIN_SIZE
abbrev pub loop_min_size : ℕ
loop_min_size = 16 * block

-- What `LoopCreate` hands out: `*LoopHandle`, `*Iso9660` and `*Udf`.
pub record Loop : Type 0 where
  pub handle : Handle
  pub iso9660 : Bool
  pub udf : Bool

abbrev pub no_loop : Loop
no_loop = record { handle = 0; iso9660 = false; udf = false }

abbrev pub handle_or_null : Option Handle → Handle
handle_or_null none = 0
handle_or_null (some handle) = handle

-- The message of a failed creation: `MountLoopFactoryGet` has printed those of two codes.
abbrev pub create_message : Status → M (Unit {0})
create_message status =
    when (not (status == status_driver_missing) && not (status == status_secure_boot))
      (say (Message.loop_create_failed status))

module _ (fw : Firmware) (iso_path full : Text) where
  -- The factory is found and asked for the device.
  unfoldable pub make_device :
      (file : Ptr) (file_size : ℕ) → DevicePath → M (Status × Option Handle)
  make_device file file_size path = do
    status ← mount_loop_factory_get fw full
    if status == efi_success
        then (m_factory fw).create file (some path) (file_size / block - 1) true
        else pure (status, none)

  -- From the factory on, with the file open and its device path made.
  unfoldable pub create_device :
      (file : Ptr) (file_size : ℕ) → DevicePath → Bool × Bool → M (Status × Loop)
  create_device file file_size path (iso9660, udf) = do
    (status, handle) ← make_device file file_size path
    emit (Event.freed path.address)
    let loop : Loop = record { handle = handle_or_null handle; iso9660 = iso9660; udf = udf }
    if not (status == efi_success)
        then (do create_message status; emit (Event.closed file); pure (status, loop))
        else pure (efi_success, loop)

  -- From the sniff on.
  unfoldable pub sniff_and_create : (file : Ptr) (file_size : ℕ) → M (Status × Loop)
  sniff_and_create file file_size = do
    sniffed ← loop_sniff fw file
    path ← mount_iso_file_device_path fw iso_path
    elim path [
      | none ↦ (do
        say (Message.no_device_path iso_path)
        emit (Event.closed file)
        pure (status_iso_error, record { handle = 0; iso9660 = sniffed.0; udf = sniffed.1 }))
      | some path ↦ create_device file file_size path sniffed
    ]

  -- The size checks.
  unfoldable pub check_size : (file : Ptr) (file_size : ℕ) → M (Status × Loop)
  check_size file file_size =
      if ltb file_size loop_min_size
      then (do
        say Message.file_too_small
        emit (Event.closed file)
        pure (status_iso_error, no_loop))
      else (do
        when (not (file_size % block == 0)) (say Message.tail_ignored)
        sniff_and_create file file_size)

  -- The file information: a call for its size, a buffer, and the call that fills it.
  unfoldable pub stat_and_create : Ptr → M (Status × Loop)
  stat_and_create file = do
    (size, _, _) ← ask (λ l. fw.info_of l file)
    info ← allocate fw size
    if info == 0 then (do emit (Event.closed file); pure (efi_out_of_resources, no_loop)) else (do
      (_, status, file_size) ← ask (λ l. fw.info_of l file)
      if efi_error status
          then (do
            say (Message.cannot_stat iso_path)
            emit (Event.freed info)
            emit (Event.closed file)
            pure (status_iso_error, no_loop))
          else (do emit (Event.freed info); check_size file file_size))

  unfoldable pub loop_create : M (Status × Loop)
  loop_create = do
    (status, file) ← ask (λ l. fw.open_by_name l iso_path)
    if efi_error status
        then (do say (Message.cannot_open iso_path status); pure (status_iso_error, no_loop))
        else (do emit (Event.opened iso_path file); stat_and_create file)
