-- ===== src/LoopDisk/SelfTest.antt =====
-- `LoopDiskSelfTest`: a loop device over a temporary file, read back, written to and destroyed. The
-- handle that `LoopCreate` hands out carries the two protocol tables of the loop driver, so the
-- calls through them are calls of its functions.
pub mod Code
pub mod Blocks
pub mod Success
pub mod Mounts
pub mod Clean
pub mod Table
pub mod Own
pub mod Bounded
use mount.Prelude.{
  ℕ, zero, suc, ◌*◌, Bool, true, false, not, ◌&&◌, ◌||◌, Option, none, some, List, [], ◌∷◌, ◌++◌,
  ◌==◌, if◌then◌else◌, Text, codes, text_eq,
}
use mount.Efi.{
  Status, efi_success, efi_device_error, efi_write_protected, efi_out_of_resources, efi_error, Ptr,
  Handle, Byte, Event, Firmware, LoopDisk, M, pure, ◌>>=◌, ◌>>◌, emit, ask, free_unless_null,
  allocate,
}
use mount.LoopDxe.BlockIo.{Token, loop_read_blocks, loop_read_blocks_ex, loop_write_blocks}
use mount.LoopDxe.Factory.{disk_at, m_factory}
use mount.LoopDisk.Sniff.{block}
use mount.LoopDisk.Factory.{mount_loop_factory_get}
use mount.LoopDisk.Create.{loop_create}

-- LOOP_SELFTEST_PATH
abbrev pub selftest_path : Text
selftest_path = codes "fs0:\\loop_selftest.bin"

-- SetMem (Buffer, count, value)
unfoldable pub filled : (count : ℕ) → Byte → List Byte
filled zero value = []
filled (suc count) value = value ∷ filled count value

unfoldable pub mark_0 : List Byte
unfolding filled
mark_0 = filled block 0x4d

unfoldable pub mark_1 : List Byte
unfolding filled
mark_1 = filled block 0x55

-- The 16 blocks of the file.
unfoldable pub pattern : List Byte
pattern = mark_0 ++ mark_1 ++ filled (14 * block) 0

abbrev pub file_or_null : Option Ptr → Ptr
file_or_null none = 0
file_or_null (some file) = file

abbrev pub status_of : Option Token → Status
status_of none = efi_success
status_of (some token) = token.transaction_status

module _ (fw : Firmware) where
  -- A read through BlockIo gives these bytes.
  unfoldable pub reads : LoopDisk → (lba : ℕ) → Ptr → List Byte → M Bool
  reads disk lba read_back expected = do
    (status, bytes) ← loop_read_blocks fw disk disk.media.media_id lba block read_back
    pure (not (efi_error status) && text_eq bytes expected)

  -- A read through BlockIo2 with a zeroed token.
  unfoldable pub reads_ex : (disk : LoopDisk) (media_id lba : ℕ) → Ptr → List Byte → M Bool
  reads_ex disk media_id lba read_back expected = do
    (status, bytes, token) ←
        loop_read_blocks_ex fw disk media_id lba
          (some (record { event = 0; transaction_status = 0 })) block read_back
    pure (not (efi_error status) && not (efi_error (status_of token)) && text_eq bytes expected)

  -- The three reads and the write.
  unfoldable pub exercise : LoopDisk → LoopDisk → Ptr → M Bool
  exercise disk disk2 read_back = do
    a ← reads disk 0 read_back mark_0
    b ← reads disk 1 read_back mark_1
    c ← reads_ex disk2 disk.media.media_id 1 read_back mark_1
    status ← loop_write_blocks disk disk.media.media_id 0 block read_back
    pure (a && b && c && (status == efi_write_protected))

  unfoldable pub check_loop : Handle → Ptr → M Bool
  check_loop handle read_back = do
    (status, p) ← ask (λ l. fw.block_io_of l handle)
    if efi_error status then pure false else do
      (status, p2) ← ask (λ l. fw.block_io2_of l handle)
      if efi_error status
          then pure false
          else do disk ← disk_at fw p; disk2 ← disk_at fw p2; exercise disk disk2 read_back

  module _ (full : Text) where
    -- The device is destroyed, and its file closed.
    unfoldable pub destroy_loop : Handle → Bool → M Bool
    destroy_loop handle ok = do
      status ← mount_loop_factory_get fw full
      if not (status == efi_success) then pure false else do
        (status, file) ← (m_factory fw).destroy handle true
        if status == efi_success
            then (do emit (Event.closed (file_or_null file)); pure ok)
            else pure false

    unfoldable pub round_trip : Ptr → M Bool
    round_trip read_back = do
      (status, loop) ← loop_create fw selftest_path full
      ok ← if status == efi_success then check_loop loop.handle read_back else pure false
      if loop.handle == 0 then pure ok else destroy_loop loop.handle ok

    -- From the creation of the file on.
    unfoldable pub test_file : (pattern_at read_back : Ptr) → M Status
    test_file pattern_at read_back = do
      (status, file) ← ask (λ l. fw.create_by_name l selftest_path)
      if efi_error status
          then (do emit (Event.freed pattern_at); emit (Event.freed read_back); pure status)
          else do
            emit (Event.opened selftest_path file)
            (status, size) ← ask (λ l. fw.write_of l file pattern)
            emit (Event.written file pattern)
            emit (Event.closed file)
            if efi_error status || not (size == 16 * block)
                then (do
                  emit (Event.freed pattern_at)
                  emit (Event.freed read_back)
                  emit (Event.deleted selftest_path)
                  pure efi_device_error)
                else do
                  ok ← round_trip read_back
                  emit (Event.deleted selftest_path)
                  emit (Event.freed pattern_at)
                  emit (Event.freed read_back)
                  pure (if ok then efi_success else efi_device_error)

    unfoldable pub loop_disk_self_test : M Status
    loop_disk_self_test = do
      pattern_at ← allocate fw (16 * block)
      read_back ← allocate fw block
      if pattern_at == 0 || read_back == 0
          then (do
            free_unless_null pattern_at
            free_unless_null read_back
            pure efi_out_of_resources)
          else test_file pattern_at read_back
