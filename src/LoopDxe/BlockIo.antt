-- ===== src/LoopDxe/BlockIo.antt =====
-- EFI_BLOCK_IO_PROTOCOL and EFI_BLOCK_IO2_PROTOCOL of a loop disk. Each function is given the
-- LOOP_DISK that BASE_CR recovers from `This`; UINTN and UINT64 have 64 bits.
pub mod Bounds
pub mod Content
pub mod Completion
pub mod ReadOnly
use mount.Prelude.{
  ℕ, ◌+◌, ◌*◌, ◌/◌, ◌%◌, Bool, not, ◌||◌, ◌&&◌, Option, none, some, List, [], ◌==◌, ltb,
  if◌then◌else◌, length, u64_mod, sub_64,
}
use mount.Efi.{
  Status, Ptr, Byte, Firmware, LoopDisk, M, pure, ◌>>=◌, ◌>>◌, emit, when, Event, efi_error,
  efi_success, efi_invalid_parameter, efi_device_error, efi_write_protected, set_position,
  read_file,
}

abbrev pub loop_block_size : ℕ
loop_block_size = 2048

-- MultU64x32
abbrev pub mult_64 : ℕ → ℕ → ℕ
mult_64 a b = a * b % u64_mod

-- The parameter tests, then the range tests of `LoopReadBlocks`.
abbrev pub bad_request : LoopDisk → (media_id buffer_size : ℕ) → Ptr → Bool
bad_request disk media_id buffer_size buffer =
    not (media_id == disk.media.media_id)
    || (buffer == 0)
    || not (buffer_size % loop_block_size == 0)

abbrev pub out_of_range : LoopDisk → (lba buffer_size : ℕ) → Bool
out_of_range disk lba buffer_size =
    ltb disk.last_block lba
    || ltb (sub_64 ((disk.last_block + 1) % u64_mod) lba) (buffer_size / loop_block_size)

-- EFI_BLOCK_IO2_TOKEN
pub record Token : Type 0 where
  pub event : Ptr
  pub transaction_status : Status

unfoldable pub complete_token : Option Token → Status → M (Option Token)
complete_token none status = pure none
complete_token (some token) status = do
  when (not (efi_error status) && not (token.event == 0)) (emit (Event.event_signaled token.event))
  pure (some (record token { transaction_status = status }))

unfoldable pub loop_reset : LoopDisk → Bool → M Status
loop_reset disk extended_verification = pure efi_success

unfoldable pub loop_write_blocks : LoopDisk → (media_id lba buffer_size : ℕ) → Ptr → M Status
loop_write_blocks disk media_id lba buffer_size buffer = pure efi_write_protected

unfoldable pub loop_flush_blocks : LoopDisk → M Status
loop_flush_blocks disk = pure efi_success

unfoldable pub loop_reset_ex : LoopDisk → Bool → M Status
loop_reset_ex disk extended_verification = pure efi_success

unfoldable pub loop_write_blocks_ex :
    LoopDisk → (media_id lba : ℕ) → Option Token → ℕ → Ptr → M (Status × Option Token)
unfolding complete_token
loop_write_blocks_ex disk media_id lba token buffer_size buffer = do
  token' ← complete_token token efi_write_protected
  pure (efi_write_protected, token')

unfoldable pub loop_flush_blocks_ex : LoopDisk → Option Token → M (Status × Option Token)
unfolding complete_token
loop_flush_blocks_ex disk token = do
  token' ← complete_token token efi_success
  pure (efi_success, token')

module _ (fw : Firmware) where
  -- The result has the bytes that were read into `Buffer`.
  unfoldable pub loop_read_blocks :
      LoopDisk → (media_id lba buffer_size : ℕ) → Ptr → M (Status × List Byte)
  loop_read_blocks disk media_id lba buffer_size buffer =
      if bad_request disk media_id buffer_size buffer
      then pure (efi_invalid_parameter, [])
      else if out_of_range disk lba buffer_size
      then pure (efi_invalid_parameter, [])
      else do
        status ← set_position fw disk.backing_file (mult_64 lba loop_block_size)
        if efi_error status then pure (status, []) else do
          (status, bytes) ← read_file fw disk.backing_file buffer_size
          if efi_error status
              then pure (status, bytes)
              else pure
                  (if length bytes == buffer_size then efi_success else efi_device_error, bytes)

  unfoldable pub loop_read_blocks_ex :
      LoopDisk → (media_id lba : ℕ) → Option Token → ℕ → Ptr → M (Status × List Byte × Option Token)
  unfolding complete_token
  loop_read_blocks_ex disk media_id lba token buffer_size buffer = do
    (status, bytes) ← loop_read_blocks disk media_id lba buffer_size buffer
    token' ← complete_token token status
    pure (status, bytes, token')
