-- ===== src/LoopDxe/BlockIo/Content.antt =====
-- A read returns the bytes of the image file.
use mount.Prelude.{
  u64_mod, ℕ, ◌+◌, ◌-◌, ◌*◌, ◌/◌, ◌<◌, ◌≤◌, ◌≡◌, List, take, drop, arith, length, length-take,
  length-drop, ==_refl,
}
use mount.Efi.{Ptr, Byte, Firmware, LoopDisk, State, HoldsBytesAt, efi_success}
use mount.LoopDxe.BlockIo.{mult_64, loop_read_blocks}
use mount.LoopDxe.BlockIo.Bounds.{IsRequest, accepts}

-- A loop disk over a file: the blocks are the whole blocks of the file.
pub record Covers (disk : LoopDisk) (content : List Byte) : Type 0 where
  pub fits : length content < u64_mod
  pub nonempty : 2048 ≤ length content
  pub blocks : disk.last_block ≡ length content / 2048 - 1

length-slice :
    (content : List Byte) (position size : ℕ)
    → position + size ≤ length content
    → length (take size (drop position content)) ≡ size
length-slice content position size h =
    omega (arith, length-take size (drop position content), length-drop position content)

module _ (fw : Firmware) (disk : LoopDisk) (content : List Byte)
    (covers : Covers disk content) where
  module _ (media_id lba buffer_size : ℕ) (buffer : Ptr) (s : State)
      (request : IsRequest disk media_id lba buffer_size buffer)
      (holds : HoldsBytesAt fw s.log disk.backing_file content) where
    in_file : lba * 2048 + buffer_size ≤ length content
    in_file = omega (arith, covers.blocks, covers.nonempty, request.last, request.whole)

    no_wrap : mult_64 lba 2048 ≡ lba * 2048
    no_wrap = omega (arith, in_file, covers.fits)

    -- If the backing file holds `content` at the time of the request, which has fewer than 2^64
    -- bytes and at least one block, and the disk ends with its last whole block, a request for
    -- whole blocks of the disk, with its media id and a buffer, succeeds and fills the buffer with
    -- the bytes of the file from block `lba` on.
    pub loop_read_blocks-content :
        (loop_read_blocks fw disk media_id lba buffer_size buffer s).0
        ≡ (efi_success, take buffer_size (drop (lba * 2048) content))
    unfolding loop_read_blocks
    loop_read_blocks-content =
        let (fine, inside) =
          accepts disk media_id lba buffer_size buffer (omega (arith, covers.blocks, covers.fits))
            request in
        rw (
          fine,
          inside,
          no_wrap,
          holds.seek,
          holds.read,
          length-slice content (lba * 2048) buffer_size in_file,
          ==_refl buffer_size,
        )
