-- ===== src/LoopDxe/BlockIo/Bounds.antt =====
-- Which requests reach the backing file, and where.
use mount.Prelude.{
  u64_mod, inr, inl, Bool-cases, ◌∷◌, ℕ, ◌+◌, ◌*◌, ◌/◌, ◌%◌, ◌<◌, ◌≤◌, ◌≡◌, ◌≢◌, ◌⊎◌, [], true,
  false, arith, ◌||◌,
}
use mount.Efi.{Event, Ptr, Firmware, LoopDisk, State, efi_invalid_parameter}
use mount.LoopDxe.BlockIo.{mult_64, bad_request, out_of_range, loop_read_blocks}

-- What a caller may ask of a disk: its media, a buffer, whole blocks, all of them on the disk.
pub record IsRequest (disk : LoopDisk) (media_id lba buffer_size : ℕ) (buffer : Ptr) : Type 0 where
  pub same_media : media_id ≡ disk.media.media_id
  pub has_buffer : buffer ≢ 0
  pub whole : buffer_size % 2048 ≡ 0
  pub first : lba ≤ disk.last_block
  pub last : lba + buffer_size / 2048 ≤ disk.last_block + 1

module _ (disk : LoopDisk) (media_id lba buffer_size : ℕ) (buffer : Ptr)
    (small : disk.last_block + 1 < u64_mod) where
  pub accepts :
      IsRequest disk media_id lba buffer_size buffer
      → (bad_request disk media_id buffer_size buffer ≡ false)
        × (out_of_range disk lba buffer_size ≡ false)
  accepts r = ground arith

  -- The tests that pass say that the request is in order: the 64-bit difference is the true one.
  pub IsRequest-of_tests :
      bad_request disk media_id buffer_size buffer ≡ false
      → out_of_range disk lba buffer_size ≡ false
      → IsRequest disk media_id lba buffer_size buffer
  IsRequest-of_tests p q = record {
    same_media = ground arith;
    has_buffer = ground arith;
    whole = ground arith;
    first = ground arith;
    last = ground arith;
  }

module _ (fw : Firmware) (disk : LoopDisk) (media_id lba buffer_size : ℕ) (buffer : Ptr)
    (s : State) where
  pub loop_read_blocks-reject :
      (bad_request disk media_id buffer_size buffer || out_of_range disk lba buffer_size) ≡ true
      → loop_read_blocks fw disk media_id lba buffer_size buffer s
        ≡ ((efi_invalid_parameter, []), s)
  unfolding loop_read_blocks
  loop_read_blocks-reject h = ground arith

  -- The request is not in order, and nothing happens.
  abbrev pub Rejected : Type 0
  Rejected =
      (¬ (IsRequest disk media_id lba buffer_size buffer))
      × (loop_read_blocks fw disk media_id lba buffer_size buffer s
          ≡ ((efi_invalid_parameter, []), s))

  -- The request is in order, and the calls made are a seek to block `lba` and at most one read,
  -- of bytes that lie on the blocks of the disk.
  abbrev pub Served : Type 0
  Served =
      let seek : Event = Event.positioned disk.backing_file (lba * 2048) in
      let t = (loop_read_blocks fw disk media_id lba buffer_size buffer s).1 in
      IsRequest disk media_id lba buffer_size buffer
      × ((t.log ≡ seek ∷ s.log)
          ⊎ (t.log ≡ Event.was_read disk.backing_file buffer_size ∷ seek ∷ s.log))
      × (lba * 2048 + buffer_size ≤ (disk.last_block + 1) * 2048)

  served :
      disk.last_block < 0x20_0000_0000_0000
      → bad_request disk media_id buffer_size buffer ≡ false
      → out_of_range disk lba buffer_size ≡ false
      → Served
  unfolding loop_read_blocks
  served small p q =
      let r = IsRequest-of_tests disk media_id lba buffer_size buffer (omega arith) p q in
      let at : mult_64 lba 2048 ≡ lba * 2048 = omega (arith, r.first) in
      (r, rw (p, q, at) (ground arith), omega (arith, r.last, r.whole))

  -- On a disk whose last block is below 2^53 every call of `LoopReadBlocks` either is refused with
  -- EFI_INVALID_PARAMETER, because the request is not in order, and touches nothing, or the
  -- request is in order and only bytes of the disk's blocks are sought and read.
  pub loop_read_blocks-bounds : disk.last_block < 0x20_0000_0000_0000 → Rejected ⊎ Served
  loop_read_blocks-bounds small =
      elim (Bool-cases
        (bad_request disk media_id buffer_size buffer || out_of_range disk lba buffer_size)) [
          | inl h ↦ inl (
            λ r. refuse (accepts disk media_id lba buffer_size buffer (omega arith) r) h,
            loop_read_blocks-reject h,
          )
          | inr h ↦ inr (served small (ground arith) (ground arith))
        ]
    where
      refuse :
          (bad_request disk media_id buffer_size buffer ≡ false)
            × (out_of_range disk lba buffer_size ≡ false)
          → (bad_request disk media_id buffer_size buffer || out_of_range disk lba buffer_size)
            ≡ true
          → ⊥
      refuse (a, b) h = cc
