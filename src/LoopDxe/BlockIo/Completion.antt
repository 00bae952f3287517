-- ===== src/LoopDxe/BlockIo/Completion.antt =====
-- The BlockIo2 face of a read is the BlockIo one with its token completed.
use mount.Prelude.{ℕ, ◌≡◌, refl, not, ◌&&◌, Option, none, some, ◌∷◌, arith, ◌==◌, if◌then◌else◌}
use mount.Efi.{Status, efi_error, Ptr, Event, Log, Firmware, LoopDisk, State}
use mount.LoopDxe.BlockIo.{Token, loop_read_blocks, loop_read_blocks_ex}

-- The token with its status, and the signal that its event gets.
abbrev pub completed : Option Token → Status → Option Token
completed none status = none
completed (some token) status = some (record token { transaction_status = status })

abbrev pub signaled : Option Token → Status → Log → Log
signaled none status l = l
signaled (some token) status l =
    if not (efi_error status) && not (token.event == 0)
    then Event.event_signaled token.event ∷ l
    else l

module _ (fw : Firmware) (disk : LoopDisk) (media_id lba buffer_size : ℕ) (buffer : Ptr)
    (s : State) where
  -- `LoopReadBlocksEx` returns the status and the bytes of `LoopReadBlocks`. The token, if there is
  -- one, carries that status, and its event, if there is one, is signaled once, after the read, and
  -- only if the status is no error. Nothing else happens.
  pub loop_read_blocks_ex-loop_read_blocks :
      (token : Option Token)
      → let ((status, bytes), t) = loop_read_blocks fw disk media_id lba buffer_size buffer s in
        loop_read_blocks_ex fw disk media_id lba token buffer_size buffer s
        ≡ ((status, bytes, completed token status), record t { log = signaled token status t.log })
  unfolding loop_read_blocks_ex
  loop_read_blocks_ex-loop_read_blocks none = refl
  loop_read_blocks_ex-loop_read_blocks (some token) = ground arith
