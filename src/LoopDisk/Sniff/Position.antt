-- ===== src/LoopDisk/Sniff/Position.antt =====
-- What the sniff does to the file.
use mount.Prelude.{◌≡◌, ◌⊎◌, ◌∷◌, arith}
use mount.Efi.{Ptr, Event, Firmware, State}
use mount.LoopDisk.Sniff.{loop_sniff}

module _ (fw : Firmware) (file : Ptr) (s : State) where
  -- On every path of `LoopSniff` the last call sets the file position back to 0, the calls before
  -- it are a seek to sector 16 and at most one read of six sectors, and nothing else happens.
  pub loop_sniff-rewinds :
      let t = (loop_sniff fw file s).1 in
      ((t.log ≡ Event.positioned file 0 ∷ Event.positioned file 0x8000 ∷ s.log)
        ⊎ (t.log
            ≡ Event.positioned file 0
              ∷ Event.was_read file 0x3000
              ∷ Event.positioned file 0x8000
              ∷ s.log))
      × (t.disks ≡ s.disks)
      × (t.loop_seq ≡ s.loop_seq)
  unfolding loop_sniff
  loop_sniff-rewinds = ground arith
