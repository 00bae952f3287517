-- ===== src/LoopDxe/Factory/Bounded.antt =====
-- Loop disks whose byte offsets do not wrap around, and the table of such disks.
use mount.Prelude.{ℕ, ◌<◌, Bool}
use mount.Efi.{LoopDisk, Neutral, Handle, Firmware, State}
use mount.LoopDxe.Factory.{loop_factory_destroy}
use mount.LoopDxe.Factory.Invariant.{
  IsLoopDisk, made_disk-IsLoopDisk, AllDisks, Neutral-AllDisks, destroy-AllDisks, Step, Creates,
  Step-AllDisks,
}

-- 2 ^ 53 blocks are 2 ^ 64 bytes.
abbrev pub IsSmall : ℕ → Type 0
IsSmall last_block = last_block < 0x20_0000_0000_0000

abbrev pub IsBounded : LoopDisk → Type 0
IsBounded disk = IsLoopDisk disk × IsSmall disk.last_block

abbrev pub AllBounded : State → Type 0
AllBounded = AllDisks IsBounded

pub Neutral-AllBounded : (s t : State) → Neutral s t → AllBounded s → AllBounded t
Neutral-AllBounded = Neutral-AllDisks IsBounded

module _ (fw : Firmware) where
  pub destroy-AllBounded :
      (s : State) (handle : Handle) (out : Bool)
      → AllBounded s
      → AllBounded (loop_factory_destroy fw handle out s).1
  destroy-AllBounded = destroy-AllDisks fw IsBounded

  pub Step-AllBounded :
      {s t : State} (step : Step fw s t) → Creates fw IsSmall step → AllBounded s → AllBounded t
  Step-AllBounded = Step-AllDisks fw IsBounded IsSmall (λ file last seq path handle small there.
      (made_disk-IsLoopDisk file last seq path handle there, small))
