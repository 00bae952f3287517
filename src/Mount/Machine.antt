-- ===== src/Mount/Machine.antt =====
-- What the theorems on sessions ask of the firmware, at any time.
use mount.Prelude.{ℕ}
use mount.Efi.{Firmware, ListsHandles}
use mount.MapReport.Refresh.Complete.{FreeSoon}
use mount.LoopDxe.Factory.Create.{Appends}
use mount.LoopDxe.Factory.Ledger.{IsHonest}

-- Pool allocation returns NULL or an address that is free, and no memory but a loop disk carries
-- the signature of one. AppendDevicePathNode appends. LocateHandleBuffer returns a buffer exactly
-- when it succeeds. One of the first `rounds` fs names is free.
pub record IsMachine (fw : Firmware) (rounds : ℕ) : Type 0 where
  pub honest : IsHonest fw
  pub appends : Appends fw
  pub lists : ListsHandles fw
  pub soon : FreeSoon fw rounds
