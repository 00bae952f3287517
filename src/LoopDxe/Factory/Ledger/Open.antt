-- ===== src/LoopDxe/Factory/Ledger/Open.antt =====
-- Which steps leave the files open that the mounted disks stand on.
use mount.Prelude.{ℕ, ◌+◌, ◌≤◌, ◌≡◌, Bool, false, Option, none, some, arith}
use mount.Efi.{Ptr, DevicePath, Firmware, State, opens, closes, FilesBalanced}
use mount.LoopDxe.BlockIo.ReadOnly.{serve_all, serve_all-Unchanged}
use mount.LoopDxe.Factory.{loop_factory_create, build_disk, install_disk, loop_dxe_entry}
use mount.LoopDxe.Factory.Invariant.{Step}
use mount.LoopDxe.Factory.Ledger.{Ledger, Refines}
use mount.LoopDxe.Factory.Ledger.Keeps.{Keeps, is_destroy}
use mount.LoopDxe.Factory.Ledger.Simulation.{nothing, FilesFollow}
use mount.LoopDxe.Factory.Ledger.Steps.{other_calls-counts}
use mount.LoopDxe.Factory.Ledger.Unordered.{backed-le}

-- Between the two states no file is closed more often than opened.
abbrev pub StaysOpen : State → State → Type 0
StaysOpen t u = (q : Ptr) → opens q t.log + closes q u.log ≤ opens q u.log + closes q t.log

-- Where no disk goes and none but the files of removed disks are closed, the files stay open.
pub Keeps-StaysOpen :
    {s t u : State} {l m : Ledger}
    → Refines s t l
    → Refines s u m
    → Keeps t u
    → FilesFollow nothing t u l m
    → StaysOpen t u
Keeps-StaysOpen {l = l} {m = m} r c keeps files q = omega (
  arith,
  files q,
  backed-le q l m r.apart c.apart (λ p disk e. ground (arith, keeps p disk, r.table p, c.table p)),
)

module _ (fw : Firmware) where
  create-files :
      (file : Ptr) (path : Option DevicePath) (last_block : ℕ) (out : Bool) (t : State)
      → FilesBalanced t (loop_factory_create fw file path last_block out t).1
  unfolding loop_factory_create build_disk install_disk
  create-files file none last_block out t q = omega arith
  create-files file (some path) last_block out t q = ground arith

  pub Step-StaysOpen :
      {t u : State} (step : Step fw t u) → is_destroy fw step ≡ false → StaysOpen t u
  unfolding loop_dxe_entry
  Step-StaysOpen (Step.enter t) e q = omega arith
  Step-StaysOpen (Step.create t file path last_block out) e q =
      omega (arith, create-files file path last_block out t q)
  Step-StaysOpen (Step.destroy t handle out) e q = absurd (cc)
  Step-StaysOpen (Step.outside t u a) e q = omega (arith, (a q).files)
  Step-StaysOpen (Step.requests t p disk rs found) e q =
      let (log, _, _) = serve_all-Unchanged fw disk rs t in
      ground (
        arith,
        other_calls-counts fw disk q t.log,
        other_calls-counts fw disk q (serve_all fw disk rs t).log,
      )
