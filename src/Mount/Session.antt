-- ===== src/Mount/Session.antt =====
-- The application and the resident driver together: what is mounted after any runs of `mount`.
use mount.Prelude.{ℕ, ◌≤◌, ◌≡◌, inl, inr, none, [], arith, Text}
use mount.Efi.{Ptr, Firmware, State, allocs, frees, Neutral}
use mount.Mount.Machine.{IsMachine}
use mount.LoopDxe.Factory.Invariant.{Step}
use mount.LoopDxe.Factory.Ledger.{Ledger, find, Moves, Refines}
use mount.LoopDxe.Factory.Ledger.Simulation.{
  Handed, nothing, both, FilesFollow, Settles, Follows, Simulated-Settles, Settles-Reaches,
  Settles-trans, Follows-trans, Follows-Neutral,
}
use mount.LoopDxe.Factory.Ledger.Steps.{handed, Step-Simulated}
use mount.SelfTest.Balance.{mount_self_test-Follows}
use mount.Mount.{uefi_main}
use mount.Mount.Dispatch.{greeted}
use mount.Mount.Cases.{uefi_main-cases}
use mount.Mount.Plain.{Plain-Follows}

-- A run of `mount`, with whatever arguments the Shell hands out, or a step of the driver. `full` is
-- what a local array holds before it is written.
pub data Session (fw : Firmware) (rounds : ℕ) : State → State → Type 0 where
  run : (s : State) (full : Text) → Session fw rounds s (uefi_main fw rounds full s).1
  driver_step : {s t : State} → Step fw s t → Session fw rounds s t

pub data Sessions (fw : Firmware) (rounds : ℕ) (s : State) : State → Type 0 where
  here : Sessions fw rounds s s
  after : {t u : State} → Sessions fw rounds s t → Session fw rounds t u → Sessions fw rounds s u

module _ (fw : Firmware) (rounds : ℕ) where
  -- The files that the steps of a session hand over between the driver and its clients other than
  -- `mount`.
  abbrev pub handed_by : {s t : State} → Session fw rounds s t → Handed
  handed_by (Session.run s full) = nothing
  handed_by (Session.driver_step step) = handed fw step

  abbrev pub handed_over : {s t : State} → Sessions fw rounds s t → Handed
  handed_over Sessions.here = nothing
  handed_over (Sessions.after before step) = both (handed_over before) (handed_by step)

module _ (fw : Firmware) (rounds : ℕ) (laws : IsMachine fw rounds) (s : State)
    (sane : (q : Ptr) → frees q s.log ≤ allocs q s.log) where
  uefi_main-Follows :
      (full : Text) (t : State) (l : Ledger)
      → Refines s t l
      → Follows s t (uefi_main fw rounds full t).1 l
  uefi_main-Follows full t l r =
      let u : State = greeted t in
      let quiet : Neutral t u = λ q. ground arith in
      Follows-trans s t u _ l (Follows-Neutral s t u l quiet r) (λ m c.
        elim (uefi_main-cases fw rounds laws s sane full t m c) [
          | inl plain ↦ Plain-Follows fw rounds laws s sane u _ m c plain
          | inr (_, tested) ↦
              rw tested (mount_self_test-Follows fw laws.honest laws.appends s sane full u m c)
        ])

  pub Session-Settles :
      {t u : State} (l : Ledger) (step : Session fw rounds t u)
      → Refines s t l
      → Settles (handed_by fw rounds step) s t u l
  Session-Settles l (Session.run t full) r = uefi_main-Follows full t l r
  Session-Settles {t} {u} l (Session.driver_step step) r =
      Simulated-Settles (handed fw step) s t u l
        (Step-Simulated fw laws.honest laws.appends s sane l step r)

  pub Sessions-Settles :
      ((q : Ptr) → s.disks q ≡ none)
      → {t : State} (session : Sessions fw rounds s t)
      → Settles (handed_over fw rounds session) s s t []
  unfolding find
  Sessions-Settles none_yet Sessions.here = (
    [],
    Moves.here,
    record { table = none_yet; apart = tt; memory = λ q. omega arith },
    λ q. omega arith,
  )
  Sessions-Settles none_yet (Sessions.after {t} {u} before step) =
      Settles-trans (handed_over fw rounds before) (handed_by fw rounds step) s s t u []
        (Sessions-Settles none_yet before) (λ m r. Session-Settles m step r)

  -- The driver's table after a session is a ledger.
  pub Sessions-Refines :
      ((q : Ptr) → s.disks q ≡ none)
      → {t : State} → Sessions fw rounds s t
      → (l : Ledger) × Moves [] l × Refines s t l
  Sessions-Refines none_yet {t} session =
      Settles-Reaches (handed_over fw rounds session) s s t [] (Sessions-Settles none_yet session)

  -- If LocateHandleBuffer returns a buffer exactly when it succeeds, one of the first `rounds` fs
  -- names is free at any time, pool allocation returns NULL or an address that is free, no memory
  -- but a loop disk carries the signature of one, and AppendDevicePathNode appends, then any
  -- session (runs of `mount` with any arguments, calls of the driver, and steps of others that
  -- leave the disks alone and give back what they take) from a state without loop disks, in which
  -- no address is freed more often than allocated, keeps account of the files. There is a ledger of
  -- the mounted disks, which the driver's table is, such that each file has been opened, or handed
  -- in by another client's successful creation, as often as it has been closed, or given up by
  -- another client's successful destruction, and mounted disks stand on it. So without other
  -- clients the files left open are exactly those of the mounted disks, whatever failed on the way.
  pub Sessions-FilesFollow :
      ((q : Ptr) → s.disks q ≡ none)
      → {t : State} (session : Sessions fw rounds s t)
      → (l : Ledger) × Refines s t l × FilesFollow (handed_over fw rounds session) s t [] l
  Sessions-FilesFollow none_yet session =
      let (l, _, r, files) = Sessions-Settles none_yet session in (l, r, files)
