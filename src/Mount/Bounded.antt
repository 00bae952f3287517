-- ===== src/Mount/Bounded.antt =====
-- No request to a mounted disk leaves the disk, in any session.
use mount.Prelude.{ℕ, ◌≤◌, ◌≡◌, ◌⊎◌, inl, inr, some, none, arith, Text}
use mount.Efi.{Neutral, Ptr, Firmware, LoopDisk, State, ReportsSizes, allocs, frees}
use mount.LoopDxe.BlockIo.Bounds.{Rejected, Served, loop_read_blocks-bounds}
use mount.LoopDxe.Factory.Bounded.{AllBounded, IsSmall, Neutral-AllBounded, Step-AllBounded}
use mount.LoopDxe.Factory.Invariant.{IsLoopDisk, Creates}
use mount.LoopDxe.Factory.Ledger.{Ledger, Refines}
use mount.LoopDxe.Factory.Ledger.Simulation.{Refines-Neutral}
use mount.LoopDisk.Create.Bounded.{added-AllBounded}
use mount.LoopDisk.Create.Entry.{Refines-FreshPool}
use mount.SelfTest.Balance.{mount_self_test-AllBounded}
use mount.Mount.{uefi_main}
use mount.Mount.Machine.{IsMachine}
use mount.Mount.Plain.{Plain}
use mount.Mount.Dispatch.{greeted}
use mount.Mount.Cases.{uefi_main-cases}
use mount.Mount.Session.{Session, Sessions, Sessions-Refines}

module _ (fw : Firmware) (rounds : ℕ) where
  -- Other clients than `mount` create disks of at most 2^53 blocks only.
  abbrev pub AllSmall : {s t : State} → Sessions fw rounds s t → Type 0
  AllSmall Sessions.here = Unit {0}
  AllSmall (Sessions.after before (Session.run t full)) = AllSmall before
  AllSmall (Sessions.after before (Session.driver_step step)) =
      AllSmall before × Creates fw IsSmall step

module _ (fw : Firmware) (rounds : ℕ) (laws : IsMachine fw rounds) (s : State)
    (sane : (q : Ptr) → frees q s.log ≤ allocs q s.log) (sizes : ReportsSizes fw) where
  Plain-AllBounded : (t u : State) → Plain fw t u → AllBounded t → AllBounded u
  Plain-AllBounded t u (inl a) h = Neutral-AllBounded t u a h
  Plain-AllBounded t u (inr (file, size, d, (l, reported), at)) h =
      added-AllBounded fw file size d t u (omega (arith, sizes l file, reported))
        (λ q. (at q).stored) (λ q. (at q).other) h

  uefi_main-AllBounded :
      (full : Text) (t : State) (l : Ledger)
      → Refines s t l
      → AllBounded t
      → AllBounded (uefi_main fw rounds full t).1
  uefi_main-AllBounded full t l r h =
      let u : State = greeted t in
      let quiet : Neutral t u = λ q. ground arith in
      let c : Refines s u l = Refines-Neutral s t u l quiet r in
      elim (uefi_main-cases fw rounds laws s sane full t l c) [
        | inl plain ↦ Plain-AllBounded u _ plain h
        | inr (_, tested) ↦ rw tested (
            mount_self_test-AllBounded fw full laws.appends sizes u
              (Refines-FreshPool fw laws.honest laws.appends s sane u l c) h)
      ]

  module _ (none_yet : (q : Ptr) → s.disks q ≡ none) where
    Sessions-AllBounded :
        {t : State} (session : Sessions fw rounds s t) → AllSmall fw rounds session → AllBounded t
    Sessions-AllBounded Sessions.here small = λ p disk e. absurd (cc (none_yet p))
    Sessions-AllBounded (Sessions.after before (Session.run t full)) small =
        let (l, _, r) = Sessions-Refines fw rounds laws s sane none_yet before in
        uefi_main-AllBounded full t l r (Sessions-AllBounded before small)
    Sessions-AllBounded (Sessions.after before (Session.driver_step step)) (small, this) =
        Step-AllBounded fw step this (Sessions-AllBounded before small)

    -- No request leaves its disk. If LocateHandleBuffer returns a buffer exactly when it succeeds,
    -- one of the first `rounds` fs names is free at any time, pool allocation returns NULL or an
    -- address that is free, no memory but a loop disk carries the signature of one,
    -- AppendDevicePathNode appends, and GetInfo reports file sizes below 2^64, then after any
    -- session (runs of `mount` with any arguments, the self test included, calls of the driver,
    -- and steps of others that leave the disks alone and give back what they take) from a state
    -- without loop disks, in which no address is freed more often than allocated, and in which
    -- other clients than `mount` create only disks whose last block is below 2^53, every loop disk
    -- is well formed, and each call of `LoopReadBlocks` on it, in any state, either is refused with
    -- EFI_INVALID_PARAMETER, because the request is not in order, and touches nothing, or the
    -- request is in order and only bytes of the disk's blocks are sought and read.
    pub Sessions-bounds :
        {t : State} (session : Sessions fw rounds s t)
        → AllSmall fw rounds session
        → (p : Ptr) (disk : LoopDisk) → t.disks p ≡ some disk
        → (media_id lba buffer_size : ℕ) (buffer : Ptr) (u : State)
        → IsLoopDisk disk
          × (Rejected fw disk media_id lba buffer_size buffer u
              ⊎ Served fw disk media_id lba buffer_size buffer u)
    Sessions-bounds session small p disk e media_id lba buffer_size buffer u =
        let (well, fits) = Sessions-AllBounded session small p disk e in
        (well, loop_read_blocks-bounds fw disk media_id lba buffer_size buffer u fits)
