-- ===== src/LoopDisk/Create/Bounded.antt =====
-- The loop disk that `LoopCreate` makes is well formed and small enough for its byte offsets.
use mount.Prelude.{
  ℕ, ◌<◌, ◌≡◌, ◌≢◌, sym, ◌∙◌, some, inl, inr, arith, ◌==◌, Bool-cases, Text, u64_mod,
}
use mount.Efi.{efi_success, Ptr, Firmware, State, ReportsSizes}
use mount.LoopDxe.Factory.Bounded.{AllBounded, Neutral-AllBounded}
use mount.LoopDxe.Factory.Create.{Appends}
use mount.LoopDisk.Create.{loop_create}
use mount.LoopDisk.Create.Disk.{DiskOver, loop_create-HasDisk}
use mount.LoopDisk.Create.Ownership.{FreshPool, loop_create-Neutral}

-- A disk over a file of fewer than 2^64 bytes has been added.
pub added-AllBounded :
    (fw : Firmware) (file : Ptr) (size : ℕ) (d : DiskOver fw file size) (s t : State)
    → size < u64_mod
    → ((q : Ptr) → q ≡ d.address → t.disks q ≡ some d.disk)
    → ((q : Ptr) → q ≢ d.address → t.disks q ≡ s.disks q)
    → AllBounded s
    → AllBounded t
added-AllBounded fw file size d s t fits stored other h p disk e =
    elim (Bool-cases (p == d.address)) [
      | inl same ↦
          let at : t.disks p ≡ some d.disk = stored p (ground arith) in
          let its : disk ≡ d.disk = cc in rw its (d.well, omega (arith, d.last))
      | inr differs ↦ h p disk (sym (other p (ground arith)) ∙ e)
    ]

pub loop_create-AllBounded :
    (fw : Firmware)
    → Appends fw
    → ReportsSizes fw
    → (iso_path full : Text) (s : State) → FreshPool fw s
    → AllBounded s
    → AllBounded (loop_create fw iso_path full s).1
loop_create-AllBounded fw appends sizes iso_path full s fresh h =
    let t = (loop_create fw iso_path full s).1 in
    elim (Bool-cases ((loop_create fw iso_path full s).0.0 == efi_success)) [
      | inr failed ↦
          Neutral-AllBounded s t (loop_create-Neutral fw iso_path full s fresh (ground arith)) h
      | inl done ↦
          let ((d, added, _), _) = loop_create-HasDisk fw appends iso_path full s (ground arith) in
          added-AllBounded fw _ _ d s t (sizes _ _) (λ q. (added q).stored) (λ q. (added q).other) h
    ]
