-- ===== src/SelfTest/Balance.antt =====
-- `mount selftest` and the loop disks: whatever fails, memory and files are accounted for.
use mount.Prelude.{
  ℕ, ◌≤◌, ◌≡◌, refl, Bool, true, false, not, some, List, [], ◌∷◌, arith, Text, codes,
}
use mount.Efi.{
  efi_error, Ptr, Message, Event, Firmware, State, Works, KeepsFile, allocs, frees, Neutral,
  Neutral-trans, FindsInstalled, ReportsSizes,
}
use mount.Formats.{FormatEntry, formats}
use mount.FsDriver.SelfPath.{mount_open_driver_file}
use mount.LoopDxe.Factory.Create.{Appends}
use mount.LoopDxe.Factory.Ledger.{Ledger, Refines, IsHonest}
use mount.LoopDxe.Factory.Ledger.Simulation.{Follows, Follows-Neutral, Follows-trans}
use mount.LoopDisk.Create.Ownership.{FreshPool, FreshPool-Neutral}
use mount.LoopDisk.SelfTest.{selftest_path, loop_disk_self_test}
use mount.LoopDisk.SelfTest.Mounts.{loop_disk_self_test-Follows}
use mount.LoopDxe.Factory.Ledger.Keeps.{Keeps, Neutral-Keeps}
use mount.LoopDisk.SelfTest.Own.{loop_disk_self_test-Keeps}
use mount.LoopDxe.Factory.Bounded.{AllBounded, Neutral-AllBounded}
use mount.LoopDisk.SelfTest.Bounded.{loop_disk_self_test-AllBounded}
use mount.LoopDisk.SelfTest.Clean.{loop_disk_self_test-Neutral}
use mount.SelfTest.{report, names_unique, check_files, verdict, mount_self_test}
use mount.SelfTest.Verdict.{check_files-closed}

module _ (fw : Firmware) (full : Text) where
  -- Opening a driver file takes no memory.
  mount_open_driver_file-pool :
      (file : Text) (s : State) (q : Ptr)
      → let t = (mount_open_driver_file fw (some file) full s).1 in
        (allocs q t.log ≡ allocs q s.log)
        × (frees q t.log ≡ frees q s.log)
        × (t.disks q ≡ s.disks q)
  unfolding mount_open_driver_file
  mount_open_driver_file-pool file s q = ground arith

  check_files-pool :
      (es : List FormatEntry) (all : Bool) (s : State) (q : Ptr)
      → let t = (check_files fw full es all s).1 in
        (allocs q t.log ≡ allocs q s.log)
        × (frees q t.log ≡ frees q s.log)
        × (t.disks q ≡ s.disks q)
  unfolding check_files
  check_files-pool [] all s q = (refl, refl, refl)
  check_files-pool (e ∷ es) all s q =
      let ((status, file), t) = mount_open_driver_file fw (some e.driver_file) full s in
      let a = mount_open_driver_file-pool e.driver_file s q in
      let bad : State = record t {
        log = Event.printed (Message.selftest_missing e.driver_file) ∷ t.log;
      } in
      let fine : State = record t { log = Event.closed file ∷ t.log } in
      ground (arith, a, check_files-pool es false bad q, check_files-pool es all fine q)

  check_files-Neutral :
      (es : List FormatEntry) (all : Bool) (s : State) → Neutral s (check_files fw full es all s).1
  check_files-Neutral es all s q =
      let (files, _, _) = check_files-closed fw full es all s in
      ground (arith, files q, check_files-pool es all s q)

module _ (fw : Firmware) (full : Text) where
  report-Neutral :
      (name : Text) (ok : Bool) (failures : ℕ) (t : State) → Neutral t (report name ok failures t).1
  unfolding report
  report-Neutral name ok failures t q = ground arith

  verdict-Neutral : (failures : ℕ) (t : State) → Neutral t (verdict fw full failures t).1
  unfolding verdict
  verdict-Neutral failures t q = ground arith

  -- Up to the item on the loop device, and from it on, the disks are left alone, and all is given
  -- back.
  mount_self_test-around :
      (s : State)
      → (t : State) × Neutral s t
        × Neutral (loop_disk_self_test fw full t).1 (mount_self_test fw full s).1
  unfolding mount_self_test
  mount_self_test-around s =
      let table = codes "format table integrity" in
      let (tabled, t1) = report table (names_unique formats) 0 s in
      let (all, t2) = check_files fw full formats true t1 in
      let files = codes "driver files present" in
      let (present, t3) = report files all tabled t2 in
      let (status, t4) = loop_disk_self_test fw full t3 in
      let loop = codes "loop blockio roundtrip" in
      let (failed, t5) = report loop (not (efi_error status)) present t4 in
      (
        t3,
        Neutral-trans s t1 t3 (report-Neutral table (names_unique formats) 0 s) (
            Neutral-trans t1 t2 t3 (check_files-Neutral fw full formats true t1)
              (report-Neutral files all tabled t2)),
        Neutral-trans t4 t5 (verdict fw full failed t5).1
            (report-Neutral loop (not (efi_error status)) present t4) (verdict-Neutral failed t5),
      )

  -- If no service fails that the creation and destruction of a loop disk call, the file system
  -- keeps what is written to the temporary file until it is deleted, and pool allocation, as long
  -- as no memory of the state is freed, returns an address that holds no loop disk, then `mount
  -- selftest`, whatever driver files it finds, leaves nothing behind: all memory that it allocated
  -- is freed, every file that it opened is closed, and the loop disks are as before.
  pub mount_self_test-Neutral :
      Works fw
      → (made file : Ptr) → KeepsFile fw selftest_path made file
      → (s : State) → FreshPool fw s
      → Neutral s (mount_self_test fw full s).1
  mount_self_test-Neutral works made file keeps s fresh =
      let (t, before, after) = mount_self_test-around s in
      let tested = (loop_disk_self_test fw full t).1 in
      Neutral-trans s t _ before (
        Neutral-trans t tested _
          (loop_disk_self_test-Neutral fw made file keeps works full t
            (FreshPool-Neutral fw s t fresh before))
          after)

  -- The self test destroys no loop disk that was there, if HandleProtocol finds what is installed.
  pub mount_self_test-Keeps :
      FindsInstalled fw
      → Appends fw
      → (s : State) → FreshPool fw s
      → Keeps s (mount_self_test fw full s).1
  mount_self_test-Keeps finds appends s fresh q disk e =
      let (t, before, after) = mount_self_test-around s in
      let there = Neutral-Keeps s t before q disk e in
      let kept =
        loop_disk_self_test-Keeps fw finds full appends t (FreshPool-Neutral fw s t fresh before) q
          disk there in
      Neutral-Keeps (loop_disk_self_test fw full t).1 _ after q disk kept

  -- The self test keeps the loop disks well formed and small enough.
  pub mount_self_test-AllBounded :
      Appends fw
      → ReportsSizes fw
      → (s : State) → FreshPool fw s
      → AllBounded s
      → AllBounded (mount_self_test fw full s).1
  mount_self_test-AllBounded appends sizes s fresh h =
      let (t, before, after) = mount_self_test-around s in
      Neutral-AllBounded (loop_disk_self_test fw full t).1 _ after (
        loop_disk_self_test-AllBounded fw appends sizes full t
          (FreshPool-Neutral fw s t fresh before) (Neutral-AllBounded s t before h))

module _ (fw : Firmware) (honest : IsHonest fw) (appends : Appends fw) (s : State)
    (sane : (q : Ptr) → frees q s.log ≤ allocs q s.log) (full : Text) where
  pub mount_self_test-Follows :
      (t : State) (l : Ledger) → Refines s t l → Follows s t (mount_self_test fw full t).1 l
  mount_self_test-Follows t l r =
      let (u, before, after) = mount_self_test-around fw full t in
      let tested = (loop_disk_self_test fw full u).1 in
      Follows-trans s t u _ l (Follows-Neutral s t u l before r) (λ m c.
        Follows-trans s u tested _ m
          (loop_disk_self_test-Follows fw honest appends s sane full u m c)
          (λ n d. Follows-Neutral s tested _ n after d))
