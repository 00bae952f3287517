-- ===== src/LoopDisk/SelfTest/Own.antt =====
-- The self test of loop devices destroys no loop disk but its own.
use mount.Prelude.{
  ℕ, ◌≡◌, ap, refl, sym, ◌∙◌, ◌≢◌, inl, inr, Bool, true, false, none, some, List, arith, ◌==◌,
  Bool-cases, Text,
}
use mount.Efi.{
  efi_success, efi_error, Ptr, Handle, Byte, DevicePath, Firmware, LoopDisk, State, ◌>>=◌,
  installed_at, FindsInstalled,
}
use mount.FsDriver.Load.Outcome.{mount_build_driver_device_path-Built}
use mount.LoopDxe.BlockIo.{complete_token, loop_read_blocks, loop_read_blocks_ex, loop_write_blocks}
use mount.LoopDxe.Factory.{disk_at, loop_disk_size, loop_factory_destroy}
use mount.LoopDxe.Factory.Create.{Appends}
use mount.LoopDxe.Factory.Destroy.{loop_factory_destroy-error}
use mount.LoopDxe.Factory.Ledger.Keeps.{Keeps}
use mount.LoopDxe.Factory.Ledger.Steps.{loop_factory_destroy-frees}
use mount.LoopDisk.Factory.{
  loop_driver_file, locate_again, start_loop_driver, load_loop_driver, mount_loop_factory_get,
}
use mount.LoopDisk.Create.{loop_create}
use mount.LoopDisk.Create.Parts.{AfterAlloc, mount_loop_factory_get-Neutral}
use mount.LoopDisk.Create.Disk.{loop_create-HasDisk}
use mount.LoopDisk.Create.Ownership.{FreshPool, loop_create-Neutral}
use mount.LoopDisk.SelfTest.{
  selftest_path, mark_0, mark_1, reads, reads_ex, exercise, check_loop, destroy_loop, round_trip,
  loop_disk_self_test,
}
use mount.LoopDisk.Create.Failed.{loop_create-no_handle}
use mount.LoopDisk.SelfTest.Table.{loop_disk_self_test-table}
use mount.LoopDisk.SelfTest.Mounts.{check_loop-Neutral}

-- The handles keep their loop disks.
abbrev SameHandles : State → State → Type 0
SameHandles s t = (h : Handle) → installed_at h t.log ≡ installed_at h s.log

module _ (fw : Firmware) where
  reads-SameHandles :
      (disk : LoopDisk) (lba : ℕ) (b : Ptr) (mark : List Byte) (s : State)
      → SameHandles s (reads fw disk lba b mark s).1
  unfolding reads loop_read_blocks
  reads-SameHandles disk lba b mark s h = ground arith

  reads_ex-SameHandles :
      (disk : LoopDisk) (media_id lba : ℕ) (b : Ptr) (mark : List Byte) (s : State)
      → SameHandles s (reads_ex fw disk media_id lba b mark s).1
  unfolding reads_ex loop_read_blocks_ex loop_read_blocks complete_token
  reads_ex-SameHandles disk media_id lba b mark s h = ground arith

  exercise-SameHandles :
      (disk disk2 : LoopDisk) (b : Ptr) (s : State) → SameHandles s (exercise fw disk disk2 b s).1
  unfolding exercise loop_write_blocks
  exercise-SameHandles disk disk2 b s h =
      let t = (reads fw disk 0 b mark_0 s).1 in
      let u = (reads fw disk 1 b mark_1 t).1 in
      ground (
        arith,
        reads-SameHandles disk 0 b mark_0 s h,
        reads-SameHandles disk 1 b mark_1 t h,
        reads_ex-SameHandles disk2 disk.media.media_id 1 b mark_1 u h,
      )

  check_loop-SameHandles :
      (handle : Handle) (b : Ptr) (s : State) → SameHandles s (check_loop fw handle b s).1
  unfolding check_loop
  check_loop-SameHandles handle b s h =
      let disk = (disk_at fw (fw.block_io_of s.log handle).1 s).0 in
      let disk2 = (disk_at fw (fw.block_io2_of s.log handle).1 s).0 in
      ground (arith, exercise-SameHandles disk disk2 b s h)

  module _ (full : Text) where
    load_loop_driver-SameHandles :
        (path : DevicePath) (s : State) → SameHandles s (load_loop_driver fw path s).1
    unfolding load_loop_driver start_loop_driver locate_again
    load_loop_driver-SameHandles path s h = ground arith

    mount_loop_factory_get-SameHandles :
        (s : State) → SameHandles s (mount_loop_factory_get fw full s).1
    unfolding mount_loop_factory_get
    mount_loop_factory_get-SameHandles s = elim (Bool-cases (efi_error (fw.locate_factory s.log))) [
      | inr there ↦ rw there (λ h. refl)
      | inl missing ↦
          rw missing (elim (mount_build_driver_device_path-Built fw loop_driver_file full s) [
            | inl (status, e) ↦ rw (e, ◌>>=◌) (λ h. refl)
            | inr (path, at, e) ↦
                rw (e, ◌>>=◌) (load_loop_driver-SameHandles path (AfterAlloc path.address s))
          ])
    ]

module _ (fw : Firmware) (finds : FindsInstalled fw) (full : Text) where
  -- A destruction by a handle takes no disk but the one that is installed there.
  destroy_loop-others :
      (handle : Handle) (ok : Bool) (p q : Ptr) (s : State)
      → installed_at handle s.log ≡ some p
      → q ≢ p
      → (destroy_loop fw full handle ok s).1.disks q ≡ s.disks q
  unfolding destroy_loop
  destroy_loop-others handle ok p q s installed other =
      let (status, t) = mount_loop_factory_get fw full s in
      let same = (mount_loop_factory_get-Neutral fw full s q).disk in
      let at : (fw.block_io_of t.log handle).1 ≡ p =
        ap (λ r. r.1)
          (finds t.log handle p
            (mount_loop_factory_get-SameHandles fw full s handle ∙ installed)) in
      elim (Bool-cases (status == efi_success)) [
        | inr absent ↦ rw absent same
        | inl there ↦
            rw there
              (elim (Bool-cases ((loop_factory_destroy fw handle true t).0.0 == efi_success)) [
                | inl done ↦
                    let (_, disks, _) =
                      loop_factory_destroy-frees fw handle true t (ground arith) in
                    let miss : (q == p) ≡ false = ground arith in
                    rw done (rw (at, miss) at (disks q) ∙ same)
                | inr failed ↦
                    let (_, disks, _, _, _) =
                      loop_factory_destroy-error fw handle true t (ground arith) in
                    rw failed (ap (λ table. table q) disks ∙ same)
              ])
      ]

  module _ (appends : Appends fw) where
    round_trip-Keeps : (b : Ptr) (s : State) → FreshPool fw s → Keeps s (round_trip fw full b s).1
    unfolding round_trip
    round_trip-Keeps b s fresh q disk e =
        let ((status, loop), t) = loop_create fw selftest_path full s in
        elim (Bool-cases (status == efi_success)) [
          | inr failed ↦
              let none_out = loop_create-no_handle fw selftest_path full s (ground arith) in
              let a = loop_create-Neutral fw selftest_path full s fresh (ground arith) q in
              rw (failed, none_out) (a.disk ∙ e)
          | inl done ↦
              let ((d, added, installed), _) =
                loop_create-HasDisk fw appends selftest_path full s (ground arith) in
              let (ok, u) = check_loop fw loop.handle b t in
              let used = (check_loop-Neutral fw loop.handle b t q).disk in
              let free : s.disks d.address ≡ none = rw (sym d.allocated) at (
                fresh d.before loop_disk_size (λ r. ground (arith, (added r).live))
                  (rw d.allocated at d.there)) in
              let other : q ≢ d.address = λ same. absurd (cc) in
              let kept : u.disks q ≡ some disk = used ∙ (added q).other other ∙ e in
              elim (Bool-cases (loop.handle == 0)) [
                | inl null ↦ rw (done, null) kept
                | inr live ↦
                    rw (done, live)
                      (destroy_loop-others loop.handle ok d.address q u
                          (check_loop-SameHandles fw loop.handle b t loop.handle ∙ installed) other
                        ∙ kept)
              ]
        ]

    -- The self test leaves the loop disks that were there.
    pub loop_disk_self_test-Keeps :
        (s : State) → FreshPool fw s → Keeps s (loop_disk_self_test fw full s).1
    loop_disk_self_test-Keeps s fresh q disk e = elim (loop_disk_self_test-table fw full s fresh) [
      | inl same ↦ ap (λ table. table q) same ∙ e
      | inr (b, u, fresh', before, after) ↦
          ap (λ table. table q) after
          ∙ round_trip-Keeps b u fresh' q disk (ap (λ table. table q) before ∙ e)
    ]
