-- ===== src/Mount/Passes.antt =====
-- `mount selftest` at the Shell, on a machine on which nothing fails.
use mount.Prelude.{ℕ, ◌≡◌, refl, ◌∙◌, true, some, List, ◌∷◌, arith, Text, codes, text_eq, ap}
use mount.Efi.{efi_success, Ptr, Handle, Firmware, State, Neutral, Neutral-trans, Works, KeepsFile}
use mount.Formats.{formats}
use mount.LoopDisk.Create.Ownership.{FreshPool, FreshPool-Neutral}
use mount.LoopDisk.SelfTest.{selftest_path}
use mount.LoopDisk.SelfTest.Success.{loop_disk_self_test-efi_success}
use mount.SelfTest.{check_files, mount_self_test}
use mount.SelfTest.Balance.{mount_self_test-Neutral}
use mount.SelfTest.Present.{HasDrivers, check_files-present}
use mount.SelfTest.Verdict.{tabled, looked_up, check_files-closed, mount_self_test_iff}
use mount.Mount.{run_word, uefi_main}
use mount.Mount.Dispatch.{greeted, uefi_main-word}

module _ (fw : Firmware) (rounds : ℕ) (full : Text) (works : Works fw) (made file : Ptr)
    (keeps : KeepsFile fw selftest_path made file) (volume : Handle) (dir : Text) (root : Ptr)
    (has : HasDrivers fw full formats volume dir root) where
  mount_self_test-efi_success : (s : State) → (mount_self_test fw full s).0 ≡ efi_success
  mount_self_test-efi_success s =
      let looked = check_files fw full formats true (tabled s) in
      let (passes, _, _) = mount_self_test_iff fw full s in
      let (_, _, present) = check_files-closed fw full formats true (tabled s) in
      let found = check_files-present fw full volume dir root formats true (tabled s) has in
      passes.1 (
        (present.0 found).1,
        loop_disk_self_test-efi_success fw works made file keeps full (looked_up looked),
      )

  run_word-selftest :
      (rest : List Text) (s : State)
      → run_word fw rounds full (codes "selftest") rest s
        ≡ (some (mount_self_test fw full s).0, (mount_self_test fw full s).1)
  unfolding run_word text_eq
  run_word-selftest rest s = refl

  -- The self test passes. If no service fails that the creation and destruction of a loop disk
  -- call, the file system keeps what is written to the temporary file until it is deleted, so that
  -- the file can then be opened by its name, measured and read, pool allocation, as long as no
  -- memory of the state is freed, returns an address that holds no loop disk, and every driver
  -- file of the table can be opened beside mount.efi, then `mount selftest` at the Shell ends with
  -- EFI_SUCCESS, and nothing is left behind: all memory that was allocated is freed, every file
  -- that was opened is closed, and the loop disks are as before.
  pub uefi_main-selftest :
      (s : State)
      → FreshPool fw s
      → (program : Text) (rest : List Text)
      → fw.arguments (greeted s).log ≡ (efi_success, program ∷ codes "selftest" ∷ rest)
      → ((uefi_main fw rounds full s).0 ≡ some efi_success)
        × Neutral s (uefi_main fw rounds full s).1
  uefi_main-selftest s fresh program rest given =
      let g : State = greeted s in
      let quiet : Neutral s g = λ q. ground arith in
      let same =
        uefi_main-word fw rounds full s program (codes "selftest") rest given
        ∙ run_word-selftest rest g in
      rw same (
        ap some (mount_self_test-efi_success g),
        Neutral-trans s g _ quiet (
            mount_self_test-Neutral fw full works made file keeps g
              (FreshPool-Neutral fw s g fresh quiet)),
      )
