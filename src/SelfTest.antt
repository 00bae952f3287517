-- ===== src/SelfTest.antt =====
-- MountPkg/Application/Mount/SelfTest.c: the three items of `mount selftest`. The counter
-- `mFailures` is passed on, and the result of `MountSelfTest` is the exit code.
pub mod Verdict
pub mod Present
pub mod Balance
use mount.Prelude.{
  ℕ, ◌+◌, Bool, true, false, not, ◌&&◌, ◌||◌, some, List, [], ◌∷◌, ◌==◌, if◌then◌else◌, Text, codes,
  text_eq,
}
use mount.Efi.{
  Status, efi_success, efi_device_error, efi_error, Message, Event, Firmware, M, pure, ◌>>=◌, ◌>>◌,
  emit, say,
}
use mount.Formats.{FormatEntry, formats}
use mount.FsDriver.SelfPath.{mount_open_driver_file}
use mount.LoopDisk.SelfTest.{loop_disk_self_test}

unfoldable pub report : Text → Bool → ℕ → M ℕ
report name ok failures = do
  say (Message.selftest_item name ok)
  pure (if ok then failures else failures + 1)

-- The loop over J: one of the later rows has the name.
unfoldable pub has_name : Text → List FormatEntry → Bool
has_name name [] = false
has_name name (e ∷ es) = text_eq name e.name || has_name name es

-- The loop over I.
unfoldable pub names_unique : List FormatEntry → Bool
unfolding has_name
names_unique [] = true
names_unique (e ∷ es) = not (has_name e.name es) && names_unique es

module _ (fw : Firmware) (full : Text) where
  -- The loop that opens the driver files, with `All`.
  unfoldable pub check_files : List FormatEntry → Bool → M Bool
  check_files [] all = pure all
  check_files (e ∷ es) all = do
    (status, file) ← mount_open_driver_file fw (some e.driver_file) full
    if efi_error status
        then (do say (Message.selftest_missing e.driver_file); check_files es false)
        else (do emit (Event.closed file); check_files es all)

  -- From the number of failures on.
  unfoldable pub verdict : ℕ → M Status
  verdict failures =
      if failures == 0
      then (do say Message.selftest_all_pass; pure efi_success)
      else (do say (Message.selftest_failed failures); pure efi_device_error)

  unfoldable pub mount_self_test : M Status
  mount_self_test = do
    failures ← report (codes "format table integrity") (names_unique formats) 0
    all ← check_files formats true
    failures ← report (codes "driver files present") all failures
    status ← loop_disk_self_test fw full
    failures ← report (codes "loop blockio roundtrip") (not (efi_error status)) failures
    verdict failures
