-- ===== src/SelfTest/Verdict.antt =====
-- What the exit code of the self test says.
use mount.Prelude.{
  ℕ, suc, ◌+◌, ◌≤◌, ◌≡◌, refl, ◌↔◌, ◌⊎◌, inl, inr, Bool, true, false, some, List, [], ◌∷◌, arith,
  Bool-cases, Text, codes, text_eq,
}
use mount.Efi.{
  Status, efi_success, efi_device_error, efi_error, Ptr, Message, Event, Log, Firmware, State, hit,
  opens, closes, FilesBalanced,
}
use mount.Formats.{FormatEntry, formats}
use mount.FsDriver.SelfPath.{mount_open_driver_file}
use mount.LoopDisk.SelfTest.{loop_disk_self_test}
use mount.LoopDisk.SelfTest.Code.{loop_disk_self_test-status}
use mount.SelfTest.{report, names_unique, check_files, verdict, mount_self_test}

formats_unique : names_unique formats ≡ true
unfolding names_unique text_eq
formats_unique = refl

-- How many lines of a log name a missing driver file.
abbrev pub missing_lines : Log → ℕ
missing_lines [] = 0
missing_lines (Event.printed (Message.selftest_missing file) ∷ l) = suc (missing_lines l)
missing_lines (_ ∷ l) = missing_lines l

-- The state in which the driver files are looked for, and that in which the loop device is tested.
abbrev pub tabled : State → State
tabled s = record s {
  log = Event.printed (Message.selftest_item (codes "format table integrity") true) ∷ s.log;
}

abbrev pub looked_up : Bool × State → State
looked_up (all, t) = record t {
  log = Event.printed (Message.selftest_item (codes "driver files present") all) ∷ t.log;
}

module _ (fw : Firmware) (full : Text) where
  -- The file that is opened stays open, and nothing else does.
  record Opened (s : State) (r : (Status × Ptr) × State) : Type 0 where
    lines : missing_lines r.1.log ≡ missing_lines s.log
    failed :
        efi_error r.0.0 ≡ true
        → (q : Ptr) → opens q r.1.log + closes q s.log ≡ closes q r.1.log + opens q s.log
    fine :
        efi_error r.0.0 ≡ false
        → (q : Ptr)
        → opens q r.1.log + closes q s.log ≡ closes q r.1.log + opens q s.log + hit q r.0.1

  mount_open_driver_file-Opened :
      (file : Text) (s : State) → Opened s (mount_open_driver_file fw (some file) full s)
  unfolding mount_open_driver_file
  mount_open_driver_file-Opened file s = record {
    lines = ground arith;
    failed = λ bad q. ground arith;
    fine = λ ok q. ground arith;
  }

  -- The item on driver files opens every file of the table and closes each that it has opened, with
  -- its directory, and fails exactly when it prints a line for a missing file, or had failed
  -- before.
  pub check_files-closed :
      (es : List FormatEntry) (all : Bool) (s : State)
      → let (answer, t) = check_files fw full es all s in
        FilesBalanced s t
        × (missing_lines s.log ≤ missing_lines t.log)
        × ((answer ≡ true) ↔ ((all ≡ true) × (missing_lines t.log ≡ missing_lines s.log)))
  unfolding check_files
  check_files-closed [] all s = (λ q. omega arith, omega arith, (λ e. (e, refl), λ (e, same). e))
  check_files-closed (e ∷ es) all s =
      let ((status, file), t) = mount_open_driver_file fw (some e.driver_file) full s in
      let a = mount_open_driver_file-Opened e.driver_file s in
      elim (Bool-cases (efi_error status)) [
        | inl bad ↦ rw bad (
            let u : State = record t {
              log = Event.printed (Message.selftest_missing e.driver_file) ∷ t.log;
            } in
            let (files, more, answer) = check_files-closed es false u in
            (
              λ q. omega (arith, files q, a.failed bad q),
              omega (arith, more, a.lines),
              (
                λ h. absurd (cc ((answer.0 h).0)),
                λ (h, same). absurd (omega (arith, same, more, a.lines)),
              ),
            ))
        | inr ok ↦ rw ok (
            let u : State = record t { log = Event.closed file ∷ t.log } in
            let (files, more, answer) = check_files-closed es all u in
            (
              λ q. omega (arith, files q, a.fine ok q),
              omega (arith, more, a.lines),
              (
                λ h. let (held, same) = answer.0 h in (held, omega (arith, same, a.lines)),
                λ (h, same). answer.1 (h, omega (arith, same, a.lines)),
              ),
            ))
      ]

  -- `mount selftest` returns EFI_SUCCESS exactly when it has printed no line for a missing driver
  -- file and the self test of the loop device succeeds, and EFI_DEVICE_ERROR otherwise: the item
  -- on the format table never fails. When the self test of the loop device begins, every driver
  -- file and directory that was opened is closed again.
  pub mount_self_test_iff :
      (s : State)
      → let (all, t) = check_files fw full formats true (tabled s) in
        let (status, u) = loop_disk_self_test fw full (looked_up (all, t)) in
        let (code, v) = mount_self_test fw full s in
        ((code ≡ efi_success)
          ↔ ((missing_lines t.log ≡ missing_lines s.log) × (status ≡ efi_success)))
        × ((code ≡ efi_success) ⊎ (code ≡ efi_device_error))
        × FilesBalanced s t
  unfolding mount_self_test report verdict
  mount_self_test_iff s =
      let (all, t) = check_files fw full formats true (tabled s) in
      let (files, _, answer) = check_files-closed formats true (tabled s) in
      let present : (all ≡ true) ↔ (missing_lines t.log ≡ missing_lines s.log) =
        (λ h. (answer.0 h).1, λ h. answer.1 (refl, h)) in
      let (status, u) = loop_disk_self_test fw full (looked_up (all, t)) in
      rw formats_unique (
        ground (arith, present, loop_disk_self_test-status fw full (looked_up (all, t))),
        ground (arith, loop_disk_self_test-status fw full (looked_up (all, t))),
        λ q. omega (arith, files q),
      )
