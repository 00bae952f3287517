-- ===== src/Mount/Exit.antt =====
-- Every run of the program ends with an exit code.
use mount.Prelude.{
  ℕ, ◌≡◌, refl, inl, inr, true, some, List, [], ◌∷◌, arith, ◌==◌, Bool-cases, Option-cases, Text,
}
use mount.Efi.{efi_success, Message, Event, Firmware, State}
use mount.Formats.{FormatEntry, find_format, next}
use mount.MapReport.Handles.{map_snapshot_fs_handles}
use mount.MapReport.Refresh.{is_some}
use mount.MapReport.Refresh.Complete.{FreeSoon}
use mount.FsDriver.Run.{ensure_driver, mount_run_format}
use mount.FsDriver.Run.Flow.{rescan_and_report-ends}
use mount.LoopDisk.Iso.Flow.{mount_run_iso-ends}
use mount.Mount.{run_iso, run_option, run_word, list_mappings, run_arguments, uefi_main}

module _ (fw : Firmware) (rounds : ℕ) (soon : FreeSoon fw rounds) (full : Text) where
  mount_run_format-ends :
      (e : FormatEntry) (s : State) → is_some (mount_run_format fw rounds (some e) full s).0 ≡ true
  unfolding mount_run_format
  mount_run_format-ends e s =
      let ((_, buffer, old), t) = map_snapshot_fs_handles fw s in
      let (status, u) = ensure_driver fw rounds e full t in
      elim (Bool-cases (status == efi_success)) [
        | inl fine ↦ rw (fine, rescan_and_report-ends fw rounds soon buffer old u)
        | inr failed ↦ rw failed
      ]

  run_iso-ends : (rest : List Text) (s : State) → is_some (run_iso fw rounds full rest s).0 ≡ true
  unfolding run_iso
  run_iso-ends [] s = refl
  run_iso-ends (path ∷ rest) s = mount_run_iso-ends fw rounds soon path full s

  run_option-ends : (n : Text) (s : State) → is_some (run_option fw rounds full n s).0 ≡ true
  unfolding run_option
  run_option-ends n s = elim (Option-cases (find_format (some n))) [
    | inl e ↦ rw (e, run_option)
    | inr (e, found) ↦ rw (found, run_option) (mount_run_format-ends e s)
  ]

  run_word-ends :
      (word : Text) (rest : List Text) (s : State)
      → is_some (run_word fw rounds full word rest s).0 ≡ true
  unfolding run_word
  run_word-ends word rest s = ground (arith, run_iso-ends rest s, run_option-ends (next word) s)

  run_arguments-ends :
      (arguments : List Text) (s : State)
      → is_some (run_arguments fw rounds full arguments s).0 ≡ true
  unfolding run_arguments list_mappings
  run_arguments-ends [] s = refl
  run_arguments-ends (program ∷ []) s = refl
  run_arguments-ends (program ∷ word ∷ rest) s = run_word-ends word rest s

  -- If one of the first `rounds` fs names is free at any time, every run of the program, with any
  -- arguments, ends with an exit code.
  pub uefi_main-ends : (s : State) → is_some (uefi_main fw rounds full s).0 ≡ true
  unfolding uefi_main
  uefi_main-ends s =
      let t : State = record s { log = Event.printed Message.version ∷ s.log } in
      ground (arith, run_arguments-ends (fw.arguments t.log).1 t)
