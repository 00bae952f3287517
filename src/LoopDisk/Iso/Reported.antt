-- ===== src/LoopDisk/Iso/Reported.antt =====
-- What a successful `mount -ISO` does to the volumes: the loop device is connected, and the new
-- volumes are named and reported.
use mount.Prelude.{ℕ, ◌≡◌, some, ◌∷◌, Text}
use mount.Efi.{efi_success, Handle, Message, Event, Firmware, State, IsStringLib}
use mount.MapReport.Handles.{map_snapshot_fs_handles}
use mount.MapReport.Handles.Rescan.{FsStays}
use mount.MapReport.Refresh.Complete.{FreeSoon, IsShellMap}
use mount.FsDriver.Run.Flow.{rescan_and_report-ends}
use mount.FsDriver.Run.Reported.{IsListable, Reported, rescan_and_report-Reported}
use mount.LoopDisk.Create.{Loop, loop_create}
use mount.LoopDisk.Iso.{claim_driver, connect_loop, mount_run_iso}
use mount.LoopDisk.Iso.Flow.{snapped}

-- From the creation on: the state once the driver is there, if it can be.
abbrev pub claimed : (fw : Firmware) (rounds : ℕ) (iso_path full : Text) → Loop → State → State
claimed fw rounds iso_path full loop u =
    (claim_driver fw rounds loop full
      (record u { log = Event.printed (Message.loop_created iso_path) ∷ u.log })).1

-- ConnectController on the handle.
abbrev pub after_connect : Handle → State → State
after_connect handle s = record s { log = Event.controller_connected handle ∷ s.log }

module _ (fw : Firmware) (rounds : ℕ) (listable : IsListable fw) (soon : FreeSoon fw rounds)
    (stays : FsStays fw) (map : IsShellMap fw) (ok : IsStringLib fw.strings)
    (iso_path full : Text) where
  -- If the handles with a protocol can be listed at any time, in a buffer that is not NULL, the
  -- Shell is there, one of the first `rounds` fs names is free at any time, no allocation, release
  -- or connection takes a file system away, SetMap succeeds, adds an alias and takes none away,
  -- neither SetMap nor a release of memory changes the device path of a handle, and StrnCpyS keeps
  -- its contract, then, when `LoopCreate` has succeeded and the driver that the image needs, if
  -- any, is loaded or can be, `mount -ISO` returns EFI_SUCCESS. It connects the loop device by its
  -- handle, and then does the rescan, the refresh and the report, one after the other. After the
  -- rescan, no handle that had a file system has been connected again, every other handle with
  -- BlockIo has been connected or has got a file system meanwhile, and no further handle has been
  -- connected. After the refresh, every listed file system handle with a device path has an alias
  -- that begins with `fs`. The report prints, in order, one line with the alias and the label of
  -- each file system handle that is not a member of the snapshot before the creation, then the line
  -- with their number. Last, the snapshot is released.
  pub mount_run_iso-Reported :
      (loop : Loop) (s u : State)
      → loop_create fw iso_path full (snapped fw s) ≡ ((efi_success, loop), u)
      → (claim_driver fw rounds loop full
          (record u { log = Event.printed (Message.loop_created iso_path) ∷ u.log })).0
        ≡ efi_success
      → let ((_, buffer, old), _) = map_snapshot_fs_handles fw s in
        let (result, t) = mount_run_iso fw rounds iso_path full s in
        (result ≡ some efi_success)
        × Reported fw rounds buffer old
            (after_connect loop.handle (claimed fw rounds iso_path full loop u))
            t
  unfolding mount_run_iso connect_loop
  mount_run_iso-Reported loop s u created there =
      let ((_, buffer, old), t) = map_snapshot_fs_handles fw s in
      let v = after_connect loop.handle (claimed fw rounds iso_path full loop u) in
      rw (created, there)
        (
          rescan_and_report-ends fw rounds soon buffer old v,
          rescan_and_report-Reported fw rounds listable soon stays map ok buffer old v,
        )
