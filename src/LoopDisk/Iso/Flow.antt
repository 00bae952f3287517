-- ===== src/LoopDisk/Iso/Flow.antt =====
-- The outcomes of `mount -ISO`.
use mount.Prelude.{
  ℕ, ◌≡◌, refl, ◌≢◌, inl, inr, true, false, not, ◌&&◌, some, List, ◌∷◌, arith, ◌==◌, Bool-cases,
  Text,
}
use mount.Efi.{Neutral, efi_success, Ptr, Handle, Message, Event, Firmware, ListsHandles, State}
use mount.MapReport.Handles.{map_snapshot_fs_handles}
use mount.MapReport.Balance.{Snapped-release}
use mount.MapReport.Handles.Snapshot.{Snapped, snapshot-Snapped}
use mount.MapReport.Refresh.{is_some}
use mount.MapReport.Refresh.Complete.{FreeSoon}
use mount.FsDriver.Loaded.{mount_driver_loaded}
use mount.FsDriver.Load.Outcome.{
  Loading, Loading-after, mount_driver_loaded-Quiet, mount_load_driver-Loading, NoImageLeft,
  map_calls,
}
use mount.FsDriver.Run.Flow.{rescan_and_report-ends}
use mount.LoopDisk.Create.{Loop, loop_create}
use mount.LoopDisk.Create.Ownership.{FreshPool, FreshPool-AfterAlloc, loop_create-Neutral}
use mount.LoopDisk.Iso.{iso9660_driver_file, claim_driver, connect_loop, mount_run_iso}

module _ (fw : Firmware) (rounds : ℕ) where
  pub claim_driver-Loading :
      (loop : Loop) (full : Text) (s : State) → Loading s (claim_driver fw rounds loop full s)
  unfolding claim_driver
  claim_driver-Loading loop full s =
      let done : Loading s (efi_success, s) = record {
        status = inl refl;
        neutral = λ q. ground arith;
        images = λ failed. absurd (failed refl);
        still = refl;
      } in
      elim (Bool-cases (loop.iso9660 && not loop.udf)) [
        | inr no_need ↦ rw no_need done
        | inl needed ↦ rw needed (
            let (loaded, t) = mount_driver_loaded fw iso9660_driver_file s in
            let a = mount_driver_loaded-Quiet fw iso9660_driver_file s in
            elim (Bool-cases loaded) [
              | inl there ↦ rw there (record {
                status = inl refl;
                neutral = a.neutral;
                images = λ failed. absurd (failed refl);
                still = a.still;
              })
              | inr absent ↦ rw absent (
                  Loading-after fw iso9660_driver_file full s t _ a
                    (mount_load_driver-Loading fw iso9660_driver_file full t))
            ])
      ]

  -- The driver is missing: what becomes of the device.
  pub connect_loop-kept :
      (iso_path : Text) (loop : Loop) (full : Text) (buffer : Ptr) (old : List Handle) (s : State)
      → let t : State = record s { log = Event.printed (Message.loop_created iso_path) ∷ s.log } in
        (claim_driver fw rounds loop full t).0 ≢ efi_success
        → let (result, u) = connect_loop fw rounds iso_path loop full buffer old s in
          (result ≡ some efi_success) × NoImageLeft s u × (map_calls u.log ≡ map_calls s.log)
  unfolding connect_loop
  connect_loop-kept iso_path loop full buffer old s missing =
      let t : State = record s { log = Event.printed (Message.loop_created iso_path) ∷ s.log } in
      let a = claim_driver-Loading loop full t in
      (ground arith, λ q. ground (arith, a.images missing q), ground (arith, a.still))

  connect_loop-ends :
      (soon : FreeSoon fw rounds) (iso_path : Text) (loop : Loop) (full : Text) (buffer : Ptr)
      (old : List Handle) (s : State)
      → is_some (connect_loop fw rounds iso_path loop full buffer old s).0 ≡ true
  unfolding connect_loop
  connect_loop-ends soon iso_path loop full buffer old s =
      let t : State = record s { log = Event.printed (Message.loop_created iso_path) ∷ s.log } in
      let (status, u) = claim_driver fw rounds loop full t in
      elim (Bool-cases (status == efi_success)) [
        | inl fine ↦ rw fine (
            let v : State = record u { log = Event.controller_connected loop.handle ∷ u.log } in
            rw (rescan_and_report-ends fw rounds soon buffer old v))
        | inr failed ↦ rw failed
      ]

  pub mount_run_iso-ends :
      (soon : FreeSoon fw rounds) (iso_path full : Text) (s : State)
      → is_some (mount_run_iso fw rounds iso_path full s).0 ≡ true
  unfolding mount_run_iso
  mount_run_iso-ends soon iso_path full s =
      let ((_, buffer, old), t) = map_snapshot_fs_handles fw s in
      let ((status, loop), u) = loop_create fw iso_path full t in
      elim (Bool-cases (status == efi_success)) [
        | inl fine ↦ rw fine (connect_loop-ends soon iso_path loop full buffer old u)
        | inr failed ↦ rw failed
      ]

abbrev pub snapped : Firmware → State → State
snapped fw s = (map_snapshot_fs_handles fw s).1

module _ (fw : Firmware) (rounds : ℕ) (lists : ListsHandles fw) (iso_path full : Text)
    (s : State) where
  -- When `LoopCreate` fails, `mount -ISO` returns its status, and, if LocateHandleBuffer returns a
  -- buffer exactly when it succeeds and pool allocation, as long as no memory of the state is
  -- freed, returns NULL or an address that holds no loop disk, all memory that it allocated is
  -- freed, every file that it opened is closed, and the loop disks are as before.
  pub mount_run_iso-Neutral :
      FreshPool fw s
      → (loop_create fw iso_path full (snapped fw s)).0.0 ≢ efi_success
      → let (result, t) = mount_run_iso fw rounds iso_path full s in
        (result ≡ some (loop_create fw iso_path full (snapped fw s)).0.0) × Neutral s t
  unfolding mount_run_iso
  mount_run_iso-Neutral fresh failed =
      let ((_, buffer, old), t) = map_snapshot_fs_handles fw s in
      let ((status, loop), u) = loop_create fw iso_path full t in
      let snap : Snapped s buffer t = snapshot-Snapped fw lists s in
      let a = loop_create-Neutral fw iso_path full t (still_fresh t buffer snap) failed in
      let no : (status == efi_success) ≡ false = ground arith in
      rw no (refl, Snapped-release s buffer t u snap a)
    where
      still_fresh : (t : State) (buffer : Ptr) → Snapped s buffer t → FreshPool fw t
      still_fresh t buffer (inl (e, same)) = rw same fresh
      still_fresh t buffer (inr (e, same)) = rw same (FreshPool-AfterAlloc fw buffer s fresh)

module _ (fw : Firmware) (rounds : ℕ) (iso_path full : Text) (s : State) where
  -- When `LoopCreate` has succeeded but the ISO9660 driver that the image needs is not loaded and
  -- cannot be, `mount -ISO` returns EFI_SUCCESS, and after the creation it connects no controller,
  -- sets no mapping and unloads every image that LoadImage gave it with success.
  pub mount_run_iso-kept :
      (loop : Loop) (u : State)
      → loop_create fw iso_path full (snapped fw s) ≡ ((efi_success, loop), u)
      → (claim_driver fw rounds loop full
          (record u { log = Event.printed (Message.loop_created iso_path) ∷ u.log })).0
        ≢ efi_success
      → let (result, t) = mount_run_iso fw rounds iso_path full s in
        (result ≡ some efi_success) × NoImageLeft u t × (map_calls t.log ≡ map_calls u.log)
  unfolding mount_run_iso
  mount_run_iso-kept loop u created missing =
      rw created (connect_loop-kept fw rounds iso_path loop full _ _ u missing)
