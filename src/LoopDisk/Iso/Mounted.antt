-- ===== src/LoopDisk/Iso/Mounted.antt =====
-- What a successful `mount -ISO` leaves behind: the loop disk over the image file.
use mount.Prelude.{
  ℕ, ◌≡◌, refl, ◌≢◌, ◌≤◌, inl, inr, some, List, ◌∷◌, arith, ◌==◌, Bool-cases, length, Text,
}
use mount.Efi.{
  Log, Works, efi_success, Ptr, Handle, Byte, Message, Event, Firmware, ListsHandles, State,
  free_unless_null, Neutral, Neutral-trans,
}
use mount.MapReport.Handles.{map_snapshot_fs_handles}
use mount.MapReport.Handles.Snapshot.{Snapped, snapshot-Snapped}
use mount.MapReport.Refresh.Complete.{FreeSoon}
use mount.FsDriver.Run.Flow.{Releases, rescan_and_report-ends, rescan_and_report-Releases}
use mount.LoopDxe.Factory.Create.{Appends}
use mount.LoopDisk.Create.{Loop, loop_min_size, loop_create}
use mount.LoopDisk.Create.Success.{loop_create-Succeeds}
use mount.LoopDisk.Create.Disk.{DiskOver, AddedAt}
use mount.LoopDisk.Create.Entry.{EntryAt}
use mount.LoopDisk.Create.Blocks.{OpensImage, Serves, loop_create-Serves}
use mount.LoopDisk.Iso.{claim_driver, connect_loop, mount_run_iso}
use mount.LoopDisk.Iso.Flow.{snapped, claim_driver-Loading}

Releases-after :
    (buffer : Ptr) (s t u : State) → Neutral s t → Releases buffer t u → Releases buffer s u
Releases-after buffer s t u a (x, b, e) = (x, Neutral-trans s t x a b, e)

abbrev pub Mounted : Firmware → (file : Ptr) (image : List Byte) → State → State → Type 0
Mounted fw file image s t =
    (d : DiskOver fw file (length image)) × Serves fw image d.disk × ((q : Ptr) → EntryAt d q s t)

module _ (fw : Firmware) (rounds : ℕ) (lists : ListsHandles fw) (soon : FreeSoon fw rounds) where
  connect_loop-Releases :
      (iso_path : Text) (loop : Loop) (full : Text) (buffer : Ptr) (old : List Handle) (s : State)
      → Releases buffer s (connect_loop fw rounds iso_path loop full buffer old s).1
  unfolding connect_loop
  connect_loop-Releases iso_path loop full buffer old s =
      let t : State = record s { log = Event.printed (Message.loop_created iso_path) ∷ s.log } in
      let (status, u) = claim_driver fw rounds loop full t in
      let a = (claim_driver-Loading fw rounds loop full t).neutral in
      elim (Bool-cases (status == efi_success)) [
        | inl fine ↦ rw fine (
            let v : State = record u { log = Event.controller_connected loop.handle ∷ u.log } in
            Releases-after buffer s v _ (λ q. ground (arith, a q))
              (rescan_and_report-Releases fw rounds lists soon buffer old v))
        | inr failed ↦ rw failed (_, (λ q. ground (arith, a q)), refl)
      ]

  -- The snapshot from s to t0, the creation up to t1, and the rest of the flow.
  Mounted-Releases :
      (iso_path : Text) (file : Ptr) {size : ℕ} (d : DiskOver fw file size) (buffer q : Ptr)
      (s t u v : State)
      → Snapped s buffer t
      → AddedAt d q (record t { log = Event.opened iso_path file ∷ t.log }) u
      → Releases buffer u v
      → EntryAt d q s v
  Mounted-Releases iso_path file d buffer q s t u v (inl (e, same)) a (x, b, end) =
      rw (end, e, free_unless_null) (ground (arith, rw same at a, b q))
  Mounted-Releases iso_path file d buffer q s t u v (inr (full, same)) a (x, b, end) =
      rw end (ground (arith, rw same at a, b q))

module _ (fw : Firmware) (rounds : ℕ) (lists : ListsHandles fw) (soon : FreeSoon fw rounds)
    (appends : Appends fw) (iso_path full : Text) where
  -- From the disk that `LoopCreate` has made to the end of the run.
  pub mount_run_iso-EntryAt :
      (file : Ptr) {size : ℕ} (d : DiskOver fw file size) (s : State)
      → (loop_create fw iso_path full (snapped fw s)).0.0 ≡ efi_success
      → ((q : Ptr)
          → AddedAt d q
              (record (snapped fw s) { log = Event.opened iso_path file ∷ (snapped fw s).log })
              (loop_create fw iso_path full (snapped fw s)).1)
      → (q : Ptr) → EntryAt d q s (mount_run_iso fw rounds iso_path full s).1
  unfolding mount_run_iso
  mount_run_iso-EntryAt file d s fine added q =
      let ((_, buffer, old), t) = map_snapshot_fs_handles fw s in
      let ((status, loop), u) = loop_create fw iso_path full t in
      let rest = connect_loop-Releases fw rounds lists soon iso_path loop full buffer old u in
      rw fine (
        Mounted-Releases fw rounds lists soon iso_path file d buffer q s t u _
          (snapshot-Snapped fw lists s) (added q) rest)

  mount_run_iso-created_of_success :
      (s : State)
      → (mount_run_iso fw rounds iso_path full s).0 ≡ some efi_success
      → (loop_create fw iso_path full (snapped fw s)).0.0 ≡ efi_success
  unfolding mount_run_iso
  mount_run_iso-created_of_success s done = ground arith

  -- If LocateHandleBuffer returns a buffer exactly when it succeeds, one of the first `rounds` fs
  -- names is free at any time, AppendDevicePathNode appends, and the Shell opens under the name an
  -- image file of fewer than 2^64 bytes, which is unchanged and can be read as long as it is open,
  -- then when `mount -ISO` returns EFI_SUCCESS, a loop disk over the file has been added, and every
  -- request for blocks of it, made in any state in which the file is open, succeeds with the bytes
  -- of the image from that block on. The disk and its device path are all the memory that is kept,
  -- the file is the only one left open, and the other loop disks are as before. This holds too
  -- where the ISO9660 driver is missing.
  pub mount_run_iso-Mounted :
      (file : Ptr) (image : List Byte) (s : State)
      → OpensImage fw iso_path file image
      → (mount_run_iso fw rounds iso_path full s).0 ≡ some efi_success
      → Mounted fw file image s (mount_run_iso fw rounds iso_path full s).1
  mount_run_iso-Mounted file image s opens_image done =
      let fine = mount_run_iso-created_of_success s done in
      let ((d, added, _), serves) =
        loop_create-Serves fw appends iso_path full file image (snapped fw s) opens_image fine in
      (d, serves, mount_run_iso-EntryAt file d s fine added)

  connect_loop-efi_success :
      (loop : Loop) (buffer : Ptr) (old : List Handle) (s : State)
      → (connect_loop fw rounds iso_path loop full buffer old s).0 ≡ some efi_success
  unfolding connect_loop
  connect_loop-efi_success loop buffer old s =
      let t : State = record s { log = Event.printed (Message.loop_created iso_path) ∷ s.log } in
      let (status, u) = claim_driver fw rounds loop full t in
      elim (Bool-cases (status == efi_success)) [
        | inl fine ↦ rw fine (
            let v : State = record u { log = Event.controller_connected loop.handle ∷ u.log } in
            rescan_and_report-ends fw rounds soon buffer old v)
        | inr failed ↦ rw failed refl
      ]

  pub mount_run_iso-created :
      (s : State)
      → (loop_create fw iso_path full (snapped fw s)).0.0 ≡ efi_success
      → (mount_run_iso fw rounds iso_path full s).0 ≡ some efi_success
  unfolding mount_run_iso
  mount_run_iso-created s done =
      let ((_, buffer, old), t) = map_snapshot_fs_handles fw s in
      let ((status, loop), u) = loop_create fw iso_path full t in
      rw done (connect_loop-efi_success loop buffer old u)

  -- If LocateHandleBuffer returns a buffer exactly when it succeeds, one of the first `rounds` fs
  -- names is free at any time, AppendDevicePathNode appends, no service fails that the creation of
  -- a loop device calls, and the Shell opens under the name, through a pointer that is not NULL, an
  -- unchanged image file of at least 16 blocks and fewer than 2^64 bytes whose information can be
  -- read, then `mount -ISO` returns EFI_SUCCESS, whatever becomes of the ISO9660 driver.
  pub mount_run_iso-efi_success :
      (file : Ptr) (image : List Byte) (s : State)
      → OpensImage fw iso_path file image
      → Works fw
      → file ≢ 0
      → ((l : Log) → (fw.info_of l file).1 ≡ 0)
      → loop_min_size ≤ length image
      → (mount_run_iso fw rounds iso_path full s).0 ≡ some efi_success
  mount_run_iso-efi_success file image s opens_image works there measured enough =
      let t = snapped fw s in
      let (done, _) =
        loop_create-Succeeds fw works iso_path full file file there (length image) t
          (opens_image.named t.log) (λ l _. (measured l, opens_image.sized l)) enough in
      mount_run_iso-created s done
