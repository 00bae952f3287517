-- ===== src/FsDriver/Run/Flow.antt =====
-- The outcomes of `mount -<FORMAT>`.
use mount.Prelude.{
  ℕ, ◌≡◌, refl, ◌≢◌, inl, inr, some, List, arith, ◌==◌, Bool-cases, Option-cases, Text,
}
use mount.Efi.{
  Neutral-trans, Status, efi_success, Ptr, Handle, Firmware, ListsHandles, State, ◌>>=◌,
  free_unless_null, Neutral,
}
use mount.Formats.{FormatEntry}
use mount.MapReport.Handles.{map_snapshot_fs_handles, map_connect_all_controllers}
use mount.MapReport.Report.{map_print_new_volumes}
use mount.MapReport.Balance.{
  Snapped-release, map_connect_all_controllers-Neutral, map_refresh_shell-Neutral,
  map_print_new_volumes-Neutral,
}
use mount.MapReport.Refresh.{map_refresh_shell}
use mount.MapReport.Refresh.Complete.{FreeSoon, map_refresh_shell-ends}
use mount.FsDriver.Loaded.{mount_driver_loaded}
use mount.FsDriver.Load.Outcome.{
  Loading, Loading-after, mount_driver_loaded-Quiet, mount_load_driver-Loading, NoImageLeft,
  map_calls, IsLoadStatus,
}
use mount.MapReport.Handles.Snapshot.{Snapped, snapshot-Snapped}
use mount.FsDriver.Run.{rescan_and_report, ensure_driver, mount_run_format}

module _ (fw : Firmware) (rounds : ℕ) where
  ensure_driver-Loading :
      (e : FormatEntry) (full : Text) (s : State) → Loading s (ensure_driver fw rounds e full s)
  unfolding ensure_driver
  ensure_driver-Loading e full s =
      let a = mount_driver_loaded-Quiet fw e.driver_file s in
      let t = (mount_driver_loaded fw e.driver_file s).1 in
      elim (Bool-cases (mount_driver_loaded fw e.driver_file s).0) [
        | inl loaded ↦ rw loaded (record {
          status = inl refl;
          neutral = λ q. ground (arith, a.neutral q);
          images = λ failed. absurd (failed refl);
          still = a.still;
        })
        | inr absent ↦ rw absent (
            Loading-after fw e.driver_file full s t _ a
              (mount_load_driver-Loading fw e.driver_file full t))
      ]

  module _ (soon : FreeSoon fw rounds) where
    pub rescan_and_report-ends :
        (buffer : Ptr) (old : List Handle) (s : State)
        → (rescan_and_report fw rounds buffer old s).0 ≡ some efi_success
    unfolding rescan_and_report
    rescan_and_report-ends buffer old s =
        ground (arith, map_refresh_shell-ends fw rounds soon (map_connect_all_controllers fw s).1)

-- From s to t everything is balanced but for the release of the buffer of a snapshot.
abbrev pub Releases : Ptr → State → State → Type 0
Releases buffer s t = (u : State) × Neutral s u × (t ≡ (free_unless_null buffer u).1)

module _ (fw : Firmware) (rounds : ℕ) (lists : ListsHandles fw) (soon : FreeSoon fw rounds) where
  pub rescan_and_report-Releases :
      (buffer : Ptr) (old : List Handle) (s : State)
      → Releases buffer s (rescan_and_report fw rounds buffer old s).1
  unfolding rescan_and_report
  rescan_and_report-Releases buffer old s =
      let v = (map_connect_all_controllers fw s).1 in
      let (refreshed, w) = map_refresh_shell fw rounds v in
      let ends = map_refresh_shell-ends fw rounds soon v in
      let x = (map_print_new_volumes fw old w).1 in
      let a = map_connect_all_controllers-Neutral fw s in
      let b = map_refresh_shell-Neutral fw lists rounds v ends in
      let c = map_print_new_volumes-Neutral fw lists old w in
      elim (Option-cases refreshed) [
        | inl e ↦ absurd (cc (rw e at ends))
        | inr (status, e) ↦ rw (e, ◌>>=◌) (x, Neutral-trans s w x (Neutral-trans s v w a b) c, refl)
      ]

  -- After a snapshot from s to t, and more that is balanced, the rest of the flow frees all memory.
  rescan_and_report-Neutral :
      (s : State) (buffer : Ptr) (old : List Handle) (t u : State)
      → Snapped s buffer t
      → Neutral t u
      → Neutral s (rescan_and_report fw rounds buffer old u).1
  rescan_and_report-Neutral s buffer old t u snap balanced =
      let (x, a, e) = rescan_and_report-Releases buffer old u in
      rw e (Snapped-release s buffer t x snap (Neutral-trans t u x balanced a))

-- The outcome of a run of `mount -<FORMAT>` with exit code `status`.
pub record Ran (s : State) (status : Status) (t : State) : Type 0 where
  pub code : IsLoadStatus status
  pub neutral : Neutral s t
  pub images : status ≢ efi_success → NoImageLeft s t
  pub still : status ≢ efi_success → map_calls t.log ≡ map_calls s.log

module _ (fw : Firmware) (rounds : ℕ) (lists : ListsHandles fw) (soon : FreeSoon fw rounds) where
  -- A load that failed after the snapshot, and the release of the snapshot.
  Ran-failed :
      (s t : State) (buffer : Ptr) (status : Status) (u : State)
      → Snapped s buffer t
      → Loading t (status, u)
      → status ≢ efi_success
      → Ran s status (free_unless_null buffer u).1
  Ran-failed s t buffer status u (inl (e, same)) a failed = record {
    code = a.status;
    neutral = λ q. rw (e, free_unless_null) (rw same at (a.neutral q));
    images = λ _ q. rw (e, free_unless_null) (rw same at (a.images failed q));
    still = λ _. rw (e, free_unless_null) (rw same at a.still);
  }
  Ran-failed s t buffer status u (inr (full, same)) a failed = record {
    code = a.status;
    neutral = λ q. ground (arith, a.neutral q);
    images = λ _ q. ground (arith, a.images failed q);
    still = λ _. ground (arith, a.still);
  }

  -- If LocateHandleBuffer returns a buffer exactly when it succeeds, and one of the first `rounds`
  -- fs names is free at any time, `mount -<FORMAT>` for a row of the table returns: EFI_SUCCESS,
  -- STATUS_DRIVER_MISSING or STATUS_SECURE_BOOT. It frees all memory that it allocates, closes
  -- every file that it opens and leaves the loop disks as they were. If it does not succeed, it has
  -- connected no controller, set no mapping, and unloaded every image that LoadImage gave it with
  -- success.
  pub mount_run_format-Ran :
      (e : FormatEntry) (full : Text) (s : State)
      → let (result, t) = mount_run_format fw rounds (some e) full s in
        (status : Status) × (result ≡ some status) × Ran s status t
  unfolding mount_run_format
  mount_run_format-Ran e full s =
      let ((_, buffer, old), t) = map_snapshot_fs_handles fw s in
      let (status, u) = ensure_driver fw rounds e full t in
      let a = ensure_driver-Loading fw rounds e full t in
      elim (Bool-cases (status == efi_success)) [
        | inl fine ↦ (
          efi_success,
          rw fine (rescan_and_report-ends fw rounds soon buffer old u),
          record {
            code = inl refl;
            neutral = rw fine (
                rescan_and_report-Neutral fw rounds lists soon s buffer old t u
                  (snapshot-Snapped fw lists s) a.neutral);
            images = λ no. absurd (no refl);
            still = λ no. absurd (no refl);
          },
        )
        | inr failed ↦
            let differs : status ≢ efi_success = ground arith in
            (
              status,
              ground arith,
              rw failed (Ran-failed s t buffer status u (snapshot-Snapped fw lists s) a differs),
            )
      ]
