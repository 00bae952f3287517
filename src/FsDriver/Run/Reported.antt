-- ===== src/FsDriver/Run/Reported.antt =====
-- What a successful `mount -<FORMAT>` does to the volumes: connected, named and reported.
use mount.Prelude.{ℕ, ◌≡◌, refl, false, some, List, ◌∷◌, arith, Text}
use mathlib.Core.List.{Memᴰ}
use mount.Efi.{
  IsStringLib, efi_success, efi_error, Ptr, Handle, Protocol, Event, Log, Firmware, ListsHandles,
  State, ◌>>=◌, free_unless_null,
}
use mount.Formats.{FormatEntry}
use mount.MapReport.Handles.{map_snapshot_fs_handles, map_connect_all_controllers}
use mount.MapReport.Handles.Rescan.{FsStays, Rescanned, map_connect_all_controllers-Rescanned}
use mount.MapReport.Handles.Fresh.{Memᴰ-listed}
use mount.MapReport.Refresh.{map_refresh_shell}
use mount.MapReport.Refresh.Complete.{
  FreeSoon, IsNamed, IsShellMap, refresh_handles-ends, map_refresh_shell-IsNamed,
}
use mount.MapReport.Report.{map_print_new_volumes}
use mount.MapReport.Report.Lines.{Reports, map_print_new_volumes-lines}
use mount.FsDriver.Run.Flow.{rescan_and_report-ends}
use mount.FsDriver.Run.{rescan_and_report, ensure_driver, mount_run_format}

-- The handles with a protocol can be listed at any time, and the Shell is there.
pub record IsListable (fw : Firmware) : Type 0 where
  pub lists : ListsHandles fw
  pub listed :
      (l : Log) (protocol : Protocol) → efi_error (fw.locate_handle_buffer l protocol).0 ≡ false
  pub shell : (l : Log) → efi_error (fw.locate_shell l) ≡ false

-- The states of a run that starts the rescan in s: after the rescan, the refresh and the report.
abbrev pub connected : Firmware → State → State
connected fw s = (map_connect_all_controllers fw s).1

abbrev pub refreshed : Firmware → (rounds : ℕ) → State → State
refreshed fw rounds s = (map_refresh_shell fw rounds (connected fw s)).1

abbrev pub printed : Firmware → (rounds : ℕ) → (old : List Handle) → State → State
printed fw rounds old s = (map_print_new_volumes fw old (refreshed fw rounds s)).1

-- From s to t: the rescan, the refresh and the report, with the older snapshot.
pub record Reported (fw : Firmware) (rounds : ℕ) (buffer : Ptr) (old : List Handle) (s t : State)
    : Type 0 where
  pub rescanned :
      (h : Handle)
      → Rescanned fw (fw.locate_handle_buffer s.log Protocol.block_io).2 s (connected fw s) h
  pub named :
      (h : Handle)
      → Memᴰ h (fw.locate_handle_buffer (connected fw s).log Protocol.simple_file_system).2
      → IsNamed fw (refreshed fw rounds s).log h
  pub announced : Reports fw old (refreshed fw rounds s) (printed fw rounds old s)
  pub released : t ≡ (free_unless_null buffer (printed fw rounds old s)).1

module _ (fw : Firmware) (rounds : ℕ) (listable : IsListable fw) (soon : FreeSoon fw rounds) where
  map_refresh_shell-efi_success : (s : State) → (map_refresh_shell fw rounds s).0 ≡ some efi_success
  unfolding map_refresh_shell map_snapshot_fs_handles
  map_refresh_shell-efi_success s =
      let (status, buffer, handles) = fw.locate_handle_buffer s.log Protocol.simple_file_system in
      let t : State = record s { log = Event.allocated buffer ∷ s.log } in
      ground (
        arith,
        listable.shell s.log,
        listable.listed s.log Protocol.simple_file_system,
        refresh_handles-ends fw rounds soon handles t,
      )

  module _ (stays : FsStays fw) (map : IsShellMap fw) (ok : IsStringLib fw.strings) where
    pub rescan_and_report-Reported :
        (buffer : Ptr) (old : List Handle) (s : State)
        → Reported fw rounds buffer old s (rescan_and_report fw rounds buffer old s).1
    unfolding rescan_and_report
    rescan_and_report-Reported buffer old s =
        let v = connected fw s in
        let w = refreshed fw rounds s in
        let (_, _, rescan) =
          map_connect_all_controllers-Rescanned fw stays s
            (listable.listed s.log Protocol.block_io) in
        let listed = listable.listed w.log Protocol.simple_file_system in
        let done = map_refresh_shell-efi_success v in
        rw (done, ◌>>=◌)
          (record {
            rescanned = rescan;
            named = λ h mem.
                map_refresh_shell-IsNamed fw rounds map v h
                  (listable.listed v.log Protocol.simple_file_system) (Memᴰ-listed h _ mem) done;
            announced =
                map_print_new_volumes-lines fw ok old w listed
                  (listable.lists.given w.log Protocol.simple_file_system listed);
            released = refl;
          })

    -- If the handles with a protocol can be listed at any time, in a buffer that is not NULL, the
    -- Shell is there, one of the first `rounds` fs names is free at any time, no allocation,
    -- release or connection takes a file system away, SetMap succeeds, adds an alias and takes none
    -- away, neither SetMap nor a release of memory changes the device path of a handle, and
    -- StrnCpyS keeps its contract, then, when the driver of a row of the table is loaded already or
    -- can be loaded, `mount -<FORMAT>` returns EFI_SUCCESS and does the rescan, the refresh and the
    -- report, one after the other. After the rescan, no handle that had a file system has been
    -- connected, every other handle with BlockIo has been connected or has got a file system
    -- meanwhile, and no further handle has been connected. After the refresh, every listed file
    -- system handle with a device path has an alias that begins with `fs`. The report prints, in
    -- order, one line with the alias and the label of each file system handle that is not a member
    -- of the snapshot at the start, then the line with their number. Last, the snapshot is
    -- released.
    pub mount_run_format-Reported :
        (e : FormatEntry) (full : Text) (s : State)
        → let ((_, buffer, old), t) = map_snapshot_fs_handles fw s in
          let (status, u) = ensure_driver fw rounds e full t in
          let (result, v) = mount_run_format fw rounds (some e) full s in
          status ≡ efi_success → (result ≡ some efi_success) × Reported fw rounds buffer old u v
    unfolding mount_run_format
    mount_run_format-Reported e full s loaded =
        let ((_, buffer, old), t) = map_snapshot_fs_handles fw s in
        let u = (ensure_driver fw rounds e full t).1 in
        rw loaded (
          rescan_and_report-ends fw rounds soon buffer old u,
          rescan_and_report-Reported buffer old u,
        )
