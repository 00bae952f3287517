-- ===== src/FsDriver/Run/Once.antt =====
-- A driver that a run of `mount -<FORMAT>` has loaded is not loaded again.
use mount.Prelude.{
  ℕ, ◌+◌, ◌≤◌, ◌≡◌, sym, ap, ◌∙◌, ◌⊎◌, inl, inr, true, false, some, none, ◌∷◌, arith, ◌==◌,
  Bool-cases, ==_refl, length, Text,
}
use mount.Efi.{
  efi_success, efi_error, Ptr, Handle, DevicePath, Protocol, Message, Event, Log, IsStringLib,
  Firmware, State, ◌>>=◌,
}
use mount.Formats.{FormatEntry}
use mount.MapReport.Handles.{map_snapshot_fs_handles, map_is_in_snapshot}
use mount.MapReport.Refresh.Complete.{FreeSoon}
use mount.FsDriver.SelfPath.{max_path, last_file_path}
use mount.FsDriver.SelfPath.Beside.{LoadedFrom, beside, mount_join_self_path-LoadedFrom}
use mount.FsDriver.Loaded.{mount_driver_loaded}
use mount.FsDriver.Loaded.Scan.{image_text, ImagesStay, mount_driver_loaded_iff}
use mount.FsDriver.Load.{start_driver, load_driver_image, mount_load_driver}
use mount.FsDriver.Load.Outcome.{mount_build_driver_device_path-Built}
use mount.FsDriver.Load.Blocked.{beside-EndsWith}
use mount.FsDriver.Run.{rescan_and_report, ensure_driver, mount_run_format}
use mount.FsDriver.Run.Flow.{rescan_and_report-ends}
use mount.FsDriver.Run.Images.{
  SameImages, source_of, resident, source_of-image_log, resident-image_log,
  map_snapshot_fs_handles-SameImages, rescan_and_report-SameImages, mount_driver_loaded-SameImages,
}

-- FileDevicePath names the file in its last node, and a started image that was not unloaded is
-- among the loaded images, with the file path that it was loaded from.
pub record KeepsStarted (fw : Firmware) : Type 0 where
  pub named :
      (l : Log) (volume : Handle) (file : Text) (path : DevicePath)
      → fw.file_device_path l volume file ≡ some path
      → last_file_path path.nodes none ≡ some file
  pub listed :
      (l : Log) (image : Ptr) (path : DevicePath) (name : Text)
      → source_of image l ≡ some path
      → resident image l ≡ true
      → last_file_path path.nodes none ≡ some name
      → (efi_error (fw.locate_handle_buffer l Protocol.loaded_image).0 ≡ false)
        × ((h : Handle) × (map_is_in_snapshot h (fw.locate_handle_buffer l Protocol.loaded_image).2
              ≡ true)
            × (image_text fw l h ≡ some name))

-- An image of that name is there, started and not unloaded.
abbrev pub IsResident : Text → Log → Type 0
IsResident name l =
    (image : Ptr) × (path : DevicePath) × (last_file_path path.nodes none ≡ some name)
    × (source_of image l ≡ some path)
    × (resident image l ≡ true)

IsResident-SameImages :
    (name : Text) (s t : State) → SameImages s t → IsResident name s.log → IsResident name t.log
IsResident-SameImages name s t same (image, path, named, from, stays) = (
  image,
  path,
  named,
  sym (source_of-image_log image t.log)
      ∙ ap (source_of image) same
      ∙ source_of-image_log image s.log
      ∙ from,
  sym (resident-image_log image t.log)
      ∙ ap (resident image) same
      ∙ resident-image_log image s.log
      ∙ stays,
)

load_driver_image-resident :
    (fw : Firmware) (file : Text) (path : DevicePath) (s : State)
    → (load_driver_image fw file path s).0 ≡ efi_success
    → let image = (fw.load_image_of s.log path).1 in
      let l = (load_driver_image fw file path s).1.log in
      (source_of image l ≡ some path) × (resident image l ≡ true)
unfolding load_driver_image start_driver
load_driver_image-resident fw file path s done =
    let image = (fw.load_image_of s.log path).1 in
    (ground (arith, ==_refl image), ground (arith, ==_refl image))

module _ (fw : Firmware) (strings : IsStringLib fw.strings) (keeps : KeepsStarted fw)
    (volume : Handle) (self : DevicePath) (dir name : Text)
    (from : (l : Log) → LoadedFrom fw l volume self dir name) where
  -- A load with success finds the driver, or leaves it resident.
  mount_load_driver-IsResident :
      (file full : Text) (s : State)
      → length dir + length file + 2 ≤ max_path
      → (mount_load_driver fw (some file) full s).0 ≡ efi_success
      → SameImages s (mount_load_driver fw (some file) full s).1
        ⊎ IsResident (beside dir file) (mount_load_driver fw (some file) full s).1.log
  unfolding mount_load_driver
  mount_load_driver-IsResident file full s fits done =
      let t = (mount_driver_loaded fw file s).1 in
      let beside' =
        (mount_join_self_path-LoadedFrom fw strings t.log volume self dir name (from t.log) file
          full fits).2 in
      elim (Bool-cases (mount_driver_loaded fw file s).0) [
        | inl loaded ↦ rw loaded (inl (mount_driver_loaded-SameImages fw file s))
        | inr absent ↦ elim (mount_build_driver_device_path-Built fw file full t) [
          | inl (status, e) ↦ absurd (cc (rw (absent, e, ◌>>=◌) at done))
          | inr (path, at, e) ↦
              let u : State = record t { log = Event.allocated path.address ∷ t.log } in
              let done' : (load_driver_image fw file path u).0 ≡ efi_success =
                rw (absent, e, ◌>>=◌) at done in
              let (source, stays) = load_driver_image-resident fw file path u done' in
              let named = keeps.named t.log _ _ path at in
              rw (absent, e, ◌>>=◌) (inr (_, path, named ∙ ap some beside', source, stays))
        ]
      ]

  module _ (rounds : ℕ) where
    ensure_driver-IsResident :
        (e : FormatEntry) (full : Text) (s : State)
        → length dir + length e.driver_file + 2 ≤ max_path
        → (ensure_driver fw rounds e full s).0 ≡ efi_success
        → SameImages s (ensure_driver fw rounds e full s).1
          ⊎ IsResident (beside dir e.driver_file) (ensure_driver fw rounds e full s).1.log
    unfolding ensure_driver
    ensure_driver-IsResident e full s fits done =
        let t = (mount_driver_loaded fw e.driver_file s).1 in
        let same = mount_driver_loaded-SameImages fw e.driver_file s in
        elim (Bool-cases (mount_driver_loaded fw e.driver_file s).0) [
          | inl loaded ↦ rw loaded (inl same)
          | inr absent ↦
              rw absent
                (elim (mount_load_driver-IsResident e.driver_file full t fits (rw absent at done)) [
                  | inl quiet ↦ inl (quiet ∙ same)
                  | inr there ↦ inr there
                ])
        ]

    mount_run_format-IsResident :
        (e : FormatEntry) (full : Text) (s : State)
        → length dir + length e.driver_file + 2 ≤ max_path
        → (mount_run_format fw rounds (some e) full s).0 ≡ some efi_success
        → SameImages s (mount_run_format fw rounds (some e) full s).1
          ⊎ IsResident (beside dir e.driver_file) (mount_run_format fw rounds (some e) full s).1.log
    unfolding mount_run_format
    mount_run_format-IsResident e full s fits done =
        let ((_, buffer, old), t) = map_snapshot_fs_handles fw s in
        let (status, u) = ensure_driver fw rounds e full t in
        let v = (rescan_and_report fw rounds buffer old u).1 in
        let rest = rescan_and_report-SameImages fw rounds buffer old u in
        elim (Bool-cases (status == efi_success)) [
          | inr failed ↦ absurd (ground arith)
          | inl fine ↦ rw fine (elim (ensure_driver-IsResident e full t fits (ground arith)) [
            | inl quiet ↦ inl (rest ∙ quiet ∙ map_snapshot_fs_handles-SameImages fw s)
            | inr there ↦ inr (IsResident-SameImages _ u v rest there)
          ])
        ]

    module _ (stay : ImagesStay fw) (soon : FreeSoon fw rounds) where
      IsResident-loaded :
          (file : Text) (s : State)
          → IsResident (beside dir file) s.log
          → (mount_driver_loaded fw file s).0 ≡ true
      IsResident-loaded file s (image, path, named, source, stays) =
          let (fine, (h, found, at)) =
            keeps.listed s.log image path (beside dir file) source stays named in
          (mount_driver_loaded_iff fw stay file s fine).0.1
            (h, beside dir file, found, at, beside-EndsWith dir file)

      -- The flow of a row whose driver is resident.
      resident_run :
          (e : FormatEntry) (full : Text) (s : State)
          → IsResident (beside dir e.driver_file) s.log
          → let (result, t) = mount_run_format fw rounds (some e) full s in
            (result ≡ some efi_success) × SameImages s t
      unfolding mount_run_format ensure_driver
      resident_run e full s there =
          let ((_, buffer, old), t) = map_snapshot_fs_handles fw s in
          let quiet = map_snapshot_fs_handles-SameImages fw s in
          let loaded =
            IsResident-loaded e.driver_file t (IsResident-SameImages _ s t quiet there) in
          let u = (mount_driver_loaded fw e.driver_file t).1 in
          let v : State = record u {
            log = Event.printed (Message.driver_already_loaded e.name) ∷ u.log;
          } in
          rw loaded (
            rescan_and_report-ends fw rounds soon buffer old v,
            rescan_and_report-SameImages fw rounds buffer old v
                ∙ mount_driver_loaded-SameImages fw e.driver_file t
                ∙ quiet,
          )

      -- A driver is loaded once. If the string functions keep their contract, mount.efi was loaded
      -- from a file, the joined path fits, memory calls do not change the paths of images, a
      -- started image stays among the loaded ones, under the path that it was loaded from, until
      -- it is unloaded, and one of the first `rounds` fs names is free at any time, then after a
      -- run of `mount -<FORMAT>` that returned EFI_SUCCESS and loaded, started or unloaded an
      -- image, every further run for the same row, in any later state since which no image was
      -- loaded, started or unloaded, returns EFI_SUCCESS and loads, starts and unloads no image.
      pub mount_run_format-once :
          (e : FormatEntry) (full full' : Text) (s u : State)
          → length dir + length e.driver_file + 2 ≤ max_path
          → (mount_run_format fw rounds (some e) full s).0 ≡ some efi_success
          → ¬ SameImages s (mount_run_format fw rounds (some e) full s).1
          → SameImages (mount_run_format fw rounds (some e) full s).1 u
          → let (result, v) = mount_run_format fw rounds (some e) full' u in
            (result ≡ some efi_success) × SameImages u v
      mount_run_format-once e full full' s u fits done loaded since =
          elim (mount_run_format-IsResident e full s fits done) [
            | inl quiet ↦ absurd (loaded quiet)
            | inr there ↦ resident_run e full' u (
                IsResident-SameImages _ (mount_run_format fw rounds (some e) full s).1 u since
                  there)
          ]
