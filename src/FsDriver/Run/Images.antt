-- ===== src/FsDriver/Run/Images.antt =====
-- Which calls load, start and unload images, and which steps of the flow make none of them.
use mount.Prelude.{
  inl, inr, ℕ, ◌+◌, ◌≡◌, refl, ◌∙◌, Bool, false, not, Option, none, some, List, [], ◌∷◌, arith,
  ◌==◌, if◌then◌else◌, Bool-cases, Option-cases, Text,
}
use mount.Efi.{efi_error, Ptr, Handle, DevicePath, Protocol, Event, Log, Firmware, State}
use mount.MapReport.Handles.{map_snapshot_fs_handles, connect_handles, map_connect_all_controllers}
use mount.MapReport.Refresh.{map_path, refresh_handles, map_refresh_shell}
use mount.MapReport.Refresh.Names.{free_name-state}
use mount.MapReport.Report.{
  display_name, display_label, read_label, name_of_path, report_volume, report_new,
  map_print_new_volumes,
}
use mount.FsDriver.Loaded.{image_matches, path_matches, find_image, mount_driver_loaded}
use mount.FsDriver.Run.{rescan_and_report}

-- The calls about images, out of all.
abbrev pub image_log : Log → Log
image_log [] = []
image_log (Event.image_loaded path status image ∷ l) =
    Event.image_loaded path status image ∷ image_log l
image_log (Event.image_started image status ∷ l) = Event.image_started image status ∷ image_log l
image_log (Event.image_unloaded image ∷ l) = Event.image_unloaded image ∷ image_log l
image_log (_ ∷ l) = image_log l

-- No image is loaded, started or unloaded.
abbrev pub SameImages : State → State → Type 0
SameImages s t = image_log t.log ≡ image_log s.log

-- The path from which an image was last loaded.
abbrev pub source_of : Ptr → Log → Option DevicePath
source_of image [] = none
source_of image (Event.image_loaded path status i ∷ l) =
    let rest = source_of image l in
    if efi_error status then rest else if i == image then some path else rest
source_of image (_ ∷ l) = source_of image l

-- The image was started with success, and not unloaded since.
abbrev pub resident : Ptr → Log → Bool
resident image [] = false
resident image (Event.image_started i status ∷ l) =
    let rest = resident image l in if i == image then not (efi_error status) else rest
resident image (Event.image_unloaded i ∷ l) =
    let rest = resident image l in if i == image then false else rest
resident image (_ ∷ l) = resident image l

pub source_of-image_log :
    (image : Ptr) (l : Log) → source_of image (image_log l) ≡ source_of image l
source_of-image_log image [] = refl
source_of-image_log image (Event.image_loaded path status i ∷ l) =
    ground (arith, source_of-image_log image l)
source_of-image_log image (Event.image_started i status ∷ l) = source_of-image_log image l
source_of-image_log image (Event.image_unloaded i ∷ l) = source_of-image_log image l
source_of-image_log image (e ∷ l) = source_of-image_log image l

pub resident-image_log : (image : Ptr) (l : Log) → resident image (image_log l) ≡ resident image l
resident-image_log image [] = refl
resident-image_log image (Event.image_loaded path status i ∷ l) = resident-image_log image l
resident-image_log image (Event.image_started i status ∷ l) =
    ground (arith, resident-image_log image l)
resident-image_log image (Event.image_unloaded i ∷ l) = ground (arith, resident-image_log image l)
resident-image_log image (e ∷ l) = resident-image_log image l

module _ (fw : Firmware) where
  pub map_snapshot_fs_handles-SameImages :
      (s : State) → SameImages s (map_snapshot_fs_handles fw s).1
  unfolding map_snapshot_fs_handles
  map_snapshot_fs_handles-SameImages s = ground arith

  connect_handles-SameImages :
      (hs : List Handle) (s : State) → SameImages s (connect_handles fw hs s).1
  unfolding connect_handles
  connect_handles-SameImages [] s = refl
  connect_handles-SameImages (g ∷ hs) s = ground (
    arith,
    connect_handles-SameImages hs (record s { log = Event.controller_connected g ∷ s.log }),
    connect_handles-SameImages hs s,
  )

  map_connect_all_controllers-SameImages :
      (s : State) → SameImages s (map_connect_all_controllers fw s).1
  unfolding map_connect_all_controllers
  map_connect_all_controllers-SameImages s =
      let (status, buffer, handles) = fw.locate_handle_buffer s.log Protocol.block_io in
      ground (
        arith,
        connect_handles-SameImages handles (record s { log = Event.allocated buffer ∷ s.log }),
      )

  module _ (rounds : ℕ) where
    map_path-SameImages :
        (path : DevicePath) (s : State) → SameImages s (map_path fw rounds path s).1
    unfolding map_path
    map_path-SameImages path s = ground (arith, free_name-state fw rounds 0 s)

    refresh_handles-SameImages :
        (hs : List Handle) (s : State) → SameImages s (refresh_handles fw rounds hs s).1
    unfolding refresh_handles
    refresh_handles-SameImages [] s = refl
    refresh_handles-SameImages (g ∷ hs) s = elim (Option-cases (fw.path_of_handle s.log g)) [
      | inl e ↦ rw e (refresh_handles-SameImages hs s)
      | inr (path, e) ↦ rw e (
          let (more, t) = map_path fw rounds path s in
          let a = map_path-SameImages path s in
          elim (Bool-cases more) [
            | inl on ↦ rw on (refresh_handles-SameImages hs t ∙ a)
            | inr stop ↦ rw stop a
          ])
    ]

    map_refresh_shell-SameImages : (s : State) → SameImages s (map_refresh_shell fw rounds s).1
    unfolding map_refresh_shell
    map_refresh_shell-SameImages s =
        let ((status, buffer, handles), t) = map_snapshot_fs_handles fw s in
        ground (arith, map_snapshot_fs_handles-SameImages s, refresh_handles-SameImages handles t)

  report_volume-SameImages : (h : Handle) (s : State) → SameImages s (report_volume fw h s).1
  unfolding report_volume display_name name_of_path display_label read_label
  report_volume-SameImages h s = ground arith

  report_new-SameImages :
      (old now : List Handle) (count : ℕ) (s : State)
      → SameImages s (report_new fw old now count s).1
  unfolding report_new
  report_new-SameImages old [] count s = refl
  report_new-SameImages old (h ∷ now) count s =
      let t = (report_volume fw h s).1 in
      ground (
        arith,
        report_volume-SameImages h s,
        report_new-SameImages old now count s,
        report_new-SameImages old now (count + 1) t,
      )

  map_print_new_volumes-SameImages :
      (old : List Handle) (s : State) → SameImages s (map_print_new_volumes fw old s).1
  unfolding map_print_new_volumes
  map_print_new_volumes-SameImages old s =
      let ((status, buffer, now), t) = map_snapshot_fs_handles fw s in
      ground (arith, map_snapshot_fs_handles-SameImages s, report_new-SameImages old now 0 t)

  pub rescan_and_report-SameImages :
      (rounds : ℕ) (buffer : Ptr) (old : List Handle) (s : State)
      → SameImages s (rescan_and_report fw rounds buffer old s).1
  unfolding rescan_and_report
  rescan_and_report-SameImages rounds buffer old s =
      let v = (map_connect_all_controllers fw s).1 in
      let w = (map_refresh_shell fw rounds v).1 in
      ground (
        arith,
        map_connect_all_controllers-SameImages s,
        map_refresh_shell-SameImages rounds v,
        map_print_new_volumes-SameImages old w,
      )

module _ (fw : Firmware) (file : Text) where
  find_image-SameImages : (hs : List Handle) (s : State) → SameImages s (find_image fw file hs s).1
  unfolding find_image image_matches path_matches
  find_image-SameImages [] s = refl
  find_image-SameImages (h ∷ hs) s =
      let t = (image_matches fw file h s).1 in ground (arith, find_image-SameImages hs t)

  pub mount_driver_loaded-SameImages : (s : State) → SameImages s (mount_driver_loaded fw file s).1
  unfolding mount_driver_loaded
  mount_driver_loaded-SameImages s =
      let (status, buffer, handles) = fw.locate_handle_buffer s.log Protocol.loaded_image in
      ground
        (arith, find_image-SameImages handles (record s { log = Event.allocated buffer ∷ s.log }))
