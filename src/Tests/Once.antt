-- ===== src/Tests/Once.antt =====
-- A firmware that lists the images that were started, and two runs of `mount -NTFS` on it.
use mathlib.Core.Path.{subst}
use mount.Prelude.{
  ◌≡◌, refl, true, Option, none, some, List, [], ◌∷◌, zero, suc, arith, Text, codes, text_eq,
}
use mount.Efi.{IsStringLib, efi_success, Ptr, Handle, Node, DevicePath, Event, Log, Firmware}
use mount.MapReport.Handles.{
  map_snapshot_fs_handles, map_is_in_snapshot, connect_handles, map_connect_all_controllers,
}
use mount.MapReport.Refresh.Complete.{FreeSoon}
use mount.FsDriver.SelfPath.{
  last_file_path, mount_build_driver_device_path, mount_get_self_dir, mount_join_self_path,
  last_slash,
}
use mount.FsDriver.SelfPath.Beside.{LoadedFrom}
use mount.FsDriver.Loaded.Scan.{image_text, ImagesStay}
use mount.FsDriver.Run.{mount_run_format, rescan_and_report, ensure_driver}
use mount.FsDriver.Run.Images.{SameImages, source_of, resident}
use mount.FsDriver.Run.Once.{KeepsStarted, mount_run_format-once}
use mount.FsDriver.Loaded.{
  mount_driver_loaded, find_image, image_matches, path_matches, ends_with_file,
}
use mount.FsDriver.Load.{mount_load_driver, load_driver_image, start_driver}
use mount.MapReport.Refresh.{map_refresh_shell, refresh_handles, map_path, free_name}
use mount.MapReport.Alias.{map_find_fs_alias, find_from, map_copy_alias, alias_length}
use mount.MapReport.Report.{
  map_print_new_volumes, report_new, report_volume, display_name, name_of_path, display_label,
  read_label,
}
use mount.Tests.Demo.{path_at, self_path, demo, start, library-IsStringLib}
use mount.Tests.Drivers.{ntfs}

-- The handle of an image is two above its number; handle 1 is mount.efi.
abbrev started : Log → List Handle
started [] = []
started (Event.image_started image status ∷ l) = suc (suc image) ∷ started l
started (_ ∷ l) = started l

abbrev image_path : Log → Handle → Option DevicePath
image_path l zero = none
image_path l (suc zero) = some self_path
image_path l (suc (suc image)) = source_of image l

unfoldable listing : Firmware
unfolding demo
listing = record (demo 0) {
  locate_handle_buffer = λ l protocol. (0, 77, 1 ∷ started l);
  loaded_image_of = λ l h. (0, record { device_handle = 3; file_path = image_path l h });
}

allocated_same :
    (l : Log) (p : Ptr) (h : Handle)
    → image_text listing (Event.allocated p ∷ l) h ≡ image_text listing l h
unfolding listing demo image_text
allocated_same l p zero = refl
allocated_same l p (suc zero) = refl
allocated_same l p (suc (suc image)) = refl

freed_same :
    (l : Log) (p : Ptr) (h : Handle)
    → image_text listing (Event.freed p ∷ l) h ≡ image_text listing l h
unfolding listing demo image_text
freed_same l p zero = refl
freed_same l p (suc zero) = refl
freed_same l p (suc (suc image)) = refl

listing-ImagesStay : ImagesStay listing
listing-ImagesStay = record { allocation = allocated_same; release = freed_same }

listing-LoadedFrom : (l : Log) → LoadedFrom listing l 3 self_path (codes "efi") (codes "mount.efi")
unfolding listing demo last_file_path
listing-LoadedFrom l = record { loaded = refl; named = refl; file_name = ground arith }

resident-started :
    (image : Ptr) (l : Log)
    → resident image l ≡ true
    → map_is_in_snapshot (suc (suc image)) (started l) ≡ true
unfolding map_is_in_snapshot
resident-started image [] e = absurd (cc)
resident-started image (Event.image_started i status ∷ l) e =
    ground (arith, resident-started image l)
resident-started image (Event.image_unloaded i ∷ l) e = ground (arith, resident-started image l)
resident-started image (_ ∷ l) e = resident-started image l e

named_file :
    (path : DevicePath) (file : Text)
    → some (path_at 860 (Node.file_path file ∷ [])) ≡ some path
    → last_file_path path.nodes none ≡ some file
unfolding last_file_path
named_file path file e = subst (λ (o : Option DevicePath). file_of o ≡ some file) e refl
  where
    file_of : Option DevicePath → Option Text
    file_of none = none
    file_of (some path) = last_file_path path.nodes none

listing-KeepsStarted : KeepsStarted listing
unfolding listing demo image_text map_is_in_snapshot
listing-KeepsStarted = record {
  named = λ l volume file path e. named_file path file e;
  listed = λ l image path name source stays named. (
    refl,
    (suc (suc image), ground (arith, resident-started image l stays), rw (source, named) refl),
  );
}

listing-IsStringLib : IsStringLib listing.strings
unfolding listing demo
listing-IsStringLib = library-IsStringLib

listing-FreeSoon : FreeSoon listing 1
unfolding listing demo
listing-FreeSoon l = (0, omega arith, refl)

first_run : (mount_run_format listing 1 (some ntfs) [] start).0 ≡ some efi_success
unfolding mount_run_format rescan_and_report ensure_driver mount_driver_loaded find_image
    image_matches path_matches ends_with_file mount_load_driver mount_build_driver_device_path
    mount_get_self_dir mount_join_self_path last_file_path last_slash load_driver_image start_driver
    text_eq map_snapshot_fs_handles map_connect_all_controllers connect_handles map_refresh_shell
    refresh_handles map_path free_name map_find_fs_alias find_from map_print_new_volumes report_new
    report_volume display_name name_of_path map_copy_alias alias_length display_label read_label
    map_is_in_snapshot listing demo
first_run = refl

changed : ¬ SameImages start (mount_run_format listing 1 (some ntfs) [] start).1
unfolding mount_run_format rescan_and_report ensure_driver mount_driver_loaded find_image
    image_matches path_matches ends_with_file mount_load_driver mount_build_driver_device_path
    mount_get_self_dir mount_join_self_path last_file_path last_slash load_driver_image start_driver
    text_eq map_snapshot_fs_handles map_connect_all_controllers connect_handles map_refresh_shell
    refresh_handles map_path free_name map_find_fs_alias find_from map_print_new_volumes report_new
    report_volume display_name name_of_path map_copy_alias alias_length display_label read_label
    map_is_in_snapshot listing demo
changed e = cc e

mount_run_format-once_example :
    let t = (mount_run_format listing 1 (some ntfs) [] start).1 in
    let (result, u) = mount_run_format listing 1 (some ntfs) [] t in
    (result ≡ some efi_success) × SameImages t u
mount_run_format-once_example =
    mount_run_format-once listing listing-IsStringLib listing-KeepsStarted 3 self_path (codes "efi")
      (codes "mount.efi") listing-LoadedFrom 1 listing-ImagesStay listing-FreeSoon ntfs [] [] start
      (mount_run_format listing 1 (some ntfs) [] start).1 (omega arith) first_run changed refl
