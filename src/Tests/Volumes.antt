-- ===== src/Tests/Volumes.antt =====
-- What runs of `mount -<FORMAT>` and `mount -ISO` do to the volumes of the example firmware.
use mount.Prelude.{ℕ, ◌≡◌, refl, false, some, [], ◌∷◌, codes, text_eq}
use mount.Efi.{Status, efi_success, Firmware, State, Event, Message}
use mount.FsDriver.SelfPath.{
  last_file_path, last_slash, mount_get_self_dir, mount_join_self_path,
  mount_build_driver_device_path,
}
use mount.FsDriver.Loaded.{
  ends_with_file, path_matches, image_matches, find_image, mount_driver_loaded,
}
use mount.FsDriver.Load.{start_driver, load_driver_image, mount_load_driver}
use mount.MapReport.Handles.{map_snapshot_fs_handles}
use mount.FsDriver.Run.{ensure_driver, mount_run_format}
use mount.FsDriver.Run.Reported.{IsListable, Reported, mount_run_format-Reported}
use mount.Tests.Demo.{
  start, demo, demo-ListsHandles, demo-FreeSoon, demo-FsStays, demo-IsShellMap, library-IsStringLib,
  bytes,
}
use mount.Tests.Drivers.{ntfs}
use mount.LoopDisk.Sniff.{loop_sniff, is_iso9660, is_udf, stands_at}
use mount.LoopDxe.Factory.{loop_factory_create, build_disk, install_disk}
use mount.LoopDisk.Factory.{mount_loop_factory_get, mount_iso_file_device_path}
use mount.LoopDisk.Create.{
  Loop, make_device, create_device, sniff_and_create, check_size, stat_and_create, loop_create,
}
use mount.LoopDisk.Iso.{claim_driver, mount_run_iso}
use mount.LoopDisk.Iso.Flow.{snapped}
use mount.LoopDisk.Iso.Reported.{claimed, after_connect, mount_run_iso-Reported}

demo-IsListable : (size : ℕ) → IsListable (demo size)
unfolding demo
demo-IsListable size = record {
  lists = demo-ListsHandles size;
  listed = λ l protocol. refl;
  shell = λ l. refl;
}

loaded :
    (ensure_driver (demo 0) 1 ntfs (codes "") (map_snapshot_fs_handles (demo 0) start).1).0
    ≡ efi_success
unfolding map_snapshot_fs_handles ensure_driver mount_driver_loaded find_image image_matches
    path_matches ends_with_file mount_load_driver mount_build_driver_device_path mount_get_self_dir
    mount_join_self_path last_file_path last_slash load_driver_image start_driver text_eq demo
loaded = refl

mount_run_format-Reported_example :
    let ((_, buffer, old), t) = map_snapshot_fs_handles (demo 0) start in
    let u = (ensure_driver (demo 0) 1 ntfs (codes "") t).1 in
    let (result, v) = mount_run_format (demo 0) 1 (some ntfs) (codes "") start in
    (result ≡ some efi_success) × Reported (demo 0) 1 buffer old u v
unfolding demo
mount_run_format-Reported_example =
    mount_run_format-Reported (demo 0) 1 (demo-IsListable 0) (demo-FreeSoon 0) (demo-FsStays 0)
      (demo-IsShellMap 0) library-IsStringLib ntfs (codes "") start loaded

-- An image of 16 blocks, without the descriptors of ISO9660 or UDF.
abbrev image : Firmware
image = demo 0x8000

abbrev looped : (Status × Loop) × State
looped = loop_create image (codes "boot.iso") [] (snapped image start)

abbrev plain_loop : Loop
plain_loop = record { handle = 90; iso9660 = false; udf = false }

image_created : looped ≡ ((efi_success, plain_loop), looped.1)
unfolding loop_create stat_and_create check_size sniff_and_create create_device make_device
    mount_loop_factory_get mount_iso_file_device_path loop_sniff is_iso9660 is_udf stands_at text_eq
    loop_factory_create build_disk install_disk map_snapshot_fs_handles demo bytes
image_created = refl

no_driver_needed :
    (claim_driver image 1 plain_loop [] (record (looped.1) {
      log = Event.printed (Message.loop_created (codes "boot.iso")) ∷ looped.1.log;
    })).0
    ≡ efi_success
unfolding claim_driver
no_driver_needed = refl

mount_run_iso-Reported_example :
    let ((_, buffer, old), _) = map_snapshot_fs_handles image start in
    let (result, t) = mount_run_iso image 1 (codes "boot.iso") [] start in
    (result ≡ some efi_success)
    × Reported image 1 buffer old
        (after_connect 90 (claimed image 1 (codes "boot.iso") [] plain_loop looped.1))
        t
unfolding demo
mount_run_iso-Reported_example =
    mount_run_iso-Reported image 1 (demo-IsListable 0x8000) (demo-FreeSoon 0x8000)
      (demo-FsStays 0x8000) (demo-IsShellMap 0x8000) library-IsStringLib (codes "boot.iso") []
      plain_loop start looped.1 image_created no_driver_needed
