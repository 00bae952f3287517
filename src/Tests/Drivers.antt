-- ===== src/Tests/Drivers.antt =====
-- Drivers beside `efi\mount.efi`, loaded by a firmware that allows them and by one that does not.
use mount.Prelude.{
  ℕ, zero, suc, ◌≡◌, refl, ◌↔◌, true, false, some, [], ◌∷◌, ◌++◌, arith, Text, codes, text_eq,
}
use mount.Efi.{
  Status, efi_success, efi_error, status_secure_boot, Node, DevicePath, Protocol, IsStringLib,
  Firmware, PoolBalanced,
}
use mount.Formats.{FormatEntry, entry}
use mount.FsDriver.SelfPath.{
  last_file_path, last_slash, mount_get_self_dir, mount_join_self_path,
  mount_build_driver_device_path,
}
use mount.FsDriver.SelfPath.Beside.{
  LoadedFrom, beside, mount_get_self_dir-long, mount_join_self_path-LoadedFrom,
}
use mount.FsDriver.Loaded.{
  ends_with_file, path_matches, image_matches, find_image, mount_driver_loaded,
}
use mount.FsDriver.Loaded.Scan.{HasImage, mount_driver_loaded_iff}
use mount.FsDriver.Load.{load_driver_image, mount_load_driver}
use mount.FsDriver.Load.Outcome.{Loading, mount_load_driver-Loading}
use mount.FsDriver.Load.Blocked.{mount_load_driver-after_refusal}
use mount.FsDriver.Run.{mount_run_format}
use mount.FsDriver.Run.Flow.{Ran, mount_run_format-Ran}
use mount.Tests.Demo.{
  start, path_at, self_path, library-IsStringLib, demo, demo-ListsHandles, demo-FreeSoon,
  demo-ImagesStay, demo-LoadedFrom,
}
use mount.Tests.Strict.{strict, strict-ImagesStay, strict-LoadedFrom, strict-KeepsBlocked}

abbrev fw : Firmware
fw = demo 0

abbrev ntfs_file : Text
ntfs_file = codes "drivers\\ntfs_x64.efi"

abbrev efi_dir : Text
efi_dir = codes "efi"

fw-IsStringLib : IsStringLib fw.strings
unfolding demo
fw-IsStringLib = library-IsStringLib

-- A directory of 300 letters.
abbrev letters : ℕ → Text
letters zero = []
letters (suc n) = b'a' ∷ letters n

abbrev deep_path : DevicePath
deep_path = path_at 40 (Node.file_path (letters 300 ++ b'\\' ∷ codes "mount.efi") ∷ [])

abbrev deep : Firmware
deep = record fw {
  loaded_image_of = λ l h. (0, record { device_handle = 3; file_path = some deep_path });
}

deep-LoadedFrom : LoadedFrom deep [] 3 deep_path (letters 300) (codes "mount.efi")
unfolding demo last_file_path
deep-LoadedFrom = record { loaded = refl; named = refl; file_name = ground arith }

mount_get_self_dir-long_example : mount_get_self_dir deep [] ≡ (efi_success, 3, [])
mount_get_self_dir-long_example =
    mount_get_self_dir-long deep [] 3 deep_path (letters 300) (codes "mount.efi") fw-IsStringLib
      deep-LoadedFrom (omega arith)

mount_join_self_path-LoadedFrom_example :
    let (status, device, self_dir) = mount_get_self_dir fw [] in
    (status ≡ efi_success)
    × (device ≡ 3)
    × (mount_join_self_path fw.strings self_dir ntfs_file (codes "") ≡ beside efi_dir ntfs_file)
mount_join_self_path-LoadedFrom_example =
    mount_join_self_path-LoadedFrom fw fw-IsStringLib [] 3 self_path efi_dir (codes "mount.efi")
      (demo-LoadedFrom 0 []) ntfs_file (codes "") (omega arith)

no_boundary : ends_with_file (codes "mydrivers\\ntfs_x64.efi") ntfs_file ≡ false
unfolding ends_with_file text_eq
no_boundary = refl

images_listed : efi_error (fw.locate_handle_buffer start.log Protocol.loaded_image).0 ≡ false
unfolding demo
images_listed = refl

mount_driver_loaded_iff_example :
    (((mount_driver_loaded fw ntfs_file start).0 ≡ true)
      ↔ HasImage fw start.log (fw.locate_handle_buffer start.log Protocol.loaded_image).2 ntfs_file)
    × PoolBalanced start (mount_driver_loaded fw ntfs_file start).1
mount_driver_loaded_iff_example =
    mount_driver_loaded_iff fw (demo-ImagesStay 0) ntfs_file start images_listed

mount_load_driver-Loading_example :
    Loading start (mount_load_driver strict (some ntfs_file) (codes "") start)
mount_load_driver-Loading_example = mount_load_driver-Loading strict ntfs_file (codes "") start

strict-IsStringLib : IsStringLib strict.strings
unfolding strict demo
strict-IsStringLib = library-IsStringLib

blocked : (mount_load_driver strict (some ntfs_file) (codes "") start).0 ≡ status_secure_boot
unfolding mount_load_driver mount_driver_loaded find_image image_matches path_matches
    mount_build_driver_device_path mount_get_self_dir mount_join_self_path load_driver_image
    last_file_path last_slash ends_with_file strict demo
blocked = refl

mount_load_driver-after_refusal_example :
    (mount_load_driver strict
      (some ntfs_file)
      (codes "")
      (mount_load_driver strict (some ntfs_file) (codes "") start).1).0
    ≡ efi_success
mount_load_driver-after_refusal_example =
    mount_load_driver-after_refusal strict strict-IsStringLib strict-ImagesStay strict-KeepsBlocked
      3 self_path efi_dir (codes "mount.efi") ntfs_file (codes "") strict-LoadedFrom (omega arith)
      start blocked

abbrev pub ntfs : FormatEntry
ntfs = entry "NTFS" "drivers\\ntfs_x64.efi" "efifs, read-only" true

mount_run_format-Ran_example :
    let (result, t) = mount_run_format fw 1 (some ntfs) (codes "") start in
    (status : Status) × (result ≡ some status) × Ran start status t
mount_run_format-Ran_example =
    mount_run_format-Ran fw 1 (demo-ListsHandles 0) (demo-FreeSoon 0) ntfs (codes "") start
