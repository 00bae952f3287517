-- ===== src/Tests/Runs.antt =====
-- Whole runs of the program.
use mount.Prelude.{
  ℕ, zero, suc, ◌≡◌, refl, ◌≢◌, ◌↔◌, ◌⊎◌, true, false, some, List, [], ◌∷◌, map, arith, Text, codes,
  text_eq,
}
use mount.Efi.{
  Status, efi_success, efi_device_error, efi_not_found, Byte, Message, Event, Firmware, State,
  FilesBalanced,
}
use mount.Formats.Lookup.{SameUpToCase-iff}
use mount.Formats.{FormatEntry, entry, format_entry, to_upper, formats}
use mount.FsDriver.Run.{mount_run_format}
use mount.FsDriver.SelfPath.{
  last_file_path, last_slash, mount_build_driver_device_path, mount_get_self_dir,
  mount_join_self_path,
}
use mount.FsDriver.Load.Outcome.{NoImageLeft, map_calls}
use mount.FsDriver.Load.{load_driver_image, mount_load_driver}
use mount.FsDriver.Loaded.{
  ends_with_file, path_matches, image_matches, find_image, mount_driver_loaded,
}
use mount.LoopDisk.Create.{
  Loop, make_device, create_device, sniff_and_create, check_size, stat_and_create, loop_create,
}
use mount.LoopDisk.Factory.{mount_loop_factory_get, mount_iso_file_device_path}
use mount.LoopDisk.Sniff.{loop_sniff, is_iso9660, is_udf, stands_at}
use mount.LoopDxe.Factory.{loop_factory_create, build_disk, install_disk}
use mount.LoopDisk.Iso.{claim_driver, mount_run_iso}
use mount.LoopDisk.Iso.Flow.{snapped, mount_run_iso-kept}
use mount.LoopDisk.SelfTest.{loop_disk_self_test}
use mount.MapReport.Handles.{map_snapshot_fs_handles}
use mount.MapReport.Refresh.{is_some}
use mount.Mount.{uefi_main}
use mount.Mount.Dispatch.{greeted, uefi_main-format}
use mount.Mount.Unknown.{IsUnknown, Complains, uefi_main-unknown}
use mount.Mount.Exit.{uefi_main-ends}
use mount.SelfTest.{check_files, mount_self_test}
use mount.SelfTest.Verdict.{missing_lines, tabled, looked_up, mount_self_test_iff}
use mount.Tests.Demo.{start, demo, demo-FreeSoon}

-- `mount -xFs`
abbrev xfs_run : Firmware
xfs_run = record (demo 0) { arguments = λ l. (0, codes "mount.efi" ∷ codes "-xFs" ∷ []) }

abbrev xfs : FormatEntry
xfs = entry "XFS" "drivers\\xfs_x64.efi" "efifs, read-only; v5/CRC TBD" false

xfs_given :
    xfs_run.arguments (greeted start).log
    ≡ (efi_success, codes "mount.efi" ∷ (b'-' ∷ codes "xFs") ∷ [])
xfs_given = refl

xfs_row : format_entry 3 ≡ some xfs
unfolding format_entry
xfs_row = refl

xfs_case : map to_upper xfs.name ≡ map to_upper (codes "xFs")
unfolding to_upper
xfs_case = refl

uefi_main-format_example :
    uefi_main xfs_run 1 [] start ≡ mount_run_format xfs_run 1 (some xfs) [] (greeted start)
uefi_main-format_example =
    uefi_main-format xfs_run 1 [] start (codes "mount.efi") (codes "xFs") [] 3 xfs xfs_given
      (ground arith) xfs_row ((SameUpToCase-iff xfs.name (codes "xFs")).0 xfs_case)

-- `mount -iso boot.iso`: the reserved word is in capitals.
abbrev iso_run : Firmware
iso_run = record (demo 0) {
  arguments = λ l. (0, codes "mount.efi" ∷ codes "-iso" ∷ codes "boot.iso" ∷ []);
}

no_row :
    (i : ℕ) (e : FormatEntry)
    → format_entry i ≡ some e
    → map to_upper (b'-' ∷ e.name) ≢ map to_upper (codes "-iso")
unfolding format_entry to_upper
no_row zero e at same = absurd (ground arith)
no_row (suc zero) e at same = absurd (ground arith)
no_row (suc (suc zero)) e at same = absurd (ground arith)
no_row (suc (suc (suc zero))) e at same = absurd (ground arith)
no_row (suc (suc (suc (suc i)))) e at same = absurd (cc)

iso-IsUnknown : IsUnknown (codes "-iso")
iso-IsUnknown = record {
  sound = ground arith;
  no_question_mark = ground arith;
  no_h = ground arith;
  no_selftest = ground arith;
  no_iso = ground arith;
  no_row = λ i e at same. no_row i e at ((SameUpToCase-iff (b'-' ∷ e.name) (codes "-iso")).1 same);
}

uefi_main-unknown_example : Complains start (uefi_main iso_run 1 [] start)
uefi_main-unknown_example =
    uefi_main-unknown iso_run 1 [] start (codes "mount.efi") (codes "-iso") (codes "boot.iso" ∷ [])
      refl iso-IsUnknown

uefi_main-ends_example : is_some (uefi_main (demo 0x8000) 1 [] start).0 ≡ true
uefi_main-ends_example = uefi_main-ends (demo 0x8000) 1 (demo-FreeSoon 0x8000) [] start

mount_self_test_iff_example :
    let (all, t) = check_files (demo 0x8000) [] formats true (tabled start) in
    let (status, u) = loop_disk_self_test (demo 0x8000) [] (looked_up (all, t)) in
    let (code, v) = mount_self_test (demo 0x8000) [] start in
    ((code ≡ efi_success)
      ↔ ((missing_lines t.log ≡ missing_lines start.log) × (status ≡ efi_success)))
    × ((code ≡ efi_success) ⊎ (code ≡ efi_device_error))
    × FilesBalanced start t
mount_self_test_iff_example = mount_self_test_iff (demo 0x8000) [] start

abbrev iso_name : Text
iso_name = codes "boot.iso"

-- A pure ISO9660 image, and no ISO9660 driver beside mount.efi.
zeros : ℕ → List Byte
zeros zero = []
zeros (suc n) = 0 ∷ zeros n

abbrev pure_iso : Firmware
pure_iso = record (demo 0x8000) {
  read_of = λ l file n. (0, 1 ∷ b'C' ∷ b'D' ∷ b'0' ∷ b'0' ∷ b'1' ∷ zeros 12282);
  load_image_of = λ l path. (efi_not_found, 0);
}

abbrev iso_loop : Loop
iso_loop = record { handle = 90; iso9660 = true; udf = false }

abbrev looped : (Status × Loop) × State
looped = loop_create pure_iso iso_name [] (snapped pure_iso start)

pure_iso_created : looped ≡ ((efi_success, iso_loop), looped.1)
unfolding loop_create stat_and_create check_size sniff_and_create create_device make_device
    mount_loop_factory_get mount_iso_file_device_path loop_sniff is_iso9660 is_udf stands_at text_eq
    loop_factory_create build_disk install_disk map_snapshot_fs_handles demo zeros
pure_iso_created = refl

unclaimed :
    (claim_driver pure_iso 1 iso_loop []
      (record (looped.1) { log = Event.printed (Message.loop_created iso_name) ∷ looped.1.log })).0
    ≢ efi_success
unfolding claim_driver mount_driver_loaded find_image image_matches path_matches ends_with_file
    mount_load_driver mount_build_driver_device_path mount_get_self_dir mount_join_self_path
    last_file_path last_slash load_driver_image text_eq demo
unclaimed = omega arith

mount_run_iso-kept_example :
    let (result, t) = mount_run_iso pure_iso 1 iso_name [] start in
    (result ≡ some efi_success)
    × NoImageLeft looped.1 t
    × (map_calls t.log ≡ map_calls looped.1.log)
mount_run_iso-kept_example =
    mount_run_iso-kept pure_iso 1 iso_name [] start iso_loop looped.1 pure_iso_created unclaimed
