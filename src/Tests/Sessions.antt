-- ===== src/Tests/Sessions.antt =====
-- What the driver, `mount -ISO` and the self test do on a machine on which nothing fails.
use mount.Prelude.{List, ◌+◌, ◌≤◌, ◌≡◌, refl, true, none, some, [], ◌∷◌, arith, Text, codes, ◌⊎◌}
use mount.Efi.{
  efi_success, Ptr, Node, DevicePath, Firmware, State, allocs, frees, opens, closes, LoopDisk,
}
use mount.LoopDxe.Factory.{
  loop_factory_create, loop_factory_destroy, build_disk, install_disk, next_seq, loop_media_id,
  loop_disk_size,
}
use mount.LoopDxe.Factory.Invariant.{Step, IsLoopDisk}
use mount.Mount.{uefi_main}
use mount.Mount.Survival.{Spares, Spared, Spared-ServesImage_tested, AnyArguments}
use mount.Mount.Session.{handed_over, Sessions-FilesFollow, Session, Sessions}
use mount.Mount.Served.{IsImage, uefi_main-ServesImage}
use mount.Mount.Dispatch.{greeted}
use mount.Mount.Bounded.{AllSmall, Sessions-bounds}
use mount.LoopDxe.Factory.Create.{Created, made_disk, loop_factory_create-Created}
use mount.LoopDxe.BlockIo.Bounds.{Rejected, Served}
use mount.Tests.Working.{
  machine-ReportsSizes, machine, machine-Works, machine-FindsInstalled, machine-Appends,
  machine-ListsHandles, machine-FreeSoon, iso_name, machine-OpensImage, machine-measured,
  machine-IsMachine,
}
use mount.Mount.History.{Sessions-history_free}
use mount.LoopDxe.Factory.Ledger.Simulation.{FilesFollow}
use mount.LoopDxe.Factory.Ledger.{Ledger, Refines}
use mount.LoopDisk.Create.Blocks.{ServesImage}
use mount.LoopDisk.Iso.{mount_run_iso}
use mount.LoopDisk.Iso.Mounted.{Mounted, mount_run_iso-Mounted, mount_run_iso-efi_success}
use mount.Tests.Demo.{start, bytes, length-bytes, path_at, demo}

abbrev quiet : Firmware
quiet = machine []

-- A disk is made and destroyed.
abbrev iso_path : DevicePath
iso_path = path_at 40 (Node.file_path (codes "boot.iso") ∷ [])

abbrev made : State
made = (loop_factory_create quiet 30 (some iso_path) 15 true start).1

abbrev destroyed : State
destroyed = (loop_factory_destroy quiet 90 true made).1

start-sane : (q : Ptr) → frees q start.log ≤ allocs q start.log
start-sane q = omega arith

none_left : (q : Ptr) → destroyed.disks q ≡ none
unfolding loop_factory_create build_disk install_disk loop_factory_destroy demo
none_left q = ground arith

-- The disk that was made is asked for its blocks 14 and 15.
creation :
    Created quiet 30 iso_path 15 start (loop_factory_create quiet 30 (some iso_path) 15 true start)
unfolding loop_factory_create build_disk install_disk demo
creation = loop_factory_create-Created quiet (machine-Appends []) 30 15 true start iso_path refl

abbrev its_disk : LoopDisk
its_disk = made_disk 30 15 (next_seq start.loop_seq) creation.disk_path creation.handle

after_creation : Sessions quiet 1 start made
after_creation =
    Sessions.after Sessions.here
      (Session.driver_step (Step.create start 30 (some iso_path) 15 true))

after_creation-AllSmall : AllSmall quiet 1 after_creation
unfolding after_creation
after_creation-AllSmall = (tt, omega arith)

Sessions-bounds_example :
    IsLoopDisk its_disk
    × (Rejected quiet its_disk loop_media_id 14 4096 0x5000 made
        ⊎ Served quiet its_disk loop_media_id 14 4096 0x5000 made)
Sessions-bounds_example =
    Sessions-bounds quiet 1 (machine-IsMachine []) start start-sane (machine-ReportsSizes [])
      (λ q. refl) after_creation after_creation-AllSmall (quiet.allocate start.log loop_disk_size)
      its_disk creation.disk loop_media_id 14 4096 0x5000 made

-- An image of 16 blocks is mounted.
mounted :
    (arguments : List Text)
    → (mount_run_iso (machine arguments) 1 iso_name [] start).0 ≡ some efi_success
mounted arguments =
    mount_run_iso-efi_success (machine arguments) 1 (machine-ListsHandles arguments)
      (machine-FreeSoon arguments) (machine-Appends arguments) iso_name [] 30 (bytes 0x8000 0) start
      (machine-OpensImage arguments) (machine-Works arguments) (omega arith)
      (machine-measured arguments) (omega (arith, length-bytes 0x8000 0))

mount_run_iso-Mounted_example :
    Mounted quiet 30 (bytes 0x8000 0) start (mount_run_iso quiet 1 iso_name [] start).1
mount_run_iso-Mounted_example =
    mount_run_iso-Mounted quiet 1 (machine-ListsHandles []) (machine-FreeSoon [])
      (machine-Appends []) iso_name [] 30 (bytes 0x8000 0) start (machine-OpensImage [])
      (mounted [])

-- The Shell hands out `mount -ISO boot.iso`.
abbrev iso_arguments : List Text
iso_arguments = codes "mount.efi" ∷ codes "-ISO" ∷ codes "boot.iso" ∷ []

abbrev mounting : Firmware
mounting = machine iso_arguments

abbrev mounted_twice : State
mounted_twice = (uefi_main mounting 1 [] (uefi_main mounting 1 [] start).1).1

two_runs : Sessions mounting 1 start mounted_twice
two_runs =
    Sessions.after (Sessions.after Sessions.here (Session.run start []))
      (Session.run (uefi_main mounting 1 [] start).1 [])

Sessions-FilesFollow_example :
    (l : Ledger) × Refines start mounted_twice l
    × FilesFollow (handed_over mounting 1 two_runs) start mounted_twice [] l
Sessions-FilesFollow_example =
    Sessions-FilesFollow mounting 1 (machine-IsMachine iso_arguments) start start-sane (λ q. refl)
      two_runs

made_destroyed : Sessions quiet 1 start destroyed
made_destroyed =
    Sessions.after
      (Sessions.after Sessions.here
        (Session.driver_step (Step.create start 30 (some iso_path) 15 true)))
      (Session.driver_step (Step.destroy made 90 true))

-- The disk that was made and destroyed has left nothing behind.
Sessions-history_free_example :
    (allocs 30 destroyed.log + frees 30 start.log ≡ frees 30 destroyed.log + allocs 30 start.log)
    × (opens 30 destroyed.log
          + closes 30 start.log
          + (handed_over quiet 1 made_destroyed).given 30
          + 0
        ≡ closes 30 destroyed.log
          + opens 30 start.log
          + (handed_over quiet 1 made_destroyed).returned 30
          + 0)
Sessions-history_free_example =
    Sessions-history_free quiet 1 (machine-IsMachine []) start start-sane (λ q. refl) made_destroyed
      Sessions.here none_left 30

-- The Shell starts `mount -ISO boot.iso` once more, a second disk is made, and `mount` runs again.
boot_iso : IsImage mounting iso_name 30 (bytes 0x8000 0)
boot_iso = record {
  opens = machine-OpensImage iso_arguments;
  there = omega arith;
  measured = machine-measured iso_arguments;
  enough = omega (arith, length-bytes 0x8000 0);
}

iso_given :
    mounting.arguments (greeted mounted_twice).log
    ≡ (efi_success, codes "mount.efi" ∷ codes "-ISO" ∷ iso_name ∷ [])
unfolding demo
iso_given = refl

abbrev mounted_thrice : State
mounted_thrice = (uefi_main mounting 1 [] mounted_twice).1

abbrev with_another : State
with_another = (loop_factory_create mounting 30 (some iso_path) 15 true mounted_thrice).1

used_later : Spared mounting 1 AnyArguments mounted_thrice (uefi_main mounting 1 [] with_another).1
used_later =
    Spared.after
      (Spared.after Spared.here
        (Spares.driver_step (Step.create mounted_thrice 30 (some iso_path) 15 true) refl))
      (Spares.run with_another [] tt)

-- The image file has not been closed more often than opened.
twice-counted : closes 30 mounted_twice.log ≤ opens 30 mounted_twice.log
unfolding two_runs
twice-counted =
    let (l, _, files) =
      Sessions-FilesFollow mounting 1 (machine-IsMachine iso_arguments) start start-sane (λ q. refl)
        two_runs in
    omega (arith, files 30)

uefi_main-ServesImage_example :
    ((uefi_main mounting 1 [] mounted_twice).0 ≡ some efi_success)
    × ServesImage mounting (bytes 0x8000 0) (uefi_main mounting 1 [] with_another).1
uefi_main-ServesImage_example =
    uefi_main-ServesImage mounting 1 (machine-IsMachine iso_arguments) (machine-Works iso_arguments)
      start start-sane (λ q. refl) [] (codes "mount.efi") iso_name [] 30 (bytes 0x8000 0) boot_iso
      two_runs twice-counted iso_given used_later

-- After the image is mounted, a second disk is made, and `mount selftest` runs.
abbrev test_arguments : List Text
test_arguments = codes "mount.efi" ∷ codes "selftest" ∷ []

abbrev testing : Firmware
testing = machine test_arguments

abbrev with_image : State
with_image = (mount_run_iso testing 1 iso_name [] start).1

abbrev with_two : State
with_two = (loop_factory_create testing 30 (some iso_path) 15 true with_image).1

used_on : Spared testing 1 AnyArguments with_image (uefi_main testing 1 [] with_two).1
used_on =
    Spared.after
      (Spared.after Spared.here
        (Spares.driver_step (Step.create with_image 30 (some iso_path) 15 true) refl))
      (Spares.run with_two [] tt)

Spared-ServesImage_tested_example :
    ServesImage testing (bytes 0x8000 0) (uefi_main testing 1 [] with_two).1
Spared-ServesImage_tested_example =
    Spared-ServesImage_tested testing 1 (machine-IsMachine test_arguments) start start-sane
      (λ q. refl) iso_name [] (machine-FindsInstalled test_arguments) 30 (bytes 0x8000 0)
      Sessions.here (machine-OpensImage test_arguments) (omega arith) (mounted test_arguments)
      used_on
