-- ===== src/Tests/Images.antt =====
-- Image files: one of 22 sectors with descriptors, and loop devices.
use mount.Prelude.{◌≡◌, refl, sym, ◌≢◌, ◌↔◌, ◌≤◌, true, length, arith, Text, codes}
use mount.Efi.{efi_success, Neutral}
use mount.LoopDisk.Sniff.{loop_sniff}
use mount.LoopDisk.Sniff.Content.{HasTag, HasUdf, loop_sniff_iff}
use mount.LoopDxe.Factory.{loop_factory_create, build_disk, install_disk}
use mount.LoopDisk.Factory.{mount_loop_factory_get, mount_iso_file_device_path}
use mount.LoopDisk.Create.{
  make_device, create_device, sniff_and_create, check_size, stat_and_create, loop_create,
}
use mount.LoopDisk.Create.Ownership.{loop_create-Neutral}
use mount.LoopDisk.Create.Blocks.{OpensImage, ServesImage, loop_create-ServesImage}
use mount.Tests.Demo.{
  start, bytes, length-bytes, demo, demo-HoldsBytes, demo-Appends, demo-FreshPool,
}

abbrev iso_name : Text
iso_name = codes "boot.iso"

loop_sniff_iff_example :
    (((loop_sniff (demo 0xb000) 30 start).0.0 ≡ true)
      ↔ ((0xb000 ≤ length (bytes 0xb000 0)) × HasTag (bytes 0xb000 0) 16 "CD001"))
    × (((loop_sniff (demo 0xb000) 30 start).0.1 ≡ true)
        ↔ ((0xb000 ≤ length (bytes 0xb000 0)) × HasUdf (bytes 0xb000 0)))
loop_sniff_iff_example =
    loop_sniff_iff (demo 0xb000) 30 (bytes 0xb000 0) (demo-HoldsBytes 0xb000 30) start

too_small : (loop_create (demo 0x7fff) iso_name (codes "") start).0.0 ≢ efi_success
unfolding loop_create stat_and_create check_size demo
too_small = omega arith

loop_create-Neutral_example : Neutral start (loop_create (demo 0x7fff) iso_name (codes "") start).1
loop_create-Neutral_example =
    loop_create-Neutral (demo 0x7fff) iso_name (codes "") start (demo-FreshPool 0x7fff) too_small

demo-OpensImage : OpensImage (demo 0x8000) iso_name 30 (bytes 0x8000 0)
unfolding demo
demo-OpensImage = record {
  named = λ l. refl;
  sized = λ l. sym (length-bytes 0x8000 0);
  holds = λ l still. demo-HoldsBytes 0x8000 30 l;
  fits = omega (arith, length-bytes 0x8000 0);
}

large_enough : (loop_create (demo 0x8000) iso_name (codes "") start).0.0 ≡ efi_success
unfolding loop_create stat_and_create check_size sniff_and_create create_device make_device
    mount_loop_factory_get mount_iso_file_device_path loop_sniff loop_factory_create build_disk
    install_disk demo
large_enough = refl

loop_create-ServesImage_example :
    ServesImage
      (demo 0x8000)
      (bytes 0x8000 0)
      (loop_create (demo 0x8000) iso_name (codes "") start).1
loop_create-ServesImage_example =
    loop_create-ServesImage (demo 0x8000) (demo-Appends 0x8000) iso_name (codes "") 30
      (bytes 0x8000 0) start demo-OpensImage (omega arith) large_enough
