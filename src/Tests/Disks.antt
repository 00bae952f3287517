-- ===== src/Tests/Disks.antt =====
-- A loop disk over an image of 16 blocks: made, read, written and destroyed.
use mount.Prelude.{
  ◌*◌, ◌≡◌, refl, ◌≢◌, ◌⊎◌, true, false, some, List, [], ◌∷◌, arith, take, drop, codes,
}
use mount.Efi.{
  efi_success, efi_error, Ptr, Byte, Node, DevicePath, Firmware, LoopDisk, State, PoolBalanced,
  FilesBalanced,
}
use mount.LoopDxe.BlockIo.{Token, loop_read_blocks}
use mount.LoopDxe.BlockIo.Bounds.{IsRequest, Rejected, Served, loop_read_blocks-bounds}
use mount.LoopDxe.BlockIo.Content.{Covers, loop_read_blocks-content}
use mount.LoopDxe.BlockIo.ReadOnly.{Request, serve_all, Unchanged, serve_all-Unchanged}
use mount.LoopDxe.Factory.{
  new_disk, next_seq, loop_media_id, loop_disk_size, install_disk, build_disk, loop_factory_create,
  loop_factory_destroy,
}
use mount.LoopDxe.Factory.Create.{
  Refused, Created, loop_factory_create-Refused, loop_factory_create-Created,
}
use mount.LoopDxe.Factory.Destroy.{loop_factory_destroy-Created}
use mount.Tests.Demo.{start, bytes, length-bytes, path_at, demo, demo-HoldsBytes, demo-Appends}

abbrev fw : Firmware
fw = demo 0x8000

abbrev image : List Byte
image = bytes 0x8000 0

abbrev disk : LoopDisk
disk = new_disk 30 15 1

disk-Covers : Covers disk image
disk-Covers = record {
  fits = omega (arith, length-bytes 0x8000 0);
  nonempty = omega (arith, length-bytes 0x8000 0);
  blocks = omega (arith, length-bytes 0x8000 0);
}

two_blocks : IsRequest disk loop_media_id 14 4096 0x5000
two_blocks = record {
  same_media = refl;
  has_buffer = omega arith;
  whole = refl;
  first = omega arith;
  last = omega arith;
}

loop_read_blocks-content_example :
    (loop_read_blocks fw disk loop_media_id 14 4096 0x5000 start).0
    ≡ (efi_success, take 4096 (drop (14 * 2048) image))
loop_read_blocks-content_example =
    loop_read_blocks-content fw disk image disk-Covers loop_media_id 14 4096 0x5000 start two_blocks
      (demo-HoldsBytes 0x8000 30 start.log)

loop_read_blocks-bounds_example :
    Rejected fw disk loop_media_id 14 4096 0x5000 start
    ⊎ Served fw disk loop_media_id 14 4096 0x5000 start
loop_read_blocks-bounds_example =
    loop_read_blocks-bounds fw disk loop_media_id 14 4096 0x5000 start (omega arith)

abbrev token : Token
token = record { event = 9; transaction_status = 5 }

abbrev requests : List Request
requests =
    Request.read loop_media_id 0 2048 0x5000
    ∷ Request.write_ex loop_media_id 0 (some token) 2048 0x6000
    ∷ []

serve_all-Unchanged_example : Unchanged fw disk start (serve_all fw disk requests start)
serve_all-Unchanged_example = serve_all-Unchanged fw disk requests start

abbrev iso_path : DevicePath
iso_path = path_at 40 (Node.file_path (codes "boot.iso") ∷ [])

created : (loop_factory_create fw 30 (some iso_path) 15 true start).0.0 ≡ efi_success
unfolding loop_factory_create build_disk install_disk demo
created = refl

loop_factory_create-Created_example :
    Created fw 30 iso_path 15 start (loop_factory_create fw 30 (some iso_path) 15 true start)
loop_factory_create-Created_example =
    loop_factory_create-Created fw (demo-Appends 0x8000) 30 15 true start iso_path created

not_created : (loop_factory_create fw 0 (some iso_path) 15 true start).0.0 ≢ efi_success
unfolding loop_factory_create
not_created = omega arith

loop_factory_create-Refused_example :
    Refused start (loop_factory_create fw 0 (some iso_path) 15 true start)
loop_factory_create-Refused_example =
    loop_factory_create-Refused fw 0 15 true start (some iso_path) (λ _. refl) not_created

made : Created fw 30 iso_path 15 start (loop_factory_create fw 30 (some iso_path) 15 true start)
made = loop_factory_create-Created fw (demo-Appends 0x8000) 30 15 true start iso_path created

-- A counter that is 256 ahead.
abbrev later : State
later = record start { loop_seq = 256 }

abbrev after : State
after = (loop_factory_create fw 30 (some iso_path) 15 true start).1

its_block_io : (fw.block_io_of after.log made.handle).1 ≡ fw.allocate start.log loop_disk_size
unfolding demo
its_block_io = refl

found_block_io : efi_error (fw.block_io_of after.log made.handle).0 ≡ false
unfolding demo
found_block_io = refl

uninstalled :
    efi_error (fw.uninstall_loop_of after.log made.handle (fw.allocate start.log loop_disk_size))
    ≡ false
unfolding demo
uninstalled = refl

loop_factory_destroy-Created_example :
    let ((status, file), t) = loop_factory_destroy fw made.handle true after in
    (status ≡ efi_success)
    × (file ≡ some 30)
    × ((q : Ptr) → t.disks q ≡ start.disks q)
    × (t.loop_seq ≡ next_seq start.loop_seq)
    × PoolBalanced start t
    × FilesBalanced start t
loop_factory_destroy-Created_example =
    loop_factory_destroy-Created fw 30 iso_path 15 start made refl its_block_io found_block_io
      uninstalled
