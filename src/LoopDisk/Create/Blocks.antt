-- ===== src/LoopDisk/Create/Blocks.antt =====
-- A loop device that `LoopCreate` makes serves the blocks of the image file.
use mount.Prelude.{
  ◌≤◌, u64_mod, ap, ℕ, ◌-◌, ◌*◌, ◌/◌, ◌<◌, ◌≡◌, refl, sym, some, List, ◌∷◌, arith, length, take,
  drop, Text,
}
use mount.Efi.{
  efi_success, Ptr, Byte, Event, Log, Firmware, HoldsBytesAt, LoopDisk, State, IsOpen, opens,
  closes, hit_self,
}
use mathlib.Core.Path.{subst}
use mount.LoopDxe.BlockIo.{loop_read_blocks}
use mount.LoopDxe.BlockIo.Bounds.{IsRequest}
use mount.LoopDxe.BlockIo.Content.{loop_read_blocks-content}
use mount.LoopDxe.Factory.{loop_media_id}
use mount.LoopDxe.Factory.Create.{Appends}
use mount.LoopDisk.Create.{loop_create}
use mount.LoopDisk.Create.Disk.{HasDisk, loop_create-HasDisk}

-- The file that the Shell opens under this name is the image file, of this size and contents. It
-- can be read as long as it is open.
pub record OpensImage (fw : Firmware) (iso_path : Text) (file : Ptr) (image : List Byte)
    : Type 0 where
  pub named : (l : Log) → fw.open_by_name l iso_path ≡ (efi_success, file)
  pub sized : (l : Log) → (fw.info_of l file).2 ≡ length image
  pub holds : (l : Log) → IsOpen file l → HoldsBytesAt fw l file image
  pub fits : length image < u64_mod

-- Every read of whole blocks through the loop disk gives the bytes of the image, as long as its
-- file is open.
abbrev pub Serves : Firmware → List Byte → LoopDisk → Type 0
Serves fw image disk =
    (disk.last_block ≡ length image / 2048 - 1)
    × ((lba buffer_size : ℕ) (buffer : Ptr) (u : State)
        → IsOpen disk.backing_file u.log
        → IsRequest disk loop_media_id lba buffer_size buffer
        → (loop_read_blocks fw disk loop_media_id lba buffer_size buffer u).0
          ≡ (efi_success, take buffer_size (drop (lba * 2048) image)))

-- A stored loop disk that does so, and whose file is open.
abbrev pub ServesImage : Firmware → List Byte → State → Type 0
ServesImage fw image t =
    (p : Ptr) × (disk : LoopDisk) × (t.disks p ≡ some disk)
    × IsOpen disk.backing_file t.log
    × Serves fw image disk

module _ (fw : Firmware) (appends : Appends fw) (iso_path full : Text) where
  -- The disk that is made, once the file is open.
  pub loop_create-Serves :
      (file : Ptr) (image : List Byte) (s : State)
      → OpensImage fw iso_path file image
      → (loop_create fw iso_path full s).0.0 ≡ efi_success
      → (a : HasDisk fw file
          (length image)
          (loop_create fw iso_path full s).0.1.handle
          (record s { log = Event.opened iso_path file ∷ s.log })
          (loop_create fw iso_path full s).1)
        × Serves fw image a.0.disk
  loop_create-Serves file image s opens_image done =
      let same : (fw.open_by_name s.log iso_path).1 ≡ file =
        ap (λ answer. answer.1) (opens_image.named s.log) in
      let (a, enough) =
        rw (same, opens_image.sized) at (loop_create-HasDisk fw appends iso_path full s done) in
      (
        a,
        (
          a.0.last,
          λ lba size buffer u open_yet r.
              loop_read_blocks-content fw a.0.disk image
                (record {
                  fits = opens_image.fits;
                  nonempty = omega (arith, enough);
                  blocks = a.0.last;
                })
                loop_media_id lba size buffer u r
                (subst (λ f. HoldsBytesAt fw u.log f image) (sym a.0.over)
                  (opens_image.holds u.log (rw a.0.over at open_yet))),
        ),
      )

  -- If AppendDevicePathNode appends, and `LoopCreate` succeeds on a name under which the Shell
  -- opens an image file of fewer than 2^64 bytes, which is unchanged and can be read as long as it
  -- is open, and which was not closed more often than opened, then there is a loop disk whose
  -- blocks are the whole 2048-byte blocks of the image and whose file is left open, and every
  -- request for blocks of it, made in any state in which its file is open, succeeds with the bytes
  -- of the image from that block on.
  pub loop_create-ServesImage :
      (file : Ptr) (image : List Byte) (s : State)
      → OpensImage fw iso_path file image
      → closes file s.log ≤ opens file s.log
      → (loop_create fw iso_path full s).0.0 ≡ efi_success
      → ServesImage fw image (loop_create fw iso_path full s).1
  loop_create-ServesImage file image s opens_image sane done =
      let ((d, added, _), serves) = loop_create-Serves file image s opens_image done in
      (
        d.address,
        d.disk,
        (added d.address).stored refl,
        rw d.over (omega (arith, (added file).files, hit_self file, sane)),
        serves,
      )
