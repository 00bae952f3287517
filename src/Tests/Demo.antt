-- ===== src/Tests/Demo.antt =====
-- A firmware in which everything works, over an image file of a given size, and its laws.
use mount.Prelude.{
  ℕ, zero, suc, ◌+◌, ◌-◌, ◌/◌, ◌%◌, ◌≤◌, min, ◌≡◌, refl, ap, Bool, true, false, Option, none, some,
  List, [], ◌∷◌, ◌++◌, arith, ltb, ◌==◌, if◌then◌else◌, length, length-append, take, drop, Text,
  codes,
}
use mount.Efi.{
  efi_not_found, Ptr, Byte, Node, DevicePath, Event, Log, StringLib, IsStringLib, Firmware,
  HoldsBytes, ListsHandles, LoopDisk, State,
}
use mount.LoopDxe.Factory.Create.{Appends}
use mount.MapReport.Alias.{find_from, map_find_fs_alias}
use mount.MapReport.Handles.Rescan.{FsStays}
use mount.MapReport.Refresh.Complete.{FreeSoon, IsShellMap}
use mount.FsDriver.SelfPath.{last_file_path}
use mount.FsDriver.SelfPath.Beside.{LoadedFrom}
use mount.FsDriver.Loaded.Scan.{image_text, ImagesStay}
use mount.LoopDisk.Create.Ownership.{FreshPool}

abbrev pub start : State
start = record { log = []; loop_seq = 0; disks = λ q. none }

unfoldable pub bytes : (count first : ℕ) → List Byte
bytes zero first = []
bytes (suc count) first = (first % 256) ∷ bytes count (first + 1)

pub length-bytes : (count first : ℕ) → length (bytes count first) ≡ count
unfolding bytes
length-bytes zero first = refl
length-bytes (suc count) first = ap suc (length-bytes count (first + 1))

abbrev copy_fits : Bool → (whole destination : Text) → Text
copy_fits true whole destination = whole
copy_fits false whole destination = destination

abbrev pub library : StringLib
library = record {
  strn_cpy_s = λ destination dest_max source count.
      copy_fits (ltb (min (length source) count) dest_max) (take count source) destination;
  s_print_path = λ size dir relative. take (size / 2 - 1) (dir ++ b'\\' ∷ relative);
  s_print_fs = λ size index. codes "fs" ++ (b'0' + index) ∷ codes ":";
}

pub library-IsStringLib : IsStringLib library
library-IsStringLib = record {
  strn_cpy_s-fits = λ destination dest_max source count h.
      fits source destination (take count source) (ltb (min (length source) count) dest_max)
        (ground arith);
  strn_cpy_s-short = λ destination dest_max source count h.
      short source destination (take count source) (ltb (min (length source) count) dest_max)
        (ground arith);
  s_print_path-fits = λ size dir relative h.
      take_whole (size / 2 - 1) (dir ++ b'\\' ∷ relative)
        (omega (arith, length-append dir (b'\\' ∷ relative)));
}
  where
    fits : (s d w : Text) (b : Bool) → b ≡ true → copy_fits b w d ≡ w
    fits s d w b e = rw e

    short : (s d w : Text) (b : Bool) → b ≡ false → copy_fits b w d ≡ d
    short s d w b e = rw e

    take_whole : (n : ℕ) (xs : Text) → length xs ≤ n → take n xs ≡ xs
    take_whole zero [] h = refl
    take_whole (suc n) [] h = refl
    take_whole zero (x ∷ xs) h = absurd (omega arith)
    take_whole (suc n) (x ∷ xs) h = ap (λ ys. x ∷ ys) (take_whole n xs (omega arith))

abbrev pub path_at : Ptr → List Node → DevicePath
path_at p nodes = record { address = p; nodes = nodes }

abbrev pub self_path : DevicePath
self_path = path_at 40 (Node.file_path (codes "efi\\mount.efi") ∷ [])

-- Where the file stands after the newest seek.
abbrev pub position : Log → ℕ
position [] = 0
position (Event.positioned file p ∷ l) = p
position (_ ∷ l) = position l

-- The Shell's names once a mapping is set.
abbrev map_names : Log → Option Text
map_names [] = none
map_names (Event.map_set path name status ∷ l) = some (codes "BLK7:;FS0:")
map_names (_ ∷ l) = map_names l

abbrev text_or_none : Option Text → Option (Ptr × Text)
text_or_none none = none
text_or_none (some text) = some (870, text)

abbrev pub blank : LoopDisk
blank = record {
  signature = 0;
  media = record {
    media_id = 0;
    removable_media = false;
    media_present = false;
    logical_partition = false;
    read_only = false;
    write_caching = false;
    block_size = 0;
    io_align = 0;
    last_block = 0;
  };
  device_path = none;
  backing_file = 0;
  handle = 0;
  last_block = 0;
  seq = 0;
}

unfoldable pub demo : ℕ → Firmware
demo size = record {
  strings = library;
  image_handle = 1;
  locate_handle_buffer = λ l protocol. (0, 77, 5 ∷ 6 ∷ []);
  loaded_image_of = λ l h. (0, record { device_handle = 3; file_path = some self_path });
  file_system_of = λ l h. if h == 5 then 0 else efi_not_found;
  block_io_of = λ l h. (0, 800);
  block_io2_of = λ l h. (0, 800);
  memory_as_disk = λ l p. blank;
  arguments = λ l. (0, []);
  locate_factory = λ l. 0;
  locate_shell = λ l. 0;
  load_image_of = λ l path. (0, 60);
  start_image_of = λ l image. 0;
  connect = λ l h. 0;
  install_factory_of = λ l. 0;
  install_loop_of = λ l path p. (0, 90);
  uninstall_loop_of = λ l h p. 0;
  allocate = λ l n. 800;
  append_node = λ l path node. some (path_at 850 (path.nodes ++ node ∷ []));
  file_device_path = λ l h text. some (path_at 860 (Node.file_path text ∷ []));
  path_to_text = λ l path. text_or_none (last_file_path path.nodes none);
  path_of_handle = λ l h. some (path_at 880 []);
  open_by_name = λ l text. (0, 30);
  create_by_name = λ l text. (0, 33);
  info_of = λ l file. (100, 0, size);
  set_position_of = λ l file p. 0;
  read_of = λ l file n. (0, take n (drop (position l) (bytes size 0)));
  write_of = λ l file content. (0, length content);
  open_volume_of = λ l h. (0, 31);
  open_in_volume = λ l root text. (0, 32);
  label_of = λ l root. (0, codes "DATA");
  path_of_file = λ l text. some (path_at 890 []);
  map_of_path = λ l path. map_names l;
  path_of_map = λ l name. none;
  set_map_of = λ l path name. 0;
}

module _ (size : ℕ) where
  pub demo-HoldsBytes : (file : Ptr) → HoldsBytes (demo size) file (bytes size 0)
  unfolding demo
  demo-HoldsBytes file l = record { seek = λ p. refl; read = λ p n. refl }

  pub demo-ListsHandles : ListsHandles (demo size)
  unfolding demo
  demo-ListsHandles = record {
    given = λ l protocol fine. omega arith;
    refused = λ l protocol bad. absurd (cc);
  }

  pub demo-Appends : Appends (demo size)
  unfolding demo
  demo-Appends l path node made e = ground arith

  pub demo-FsStays : FsStays (demo size)
  unfolding demo
  demo-FsStays = record {
    allocation = λ l h p has. has;
    release = λ l h p has. has;
    connection = λ l h g has. has;
  }

  pub demo-FreeSoon : FreeSoon (demo size) 1
  unfolding demo
  demo-FreeSoon l = (0, omega arith, refl)

  pub demo-IsShellMap : IsShellMap (demo size)
  unfolding demo map_find_fs_alias find_from
  demo-IsShellMap = record {
    sets = λ l path name. refl;
    gains = λ l path k. refl;
    keeps = λ l path other name status has. refl;
    path_stays = λ l path name status h. refl;
    released = λ l p h named. named;
  }

  pub demo-ImagesStay : ImagesStay (demo size)
  unfolding demo image_text
  demo-ImagesStay = record { allocation = λ l p h. refl; release = λ l p h. refl }

  pub demo-LoadedFrom :
      (l : Log) → LoadedFrom (demo size) l 3 self_path (codes "efi") (codes "mount.efi")
  unfolding demo last_file_path
  demo-LoadedFrom l = record { loaded = refl; named = refl; file_name = ground arith }

  pub demo-FreshPool : FreshPool (demo size) start
  unfolding demo
  demo-FreshPool l n stays there = refl
