-- ===== src/LoopDisk/Create/Success.antt =====
-- On a machine where nothing fails, `LoopCreate` makes the loop device.
use mount.Prelude.{
  ℕ, ◌-◌, ◌/◌, ◌%◌, ◌≤◌, ◌≡◌, refl, ◌∙◌, ◌≢◌, inl, inr, Bool, true, false, some, ◌∷◌, arith, ltb,
  ◌==◌, ==_refl, Bool-cases, Text,
}
use mount.Efi.{
  Status, efi_success, Ptr, Handle, DevicePath, Message, Event, Log, Firmware, State, ◌>>=◌, stored,
  installed_at, Works, Neutral,
}
use mount.LoopDxe.Factory.{
  loop_disk_size, loop_factory_create, build_disk, install_disk, next_seq, vendor_node,
}
use mount.LoopDxe.Factory.Create.{made_disk}
use mount.LoopDisk.Sniff.{block, loop_sniff}
use mount.LoopDisk.Factory.{mount_loop_factory_get, mount_iso_file_device_path}
use mount.LoopDxe.Factory.Invariant.{made_disk-IsLoopDisk}
use mount.LoopDisk.Create.{
  Loop, make_device, loop_min_size, create_device, sniff_and_create, check_size, stat_and_create,
  loop_create,
}
use mount.LoopDisk.Create.Parts.{AfterAlloc, loop_sniff-Neutral}
use mount.LoopDisk.Create.Disk.{DiskOver, AddedAt}

-- From s to t a loop disk over the file has been added and installed on the handle; what is stored
-- under the pointer `kept` is as before.
pub record Running (fw : Firmware) (kept file : Ptr) (size : ℕ) (handle : Handle) (s t : State)
    : Type 0 where
  pub over : DiskOver fw file size
  pub added : (q : Ptr) → AddedAt over q s t
  pub seq : ℕ
  pub made : over.disk ≡ made_disk file (size / 2048 - 1) seq over.path handle
  pub live : handle ≢ 0
  pub installed : installed_at handle t.log ≡ some over.address
  pub content : stored kept t.log ≡ stored kept s.log

pub Running-before :
    (fw : Firmware) (kept file : Ptr) (size : ℕ) (handle : Handle) (s t u : State)
    → Neutral s t
    → stored kept t.log ≡ stored kept s.log
    → Running fw kept file size handle t u
    → Running fw kept file size handle s u
Running-before fw kept file size handle s t u quiet same a = record {
  over = a.over;
  added = λ q. ground (arith, quiet q, a.added q);
  seq = a.seq;
  made = a.made;
  live = a.live;
  installed = a.installed;
  content = a.content ∙ same;
}

-- A part of `LoopCreate` has succeeded with this handle.
abbrev pub Succeeds :
    Firmware → (kept file : Ptr) (size : ℕ) → State → (Status × Loop) × State → Type 0
Succeeds fw kept file size s r =
    (r.0.0 ≡ efi_success) × Running fw kept file size r.0.1.handle s r.1

module _ (fw : Firmware) (works : Works fw) (full : Text) where
  pub mount_loop_factory_get-found :
      (s : State) → mount_loop_factory_get fw full s ≡ (efi_success, s)
  unfolding mount_loop_factory_get
  mount_loop_factory_get-found s = ground (arith, works.factory s.log)

module _ (fw : Firmware) (works : Works fw) (iso_path full : Text) (kept file : Ptr)
    (there : file ≢ 0) where
  loop_factory_create-Running :
      (last_block : ℕ) (path : DevicePath) (s : State)
      → let p = fw.allocate s.log loop_disk_size in
        let r = loop_factory_create fw file (some path) last_block true s in
        (made : DevicePath) × (handle : Handle) × (handle ≢ 0)
        × (r.0 ≡ (efi_success, some handle))
        × (r.1.log
            ≡ Event.loop_installed made p 0 handle
              ∷ Event.allocated made.address
              ∷ Event.allocated p
              ∷ s.log)
        × (r.1.disks p ≡ some (made_disk file last_block (next_seq s.loop_seq) made handle))
        × ((q : Ptr) → q ≢ p → r.1.disks q ≡ s.disks q)
  unfolding loop_factory_create build_disk install_disk
  loop_factory_create-Running last_block path s =
      let p = fw.allocate s.log loop_disk_size in
      let l : Log = Event.allocated p ∷ s.log in
      let (made, appended) = works.appends l path (vendor_node (next_seq s.loop_seq)) in
      let (handle, live, install) = works.installs (Event.allocated made.address ∷ l) made p in
      let room = works.allocates s.log loop_disk_size in
      (
        made,
        handle,
        live,
        ground (arith, appended, install, room),
        ground (arith, appended, install, room),
        ground (arith, appended, install, room),
        λ q ne. ground (arith, appended, install, room),
      )

  make_device-Running :
      (size : ℕ) (path : DevicePath) (s : State)
      → let r = make_device fw iso_path full file size path s in
        (handle : Handle) × (r.0 ≡ (efi_success, some handle))
        × Running fw kept file size handle s r.1
  unfolding make_device
  make_device-Running size path s =
      let (made, handle, live, ok, log, disk, others) =
        loop_factory_create-Running (size / block - 1) path s in
      rw (mount_loop_factory_get-found fw works full s) (
        handle,
        ok,
        record {
          over = record {
            address = fw.allocate s.log loop_disk_size;
            disk = made_disk file (size / block - 1) (next_seq s.loop_seq) made handle;
            path = made;
            before = s.log;
            allocated = refl;
            there = works.allocates s.log loop_disk_size;
            over = refl;
            same_media = refl;
            last = refl;
            named = refl;
            well = made_disk-IsLoopDisk file _ _ made handle there;
          };
          added = λ q. record {
            kept = rw log (omega arith);
            live = omega arith;
            files = rw log (omega arith);
            stored = λ e. rw e disk;
            other = others q;
          };
          seq = next_seq s.loop_seq;
          made = refl;
          live = live;
          installed = rw log (ground (arith, ==_refl handle));
          content = rw log refl;
        },
      )

  -- The path of the image is released.
  create_device-Succeeds :
      (size : ℕ) (path : DevicePath) (sniffed : Bool × Bool) (s : State)
      → Succeeds fw kept file size s
          (create_device fw iso_path full file size path sniffed (AfterAlloc path.address s))
  unfolding create_device
  create_device-Succeeds size path (iso9660, udf) s =
      let (handle, ok, a) = make_device-Running size path (AfterAlloc path.address s) in
      rw ok (
        refl,
        record {
          over = a.over;
          added = λ q. ground (arith, a.added q);
          seq = a.seq;
          made = a.made;
          live = a.live;
          installed = a.installed;
          content = a.content;
        },
      )

  loop_sniff-stored : (s : State) → stored kept (loop_sniff fw file s).1.log ≡ stored kept s.log
  unfolding loop_sniff
  loop_sniff-stored s = ground arith

  mount_iso_file_device_path-found :
      (s : State)
      → (path : DevicePath) × (mount_iso_file_device_path fw iso_path s
          ≡ (some path, AfterAlloc path.address s))
  unfolding mount_iso_file_device_path
  mount_iso_file_device_path-found s =
      let (path, resolved) = works.resolves s.log iso_path in
      (path, rw (works.shell s.log, resolved) refl)

  sniff_and_create-Succeeds :
      (size : ℕ) (s : State)
      → Succeeds fw kept file size s (sniff_and_create fw iso_path full file size s)
  unfolding sniff_and_create
  sniff_and_create-Succeeds size s =
      let (sniffed, t) = loop_sniff fw file s in
      let (path, e) = mount_iso_file_device_path-found t in
      let (ok, a) = create_device-Succeeds size path sniffed t in
      rw (e, ◌>>=◌)
        (
          ok,
          Running-before fw kept file size _ s t _ (loop_sniff-Neutral fw full file s)
              (loop_sniff-stored s) a,
        )

  check_size-Succeeds :
      (size : ℕ) (s : State)
      → loop_min_size ≤ size
      → Succeeds fw kept file size s (check_size fw iso_path full file size s)
  unfolding check_size
  check_size-Succeeds size s enough =
      let warned : State = record s { log = Event.printed Message.tail_ignored ∷ s.log } in
      let large : ltb size loop_min_size ≡ false = ground arith in
      elim (Bool-cases (size % block == 0)) [
        | inl whole ↦ rw (large, whole) (sniff_and_create-Succeeds size s)
        | inr tail ↦
            let (ok, a) = sniff_and_create-Succeeds size warned in
            rw (large, tail)
              (ok, Running-before fw kept file size _ s warned _ (λ q. ground arith) refl a)
      ]

  -- The information buffer that is allocated.
  abbrev info_at : State → Ptr
  info_at s = fw.allocate s.log (fw.info_of s.log file).0

  abbrev stated : State → State
  stated s = record s { log = Event.freed (info_at s) ∷ Event.allocated (info_at s) ∷ s.log }

  stat_and_create-large :
      (size : ℕ) (s : State)
      → (fw.info_of (Event.allocated (info_at s) ∷ s.log) file).1 ≡ 0
      → (fw.info_of (Event.allocated (info_at s) ∷ s.log) file).2 ≡ size
      → stat_and_create fw iso_path full file s ≡ check_size fw iso_path full file size (stated s)
  unfolding stat_and_create
  stat_and_create-large size s fine known =
      ground (arith, works.allocates s.log (fw.info_of s.log file).0)

  -- If no service fails, the Shell opens the file under the name, and as long as what is stored
  -- stays, its size is given as at least 16 blocks, then `LoopCreate` returns EFI_SUCCESS and a
  -- handle that is not NULL, on which a loop disk over the file is installed. The opened file, the
  -- disk and its path are all that is kept.
  pub loop_create-Succeeds :
      (size : ℕ) (s : State)
      → fw.open_by_name s.log iso_path ≡ (0, file)
      → ((l : Log)
          → stored kept l ≡ stored kept s.log
          → ((fw.info_of l file).1 ≡ 0) × ((fw.info_of l file).2 ≡ size))
      → loop_min_size ≤ size
      → Succeeds fw kept file size
          (record s { log = Event.opened iso_path file ∷ s.log })
          (loop_create fw iso_path full s)
  unfolding loop_create
  loop_create-Succeeds size s named measured enough =
      let t : State = record s { log = Event.opened iso_path file ∷ s.log } in
      let (fine, known) = measured (Event.allocated (info_at t) ∷ t.log) refl in
      let (ok, a) = check_size-Succeeds size (stated t) enough in
      rw (named, stat_and_create-large size t fine known)
        (ok, Running-before fw kept file size _ t (stated t) _ (λ q. ground arith) refl a)
