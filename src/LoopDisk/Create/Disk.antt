-- ===== src/LoopDisk/Create/Disk.antt =====
-- The loop disk that `LoopCreate` stores when it succeeds, and what it keeps for it.
use mount.Prelude.{
  ◌+◌, ◌≢◌, ℕ, ◌-◌, ◌/◌, ◌%◌, ◌≤◌, ◌≡◌, refl, inl, inr, Bool, true, some, ◌∷◌, arith, ltb, ◌==◌,
  Bool-cases, Text, ==_refl,
}
use mount.Efi.{
  efi_error, opens, closes, Message, hit, allocs, frees, Neutral, efi_success, Ptr, DevicePath,
  Event, Log, Firmware, LoopDisk, State, ◌>>=◌, Handle, installed_at,
}
use mount.LoopDxe.Factory.{loop_disk_size, loop_media_id, next_seq}
use mount.LoopDxe.Factory.Create.{made_disk, Appends, loop_factory_create-Created}
use mount.LoopDxe.Factory.Invariant.{IsLoopDisk, made_disk-IsLoopDisk}
use mount.LoopDisk.Sniff.{block, loop_sniff}
use mount.LoopDisk.Factory.{mount_loop_factory_get}
use mount.LoopDisk.Create.{
  handle_or_null, make_device, loop_min_size, create_device, sniff_and_create, check_size,
  stat_and_create, loop_create,
}
use mount.LoopDisk.Create.Parts.{
  AfterAlloc, mount_loop_factory_get-Neutral, loop_sniff-Neutral,
  mount_iso_file_device_path-Resolved,
}

-- A loop disk over the file, which ends with the last whole block of `size` bytes, at an address
-- that was allocated after the calls of `before`.
pub record DiskOver (fw : Firmware) (file : Ptr) (size : ℕ) : Type 0 where
  pub address : Ptr
  pub disk : LoopDisk
  pub path : DevicePath
  pub before : Log
  pub allocated : address ≡ fw.allocate before loop_disk_size
  pub there : address ≢ 0
  pub over : disk.backing_file ≡ file
  pub same_media : disk.media.media_id ≡ loop_media_id
  pub last : disk.last_block ≡ size / 2048 - 1
  pub named : disk.device_path ≡ some path
  pub well : IsLoopDisk disk

-- From s to t the disk has been stored at its address, and the other loop disks are as before. The
-- disk and its device path are the only memory kept, and files are balanced. What was live in s was
-- live when the disk was allocated.
pub record AddedAt {fw : Firmware} {file : Ptr} {size : ℕ} (d : DiskOver fw file size) (q : Ptr)
    (s t : State) : Type 0 where
  pub kept :
      allocs q t.log + frees q s.log
      ≡ frees q t.log + allocs q s.log + hit q d.address + hit q d.path.address
  pub live : allocs q s.log + frees q d.before ≤ allocs q d.before + frees q s.log
  pub files : opens q t.log + closes q s.log ≡ closes q t.log + opens q s.log
  pub stored : q ≡ d.address → t.disks q ≡ some d.disk
  pub other : q ≢ d.address → t.disks q ≡ s.disks q

-- A disk has been added, and its protocols stand on the handle.
abbrev pub HasDisk : (fw : Firmware) (file : Ptr) (size : ℕ) → Handle → State → State → Type 0
HasDisk fw file size h s t =
    (d : DiskOver fw file size) × ((q : Ptr) → AddedAt d q s t)
    × (installed_at h t.log ≡ some d.address)

HasDisk-before :
    (fw : Firmware) (file : Ptr) (size : ℕ) (h : Handle) (s t u : State)
    → Neutral s t
    → HasDisk fw file size h t u
    → HasDisk fw file size h s u
HasDisk-before fw file size h s t u a (d, b, c) = (d, (λ q. ground (arith, a q, b q)), c)

module _ (fw : Firmware) where
  -- The information buffer that is allocated, and the size that is written into it.
  abbrev info_at : Ptr → State → Ptr
  info_at file s = fw.allocate s.log (fw.info_of s.log file).0

  abbrev pub stat_size : Ptr → State → ℕ
  stat_size file s = (fw.info_of (Event.allocated (info_at file s) ∷ s.log) file).2

  abbrev stated : Ptr → State → State
  stated file s = record s {
    log = Event.freed (info_at file s) ∷ Event.allocated (info_at file s) ∷ s.log;
  }

module _ (fw : Firmware) (iso_path : Text) where
  -- The image file once it is open.
  abbrev pub image_file : State → Ptr
  image_file s = (fw.open_by_name s.log iso_path).1

  abbrev pub after_open : State → State
  after_open s = record s { log = Event.opened iso_path (image_file s) ∷ s.log }

module _ (fw : Firmware) (appends : Appends fw) (iso_path full : Text) where
  make_device-HasDisk :
      (file : Ptr) (size : ℕ) (path : DevicePath) (s : State)
      → (make_device fw iso_path full file size path s).0.0 ≡ efi_success
      → HasDisk fw file size
          (handle_or_null (make_device fw iso_path full file size path s).0.1)
          s
          (make_device fw iso_path full file size path s).1
  unfolding make_device
  make_device-HasDisk file size path s done =
      let (status, t) = mount_loop_factory_get fw full s in
      elim (Bool-cases (status == efi_success)) [
        | inr absent ↦ absurd (ground arith)
        | inl there ↦ rw there (
            let c =
              loop_factory_create-Created fw appends file (size / block - 1) true t path
                (rw there at done) in
            HasDisk-before fw file size _ s t _ (mount_loop_factory_get-Neutral fw full s) (
              record {
                address = fw.allocate t.log loop_disk_size;
                disk = made_disk file (size / block - 1) (next_seq t.loop_seq) c.disk_path c.handle;
                path = c.disk_path;
                before = t.log;
                allocated = refl;
                there = c.there;
                over = refl;
                same_media = refl;
                last = refl;
                named = refl;
                well = made_disk-IsLoopDisk file _ _ c.disk_path c.handle c.backed;
              },
              λ q. record {
                kept = c.kept q;
                live = omega arith;
                files = rw c.installed (omega arith);
                stored = λ e. rw e c.disk;
                other = c.other_disks q;
              },
              rw (c.returned, c.installed, c.no_error, ==_refl c.handle) refl,
            ))
      ]

  create_device-HasDisk :
      (file : Ptr) (size : ℕ) (path : DevicePath) (sniffed : Bool × Bool) (s : State)
      → let r = create_device fw iso_path full file size path sniffed (AfterAlloc path.address s) in
        r.0.0 ≡ efi_success → HasDisk fw file size r.0.1.handle s r.1
  unfolding create_device
  create_device-HasDisk file size path (iso9660, udf) s done =
      let start = AfterAlloc path.address s in
      let ((status, handle), t) = make_device fw iso_path full file size path start in
      elim (Bool-cases (status == efi_success)) [
        | inl fine ↦ rw fine (
            let (d, a, c) = make_device-HasDisk file size path start (ground arith) in
            (d, (λ q. ground (arith, a q)), c))
        | inr failed ↦ absurd (ground arith)
      ]

  sniff_and_create-HasDisk :
      (file : Ptr) (size : ℕ) (s : State)
      → (sniff_and_create fw iso_path full file size s).0.0 ≡ efi_success
      → HasDisk fw file size
          (sniff_and_create fw iso_path full file size s).0.1.handle
          s
          (sniff_and_create fw iso_path full file size s).1
  unfolding sniff_and_create
  sniff_and_create-HasDisk file size s done =
      let (sniffed, t) = loop_sniff fw file s in
      let a = loop_sniff-Neutral fw full file s in
      elim (mount_iso_file_device_path-Resolved fw iso_path t) [
        | inl e ↦ absurd (cc (rw (e, ◌>>=◌) at done))
        | inr (path, e) ↦
            rw (e, ◌>>=◌)
              (HasDisk-before fw file size _ s t _ a
                (create_device-HasDisk file size path sniffed t (rw (e, ◌>>=◌) at done)))
      ]

  -- The size that was checked is the disk's.
  check_size-HasDisk :
      (file : Ptr) (size : ℕ) (s : State)
      → (check_size fw iso_path full file size s).0.0 ≡ efi_success
      → HasDisk fw file size
          (check_size fw iso_path full file size s).0.1.handle
          s
          (check_size fw iso_path full file size s).1
        × (loop_min_size ≤ size)
  unfolding check_size
  check_size-HasDisk file size s done = elim (Bool-cases (ltb size loop_min_size)) [
    | inl small ↦ absurd (cc (rw small at done))
    | inr enough ↦ elim (Bool-cases (size % block == 0)) [
      | inl whole ↦
          rw (enough, whole)
            (sniff_and_create-HasDisk file size s (rw (enough, whole) at done), ground arith)
      | inr tail ↦
          let warned : State = record s { log = Event.printed Message.tail_ignored ∷ s.log } in
          rw (enough, tail)
            (
              HasDisk-before fw file size _ s warned _ (λ q. ground arith)
                  (sniff_and_create-HasDisk file size warned (rw (enough, tail) at done)),
              ground arith,
            )
    ]
  ]

  stat_and_create-success :
      (file : Ptr) (s : State)
      → (stat_and_create fw iso_path full file s).0.0 ≡ efi_success
      → stat_and_create fw iso_path full file s
        ≡ check_size fw iso_path full file (stat_size fw file s) (stated fw file s)
  unfolding stat_and_create
  stat_and_create-success file s done = ground arith

  stat_and_create-HasDisk :
      (file : Ptr) (s : State)
      → (stat_and_create fw iso_path full file s).0.0 ≡ efi_success
      → HasDisk fw file
          (stat_size fw file s)
          (stat_and_create fw iso_path full file s).0.1.handle
          s
          (stat_and_create fw iso_path full file s).1
        × (loop_min_size ≤ stat_size fw file s)
  stat_and_create-HasDisk file s done =
      let same = stat_and_create-success file s done in
      let size = stat_size fw file s in
      let (b, enough) = check_size-HasDisk file size (stated fw file s) (rw same at done) in
      rw same (HasDisk-before fw file size _ s (stated fw file s) _ (λ q. ground arith) b, enough)

  pub loop_create-HasDisk :
      (s : State)
      → (loop_create fw iso_path full s).0.0 ≡ efi_success
      → HasDisk fw
          (image_file fw iso_path s)
          (stat_size fw (image_file fw iso_path s) (after_open fw iso_path s))
          (loop_create fw iso_path full s).0.1.handle
          (after_open fw iso_path s)
          (loop_create fw iso_path full s).1
        × (loop_min_size ≤ stat_size fw (image_file fw iso_path s) (after_open fw iso_path s))
  unfolding loop_create
  loop_create-HasDisk s done = elim (Bool-cases (efi_error (fw.open_by_name s.log iso_path).0)) [
    | inl bad ↦ absurd (cc (rw bad at done))
    | inr fine ↦ rw fine (
        stat_and_create-HasDisk (image_file fw iso_path s) (after_open fw iso_path s)
          (rw fine at done))
  ]
