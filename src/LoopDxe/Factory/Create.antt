-- ===== src/LoopDxe/Factory/Create.antt =====
-- What `LoopFactoryCreate` leaves behind, on success and on every failure.
use mount.Prelude.{
  ℕ, ◌+◌, ◌≡◌, refl, ◌≢◌, ◌%◌, true, ◌⊎◌, inl, inr, Bool, false, Option, none, some, [], ◌∷◌, ◌++◌,
  arith, Option-cases,
}
use mount.Efi.{
  Media, LoopDisk, Status, efi_success, efi_error, Ptr, Handle, Node, DevicePath, Event, Log,
  Firmware, State, hit, allocs, frees, closes, PoolBalanced, FilesBalanced,
}
use mount.LoopDxe.Factory.{
  next_seq, vendor_node, loop_disk_size, install_disk, build_disk, loop_factory_create,
}

-- No handle, no memory, no disk and no file is left over.
pub record Refused (s : State) (r : (Status × Option Handle) × State) : Type 0 where
  pub no_handle : (r.0.1 ≡ none) ⊎ (r.0.1 ≡ some 0)
  pub no_leak : PoolBalanced s r.1
  pub same_disks : (q : Ptr) → r.1.disks q ≡ s.disks q
  pub not_closed : (q : Ptr) → closes q r.1.log ≡ closes q s.log
  pub files : FilesBalanced s r.1

module _ (fw : Firmware) (backing_file : Ptr) (last_block : ℕ) (out : Bool) (s : State) where
  -- When `LoopFactoryCreate` returns anything but EFI_SUCCESS, and pool allocation had returned
  -- NULL or an address that holds no loop disk, no loop disk and no memory is left over,
  -- `*LoopHandle` is NULL or untouched, and the file is not closed: the caller still owns it.
  pub loop_factory_create-Refused :
      (file_path : Option DevicePath)
      → (fw.allocate s.log loop_disk_size ≢ 0 → s.disks (fw.allocate s.log loop_disk_size) ≡ none)
      → (loop_factory_create fw backing_file file_path last_block out s).0.0 ≢ efi_success
      → Refused s (loop_factory_create fw backing_file file_path last_block out s)
  unfolding loop_factory_create build_disk install_disk
  loop_factory_create-Refused none fresh failed = record {
    no_handle = inl refl;
    no_leak = λ q. omega arith;
    same_disks = λ q. refl;
    not_closed = λ q. refl;
    files = λ q. omega arith;
  }
  loop_factory_create-Refused (some path) fresh failed = record {
    no_handle = ground arith;
    no_leak = λ q. ground arith;
    same_disks = λ q. ground arith;
    not_closed = λ q. ground arith;
    files = λ q. ground arith;
  }

-- AppendDevicePathNode: the nodes of the path, then the new one.
abbrev pub Appends : Firmware → Type 0
Appends fw =
    (l : Log) (path : DevicePath) (node : Node) (made : DevicePath)
    → fw.append_node l path node ≡ some made
    → made.nodes ≡ path.nodes ++ node ∷ []

-- Read-only removable media `MOUN` of 2048-byte blocks.
abbrev pub iso_media : ℕ → Media
iso_media last_block = record {
  media_id = 0x4d4f_554e;
  removable_media = true;
  media_present = true;
  logical_partition = false;
  read_only = true;
  write_caching = false;
  block_size = 2048;
  io_align = 0;
  last_block = last_block;
}

-- The disk that a creation is to leave: signature `MLOP`, that media, and what the creation was
-- given and has made.
abbrev pub made_disk : (backing_file : Ptr) (last_block seq : ℕ) → DevicePath → Handle → LoopDisk
made_disk backing_file last_block seq path handle = record {
  signature = 0x504f_4c4d;
  media = iso_media last_block;
  device_path = some path;
  backing_file = backing_file;
  handle = handle;
  last_block = last_block;
  seq = seq;
}

-- The counter after one more creation, a UINT32, and the vendor node that carries its low byte.
abbrev pub raised : ℕ → ℕ
raised seq = (seq + 1) % 0x1_0000_0000

abbrev pub node_of : ℕ → Node
node_of seq = Node.vendor_media (record {
  data1 = 0x5c6d_7e8f;
  data2 = 0x1111;
  data3 = 0x4001;
  data4 = 0x80 ∷ 0x01 ∷ 0 ∷ 0 ∷ 0 ∷ 0 ∷ 0 ∷ (seq % 256) ∷ [];
})

-- The outcome of a successful creation over `backing_file`: a disk at an address of its own.
pub record Created (fw : Firmware) (backing_file : Ptr) (path : DevicePath) (last_block : ℕ)
    (s : State) (r : (Status × Option Handle) × State) : Type 0 where
  pub disk_path : DevicePath
  pub handle : Handle
  pub returned : r.0.1 ≡ some handle
  pub backed : backing_file ≢ 0
  pub there : fw.allocate s.log loop_disk_size ≢ 0
  pub counted : r.1.loop_seq ≡ raised s.loop_seq
  pub named : disk_path.nodes ≡ path.nodes ++ node_of (raised s.loop_seq) ∷ []
  pub disk :
      r.1.disks (fw.allocate s.log loop_disk_size)
      ≡ some (made_disk backing_file last_block (raised s.loop_seq) disk_path handle)
  pub other_disks : (q : Ptr) → q ≢ fw.allocate s.log loop_disk_size → r.1.disks q ≡ s.disks q
  pub kept :
      (q : Ptr)
      → allocs q r.1.log + frees q s.log
        ≡ frees q r.1.log
          + allocs q s.log
          + hit q (fw.allocate s.log loop_disk_size)
          + hit q disk_path.address
  pub install_status : Status
  pub no_error : efi_error install_status ≡ false
  pub installed :
      r.1.log
      ≡ Event.loop_installed disk_path (fw.allocate s.log loop_disk_size) install_status handle
        ∷ Event.allocated disk_path.address
        ∷ Event.allocated (fw.allocate s.log loop_disk_size)
        ∷ s.log

module _ (fw : Firmware) (appends : Appends fw) (backing_file : Ptr) (last_block : ℕ) (out : Bool)
    (s : State) where
  -- If AppendDevicePathNode appends and `LoopFactoryCreate` returns EFI_SUCCESS, `*LoopHandle` is
  -- the handle that was installed, the counter has gone up by one, the disk at the allocated
  -- address, which is not NULL, has the read-only media of 2048-byte blocks, the given last block
  -- and file, and a device path that is the file's own with the vendor node of the new counter
  -- behind it. The other disks are as before, the disk and its path are the only memory kept, and
  -- the only calls are the two allocations and the installation.
  pub loop_factory_create-Created :
      (path : DevicePath)
      → (loop_factory_create fw backing_file (some path) last_block out s).0.0 ≡ efi_success
      → Created fw backing_file path last_block s
          (loop_factory_create fw backing_file (some path) last_block out s)
  unfolding loop_factory_create build_disk install_disk vendor_node
  loop_factory_create-Created path done =
      elim (Option-cases (
        fw.append_node (Event.allocated (fw.allocate s.log loop_disk_size) ∷ s.log) path
          (vendor_node (next_seq s.loop_seq)))) [
            | inl e ↦ absurd (ground arith)
            | inr (made, e) ↦
                let named = appends _ path _ made e in
                let install : Status × Handle =
                  fw.install_loop_of
                    (Event.allocated made.address
                      ∷ Event.allocated (fw.allocate s.log loop_disk_size)
                      ∷ s.log)
                    made (fw.allocate s.log loop_disk_size) in
                record {
                  disk_path = made;
                  handle = install.1;
                  returned = ground arith;
                  backed = ground arith;
                  there = ground arith;
                  counted = ground arith;
                  named = named;
                  disk = ground arith;
                  other_disks = λ q ne. ground arith;
                  kept = λ q. ground arith;
                  install_status = install.0;
                  no_error = ground arith;
                  installed = ground arith;
                }
          ]
