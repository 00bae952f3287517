-- ===== src/LoopDxe/Factory.antt =====
-- The loop factory: `LoopFactoryCreate`, `LoopFactoryDestroy` and `LoopDxeEntry`, with the vendor
-- node of a loop device path. `mLoopSeq` is a UINT32.
pub mod Create
pub mod Paths
pub mod Destroy
pub mod Invariant
pub mod Bounded
pub mod Ledger
use mount.Prelude.{
  ℕ, ◌+◌, ◌*◌, ◌%◌, Bool, true, false, not, ◌||◌, Option, none, some, [], ◌∷◌, ◌==◌, if◌then◌else◌,
}
use mount.Efi.{
  Status, efi_success, efi_invalid_parameter, efi_out_of_resources, efi_not_found, efi_error, Ptr,
  Handle, Node, DevicePath, Event, Firmware, Media, LoopDisk, M, pure, ◌>>=◌, ◌>>◌, emit, ask,
  store_disk, allocate, new_path,
}
use mount.LoopDxe.BlockIo.{loop_block_size}

abbrev pub loop_media_id : ℕ
loop_media_id = 0x4d4f_554e

-- SIGNATURE_32 ('M', 'L', 'O', 'P')
abbrev pub loop_disk_sig : ℕ
loop_disk_sig = b'M' + 0x100 * b'L' + 0x1_0000 * b'O' + 0x100_0000 * b'P'

-- `++mLoopSeq`
abbrev pub next_seq : ℕ → ℕ
next_seq seq = (seq + 1) % 0x1_0000_0000

-- The media of a loop disk, and the disk before it has a device path and a handle.
abbrev pub loop_media : ℕ → Media
loop_media last_block = record {
  media_id = loop_media_id;
  removable_media = true;
  media_present = true;
  logical_partition = false;
  read_only = true;
  write_caching = false;
  block_size = loop_block_size;
  io_align = 0;
  last_block = last_block;
}

abbrev pub new_disk : (backing_file : Ptr) (last_block seq : ℕ) → LoopDisk
new_disk backing_file last_block seq = record {
  signature = loop_disk_sig;
  media = loop_media last_block;
  device_path = none;
  backing_file = backing_file;
  handle = 0;
  last_block = last_block;
  seq = seq;
}

-- The GUID of the vendor node: its last byte is `(UINT8)Disk->Seq`.
unfoldable pub vendor_node : ℕ → Node
vendor_node seq = Node.vendor_media (record {
  data1 = 0x5c6d_7e8f;
  data2 = 0x1111;
  data3 = 0x4001;
  data4 = 0x80 ∷ 0x01 ∷ 0 ∷ 0 ∷ 0 ∷ 0 ∷ 0 ∷ (seq % 0x100) ∷ [];
})

-- sizeof (LOOP_DISK) on X64
abbrev pub loop_disk_size : ℕ
loop_disk_size = 184

abbrev pub with_path : LoopDisk → DevicePath → LoopDisk
with_path disk path = record disk { device_path = some path }

abbrev pub with_handle : LoopDisk → Handle → LoopDisk
with_handle disk handle = record disk { handle = handle }

-- FreePool (Disk)
abbrev pub free_disk : Ptr → M (Unit {0})
free_disk p = do store_disk p none; emit (Event.freed p)

-- FreePool (Disk->DevicePath)
abbrev pub free_path : Option DevicePath → M (Unit {0})
free_path none = pure tt
free_path (some path) = emit (Event.freed path.address)

abbrev bump_seq : M ℕ
bump_seq s = (next_seq s.loop_seq, record s { loop_seq = next_seq s.loop_seq })

abbrev disk_or : LoopDisk → Option LoopDisk → LoopDisk
disk_or other none = other
disk_or other (some disk) = disk

-- MOUNT_LOOP_FACTORY_PROTOCOL. The result of `create` has what was written to `*LoopHandle`, that
-- of `destroy` what was written to `*BackingFile`; the last argument says whether that pointer is
-- there.
pub record LoopFactory : Type 0 where
  pub revision : ℕ
  pub create :
      (backing_file : Ptr)
      → Option DevicePath
      → (last_block : ℕ) (out : Bool) → M (Status × Option Handle)
  pub destroy : Handle → (out : Bool) → M (Status × Option Ptr)

-- MOUNT_LOOP_FACTORY_REVISION
abbrev loop_factory_revision : ℕ
loop_factory_revision = 1

module _ (fw : Firmware) where
  -- The last steps of `LoopFactoryCreate`, once the device path is there.
  unfoldable pub install_disk : Ptr → LoopDisk → DevicePath → M (Status × Option Handle)
  install_disk p disk path = do
    store_disk p (some (with_path disk path))
    (status, handle) ← ask (λ l. fw.install_loop_of l path p)
    emit (Event.loop_installed path p status handle)
    if efi_error status then (do free_path (some path); free_disk p; pure (status, some 0)) else (do
      store_disk p (some (with_handle (with_path disk path) handle))
      pure (efi_success, some handle))

  unfoldable pub build_disk : Ptr → DevicePath → ℕ → Ptr → M (Status × Option Handle)
  unfolding install_disk
  build_disk backing_file file_path last_block p = do
    seq ← bump_seq
    store_disk p (some (new_disk backing_file last_block seq))
    path ← new_path (λ l. fw.append_node l file_path (vendor_node seq))
    elim path [
      | none ↦ (do free_disk p; pure (efi_out_of_resources, some 0))
      | some path ↦ install_disk p (new_disk backing_file last_block seq) path
    ]

  -- The second result is what was written to `*LoopHandle`, if anything. `out` says whether the
  -- `LoopHandle` pointer is there.
  unfoldable pub loop_factory_create :
      (backing_file : Ptr)
      → Option DevicePath
      → (last_block : ℕ) (out : Bool) → M (Status × Option Handle)
  loop_factory_create backing_file none last_block out = pure (efi_invalid_parameter, none)
  loop_factory_create backing_file (some file_path) last_block out =
      if (backing_file == 0) || not out then pure (efi_invalid_parameter, none) else do
        p ← allocate fw loop_disk_size
        if p == 0
            then pure (efi_out_of_resources, some 0)
            else build_disk backing_file file_path last_block p

  -- BASE_CR: the LOOP_DISK at an address, or the memory there read as one.
  abbrev pub disk_at : Ptr → M LoopDisk
  disk_at p s = (disk_or (fw.memory_as_disk s.log p) (s.disks p), s)

  -- The second result is what was written to `*BackingFile`, if that pointer is there.
  unfoldable pub loop_factory_destroy : Handle → (out : Bool) → M (Status × Option Ptr)
  loop_factory_destroy loop_handle out = do
    (status, p) ← ask (λ l. fw.block_io_of l loop_handle)
    if efi_error status then pure (efi_not_found, none) else do
      disk ← disk_at p
      if not (disk.signature == loop_disk_sig) then pure (efi_not_found, none) else do
        status ← ask (λ l. fw.uninstall_loop_of l disk.handle p)
        emit (Event.loop_uninstalled disk.handle p status)
        if efi_error status then pure (status, none) else do
          free_path disk.device_path
          free_disk p
          pure (efi_success, if out then some disk.backing_file else none)

  -- The factory that the driver publishes.
  abbrev pub m_factory : LoopFactory
  m_factory = record {
    revision = loop_factory_revision;
    create = loop_factory_create;
    destroy = loop_factory_destroy;
  }

  -- The driver's entry point.
  unfoldable pub loop_dxe_entry : M Status
  loop_dxe_entry = do
    status ← ask (λ l. fw.install_factory_of l)
    emit (Event.factory_installed status)
    pure (if efi_error status then status else efi_success)
