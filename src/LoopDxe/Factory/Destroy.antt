-- ===== src/LoopDxe/Factory/Destroy.antt =====
-- `LoopFactoryDestroy` undoes a creation, and changes nothing where it fails.
use mount.Prelude.{ℕ, ◌≡◌, refl, ◌≢◌, ◌⊎◌, Bool, true, false, Option, none, some, arith}
use mount.Efi.{
  Status, efi_success, efi_not_found, efi_error, Ptr, Handle, DevicePath, Firmware, State,
  PoolBalanced, FilesBalanced,
}
use mount.LoopDxe.Factory.{loop_disk_sig, next_seq, loop_disk_size, loop_factory_destroy, disk_at}
use mount.LoopDxe.Factory.Create.{Created}

module _ (fw : Firmware) (handle : Handle) (out : Bool) (s : State) where
  -- When `LoopFactoryDestroy` returns anything but EFI_SUCCESS, no backing file is handed out, and
  -- disks, counter, pool and files are as before.
  pub loop_factory_destroy-error :
      let ((status, file), t) = loop_factory_destroy fw handle out s in
      status ≢ efi_success
      → (file ≡ none)
        × (t.disks ≡ s.disks)
        × (t.loop_seq ≡ s.loop_seq)
        × PoolBalanced s t
        × FilesBalanced s t
  unfolding loop_factory_destroy
  loop_factory_destroy-error failed =
      (ground arith, ground arith, ground arith, λ q. ground arith, λ q. ground arith)

  -- A handle without BlockIo, or whose BlockIo belongs to no loop disk, gives EFI_NOT_FOUND and no
  -- call at all.
  pub loop_factory_destroy-not_found :
      (efi_error (fw.block_io_of s.log handle).0 ≡ true)
        ⊎ ((disk_at fw (fw.block_io_of s.log handle).1 s).0.signature ≢ loop_disk_sig)
      → loop_factory_destroy fw handle out s ≡ ((efi_not_found, none), s)
  unfolding loop_factory_destroy
  loop_factory_destroy-not_found h = ground arith

module _ (fw : Firmware) (backing_file : Ptr) (path : DevicePath) (last_block : ℕ) (s : State)
    {r : (Status × Option Handle) × State}
    (made : Created fw backing_file path last_block s r) where
  -- What a creation in state s made at an address that held no disk, `LoopFactoryDestroy` takes
  -- back: if the handle's BlockIo is the disk's and uninstalling succeeds, it returns EFI_SUCCESS
  -- with the image file, and the disks, the pool and the files are as they were in s. Only the
  -- counter stays ahead.
  pub loop_factory_destroy-Created :
      s.disks (fw.allocate s.log loop_disk_size) ≡ none
      → (fw.block_io_of r.1.log made.handle).1 ≡ fw.allocate s.log loop_disk_size
      → efi_error (fw.block_io_of r.1.log made.handle).0 ≡ false
      → efi_error (fw.uninstall_loop_of r.1.log made.handle (fw.allocate s.log loop_disk_size))
        ≡ false
      → let ((status, file), t) = loop_factory_destroy fw made.handle true r.1 in
        (status ≡ efi_success)
        × (file ≡ some backing_file)
        × ((q : Ptr) → t.disks q ≡ s.disks q)
        × (t.loop_seq ≡ next_seq s.loop_seq)
        × PoolBalanced s t
        × FilesBalanced s t
  unfolding loop_factory_destroy
  loop_factory_destroy-Created fresh at found uninstalled =
      rw (at, found, made.disk, uninstalled)
        (
          refl,
          refl,
          λ q. ground (arith, made.other_disks q),
          made.counted,
          λ q. ground (arith, made.kept q),
          λ q. rw made.installed (omega arith),
        )
