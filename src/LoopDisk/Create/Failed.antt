-- ===== src/LoopDisk/Create/Failed.antt =====
-- A failed `LoopCreate` hands out no handle.
use mount.Prelude.{ℕ, ◌≡◌, refl, ◌≢◌, inl, inr, Bool, ◌∷◌, arith, Text}
use mount.Efi.{efi_success, Ptr, DevicePath, Event, Firmware, State, ◌>>=◌, Message}
use mount.LoopDxe.Factory.{loop_factory_create, build_disk, install_disk}
use mount.LoopDisk.Create.{
  handle_or_null, make_device, create_device, sniff_and_create, check_size, stat_and_create,
  loop_create,
}
use mount.LoopDisk.Create.Parts.{AfterAlloc, mount_iso_file_device_path-Resolved}
use mount.LoopDisk.Sniff.{loop_sniff}

module _ (fw : Firmware) (iso_path full : Text) where
  make_device-no_handle :
      (file : Ptr) (size : ℕ) (path : DevicePath) (s : State)
      → (make_device fw iso_path full file size path s).0.0 ≢ efi_success
      → handle_or_null (make_device fw iso_path full file size path s).0.1 ≡ 0
  unfolding make_device loop_factory_create build_disk install_disk
  make_device-no_handle file size path s failed = ground arith

  create_device-no_handle :
      (file : Ptr) (size : ℕ) (path : DevicePath) (sniffed : Bool × Bool) (s : State)
      → (create_device fw iso_path full file size path sniffed s).0.0 ≢ efi_success
      → (create_device fw iso_path full file size path sniffed s).0.1.handle ≡ 0
  unfolding create_device
  create_device-no_handle file size path (iso9660, udf) s failed =
      ground (arith, make_device-no_handle file size path s)

  sniff_and_create-no_handle :
      (file : Ptr) (size : ℕ) (s : State)
      → (sniff_and_create fw iso_path full file size s).0.0 ≢ efi_success
      → (sniff_and_create fw iso_path full file size s).0.1.handle ≡ 0
  unfolding sniff_and_create
  sniff_and_create-no_handle file size s failed =
      let (sniffed, t) = loop_sniff fw file s in
      elim (mount_iso_file_device_path-Resolved fw iso_path t) [
        | inl e ↦ rw (e, ◌>>=◌) refl
        | inr (path, e) ↦
            rw (e, ◌>>=◌)
              (create_device-no_handle file size path sniffed (AfterAlloc path.address t)
                (rw (e, ◌>>=◌) at failed))
      ]

  check_size-no_handle :
      (file : Ptr) (size : ℕ) (s : State)
      → (check_size fw iso_path full file size s).0.0 ≢ efi_success
      → (check_size fw iso_path full file size s).0.1.handle ≡ 0
  unfolding check_size
  check_size-no_handle file size s failed =
      let warned : State = record s { log = Event.printed Message.tail_ignored ∷ s.log } in
      ground
        (arith, sniff_and_create-no_handle file size s, sniff_and_create-no_handle file size warned)

  stat_and_create-no_handle :
      (file : Ptr) (s : State)
      → (stat_and_create fw iso_path full file s).0.0 ≢ efi_success
      → (stat_and_create fw iso_path full file s).0.1.handle ≡ 0
  unfolding stat_and_create
  stat_and_create-no_handle file s failed =
      let info = fw.allocate s.log (fw.info_of s.log file).0 in
      let t : State = record s { log = Event.freed info ∷ Event.allocated info ∷ s.log } in
      let size = (fw.info_of (Event.allocated info ∷ s.log) file).2 in
      ground (arith, check_size-no_handle file size t)

  pub loop_create-no_handle :
      (s : State)
      → (loop_create fw iso_path full s).0.0 ≢ efi_success
      → (loop_create fw iso_path full s).0.1.handle ≡ 0
  unfolding loop_create
  loop_create-no_handle s failed =
      let file = (fw.open_by_name s.log iso_path).1 in
      ground (
        arith,
        stat_and_create-no_handle file (record s { log = Event.opened iso_path file ∷ s.log }),
      )
