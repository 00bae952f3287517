-- ===== src/LoopDisk/Create/Parts.antt =====
-- What the parts of `LoopCreate` leave behind: the search for the factory, the sniff, the device
-- path.
use mount.Prelude.{
  ◌≡◌, ◌⊎◌, inl, inr, Option, none, some, ◌∷◌, arith, Bool-cases, Option-cases, Text,
}
use mount.Efi.{efi_error, Ptr, DevicePath, Event, Firmware, State, ◌>>=◌, Neutral}
use mount.FsDriver.Load.Outcome.{mount_build_driver_device_path-Built}
use mount.LoopDisk.Sniff.{loop_sniff}
use mount.LoopDisk.Factory.{
  loop_driver_file, locate_again, start_loop_driver, load_loop_driver, mount_loop_factory_get,
  mount_iso_file_device_path,
}

-- The state after an allocation.
abbrev pub AfterAlloc : Ptr → State → State
AfterAlloc p s = record s { log = Event.allocated p ∷ s.log }

module _ (fw : Firmware) (full : Text) where
  load_loop_driver-Neutral :
      (path : DevicePath) (s : State)
      → Neutral s (load_loop_driver fw path (AfterAlloc path.address s)).1
  unfolding load_loop_driver start_loop_driver locate_again
  load_loop_driver-Neutral path s q = ground arith

  pub mount_loop_factory_get-Neutral : (s : State) → Neutral s (mount_loop_factory_get fw full s).1
  unfolding mount_loop_factory_get
  mount_loop_factory_get-Neutral s = elim (Bool-cases (efi_error (fw.locate_factory s.log))) [
    | inr there ↦ rw there (λ q. ground arith)
    | inl missing ↦
        rw missing (elim (mount_build_driver_device_path-Built fw loop_driver_file full s) [
          | inl (status, e) ↦ rw (e, ◌>>=◌) (λ q. ground arith)
          | inr (path, at, e) ↦ rw (e, ◌>>=◌) (load_loop_driver-Neutral path s)
        ])
  ]

  pub loop_sniff-Neutral : (file : Ptr) (s : State) → Neutral s (loop_sniff fw file s).1
  unfolding loop_sniff
  loop_sniff-Neutral file s q = ground arith

module _ (fw : Firmware) (iso_path : Text) where
  -- The device path of the image is NULL, or one allocation.
  abbrev pub Resolved : State → Option DevicePath × State → Type 0
  Resolved s r =
      (r ≡ (none, s)) ⊎ ((path : DevicePath) × (r ≡ (some path, AfterAlloc path.address s)))

  pub mount_iso_file_device_path-Resolved :
      (s : State) → Resolved s (mount_iso_file_device_path fw iso_path s)
  unfolding mount_iso_file_device_path
  mount_iso_file_device_path-Resolved s = elim (Bool-cases (efi_error (fw.locate_shell s.log))) [
    | inl bad ↦ inl (rw bad)
    | inr fine ↦ elim (Option-cases (fw.path_of_file s.log iso_path)) [
      | inl e ↦ inl (rw (fine, e))
      | inr (path, e) ↦ inr (path, rw (fine, e))
    ]
  ]
