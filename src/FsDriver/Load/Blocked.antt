-- ===== src/FsDriver/Load/Blocked.antt =====
-- What a second attempt does after Secure Boot has refused a driver.
use mount.Prelude.{
  ◌+◌, ◌≤◌, ◌≡◌, refl, sym, ap, ◌∙◌, inl, inr, true, false, none, some, [], ◌∷◌, arith, Bool-cases,
  length, Text,
}
use mount.Efi.{
  efi_success, efi_security_violation, efi_error, status_secure_boot, Ptr, Handle, DevicePath,
  Protocol, Message, Event, Log, IsStringLib, Firmware, State, ◌>>=◌,
}
use mathlib.Core.Path.{subst}
use mount.MapReport.Handles.{map_is_in_snapshot}
use mount.FsDriver.SelfPath.{max_path, last_file_path}
use mount.FsDriver.SelfPath.Beside.{LoadedFrom, beside, mount_join_self_path-LoadedFrom}
use mount.FsDriver.Loaded.{mount_driver_loaded}
use mount.FsDriver.Loaded.Suffix.{EndsWith}
use mount.FsDriver.Loaded.Scan.{image_text, ImagesStay, HasImage, mount_driver_loaded_iff}
use mount.FsDriver.Load.{start_driver, load_driver_image, mount_load_driver}
use mount.FsDriver.Load.Outcome.{mount_build_driver_device_path-Built}

pub beside-EndsWith : (dir file : Text) → EndsWith (beside dir file) file
beside-EndsWith [] file = inl refl
beside-EndsWith (c ∷ dir) file = inr (c ∷ dir, refl)

-- FileDevicePath names the file in its last node. LoadImage of UEFI leaves an image that policy
-- forbids to start among the loaded images, with the file path that it was loaded from.
pub record KeepsBlocked (fw : Firmware) : Type 0 where
  pub named :
      (l : Log) (volume : Handle) (file : Text) (path : DevicePath)
      → fw.file_device_path l volume file ≡ some path
      → last_file_path path.nodes none ≡ some file
  pub listed :
      (l : Log) (path : DevicePath) (image : Ptr) (name : Text)
      → last_file_path path.nodes none ≡ some name
      → let m =
          Event.printed Message.driver_blocked
          ∷ Event.freed path.address
          ∷ Event.image_loaded path efi_security_violation image
          ∷ l in
        (efi_error (fw.locate_handle_buffer m Protocol.loaded_image).0 ≡ false)
        × ((h : Handle) × (map_is_in_snapshot h (fw.locate_handle_buffer m Protocol.loaded_image).2
              ≡ true)
            × (image_text fw m h ≡ some name))

module _ (fw : Firmware) (file full : Text) where
  load_driver_image-blocked :
      (path : DevicePath) (s : State)
      → (load_driver_image fw file path s).0 ≡ status_secure_boot
      → (image : Ptr) × ((load_driver_image fw file path s).1.log
          ≡ Event.printed Message.driver_blocked
            ∷ Event.freed path.address
            ∷ Event.image_loaded path efi_security_violation image
            ∷ s.log)
  unfolding load_driver_image start_driver
  load_driver_image-blocked path s blocked = ((fw.load_image_of s.log path).1, ground arith)

  mount_load_driver-loaded :
      (s : State)
      → (mount_driver_loaded fw file s).0 ≡ true
      → (mount_load_driver fw (some file) full s).0 ≡ efi_success
  unfolding mount_load_driver
  mount_load_driver-loaded s loaded = rw loaded

module _ (fw : Firmware) (strings : IsStringLib fw.strings) (stay : ImagesStay fw)
    (keeps : KeepsBlocked fw) (volume : Handle) (self : DevicePath) (dir name file full : Text)
    (from : (l : Log) → LoadedFrom fw l volume self dir name)
    (fits : length dir + length file + 2 ≤ max_path) where
  -- The log after a refusal, from the state before it.
  abbrev Refusal : State → Type 0
  Refusal t =
      (path : DevicePath) × (image : Ptr) × (l : Log) × (last_file_path path.nodes none
        ≡ some (beside dir file))
      × (t.log
          ≡ Event.printed Message.driver_blocked
            ∷ Event.freed path.address
            ∷ Event.image_loaded path efi_security_violation image
            ∷ l)

  Refusal-loaded : (t : State) → Refusal t → (mount_driver_loaded fw file t).0 ≡ true
  Refusal-loaded t (path, image, l, named, shape) =
      let (fine, (h, found, at)) = keeps.listed l path image (beside dir file) named in
      let fine' =
        subst (λ (m : Log). efi_error (fw.locate_handle_buffer m Protocol.loaded_image).0 ≡ false)
          (sym shape) fine in
      let has : HasImage fw t.log (fw.locate_handle_buffer t.log Protocol.loaded_image).2 file =
        subst (λ (m : Log). HasImage fw m (fw.locate_handle_buffer m Protocol.loaded_image).2 file)
          (sym shape) (h, beside dir file, found, at, beside-EndsWith dir file) in
      (mount_driver_loaded_iff fw stay file t fine').0.1 has

  mount_load_driver-Refusal :
      (s : State)
      → (mount_load_driver fw (some file) full s).0 ≡ status_secure_boot
      → Refusal (mount_load_driver fw (some file) full s).1
  unfolding mount_load_driver
  mount_load_driver-Refusal s blocked =
      let t = (mount_driver_loaded fw file s).1 in
      let beside' =
        (mount_join_self_path-LoadedFrom fw strings t.log volume self dir name (from t.log) file
          full fits).2 in
      elim (Bool-cases (mount_driver_loaded fw file s).0) [
        | inl loaded ↦ absurd (cc (rw loaded at blocked))
        | inr absent ↦ elim (mount_build_driver_device_path-Built fw file full t) [
          | inl (status, e) ↦ absurd (cc (rw (absent, e, ◌>>=◌) at blocked))
          | inr (path, at, e) ↦
              let u : State = record t { log = Event.allocated path.address ∷ t.log } in
              let blocked' : (load_driver_image fw file path u).0 ≡ status_secure_boot =
                rw (absent, e, ◌>>=◌) at blocked in
              let (image, shape) = load_driver_image-blocked fw file full path u blocked' in
              let named = keeps.named t.log _ _ path at in
              (path, image, u.log, named ∙ ap some beside', rw (absent, e, ◌>>=◌) shape)
        ]
      ]

  -- If LoadImage leaves a refused image among the loaded ones, under the path that it was loaded
  -- from, memory calls do not change the paths of images, the string functions keep their
  -- contract, mount.efi was loaded from a file, and the joined path fits, then after Secure Boot
  -- has refused a driver beside mount.efi a second `MountLoadDriver` of the same file returns
  -- EFI_SUCCESS.
  pub mount_load_driver-after_refusal :
      (s : State)
      → (mount_load_driver fw (some file) full s).0 ≡ status_secure_boot
      → (mount_load_driver fw (some file) full (mount_load_driver fw (some file) full s).1).0
        ≡ efi_success
  mount_load_driver-after_refusal s blocked =
      let t = (mount_load_driver fw (some file) full s).1 in
      mount_load_driver-loaded fw file full t
        (Refusal-loaded t (mount_load_driver-Refusal s blocked))
