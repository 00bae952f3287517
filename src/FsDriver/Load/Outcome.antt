-- ===== src/FsDriver/Load/Outcome.antt =====
-- The outcomes of `MountLoadDriver`: its status, its images and its memory.
use mount.Prelude.{
  ℕ, suc, ◌+◌, ◌≡◌, refl, ◌∙◌, ◌≢◌, ◌⊎◌, inl, inr, Option, none, some, List, [], ◌∷◌, arith,
  if◌then◌else◌, Bool-cases, Option-cases, Text,
}
use mount.Efi.{
  Status, efi_success, efi_out_of_resources, efi_error, status_driver_missing, status_secure_boot,
  Ptr, Handle, DevicePath, Protocol, Event, Log, Firmware, State, ◌>>=◌, hit, Neutral,
}
use mount.FsDriver.SelfPath.{
  mount_get_self_dir, mount_join_self_path, mount_build_driver_device_path,
}
use mount.FsDriver.Loaded.{image_matches, find_image, mount_driver_loaded}
use mount.FsDriver.Load.{start_driver, load_driver_image, mount_load_driver}

-- How often a log has loaded an image with success, and unloaded it.
abbrev pub loads : Ptr → Log → ℕ
loads q [] = 0
loads q (Event.image_loaded path status image ∷ l) =
    (if efi_error status then 0 else hit q image) + loads q l
loads q (_ ∷ l) = loads q l

abbrev pub unloads : Ptr → Log → ℕ
unloads q [] = 0
unloads q (Event.image_unloaded image ∷ l) = hit q image + unloads q l
unloads q (_ ∷ l) = unloads q l

-- Every image loaded with success between the two states is unloaded.
abbrev pub NoImageLeft : State → State → Type 0
NoImageLeft s t = (q : Ptr) → loads q t.log + unloads q s.log ≡ unloads q t.log + loads q s.log

-- How often a log connects a controller or sets a mapping.
abbrev pub map_calls : Log → ℕ
map_calls [] = 0
map_calls (Event.controller_connected h ∷ l) = suc (map_calls l)
map_calls (Event.map_set path name status ∷ l) = suc (map_calls l)
map_calls (_ ∷ l) = map_calls l

-- The exit codes of a load.
abbrev pub IsLoadStatus : Status → Type 0
IsLoadStatus status =
    (status ≡ efi_success) ⊎ (status ≡ status_driver_missing) ⊎ (status ≡ status_secure_boot)

-- A step that gives back what it takes and calls nothing else.
pub record Quiet (s t : State) : Type 0 where
  pub neutral : Neutral s t
  pub images : (q : Ptr) → (loads q t.log ≡ loads q s.log) × (unloads q t.log ≡ unloads q s.log)
  pub still : map_calls t.log ≡ map_calls s.log

module _ (fw : Firmware) (file : Text) where
  image_matches-Quiet : (h : Handle) (s : State) → Quiet s (image_matches fw file h s).1
  unfolding image_matches
  image_matches-Quiet h s = record {
    neutral = λ q. ground arith;
    images = λ q. ground arith;
    still = ground arith;
  }

  find_image-Quiet : (hs : List Handle) (s : State) → Quiet s (find_image fw file hs s).1
  unfolding find_image
  find_image-Quiet [] s = record {
    neutral = λ q. ground arith;
    images = λ q. omega arith;
    still = refl;
  }
  find_image-Quiet (h ∷ hs) s =
      let t = (image_matches fw file h s).1 in
      let a = image_matches-Quiet h s in
      let b = find_image-Quiet hs t in
      elim (Bool-cases (image_matches fw file h s).0) [
        | inl e ↦ rw e a
        | inr e ↦ rw e (record {
          neutral = λ q. ground (arith, a.neutral q, b.neutral q);
          images = λ q. ((b.images q).0 ∙ (a.images q).0, (b.images q).1 ∙ (a.images q).1);
          still = b.still ∙ a.still;
        })
      ]

  pub mount_driver_loaded-Quiet : (s : State) → Quiet s (mount_driver_loaded fw file s).1
  unfolding mount_driver_loaded
  mount_driver_loaded-Quiet s =
      let (status, buffer, handles) = fw.locate_handle_buffer s.log Protocol.loaded_image in
      let a = find_image-Quiet handles (record s { log = Event.allocated buffer ∷ s.log }) in
      record {
        neutral = λ q. ground (arith, a.neutral q);
        images = λ q. ground (arith, a.images q);
        still = ground (arith, a.still);
      }

-- The outcome of a load between two states.
pub record Loading (s : State) (r : Status × State) : Type 0 where
  pub status : IsLoadStatus r.0
  pub neutral : Neutral s r.1
  pub images : r.0 ≢ efi_success → NoImageLeft s r.1
  pub still : map_calls r.1.log ≡ map_calls s.log

module _ (fw : Firmware) (file full : Text) where
  load_driver_image-Loading :
      (path : DevicePath) (s : State)
      → Loading s
          (load_driver_image fw file path (record s { log = Event.allocated path.address ∷ s.log }))
  unfolding load_driver_image start_driver
  load_driver_image-Loading path s = record {
    status = ground arith;
    neutral = λ q. ground arith;
    images = λ failed q. ground arith;
    still = ground arith;
  }

  -- Building the path fails and does nothing, or makes one allocation.
  abbrev pub Built : State → (Status × Option DevicePath) × State → Type 0
  Built s r =
      let (_, volume, dir) = mount_get_self_dir fw s.log in
      ((status : Status) × (r ≡ ((status, none), s)))
      ⊎ ((path : DevicePath) × (fw.file_device_path s.log volume
              (mount_join_self_path fw.strings dir file full)
            ≡ some path)
          × (r ≡ (
            (efi_success, some path),
            record s { log = Event.allocated path.address ∷ s.log },
          )))

  pub mount_build_driver_device_path-Built :
      (s : State) → Built s (mount_build_driver_device_path fw file full s)
  unfolding mount_build_driver_device_path
  mount_build_driver_device_path-Built s =
      let self = mount_get_self_dir fw s.log in
      elim (Bool-cases (efi_error self.0)) [
        | inl bad ↦ inl (self.0, rw bad)
        | inr fine ↦
            elim (Option-cases (
              fw.file_device_path s.log self.1
                (mount_join_self_path fw.strings self.2 file full))) [
                  | inl e ↦ inl (efi_out_of_resources, rw (fine, e))
                  | inr (path, e) ↦ inr (path, e, rw (fine, e))
                ]
      ]

  pub Loading-after : (s t : State) (r : Status × State) → Quiet s t → Loading t r → Loading s r
  Loading-after s t r a b = record {
    status = b.status;
    neutral = λ q. ground (arith, a.neutral q, b.neutral q);
    images = λ failed q. omega (arith, (a.images q).0, (a.images q).1, b.images failed q);
    still = b.still ∙ a.still;
  }

  -- `MountLoadDriver` of a driver file returns EFI_SUCCESS, STATUS_DRIVER_MISSING or
  -- STATUS_SECURE_BOOT, and no other code. It connects no controller, sets no mapping, and frees
  -- all memory that it allocates. Unless it returns EFI_SUCCESS, every image that LoadImage gave it
  -- with success has been unloaded.
  pub mount_load_driver-Loading : (s : State) → Loading s (mount_load_driver fw (some file) full s)
  unfolding mount_load_driver
  mount_load_driver-Loading s =
      let t = (mount_driver_loaded fw file s).1 in
      let a = mount_driver_loaded-Quiet fw file s in
      elim (Bool-cases (mount_driver_loaded fw file s).0) [
        | inl loaded ↦ rw loaded (record {
          status = inl refl;
          neutral = a.neutral;
          images = λ failed. absurd (failed refl);
          still = a.still;
        })
        | inr absent ↦ rw absent (elim (mount_build_driver_device_path-Built t) [
          | inl (status, e) ↦
              rw (e, ◌>>=◌)
                (Loading-after s t _ a (record {
                  status = inr (inl refl);
                  neutral = λ q. ground arith;
                  images = λ failed q. omega arith;
                  still = refl;
                }))
          | inr (path, at, e) ↦
              rw (e, ◌>>=◌) (Loading-after s t _ a (load_driver_image-Loading path t))
        ])
      ]
