-- ===== src/FsDriver/SelfPath.antt =====
-- `MountGetSelfDir`, `MountJoinSelfPath`, `MountOpenDriverFile` and `MountBuildDriverDevicePath`.
pub mod Beside
use mount.Prelude.{
  ℕ, ◌+◌, ◌-◌, ◌*◌, not, Option, none, some, List, [], ◌∷◌, ◌==◌, if◌then◌else◌, Text,
}
use mount.Efi.{
  Status, efi_success, efi_invalid_parameter, efi_out_of_resources, efi_not_found, efi_error, Ptr,
  Handle, Node, DevicePath, Event, Log, StringLib, LoadedImage, Firmware, M, pure, ◌>>=◌, ◌>>◌,
  emit, ask, when, new_path,
}

-- MOUNT_MAX_PATH
abbrev pub max_path : ℕ
max_path = 256

-- The loop over the nodes: the PathName of the last file path node.
unfoldable pub last_file_path : List Node → Option Text → Option Text
last_file_path [] image_path = image_path
last_file_path (Node.file_path path ∷ nodes) image_path = last_file_path nodes (some path)
last_file_path (_ ∷ nodes) image_path = last_file_path nodes image_path

-- The loop over the units, from position `p` on: where the last backslash stands.
unfoldable pub last_slash : Text → (p : ℕ) → Option ℕ → Option ℕ
last_slash [] p slash = slash
last_slash (c ∷ path) p slash = last_slash path (p + 1) (if c == b'\\' then some p else slash)

unfoldable pub mount_join_self_path : StringLib → (self_dir relative full_path : Text) → Text
mount_join_self_path lib [] relative full_path =
    lib.strn_cpy_s full_path max_path relative (max_path - 1)
mount_join_self_path lib (c ∷ dir) relative full_path =
    lib.s_print_path (max_path * 2) (c ∷ dir) relative

module _ (fw : Firmware) where
  abbrev cut_dir : Handle → Text → Option ℕ → Status × Handle × Text
  cut_dir volume path none = (efi_not_found, volume, [])
  cut_dir volume path (some slash) =
      (efi_success, volume, fw.strings.strn_cpy_s [] max_path path slash)

  abbrev dir_of_path : Handle → Option Text → Status × Handle × Text
  dir_of_path volume none = (efi_not_found, volume, [])
  dir_of_path volume (some path) = cut_dir volume path (last_slash path 0 none)

  abbrev dir_of_image : LoadedImage → Option DevicePath → Status × Handle × Text
  dir_of_image image none = (efi_not_found, image.device_handle, [])
  dir_of_image image (some path) = dir_of_path image.device_handle (last_file_path path.nodes none)

  -- The status, `*VolHandle` and `DirPath`. A failed HandleProtocol writes neither of these.
  unfoldable pub mount_get_self_dir : Log → Status × Handle × Text
  mount_get_self_dir l =
      let (status, image) = fw.loaded_image_of l fw.image_handle in
      if efi_error status then (status, 0, []) else dir_of_image image image.file_path

  -- `full` is what the array `Full` holds before it is written.
  unfoldable pub mount_build_driver_device_path :
      (driver_file full : Text) → M (Status × Option DevicePath)
  mount_build_driver_device_path driver_file full = do
    (status, volume, dir) ← ask (λ l. mount_get_self_dir l)
    if efi_error status then pure (status, none) else do
      path ←
          new_path (λ l.
            fw.file_device_path l volume (mount_join_self_path fw.strings dir driver_file full))
      elim path [
        | none ↦ pure (efi_out_of_resources, none)
        | some path ↦ pure (efi_success, some path)
      ]

  -- Open a file of the root directory, and close that directory.
  abbrev open_and_close : Ptr → Text → M (Status × Ptr)
  open_and_close root full = do
    (status, file) ← ask (λ l. fw.open_in_volume l root full)
    when (not (efi_error status)) (emit (Event.opened full file))
    emit (Event.closed root)
    pure (status, if efi_error status then 0 else file)

  -- The status and `*FileHandle`. The pointer arguments are there; `driver_file` may be NULL.
  unfoldable pub mount_open_driver_file : Option Text → Text → M (Status × Ptr)
  mount_open_driver_file none full = pure (efi_invalid_parameter, 0)
  mount_open_driver_file (some driver_file) full = do
    (status, volume, dir) ← ask (λ l. mount_get_self_dir l)
    if efi_error status then pure (status, 0) else do
      status ← ask (λ l. fw.file_system_of l volume)
      if efi_error status then pure (status, 0) else do
        (status, root) ← ask (λ l. fw.open_volume_of l volume)
        if efi_error status then pure (status, 0) else do
          emit (Event.volume_opened volume root)
          open_and_close root (mount_join_self_path fw.strings dir driver_file full)
