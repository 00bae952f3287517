-- ===== src/FsDriver/Loaded.antt =====
-- `MountDriverLoaded`: is there a loaded image whose path ends with the driver's?
pub mod Suffix
pub mod Scan
use mount.Prelude.{
  ◌-◌, Bool, true, false, ◌&&◌, ◌||◌, Option, none, some, List, [], ◌∷◌, leb, ◌==◌, if◌then◌else◌,
  length, get_or, drop, Text, text_eq,
}
use mount.Efi.{
  efi_error, Handle, DevicePath, Protocol, Event, Firmware, M, pure, ◌>>=◌, ◌>>◌, emit, ask,
  locate_handles,
}

-- The three tests on the text of an image's device path.
unfoldable pub ends_with_file : (text driver_file : Text) → Bool
ends_with_file text driver_file =
    let text_len = length text in
    let file_len = length driver_file in
    leb file_len text_len
    && text_eq (drop (text_len - file_len) text) driver_file
    && (text_len == file_len || get_or text (text_len - file_len - 1) 0 == b'\\')

module _ (fw : Firmware) (driver_file : Text) where
  -- The text is converted, compared and freed.
  unfoldable pub path_matches : Option DevicePath → M Bool
  path_matches none = pure false
  path_matches (some path) = do
    converted ← ask (λ l. fw.path_to_text l path)
    elim converted [
      | none ↦ pure false
      | some (p, text) ↦ (do
        emit (Event.allocated p)
        emit (Event.freed p)
        pure (ends_with_file text driver_file))
    ]

  unfoldable pub image_matches : Handle → M Bool
  unfolding path_matches
  image_matches handle = do
    (status, image) ← ask (λ l. fw.loaded_image_of l handle)
    if efi_error status then pure false else path_matches image.file_path

  -- for (Index = 0; Index < Count && !Found; Index++)
  unfoldable pub find_image : List Handle → M Bool
  find_image [] = pure false
  find_image (handle ∷ handles) = do
    found ← image_matches handle
    if found then pure true else find_image handles

  unfoldable pub mount_driver_loaded : M Bool
  mount_driver_loaded = do
    (status, buffer, handles) ← locate_handles fw Protocol.loaded_image
    if efi_error status
        then pure false
        else do found ← find_image handles; emit (Event.freed buffer); pure found
