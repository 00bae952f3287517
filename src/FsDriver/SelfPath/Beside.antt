-- ===== src/FsDriver/SelfPath/Beside.antt =====
-- Paths beside mount.efi.
use mount.Prelude.{
  ℕ, zero, suc, ◌+◌, ◌*◌, ◌≤◌, ◌<◌, ◌≡◌, refl, ap, ◌∙◌, false, Option, none, some, [], ◌∷◌, ◌++◌,
  arith, ◌==◌, length, length-append, take, Text, All,
}
use mount.Efi.{efi_success, Handle, DevicePath, Log, StringLib, IsStringLib, Firmware}
use Prim.Native.Nat.add
use mount.FsDriver.SelfPath.{
  max_path, last_file_path, last_slash, mount_join_self_path, mount_get_self_dir,
}

-- No backslash in a file name.
abbrev pub IsFileName : Text → Type 0
IsFileName = All (λ c. (c == b'\\') ≡ false)

last_slash-name :
    (name : Text) (p : ℕ) (slash : Option ℕ) → IsFileName name → last_slash name p slash ≡ slash
unfolding last_slash
last_slash-name [] p slash h = refl
last_slash-name (c ∷ name) p slash h = rw h.0 (last_slash-name name (p + 1) slash h.1)

last_slash-dir :
    (dir name : Text) (p : ℕ) (slash : Option ℕ)
    → IsFileName name
    → last_slash (dir ++ b'\\' ∷ name) p slash ≡ some (p + length dir)
unfolding last_slash
last_slash-dir [] name p slash h =
    let e : p ≡ p + 0 = omega arith in last_slash-name name (p + 1) (some p) h ∙ ap some e
last_slash-dir (c ∷ dir) name p slash h =
    let e : p + 1 + length dir ≡ p + suc (length dir) = omega arith in
    last_slash-dir dir name (p + 1) _ h ∙ ap some e

take-append_length : (xs ys : Text) → take (length xs) (xs ++ ys) ≡ xs
take-append_length [] ys = refl
take-append_length (x ∷ xs) ys = ap (λ zs. x ∷ zs) (take-append_length xs ys)

module _ (fw : Firmware) (l : Log) (volume : Handle) (path : DevicePath) (dir name : Text) where
  -- mount.efi was loaded from the file `dir\name` of a volume.
  pub record LoadedFrom : Type 0 where
    pub loaded :
        fw.loaded_image_of l fw.image_handle
        ≡ (efi_success, record { device_handle = volume; file_path = some path })
    pub named : last_file_path path.nodes none ≡ some (dir ++ b'\\' ∷ name)
    pub file_name : IsFileName name

  mount_get_self_dir-copy :
      LoadedFrom
      → mount_get_self_dir fw l ≡ (
        efi_success,
        volume,
        fw.strings.strn_cpy_s [] max_path (dir ++ b'\\' ∷ name) (0 + length dir),
      )
  unfolding mount_get_self_dir
  mount_get_self_dir-copy from =
      rw (from.loaded, from.named, last_slash-dir dir name 0 none from.file_name)

  whole : length (dir ++ b'\\' ∷ name) ≡ length dir + suc (length name)
  whole = length-append dir (b'\\' ∷ name)

  cut : take (0 + length dir) (dir ++ b'\\' ∷ name) ≡ dir
  cut = rw add.zero (take-append_length dir (b'\\' ∷ name))

  module _ (strings : IsStringLib fw.strings) (from : LoadedFrom) where
    -- If the directory of mount.efi has fewer than 256 units, `MountGetSelfDir` returns it, and
    -- the volume.
    pub mount_get_self_dir-dir :
        length dir < max_path → mount_get_self_dir fw l ≡ (efi_success, volume, dir)
    mount_get_self_dir-dir short =
        mount_get_self_dir-copy from
        ∙ ap (λ (d : Text). (efi_success, volume, d))
            (strings.strn_cpy_s-fits [] max_path _ _ (omega arith) ∙ cut)

    -- If StrnCpyS keeps its contract and mount.efi was loaded from a directory whose path has 256
    -- units or more, `MountGetSelfDir` still returns EFI_SUCCESS, with the root of the volume as
    -- the directory.
    pub mount_get_self_dir-long :
        max_path ≤ length dir → mount_get_self_dir fw l ≡ (efi_success, volume, [])
    mount_get_self_dir-long long =
        mount_get_self_dir-copy from
        ∙ ap (λ (d : Text). (efi_success, volume, d))
            (strings.strn_cpy_s-short [] max_path _ _ (omega (arith, whole)))

-- The path that mount.efi opens for a file beside it: the file itself if mount.efi lies at the
-- root, else the file behind the directory and a backslash.
abbrev pub beside : (dir relative : Text) → Text
beside [] relative = relative
beside (c ∷ dir) relative = (c ∷ dir) ++ b'\\' ∷ relative

take-all : (n : ℕ) (xs : Text) → length xs ≤ n → take n xs ≡ xs
take-all zero [] h = refl
take-all (suc n) [] h = refl
take-all zero (x ∷ xs) h = absurd (omega arith)
take-all (suc n) (x ∷ xs) h = ap (λ ys. x ∷ ys) (take-all n xs (omega arith))

mount_join_self_path-beside :
    (lib : StringLib)
    → IsStringLib lib
    → (dir relative full : Text) → length dir + length relative + 2 ≤ max_path
    → mount_join_self_path lib dir relative full ≡ beside dir relative
unfolding mount_join_self_path
mount_join_self_path-beside lib ok [] relative full h =
    ok.strn_cpy_s-fits full max_path relative 255 (omega arith)
    ∙ take-all 255 relative (omega arith)
mount_join_self_path-beside lib ok (c ∷ dir) relative full h =
    ok.s_print_path-fits (max_path * 2) (c ∷ dir) relative (omega arith)

module _ (fw : Firmware) (strings : IsStringLib fw.strings) (l : Log) (volume : Handle)
    (path : DevicePath) (dir name : Text) (from : LoadedFrom fw l volume path dir name) where
  -- If the string functions keep their contract, mount.efi was loaded from `dir\name`, and the
  -- joined path fits 256 units with its terminator, a driver file is looked up beside mount.efi on
  -- the volume that it was loaded from.
  pub mount_join_self_path-LoadedFrom :
      (relative full : Text)
      → length dir + length relative + 2 ≤ max_path
      → let (status, device, self_dir) = mount_get_self_dir fw l in
        (status ≡ efi_success)
        × (device ≡ volume)
        × (mount_join_self_path fw.strings self_dir relative full ≡ beside dir relative)
  mount_join_self_path-LoadedFrom relative full h =
      rw (mount_get_self_dir-dir fw l volume path dir name strings from (omega arith))
        (refl, refl, mount_join_self_path-beside fw.strings strings dir relative full h)
