-- ===== src/MapReport/Report/Shown.antt =====
-- The name and the label that the report is to show for a volume.
use mount.Prelude.{
  ◌≡◌, refl, ◌∙◌, ap, inl, inr, Bool, true, false, Option, none, some, ◌∷◌, arith, ◌==◌,
  if◌then◌else◌, Bool-cases, Option-cases, take, Text, codes, min, ◌<◌, length,
}
use mathlib.Core.Option
use mathlib.Core.Option.{get_or}
use mount.Efi.{efi_error, Ptr, Handle, DevicePath, Event, Log, Firmware, State, IsStringLib}
use mount.MapReport.Alias.{map_find_fs_alias}
use mount.MapReport.Alias.Tokens.{
  first_token, tokens, first_fs, map_find_fs_alias-first_fs, map_copy_alias-first_token,
}
use mount.MapReport.Report.{alias_or, name_of_path, display_name, read_label, display_label}

-- Of the aliases of a device path, the first one that begins with `fs` in any case, or else the
-- first one; as much of it as fits 32 characters with the terminator.
abbrev name_of : Option Text → Text
name_of none = codes "?"
name_of (some names) = take 31 (get_or (first_fs (tokens names)) (first_token names))

abbrev name_at : Firmware → Log → Option DevicePath → Text
name_at fw l none = codes "?"
name_at fw l (some path) = name_of (fw.map_of_path l path)

-- The name is `?` without a Shell, a device path or an alias.
abbrev pub shown_name : Firmware → Handle → Log → Text
shown_name fw h l =
    if efi_error (fw.locate_shell l) then codes "?" else name_at fw l (fw.path_of_handle l h)

-- The label of the open root directory, as much of it as fits 64 characters with the terminator,
-- and `-` if there is no memory for it, or it cannot be read.
abbrev label_at : Firmware → Ptr → Log → Text
label_at fw root l =
    let info = fw.allocate l 132 in
    let (status, label) = fw.label_of (Event.allocated info ∷ l) root in
    if info == 0 then codes "-" else if efi_error status then codes "-" else take 63 label

-- The handle has a file system and its root directory can be opened.
abbrev can_open : Firmware → Handle → Log → Bool
can_open fw h l =
    if efi_error (fw.file_system_of l h)
    then false
    else if efi_error (fw.open_volume_of l h).0
    then false
    else true

abbrev pub shown_label : Firmware → Handle → Log → Text
shown_label fw h l =
    let root = (fw.open_volume_of l h).1 in
    if can_open fw h l then label_at fw root (Event.volume_opened h root ∷ l) else codes "-"

-- The calls: the root directory is opened and closed, and the buffer is allocated and freed.
abbrev information_calls : Firmware → Log → Log
information_calls fw l =
    let info = fw.allocate l 132 in
    if info == 0 then l else Event.freed info ∷ Event.allocated info ∷ l

abbrev pub label_calls : Firmware → Handle → Log → Log
label_calls fw h l =
    let root = (fw.open_volume_of l h).1 in
    if can_open fw h l
    then Event.closed root ∷ information_calls fw (Event.volume_opened h root ∷ l)
    else l

module _ (fw : Firmware) (ok : IsStringLib fw.strings) where
  first_token-alias_or :
      (o : Option Text) (names : Text)
      → first_token (alias_or o names) ≡ get_or (Option.map first_token o) (first_token names)
  first_token-alias_or none names = refl
  first_token-alias_or (some a) names = refl

  name_of_path-name_at :
      (path : Option DevicePath) (s : State) → name_of_path fw path s ≡ (name_at fw s.log path, s)
  unfolding name_of_path
  name_of_path-name_at none s = refl
  name_of_path-name_at (some path) s = elim (Option-cases (fw.map_of_path s.log path)) [
    | inl e ↦ rw e refl
    | inr (names, e) ↦ rw e (
        ap (λ name. (name, s))
          (map_copy_alias-first_token fw.strings ok
              (alias_or (map_find_fs_alias (some names)) names) (codes "?") 32 (omega arith)
              (omega arith)
            ∙ ap (take 31) (
                first_token-alias_or (map_find_fs_alias (some names)) names
                ∙ ap (λ o. get_or o (first_token names)) (map_find_fs_alias-first_fs names))))
  ]

  pub display_name-shown :
      (h : Handle) (s : State) → display_name fw h s ≡ (shown_name fw h s.log, s)
  unfolding display_name
  display_name-shown h s = elim (Bool-cases (efi_error (fw.locate_shell s.log))) [
    | inl gone ↦ rw gone refl
    | inr there ↦ rw there (name_of_path-name_at (fw.path_of_handle s.log h) s)
  ]

  read_label-label_at :
      (root : Ptr) (s : State)
      → read_label fw root s
        ≡ (label_at fw root s.log, record s { log = information_calls fw s.log })
  unfolding read_label
  read_label-label_at root s =
      let info = fw.allocate s.log 132 in
      let label = (fw.label_of (Event.allocated info ∷ s.log) root).1 in
      let fits : min (length label) 63 < 64 = omega arith in
      ground (arith, ok.strn_cpy_s-fits (codes "-") 64 label 63 fits)

  pub display_label-shown :
      (h : Handle) (s : State)
      → display_label fw h s ≡ (shown_label fw h s.log, record s { log = label_calls fw h s.log })
  unfolding display_label
  display_label-shown h s =
      let root = (fw.open_volume_of s.log h).1 in
      ground
        (arith, read_label-label_at root (record s { log = Event.volume_opened h root ∷ s.log }))
