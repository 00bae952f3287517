-- ===== src/MapReport/Report.antt =====
-- `MapPrintNewVolumes` and `MapPrintCurrentMappings`.
pub mod Lines
pub mod Shown
use mount.Prelude.{ℕ, ◌+◌, ◌-◌, Option, none, some, List, [], ◌∷◌, ◌==◌, if◌then◌else◌, Text, codes}
use mount.Efi.{
  efi_error, Ptr, Handle, DevicePath, Message, Event, Firmware, M, pure, ◌>>=◌, ◌>>◌, emit, ask,
  say, free_unless_null, allocate,
}
use mount.MapReport.Alias.{map_find_fs_alias, map_copy_alias}
use mount.MapReport.Handles.{map_snapshot_fs_handles, map_is_in_snapshot}

abbrev pub label_max : ℕ
label_max = 64

abbrev pub name_max : ℕ
name_max = 32

-- sizeof (EFI_FILE_SYSTEM_VOLUME_LABEL) + sizeof (Label)
abbrev pub label_info_size : ℕ
label_info_size = 4 + 128

abbrev alias_or : Option Text → Text → Text
alias_or none names = names
alias_or (some alias) names = alias

module _ (fw : Firmware) where
  -- The name to display for a device path: its fs alias, else its first alias, else `?`.
  unfoldable pub name_of_path : Option DevicePath → M Text
  name_of_path none = pure (codes "?")
  name_of_path (some path) = do
    names ← ask (λ l. fw.map_of_path l path)
    elim names [
      | none ↦ pure (codes "?")
      | some map_name ↦ pure (
          map_copy_alias fw.strings (alias_or (map_find_fs_alias (some map_name)) map_name)
            (codes "?") name_max)
    ]

  unfoldable pub display_name : Handle → M Text
  display_name handle = do
    status ← ask (λ l. fw.locate_shell l)
    if efi_error status
        then pure (codes "?")
        else do path ← ask (λ l. fw.path_of_handle l handle); name_of_path path

  -- The label of the open root directory.
  unfoldable pub read_label : Ptr → M Text
  read_label root = do
    info ← allocate fw label_info_size
    if info == 0 then pure (codes "-") else do
      (status, label) ← ask (λ l. fw.label_of l root)
      emit (Event.freed info)
      pure (
          if efi_error status
          then codes "-"
          else fw.strings.strn_cpy_s (codes "-") label_max label (label_max - 1))

  unfoldable pub display_label : Handle → M Text
  display_label handle = do
    status ← ask (λ l. fw.file_system_of l handle)
    if efi_error status then pure (codes "-") else do
      (status, root) ← ask (λ l. fw.open_volume_of l handle)
      if efi_error status then pure (codes "-") else do
        emit (Event.volume_opened handle root)
        label ← read_label root
        emit (Event.closed root)
        pure label

  unfoldable pub report_volume : Handle → M (Unit {0})
  report_volume handle = do
    name ← display_name handle
    label ← display_label handle
    say (Message.new_volume name label)

  -- The loop, which returns the number of new volumes.
  unfoldable pub report_new : (old now : List Handle) → ℕ → M ℕ
  report_new old [] count = pure count
  report_new old (handle ∷ now) count =
      let rest = report_new old now in
      if map_is_in_snapshot handle old
      then rest count
      else (do report_volume handle; rest (count + 1))

  unfoldable pub map_print_new_volumes : List Handle → M (Unit {0})
  unfolding map_snapshot_fs_handles
  map_print_new_volumes old = do
    (status, buffer, now) ← map_snapshot_fs_handles fw
    if efi_error status then pure tt else do
      count ← report_new old now 0
      free_unless_null buffer
      say (Message.map_refreshed count)

-- ShellExecute (&gImageHandle, L"map", FALSE, NULL, &Status)
unfoldable pub map_print_current_mappings : M (Unit {0})
map_print_current_mappings = emit Event.map_listed
