-- ===== src/MapReport/Refresh.antt =====
-- `MapRefreshShell`. The search for a free name has no bound in the source: it is given `rounds`,
-- and a run that would need more is `none` (for the whole function) or `false` (for the loop).
pub mod Names
pub mod Complete
use mount.Prelude.{
  ℕ, zero, suc, ◌+◌, Bool, true, false, Option, none, some, List, [], ◌∷◌, if◌then◌else◌, Text,
}
use mount.Efi.{
  Status, efi_success, efi_error, Handle, DevicePath, Event, Firmware, M, pure, ◌>>=◌, ◌>>◌, emit,
  ask, free_unless_null,
}
use mount.MapReport.Alias.{map_find_fs_alias}
use mount.MapReport.Handles.{map_snapshot_fs_handles}

abbrev pub is_some {ℓ} : {A : Type ℓ} → Option A → Bool
is_some none = false
is_some (some _) = true

-- sizeof (NewName)
abbrev pub new_name_size : ℕ
new_name_size = 32

module _ (fw : Firmware) where
  abbrev pub fs_name : ℕ → Text
  fs_name index = fw.strings.s_print_fs new_name_size index

  -- for (Fs = index; ; Fs++)
  unfoldable pub free_name : (rounds index : ℕ) → M (Option Text)
  free_name zero index = pure none
  free_name (suc rounds) index = do
    mapped ← ask (λ l. fw.path_of_map l (fs_name index))
    if is_some mapped then free_name rounds (index + 1) else pure (some (fs_name index))

  abbrev pub set_map : DevicePath → Text → M Status
  set_map path name = do
    status ← ask (λ l. fw.set_map_of l path name)
    emit (Event.map_set path name status)
    pure status

  -- A handle whose path has no fs alias gets the first free name.
  unfoldable pub map_path : ℕ → DevicePath → M Bool
  map_path rounds path = do
    names ← ask (λ l. fw.map_of_path l path)
    if is_some (map_find_fs_alias names) then pure true else do
      found ← free_name rounds 0
      elim found [ none ↦ pure false | some name ↦ (set_map path name >>= λ _. pure true) ]

  unfoldable pub refresh_handles : ℕ → List Handle → M Bool
  unfolding map_path
  refresh_handles rounds [] = pure true
  refresh_handles rounds (handle ∷ handles) = do
    path ← ask (λ l. fw.path_of_handle l handle)
    ended ← elim path [ none ↦ pure true | some path ↦ map_path rounds path ]
    if ended then refresh_handles rounds handles else pure false

  unfoldable pub map_refresh_shell : ℕ → M (Option Status)
  unfolding map_snapshot_fs_handles
  map_refresh_shell rounds = do
    status ← ask (λ l. fw.locate_shell l)
    if efi_error status then pure (some status) else do
      (status, buffer, handles) ← map_snapshot_fs_handles fw
      if efi_error status then pure (some status) else do
        ended ← refresh_handles rounds handles
        if ended then (do free_unless_null buffer; pure (some efi_success)) else pure none
