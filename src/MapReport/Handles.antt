-- ===== src/MapReport/Handles.antt =====
-- `MapSnapshotFsHandles`, `MapIsInSnapshot` and `MapConnectAllControllers`.
pub mod Rescan
pub mod Fresh
pub mod Snapshot
use mount.Prelude.{Bool, false, ◌||◌, List, [], ◌∷◌, ◌==◌, if◌then◌else◌}
use mount.Efi.{
  Status, efi_success, efi_not_found, efi_error, Ptr, Handle, Protocol, Event, Firmware, M, pure,
  ◌>>=◌, ◌>>◌, emit, ask, when, locate_handles, connect_controller,
}

module _ (fw : Firmware) where
  -- The status, `*Buffer` and the handles in it.
  unfoldable pub map_snapshot_fs_handles : M (Status × Ptr × List Handle)
  map_snapshot_fs_handles = do
    (status, buffer, handles) ← locate_handles fw Protocol.simple_file_system
    pure (if status == efi_not_found then (efi_success, 0, []) else (status, buffer, handles))

  -- The loop over the handles with BlockIo.
  unfoldable pub connect_handles : List Handle → M (Unit {0})
  connect_handles [] = pure tt
  connect_handles (handle ∷ handles) = do
    status ← ask (λ l. fw.file_system_of l handle)
    when (efi_error status) (connect_controller fw handle >>= λ _. pure tt)
    connect_handles handles

  unfoldable pub map_connect_all_controllers : M Status
  map_connect_all_controllers = do
    (status, buffer, handles) ← locate_handles fw Protocol.block_io
    if status == efi_not_found
        then pure efi_success
        else if efi_error status
        then pure status
        else (do connect_handles handles; emit (Event.freed buffer); pure efi_success)

unfoldable pub map_is_in_snapshot : Handle → List Handle → Bool
map_is_in_snapshot handle [] = false
map_is_in_snapshot handle (h ∷ buffer) = (h == handle) || map_is_in_snapshot handle buffer
