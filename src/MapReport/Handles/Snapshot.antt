-- ===== src/MapReport/Handles/Snapshot.antt =====
-- What a snapshot of the file systems leaves behind: its buffer.
use mount.Prelude.{◌≡◌, ◌≢◌, ◌⊎◌, inl, inr, true, ◌∷◌, arith, Bool-cases}
use mount.Efi.{efi_error, Ptr, Protocol, Event, Firmware, ListsHandles, State}
use mount.MapReport.Handles.{map_snapshot_fs_handles}

-- From s to t a buffer has been allocated, and nothing else; a NULL buffer is no allocation.
abbrev pub Snapped : State → Ptr → State → Type 0
Snapped s buffer t =
    ((buffer ≡ 0) × (t ≡ s))
    ⊎ ((buffer ≢ 0) × (t ≡ record s { log = Event.allocated buffer ∷ s.log }))

module _ (fw : Firmware) (lists : ListsHandles fw) where
  pub snapshot-Snapped :
      (s : State) → let ((_, buffer, _), t) = map_snapshot_fs_handles fw s in Snapped s buffer t
  unfolding map_snapshot_fs_handles
  snapshot-Snapped s =
      let given = lists.given s.log Protocol.simple_file_system in
      let refused = lists.refused s.log Protocol.simple_file_system in
      elim (Bool-cases (efi_error (fw.locate_handle_buffer s.log Protocol.simple_file_system).0)) [
        | inl bad ↦ inl (ground (arith, refused bad))
        | inr fine ↦ inr (ground (arith, given fine))
      ]

-- A snapshot that fails takes no memory.
pub map_snapshot_fs_handles-error :
    (fw : Firmware) (s : State)
    → efi_error (map_snapshot_fs_handles fw s).0.0 ≡ true
    → (map_snapshot_fs_handles fw s).1 ≡ s
unfolding map_snapshot_fs_handles
map_snapshot_fs_handles-error fw s bad = ground arith
