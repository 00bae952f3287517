-- ===== src/MapReport/Balance.antt =====
-- The rescan, the refresh and the report give back all the memory that they take, close the files
-- that they open, and touch no loop disk.
use mount.Prelude.{ℕ, ◌≡◌, inl, inr, true, List, [], ◌∷◌, arith, Bool-cases, Option-cases}
use mount.Efi.{
  Neutral-trans, efi_error, Ptr, Handle, DevicePath, Protocol, Event, Firmware, ListsHandles, State,
  free_unless_null, Neutral,
}
use mount.MapReport.Handles.{map_snapshot_fs_handles, connect_handles, map_connect_all_controllers}
use mount.MapReport.Handles.Snapshot.{Snapped, snapshot-Snapped, map_snapshot_fs_handles-error}
use mount.MapReport.Refresh.{is_some, map_path, refresh_handles, map_refresh_shell}
use mount.MapReport.Refresh.Names.{free_name-state}
use mount.MapReport.Report.{report_new, map_print_new_volumes}
use mount.MapReport.Report.Lines.{report_new-Neutral}

module _ (fw : Firmware) where
  pub connect_handles-Neutral :
      (hs : List Handle) (s : State) → Neutral s (connect_handles fw hs s).1
  unfolding connect_handles
  connect_handles-Neutral [] s q = ground arith
  connect_handles-Neutral (g ∷ hs) s q = ground (
    arith,
    connect_handles-Neutral hs (record s { log = Event.controller_connected g ∷ s.log }) q,
    connect_handles-Neutral hs s q,
  )

  pub map_connect_all_controllers-Neutral :
      (s : State) → Neutral s (map_connect_all_controllers fw s).1
  unfolding map_connect_all_controllers
  map_connect_all_controllers-Neutral s q =
      let (status, buffer, handles) = fw.locate_handle_buffer s.log Protocol.block_io in
      ground (
        arith,
        connect_handles-Neutral handles (record s { log = Event.allocated buffer ∷ s.log }) q,
      )

  module _ (rounds : ℕ) where
    map_path-Neutral : (path : DevicePath) (s : State) → Neutral s (map_path fw rounds path s).1
    unfolding map_path
    map_path-Neutral path s q = ground (arith, free_name-state fw rounds 0 s)

    refresh_handles-Neutral :
        (hs : List Handle) (s : State) → Neutral s (refresh_handles fw rounds hs s).1
    unfolding refresh_handles
    refresh_handles-Neutral [] s = λ q. ground arith
    refresh_handles-Neutral (g ∷ hs) s = elim (Option-cases (fw.path_of_handle s.log g)) [
      | inl e ↦ rw e (refresh_handles-Neutral hs s)
      | inr (path, e) ↦ rw e (
          let (more, t) = map_path fw rounds path s in
          let a = map_path-Neutral path s in
          elim (Bool-cases more) [
            | inl on ↦ rw on (
                Neutral-trans s t (refresh_handles fw rounds hs t).1 a
                  (refresh_handles-Neutral hs t))
            | inr stop ↦ rw stop a
          ])
    ]

-- The buffer of a snapshot from s to t, released in u.
pub Snapped-release :
    (s : State) (buffer : Ptr) (t u : State)
    → Snapped s buffer t
    → Neutral t u
    → Neutral s (free_unless_null buffer u).1
Snapped-release s buffer t u (inl (e, same)) a q = rw (e, free_unless_null) (rw same at (a q))
Snapped-release s buffer t u (inr (full, same)) a q = ground (arith, a q)

module _ (fw : Firmware) (lists : ListsHandles fw) where
  pub map_refresh_shell-Neutral :
      (rounds : ℕ) (s : State)
      → is_some (map_refresh_shell fw rounds s).0 ≡ true
      → Neutral s (map_refresh_shell fw rounds s).1
  unfolding map_refresh_shell
  map_refresh_shell-Neutral rounds s ended =
      let ((status, buffer, handles), t) = map_snapshot_fs_handles fw s in
      let snap : Snapped s buffer t = snapshot-Snapped fw lists s in
      let (done, u) = refresh_handles fw rounds handles t in
      let a = refresh_handles-Neutral fw rounds handles t in
      elim (Bool-cases (efi_error (fw.locate_shell s.log))) [
        | inl none_there ↦ rw none_there (λ q. ground arith)
        | inr there ↦ elim (Bool-cases (efi_error status)) [
          | inl bad ↦ rw (there, bad, map_snapshot_fs_handles-error fw s bad) (λ q. ground arith)
          | inr fine ↦ elim (Bool-cases done) [
            | inl on ↦ rw (there, fine, on) (Snapped-release s buffer t u snap a)
            | inr stop ↦ absurd (cc (rw (there, fine, stop) at ended))
          ]
        ]
      ]

  pub map_print_new_volumes-Neutral :
      (old : List Handle) (s : State) → Neutral s (map_print_new_volumes fw old s).1
  unfolding map_print_new_volumes
  map_print_new_volumes-Neutral old s =
      let ((status, buffer, now), t) = map_snapshot_fs_handles fw s in
      let snap : Snapped s buffer t = snapshot-Snapped fw lists s in
      let a = report_new-Neutral fw old now 0 t in
      let (count, u) = report_new fw old now 0 t in
      elim (Bool-cases (efi_error status)) [
        | inl bad ↦ rw (bad, map_snapshot_fs_handles-error fw s bad) (λ q. ground arith)
        | inr fine ↦ rw fine (λ q.
            let b = Snapped-release s buffer t u snap a q in
            record { pool = b.pool; files = b.files; disk = b.disk })
      ]
