-- ===== src/MapReport/Refresh/Complete.antt =====
-- A refresh ends, and leaves every volume with an fs name.
use mount.Prelude.{
  ℕ, ◌<◌, ◌≡◌, refl, inl, inr, Bool, true, false, Option, none, some, List, [], ◌∷◌, arith, ◌==◌,
  Bool-cases, Option-cases, Text,
}
use mount.Efi.{
  Status, efi_success, efi_error, Ptr, Handle, DevicePath, Protocol, Event, Log, Firmware, State,
}
use mount.MapReport.Handles.{map_is_in_snapshot}
use mount.MapReport.Alias.{map_find_fs_alias}
use mount.MapReport.Refresh.{is_some, fs_name, map_path, refresh_handles, map_refresh_shell}
use mount.MapReport.Refresh.Names.{
  free_name-found, Mapped, known, assigned, searching, map_path-Mapped,
}

-- At any time one of the first `rounds` names is free, as when the map has fewer entries.
abbrev pub FreeSoon : Firmware → ℕ → Type 0
FreeSoon fw rounds =
    (l : Log) → (k : ℕ) × (k < rounds) × (is_some (fw.path_of_map l (fs_name fw k)) ≡ false)

module _ (fw : Firmware) (rounds : ℕ) (soon : FreeSoon fw rounds) where
  Mapped-ends :
      {path : DevicePath} {s : State} {r : Bool × State} → Mapped fw rounds path s r → r.0 ≡ true
  Mapped-ends (known old e) = rw e
  Mapped-ends (assigned first e) = rw e
  Mapped-ends {s} (searching e' e) =
      let (k, below, free) = soon s.log in
      let found = free_name-found fw rounds 0 k s (omega arith) (omega arith) free in absurd (cc)

  pub refresh_handles-ends :
      (hs : List Handle) (s : State) → (refresh_handles fw rounds hs s).0 ≡ true
  unfolding refresh_handles
  refresh_handles-ends [] s = refl
  refresh_handles-ends (g ∷ hs) s = elim (Option-cases (fw.path_of_handle s.log g)) [
    | inl e ↦ rw e (refresh_handles-ends hs s)
    | inr (path, e) ↦
        rw (e, Mapped-ends (map_path-Mapped fw rounds path s))
          (refresh_handles-ends hs (map_path fw rounds path s).1)
  ]

  -- If one of the first `rounds` names is free at any time, `MapRefreshShell` returns: its search
  -- for a name, which has no bound of its own, needs at most `rounds` rounds for each volume.
  pub map_refresh_shell-ends : (s : State) → is_some (map_refresh_shell fw rounds s).0 ≡ true
  unfolding map_refresh_shell
  map_refresh_shell-ends s =
      let (status, buffer, handles) = fw.locate_handle_buffer s.log Protocol.simple_file_system in
      let t : State = record s { log = Event.allocated buffer ∷ s.log } in
      ground (
        arith,
        refresh_handles-ends handles t,
        refresh_handles-ends handles s,
        refresh_handles-ends [] t,
        refresh_handles-ends [] s,
      )

-- The device path has an alias that begins with `fs`.
abbrev pub has_alias : Firmware → Log → DevicePath → Bool
has_alias fw l path = is_some (map_find_fs_alias (fw.map_of_path l path))

abbrev alias_if_path : Firmware → Log → Option DevicePath → Bool
alias_if_path fw l none = true
alias_if_path fw l (some path) = has_alias fw l path

-- The handle has no device path, or one with such an alias.
abbrev pub IsNamed : Firmware → Log → Handle → Type 0
IsNamed fw l h = alias_if_path fw l (fw.path_of_handle l h) ≡ true

-- The Shell's map: SetMap succeeds and adds an alias, takes none away, and neither SetMap nor a
-- release of memory changes the device path of a handle.
pub record IsShellMap (fw : Firmware) : Type 0 where
  pub sets : (l : Log) (path : DevicePath) (name : Text) → fw.set_map_of l path name ≡ efi_success
  pub gains :
      (l : Log) (path : DevicePath) (k : ℕ)
      → has_alias fw (Event.map_set path (fs_name fw k) efi_success ∷ l) path ≡ true
  pub keeps :
      (l : Log) (path other : DevicePath) (name : Text) (status : Status)
      → has_alias fw l path ≡ true
      → has_alias fw (Event.map_set other name status ∷ l) path ≡ true
  pub path_stays :
      (l : Log) (path : DevicePath) (name : Text) (status : Status) (h : Handle)
      → fw.path_of_handle (Event.map_set path name status ∷ l) h ≡ fw.path_of_handle l h
  pub released :
      (l : Log) (p : Ptr) (h : Handle) → IsNamed fw l h → IsNamed fw (Event.freed p ∷ l) h

module _ (fw : Firmware) (rounds : ℕ) (map : IsShellMap fw) where
  abbrev after_set : State → DevicePath → Text → State
  after_set s path name = record s {
    log = Event.map_set path name (fw.set_map_of s.log path name) ∷ s.log;
  }

  set-keeps :
      (s : State) (path : DevicePath) (name : Text) (h : Handle)
      → IsNamed fw s.log h
      → IsNamed fw (after_set s path name).log h
  set-keeps s path name h named = rw map.path_stays (keep (fw.path_of_handle s.log h) named)
    where
      keep :
          (o : Option DevicePath)
          → alias_if_path fw s.log o ≡ true
          → alias_if_path fw (after_set s path name).log o ≡ true
      keep none e = refl
      keep (some other) e = map.keeps s.log other path name _ e

  Mapped-keeps :
      {path : DevicePath} {s : State} {r : Bool × State} (h : Handle)
      → Mapped fw rounds path s r
      → IsNamed fw s.log h
      → IsNamed fw r.1.log h
  Mapped-keeps h (known old e) named = rw e named
  Mapped-keeps {path} {s} h (assigned {name} first e) named = rw e (set-keeps s path name h named)
  Mapped-keeps h (searching e' e) named = rw e named

  Mapped-IsNamed :
      {path : DevicePath} {s : State} {r : Bool × State} (h : Handle)
      → Mapped fw rounds path s r
      → r.0 ≡ true
      → fw.path_of_handle s.log h ≡ some path
      → IsNamed fw r.1.log h
  Mapped-IsNamed h (known old e) done at = rw (e, at) old
  Mapped-IsNamed {path} {s} h (assigned {name} first e) done at =
      rw (e, map.path_stays, at, map.sets s.log path name, first.printed)
        (map.gains s.log path first.index)
  Mapped-IsNamed h (searching e' e) done at = absurd (cc)

  abbrev Names : List Handle → State → Bool × State → Type 0
  Names hs s r =
      (h : Handle)
      → (IsNamed fw s.log h → IsNamed fw r.1.log h)
        × (r.0 ≡ true → map_is_in_snapshot h hs ≡ true → IsNamed fw r.1.log h)

  refresh_handles-Names :
      (hs : List Handle) (s : State) → Names hs s (refresh_handles fw rounds hs s)
  unfolding refresh_handles map_is_in_snapshot
  refresh_handles-Names [] s h = (λ n. n, λ done listed. absurd (cc))
  refresh_handles-Names (g ∷ hs) s h = elim (Option-cases (fw.path_of_handle s.log g)) [
    | inl e ↦ rw e (
        let (old, new) = refresh_handles-Names hs s h in
        (
          old,
          λ done listed. elim (Bool-cases (g == h)) [
            | inl same ↦ old (ground arith)
            | inr other ↦ new done (ground arith)
          ],
        ))
    | inr (path, e) ↦ rw e (
        let r = map_path fw rounds path s in
        let m : Mapped fw rounds path s r = map_path-Mapped fw rounds path s in
        elim (Bool-cases r.0) [
          | inl more ↦ rw more (
              let (old, new) = refresh_handles-Names hs r.1 h in
              (
                λ n. old (Mapped-keeps h m n),
                λ done listed. elim (Bool-cases (g == h)) [
                  | inl same ↦ old (Mapped-IsNamed h m more (ground arith))
                  | inr other ↦ new done (ground arith)
                ],
              ))
          | inr stop ↦ rw stop (λ n. Mapped-keeps h m n, λ done. absurd (cc))
        ])
  ]

  pub map_refresh_shell-IsNamed :
      (s : State) (h : Handle)
      → efi_error (fw.locate_handle_buffer s.log Protocol.simple_file_system).0 ≡ false
      → map_is_in_snapshot h (fw.locate_handle_buffer s.log Protocol.simple_file_system).2 ≡ true
      → (map_refresh_shell fw rounds s).0 ≡ some efi_success
      → IsNamed fw (map_refresh_shell fw rounds s).1.log h
  unfolding map_refresh_shell
  map_refresh_shell-IsNamed s h listing listed done =
      let (status, buffer, handles) = fw.locate_handle_buffer s.log Protocol.simple_file_system in
      let t : State = record s { log = Event.allocated buffer ∷ s.log } in
      let u = (refresh_handles fw rounds handles t).1 in
      ground (arith, refresh_handles-Names handles t h, map.released u.log buffer h)
