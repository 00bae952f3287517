-- ===== src/MapReport/Refresh/Names.antt =====
-- The names that a refresh assigns: each is the first that the Shell's map has free.
use mount.Prelude.{
  ℕ, zero, suc, ◌+◌, ◌≤◌, ◌<◌, ◌≡◌, refl, inl, inr, Bool, true, false, some, List, [], ◌∷◌, arith,
  ◌==◌, Bool-cases, Option-cases, Text,
}
use mount.Efi.{Handle, DevicePath, Protocol, Event, Log, Firmware, State}
use mount.MapReport.Alias.{map_find_fs_alias}
use mount.MapReport.Refresh.{
  is_some, fs_name, free_name, map_path, refresh_handles, map_refresh_shell,
}

module _ (fw : Firmware) where
  -- The name is `fs<k>:`, the Shell's map does not know it, and it knows all those before.
  pub record FirstFree (l : Log) (name : Text) : Type 0 where
    pub index : ℕ
    pub printed : name ≡ fs_name fw index
    pub free : is_some (fw.path_of_map l name) ≡ false
    pub taken : (j : ℕ) → j < index → is_some (fw.path_of_map l (fs_name fw j)) ≡ true

  -- Every SetMap in a log was made with the first free name of that moment.
  abbrev pub AllFirstFree : Log → Type 0
  AllFirstFree [] = Unit
  AllFirstFree (Event.map_set path name status ∷ l) = FirstFree l name × AllFirstFree l
  AllFirstFree (_ ∷ l) = AllFirstFree l

  pub free_name-state : (rounds index : ℕ) (s : State) → (free_name fw rounds index s).1 ≡ s
  unfolding free_name
  free_name-state zero index s = refl
  free_name-state (suc rounds) index s = ground (arith, free_name-state rounds (index + 1) s)

  free_name-FirstFree :
      (rounds index : ℕ) (s : State) (name : Text)
      → ((j : ℕ) → j < index → is_some (fw.path_of_map s.log (fs_name fw j)) ≡ true)
      → (free_name fw rounds index s).0 ≡ some name
      → FirstFree s.log name
  unfolding free_name
  free_name-FirstFree zero index s name below e = absurd (cc)
  free_name-FirstFree (suc rounds) index s name below e =
      elim (Bool-cases (is_some (fw.path_of_map s.log (fs_name fw index)))) [
        | inl mapped ↦
            free_name-FirstFree rounds (index + 1) s name
              (λ j h. elim (Bool-cases (j == index)) [
                | inl same ↦ ground arith
                | inr differ ↦ below j (ground arith)
              ])
              (ground arith)
        | inr unmapped ↦ record {
          index = index;
          printed = ground arith;
          free = ground arith;
          taken = below;
        }
      ]

  pub free_name-found :
      (rounds index k : ℕ) (s : State)
      → index ≤ k
      → k < index + rounds
      → is_some (fw.path_of_map s.log (fs_name fw k)) ≡ false
      → is_some (free_name fw rounds index s).0 ≡ true
  unfolding free_name
  free_name-found zero index k s low high free = absurd (omega arith)
  free_name-found (suc rounds) index k s low high free =
      elim (Bool-cases (is_some (fw.path_of_map s.log (fs_name fw index)))) [
        | inl mapped ↦ elim (Bool-cases (k == index)) [
          | inl same ↦ absurd (ground arith)
          | inr differ ↦
              rw mapped (free_name-found rounds (index + 1) k s (ground arith) (omega arith) free)
        ]
        | inr unmapped ↦ rw unmapped
      ]

  module _ (rounds : ℕ) where
    -- The three ways in which `map_path` ends.
    pub data Mapped (path : DevicePath) (s : State) : Bool × State → Type 0 where
      known :
          {r : Bool × State}
          → is_some (map_find_fs_alias (fw.map_of_path s.log path)) ≡ true
          → r ≡ (true, s)
          → Mapped path s r
      assigned :
          {r : Bool × State} {name : Text}
          → FirstFree s.log name
          → r ≡ (
            true,
            record s { log = Event.map_set path name (fw.set_map_of s.log path name) ∷ s.log },
          )
          → Mapped path s r
      searching :
          {r : Bool × State}
          → is_some (free_name fw rounds 0 s).0 ≡ false
          → r ≡ (false, s)
          → Mapped path s r

    pub map_path-Mapped :
        (path : DevicePath) (s : State) → Mapped path s (map_path fw rounds path s)
    unfolding map_path
    map_path-Mapped path s =
        elim (Bool-cases (is_some (map_find_fs_alias (fw.map_of_path s.log path)))) [
          | inl old ↦ known old (ground arith)
          | inr bare ↦ elim (Option-cases (free_name fw rounds 0 s).0) [
            | inl e ↦ searching (rw e) (ground (arith, free_name-state rounds 0 s))
            | inr (name, e) ↦
                assigned (free_name-FirstFree rounds 0 s name (λ j h. absurd (omega arith)) e)
                  (ground (arith, free_name-state rounds 0 s))
          ]
        ]

    Mapped-AllFirstFree :
        {path : DevicePath} {s : State} {r : Bool × State}
        → Mapped path s r
        → AllFirstFree s.log
        → AllFirstFree r.1.log
    Mapped-AllFirstFree (known old e) h = rw e h
    Mapped-AllFirstFree (assigned first e) h = rw e (first, h)
    Mapped-AllFirstFree (searching e' e) h = rw e h

    refresh_handles-AllFirstFree :
        (hs : List Handle) (s : State)
        → AllFirstFree s.log
        → AllFirstFree (refresh_handles fw rounds hs s).1.log
    unfolding refresh_handles
    refresh_handles-AllFirstFree [] s h = h
    refresh_handles-AllFirstFree (g ∷ hs) s h = elim (Option-cases (fw.path_of_handle s.log g)) [
      | inl e ↦ rw e (refresh_handles-AllFirstFree hs s h)
      | inr (path, e) ↦ rw e (
          let r = map_path fw rounds path s in
          let h' : AllFirstFree r.1.log = Mapped-AllFirstFree (map_path-Mapped path s) h in
          elim (Bool-cases r.0) [
            | inl more ↦ rw more (refresh_handles-AllFirstFree hs r.1 h')
            | inr stop ↦ rw stop h'
          ])
    ]

    -- If every SetMap so far used the first free name, so does every SetMap of `MapRefreshShell`:
    -- the name is `fs<k>:` for the least k that the Shell's map does not know.
    pub map_refresh_shell-AllFirstFree :
        (s : State) → AllFirstFree s.log → AllFirstFree (map_refresh_shell fw rounds s).1.log
    unfolding map_refresh_shell
    map_refresh_shell-AllFirstFree s h =
        let (status, buffer, handles) = fw.locate_handle_buffer s.log Protocol.simple_file_system in
        let t : State = record s { log = Event.allocated buffer ∷ s.log } in
        ground (
          arith,
          refresh_handles-AllFirstFree handles t h,
          refresh_handles-AllFirstFree handles s h,
          refresh_handles-AllFirstFree [] t h,
          refresh_handles-AllFirstFree [] s h,
        )
