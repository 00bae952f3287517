-- ===== src/MapReport/Handles/Rescan.antt =====
-- Which handles a rescan connects.
use mount.Prelude.{
  ℕ, ◌+◌, ◌≤◌, ◌<◌, ◌≡◌, refl, ◌⊎◌, inl, inr, true, false, List, [], ◌∷◌, arith, ◌==◌,
  if◌then◌else◌, Bool-cases,
}
use mount.Efi.{
  Status, efi_success, efi_error, Ptr, Handle, Protocol, Event, Log, Firmware, State, PoolBalanced,
}
use mount.MapReport.Balance.{connect_handles-Neutral}
use mount.MapReport.Handles.{connect_handles, map_connect_all_controllers, map_is_in_snapshot}

-- How often a log connects a handle.
abbrev pub connects : Handle → Log → ℕ
connects h [] = 0
connects h (Event.controller_connected g ∷ l) = (if g == h then 1 else 0) + connects h l
connects h (_ ∷ l) = connects h l

-- The handle has a file system.
abbrev pub HasFs : Firmware → Log → Handle → Type 0
HasFs fw l h = efi_error (fw.file_system_of l h) ≡ false

-- No allocation, release or connection takes a file system away.
pub record FsStays (fw : Firmware) : Type 0 where
  pub allocation :
      (l : Log) (h : Handle) (p : Ptr) → HasFs fw l h → HasFs fw (Event.allocated p ∷ l) h
  pub release : (l : Log) (h : Handle) (p : Ptr) → HasFs fw l h → HasFs fw (Event.freed p ∷ l) h
  pub connection :
      (l : Log) (h g : Handle) → HasFs fw l h → HasFs fw (Event.controller_connected g ∷ l) h

-- The handle is in the list.
abbrev pub Listed : Handle → List Handle → Type 0
Listed h handles = map_is_in_snapshot h handles ≡ true

module _ (fw : Firmware) (stays : FsStays fw) where
  connect_handles-HasFs :
      (hs : List Handle) (s : State) (h : Handle)
      → HasFs fw s.log h
      → HasFs fw (connect_handles fw hs s).1.log h
        × (connects h (connect_handles fw hs s).1.log ≡ connects h s.log)
  unfolding connect_handles
  connect_handles-HasFs [] s h has = (has, refl)
  connect_handles-HasFs (g ∷ hs) s h has =
      elim (Bool-cases (efi_error (fw.file_system_of s.log g))) [
        | inl bare ↦ rw bare (
            let kept = stays.connection s.log h g has in
            let t : State = record s { log = Event.controller_connected g ∷ s.log } in
            let (later, same) = connect_handles-HasFs hs t h kept in (later, ground arith))
        | inr mounted ↦ rw mounted (connect_handles-HasFs hs s h has)
      ]

  connect_handles-grows :
      (hs : List Handle) (s : State) (h : Handle)
      → connects h s.log ≤ connects h (connect_handles fw hs s).1.log
  unfolding connect_handles
  connect_handles-grows [] s h = omega arith
  connect_handles-grows (g ∷ hs) s h = ground (
    arith,
    connect_handles-grows hs (record s { log = Event.controller_connected g ∷ s.log }) h,
    connect_handles-grows hs s h,
  )

  -- Every handle of the list has a file system in the end, or has been connected.
  connect_handles-Listed :
      (hs : List Handle) (s : State) (h : Handle)
      → Listed h hs
      → HasFs fw (connect_handles fw hs s).1.log h
        ⊎ (connects h s.log < connects h (connect_handles fw hs s).1.log)
  unfolding connect_handles map_is_in_snapshot
  connect_handles-Listed [] s h mem = absurd (cc)
  connect_handles-Listed (g ∷ hs) s h mem =
      let t : State = record s { log = Event.controller_connected g ∷ s.log } in
      elim (Bool-cases (efi_error (fw.file_system_of s.log g))) [
        | inl bare ↦
            rw bare (ground (arith, connect_handles-grows hs t h, connect_handles-Listed hs t h))
        | inr mounted ↦
            rw mounted (ground (arith, connect_handles-HasFs hs s h, connect_handles-Listed hs s h))
      ]

  connect_handles-Unlisted :
      (hs : List Handle) (s : State) (h : Handle)
      → map_is_in_snapshot h hs ≡ false
      → connects h (connect_handles fw hs s).1.log ≡ connects h s.log
  unfolding connect_handles map_is_in_snapshot
  connect_handles-Unlisted [] s h out = refl
  connect_handles-Unlisted (g ∷ hs) s h out = ground (
    arith,
    connect_handles-Unlisted hs (record s { log = Event.controller_connected g ∷ s.log }) h,
    connect_handles-Unlisted hs s h,
  )

-- What a rescan from s to t does to one handle, given the handles with BlockIo.
pub record Rescanned (fw : Firmware) (handles : List Handle) (s t : State) (h : Handle)
    : Type 0 where
  -- A handle that has a file system is left alone.
  pub mounted : HasFs fw s.log h → HasFs fw t.log h × (connects h t.log ≡ connects h s.log)
  -- Any handle with BlockIo has a file system afterwards or has been connected.
  pub tried : Listed h handles → HasFs fw t.log h ⊎ (connects h s.log < connects h t.log)
  -- No other handle is connected.
  pub outside : map_is_in_snapshot h handles ≡ false → connects h t.log ≡ connects h s.log

module _ (fw : Firmware) (stays : FsStays fw) (s : State) where
  abbrev found : Status × Ptr × List Handle
  found = fw.locate_handle_buffer s.log Protocol.block_io

  abbrev before : State
  before = record s { log = Event.allocated found.1 ∷ s.log }

  abbrev rescanned : State
  rescanned =
      let t = (connect_handles fw found.2 before).1 in
      record t { log = Event.freed found.1 ∷ t.log }

  map_connect_all_controllers-eq :
      efi_error found.0 ≡ false → map_connect_all_controllers fw s ≡ (efi_success, rescanned)
  unfolding map_connect_all_controllers
  map_connect_all_controllers-eq listed = ground arith

  rescanned-Rescanned : (h : Handle) → Rescanned fw found.2 s rescanned h
  rescanned-Rescanned h = record {
    mounted = λ has.
        let (later, same) =
          connect_handles-HasFs fw stays found.2 before h (stays.allocation s.log h found.1 has) in
        (stays.release _ h found.1 later, same);
    tried = λ mem. elim (connect_handles-Listed fw stays found.2 before h mem) [
      | inl has ↦ inl (stays.release _ h found.1 has)
      | inr more ↦ inr more
    ];
    outside = λ out. connect_handles-Unlisted fw stays found.2 before h out;
  }

  -- If no allocation, release or connection takes a file system away, and the handles with BlockIo
  -- can be listed, `MapConnectAllControllers` returns EFI_SUCCESS and frees the list, a handle
  -- that has a file system stays as it is and is not connected, every other listed handle is
  -- connected or has got a file system meanwhile, and no unlisted handle is connected.
  pub map_connect_all_controllers-Rescanned :
      efi_error (fw.locate_handle_buffer s.log Protocol.block_io).0 ≡ false
      → let (status, t) = map_connect_all_controllers fw s in
        (status ≡ efi_success)
        × PoolBalanced s t
        × ((h : Handle) → Rescanned fw (fw.locate_handle_buffer s.log Protocol.block_io).2 s t h)
  map_connect_all_controllers-Rescanned listed = rw (map_connect_all_controllers-eq listed) (
    refl,
    λ q. omega (arith, (connect_handles-Neutral fw found.2 before q).pool),
    rescanned-Rescanned,
  )
