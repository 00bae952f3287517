-- ===== src/LoopDisk/Create/Ownership.antt =====
-- Who owns what after `LoopCreate`: on a failure nothing is left open, allocated or created.
use mount.Prelude.{
  ℕ, ◌+◌, ◌-◌, ◌/◌, ◌≡◌, ◌∙◌, ◌≢◌, inl, inr, Bool, true, none, some, ◌∷◌, arith, ◌==◌, Bool-cases,
  Text,
}
use mount.Efi.{
  LiveStays, efi_success, efi_error, Ptr, DevicePath, Message, Event, Log, Firmware, State, ◌>>=◌,
  hit, allocs, frees, opens, closes, Neutral,
}
use mount.LoopDxe.Factory.{loop_disk_size}
use mount.LoopDxe.Factory.Create.{loop_factory_create-Refused}
use mount.LoopDisk.Sniff.{block, loop_sniff}
use mount.LoopDisk.Factory.{mount_loop_factory_get}
use mount.LoopDisk.Create.{
  make_device, create_device, sniff_and_create, check_size, stat_and_create, loop_create,
}
use mount.LoopDisk.Create.Parts.{
  AfterAlloc, mount_loop_factory_get-Neutral, loop_sniff-Neutral,
  mount_iso_file_device_path-Resolved,
}

-- As long as no memory of the state is freed, allocation returns no address that holds a loop disk.
abbrev pub FreshPool : Firmware → State → Type 0
FreshPool fw s =
    (l : Log) (size : ℕ)
    → LiveStays s.log l
    → fw.allocate l size ≢ 0
    → s.disks (fw.allocate l size) ≡ none

-- A failed part of `LoopCreate` that began with `file` open, at one address: the file has been
-- closed.
pub record ClosedAt (file q : Ptr) (s t : State) : Type 0 where
  pub pool : allocs q t.log + frees q s.log ≡ frees q t.log + allocs q s.log
  pub files : opens q t.log + hit q file + closes q s.log ≡ closes q t.log + opens q s.log
  pub disk : t.disks q ≡ s.disks q

abbrev pub Closed : Ptr → State → State → Type 0
Closed file s t = (q : Ptr) → ClosedAt file q s t

pub FreshPool-Neutral :
    (fw : Firmware) (s t : State) → FreshPool fw s → Neutral s t → FreshPool fw t
FreshPool-Neutral fw s t fresh a l n stays there =
    (a (fw.allocate l n)).disk ∙ fresh l n (λ q. omega (arith, (a q).pool, stays q)) there

pub FreshPool-AfterAlloc :
    (fw : Firmware) (p : Ptr) (s : State) → FreshPool fw s → FreshPool fw (AfterAlloc p s)
FreshPool-AfterAlloc fw p s fresh l n stays there = fresh l n (λ q. omega (arith, stays q)) there

module _ (fw : Firmware) (iso_path full : Text) where
  make_device-Neutral :
      (file : Ptr) (size : ℕ) (path : DevicePath) (s : State)
      → FreshPool fw s
      → (make_device fw iso_path full file size path s).0.0 ≢ efi_success
      → Neutral s (make_device fw iso_path full file size path s).1
  unfolding make_device
  make_device-Neutral file size path s fresh failed =
      let (status, t) = mount_loop_factory_get fw full s in
      let a = mount_loop_factory_get-Neutral fw full s in
      elim (Bool-cases (status == efi_success)) [
        | inr absent ↦ rw absent a
        | inl there ↦ rw there (
            let free = FreshPool-Neutral fw s t fresh a t.log loop_disk_size (λ q. omega arith) in
            let b =
              loop_factory_create-Refused fw file (size / block - 1) true t (some path) free
                (rw there at failed) in
            λ q. ground (arith, a q, b.no_leak q, b.files q, b.same_disks q))
      ]

  -- The tail of a failed creation.
  create_device-Closed :
      (file : Ptr) (size : ℕ) (path : DevicePath) (sniffed : Bool × Bool) (s : State)
      → FreshPool fw s
      → let r = create_device fw iso_path full file size path sniffed (AfterAlloc path.address s) in
        r.0.0 ≢ efi_success → Closed file s r.1
  unfolding create_device
  create_device-Closed file size path (iso9660, udf) s fresh failed =
      let ((status, handle), t) =
        make_device fw iso_path full file size path (AfterAlloc path.address s) in
      let ne : status ≢ efi_success = ground arith in
      let a =
        make_device-Neutral file size path (AfterAlloc path.address s)
          (FreshPool-AfterAlloc fw path.address s fresh) ne in
      λ q. ground (arith, a q)

  sniff_and_create-Closed :
      (file : Ptr) (size : ℕ) (s : State)
      → FreshPool fw s
      → (sniff_and_create fw iso_path full file size s).0.0 ≢ efi_success
      → Closed file s (sniff_and_create fw iso_path full file size s).1
  unfolding sniff_and_create
  sniff_and_create-Closed file size s fresh failed =
      let (sniffed, t) = loop_sniff fw file s in
      let a = loop_sniff-Neutral fw full file s in
      elim (mount_iso_file_device_path-Resolved fw iso_path t) [
        | inl e ↦ rw (e, ◌>>=◌) (λ q. ground (arith, a q))
        | inr (path, e) ↦
            let fresh' = FreshPool-Neutral fw s t fresh a in
            let b =
              create_device-Closed file size path sniffed t fresh' (rw (e, ◌>>=◌) at failed) in
            rw (e, ◌>>=◌) (λ q. ground (arith, a q, b q))
      ]

  check_size-Closed :
      (file : Ptr) (size : ℕ) (s : State)
      → FreshPool fw s
      → (check_size fw iso_path full file size s).0.0 ≢ efi_success
      → Closed file s (check_size fw iso_path full file size s).1
  unfolding check_size
  check_size-Closed file size s fresh failed q =
      let warned : State = record s { log = Event.printed Message.tail_ignored ∷ s.log } in
      ground (
        arith,
        (λ (n : (sniff_and_create fw iso_path full file size s).0.0 ≢ efi_success).
            sniff_and_create-Closed file size s fresh n q),
        (λ (n : (sniff_and_create fw iso_path full file size warned).0.0 ≢ efi_success).
            sniff_and_create-Closed file size warned fresh n q),
      )

  stat_and_create-Closed :
      (file : Ptr) (s : State)
      → FreshPool fw s
      → (stat_and_create fw iso_path full file s).0.0 ≢ efi_success
      → Closed file s (stat_and_create fw iso_path full file s).1
  unfolding stat_and_create
  stat_and_create-Closed file s fresh failed q =
      let size = (fw.info_of s.log file).0 in
      let info = fw.allocate s.log size in
      let t : State = record s { log = Event.freed info ∷ Event.allocated info ∷ s.log } in
      let file_size = (fw.info_of (Event.allocated info ∷ s.log) file).2 in
      let fresh' = FreshPool-Neutral fw s t fresh (λ p. ground arith) in
      ground (
        arith,
        (λ (n : (check_size fw iso_path full file file_size t).0.0 ≢ efi_success).
            check_size-Closed file file_size t fresh' n q),
      )

  -- When `LoopCreate` returns anything but EFI_SUCCESS, and pool allocation, as long as no memory
  -- of the state is freed, returns NULL or an address that holds no loop disk, every file that it
  -- opened is closed again, all memory that it allocated is freed, and the loop disks are as
  -- before.
  pub loop_create-Neutral :
      (s : State)
      → FreshPool fw s
      → (loop_create fw iso_path full s).0.0 ≢ efi_success
      → Neutral s (loop_create fw iso_path full s).1
  unfolding loop_create
  loop_create-Neutral s fresh failed =
      let (status, file) = fw.open_by_name s.log iso_path in
      let t : State = record s { log = Event.opened iso_path file ∷ s.log } in
      elim (Bool-cases (efi_error status)) [
        | inl bad ↦ rw bad (λ q. ground arith)
        | inr fine ↦
            let a = stat_and_create-Closed file t fresh (rw fine at failed) in
            rw fine (λ q. ground (arith, a q))
      ]
