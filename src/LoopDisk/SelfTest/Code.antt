-- ===== src/LoopDisk/SelfTest/Code.antt =====
-- The status of the self test of loop devices, and its temporary file.
use mount.Prelude.{
  ◌*◌, ◌≡◌, refl, ◌⊎◌, inl, inr, true, false, not, ◌||◌, ◌∷◌, arith, ◌==◌, Bool-cases, Text,
}
use mount.Efi.{efi_success, efi_error, Ptr, Event, Log, Firmware, State, allocate}
use mount.LoopDisk.Sniff.{block}
use mount.LoopDisk.SelfTest.{selftest_path, pattern, test_file, loop_disk_self_test}

-- The last calls of a run delete the file and free both buffers.
abbrev pub CleansUp : (pattern_at read_back : Ptr) → Log → Type 0
CleansUp a b l =
    (rest : Log) × ((l ≡ Event.freed b ∷ Event.freed a ∷ Event.deleted selftest_path ∷ rest)
      ⊎ (l ≡ Event.deleted selftest_path ∷ Event.freed b ∷ Event.freed a ∷ rest))

module _ (fw : Firmware) (full : Text) where
  test_file-status :
      (a b : Ptr) (s : State)
      → ((test_file fw full a b s).0 ≡ efi_success) ⊎ (efi_error (test_file fw full a b s).0 ≡ true)
  unfolding test_file
  test_file-status a b s = ground arith

  -- `LoopDiskSelfTest` returns EFI_SUCCESS or a status with the error bit, never one of the exit
  -- codes without it.
  pub loop_disk_self_test-status :
      (s : State)
      → ((loop_disk_self_test fw full s).0 ≡ efi_success)
        ⊎ (efi_error (loop_disk_self_test fw full s).0 ≡ true)
  unfolding loop_disk_self_test
  loop_disk_self_test-status s =
      let (a, t) = allocate fw (16 * block) s in
      let (b, u) = allocate fw block t in ground (arith, test_file-status a b u)

  -- Once the temporary file has been created, every run ends with its deletion and the release of
  -- both buffers, whatever the loop device did.
  pub test_file-CleansUp :
      (a b : Ptr) (s : State)
      → efi_error (fw.create_by_name s.log selftest_path).0 ≡ false
      → CleansUp a b (test_file fw full a b s).1.log
  unfolding test_file
  test_file-CleansUp a b s made =
      let (status, file) = fw.create_by_name s.log selftest_path in
      let t : State = record s { log = Event.opened selftest_path file ∷ s.log } in
      let (write_status, size) = fw.write_of t.log file pattern in
      elim (Bool-cases (efi_error write_status || not (size == 16 * block))) [
        | inl short ↦ rw (made, short) (_, inr refl)
        | inr whole ↦ rw (made, whole) (_, inl refl)
      ]
