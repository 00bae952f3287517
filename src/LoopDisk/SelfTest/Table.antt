-- ===== src/LoopDisk/SelfTest/Table.antt =====
-- The self test of loop devices changes the table of loop disks in its round trip only.
use mount.Prelude.{
  ◌*◌, ◌≡◌, refl, ◌⊎◌, inl, inr, not, ◌∷◌, arith, ◌==◌, ◌||◌, Bool-cases, Text, fun_ext,
}
use mount.Efi.{efi_error, Ptr, Event, Firmware, State}
use mount.LoopDisk.Sniff.{block}
use mount.LoopDisk.Create.Parts.{AfterAlloc}
use mount.LoopDisk.Create.Ownership.{FreshPool, FreshPool-Neutral, FreshPool-AfterAlloc}
use mount.LoopDisk.SelfTest.{selftest_path, pattern, round_trip, test_file, loop_disk_self_test}
use mount.LoopDisk.SelfTest.Mounts.{buffers, loop_disk_self_test-cases}

-- In a test that went from s to v, the table is as before, or as a round trip leaves it that began
-- with the table of s.
abbrev pub TestedTable : Firmware → Text → (s v : State) → Type 0
TestedTable fw full s v =
    (v.disks ≡ s.disks)
    ⊎ ((b : Ptr) × (u : State) × FreshPool fw u
        × (u.disks ≡ s.disks)
        × (v.disks ≡ (round_trip fw full b u).1.disks))

module _ (fw : Firmware) (full : Text) where
  test_file-table :
      (a b : Ptr) (s : State)
      → FreshPool fw s
      → TestedTable fw full s (test_file fw full a b (buffers a b s)).1
  unfolding test_file
  test_file-table a b s fresh =
      let start = buffers a b s in
      let (made, file) = fw.create_by_name start.log selftest_path in
      let t : State = record start { log = Event.opened selftest_path file ∷ start.log } in
      let (written, size) = fw.write_of t.log file pattern in
      let u : State = record t { log = Event.closed file ∷ Event.written file pattern ∷ t.log } in
      let fresh' =
        FreshPool-Neutral fw start u
          (FreshPool-AfterAlloc fw b (AfterAlloc a s) (FreshPool-AfterAlloc fw a s fresh))
          (λ r. ground arith) in
      elim (Bool-cases (efi_error made)) [
        | inl bad ↦ rw bad (inl refl)
        | inr fine ↦ elim (Bool-cases (efi_error written || not (size == 16 * block))) [
          | inl short ↦ rw (fine, short) (inl refl)
          | inr whole ↦ rw (fine, whole) (inr (b, u, fresh', refl, refl))
        ]
      ]

  pub loop_disk_self_test-table :
      (s : State) → FreshPool fw s → TestedTable fw full s (loop_disk_self_test fw full s).1
  loop_disk_self_test-table s fresh = elim (loop_disk_self_test-cases fw full s) [
    | inl a ↦ inl (fun_ext (λ q. (a q).disk))
    | inr same ↦ rw same (test_file-table _ _ s fresh)
  ]
