-- ===== src/LoopDisk/SelfTest/Mounts.antt =====
-- What the self test does to the loop disks: whatever fails, memory and files are accounted for.
use mount.Prelude.{
  ℕ, ◌*◌, ◌≤◌, ◌≡◌, ◌⊎◌, inl, inr, Bool, true, false, not, ◌||◌, List, ◌∷◌, arith, ◌==◌,
  if◌then◌else◌, Bool-cases, Text,
}
use mount.Efi.{
  efi_success, efi_error, Ptr, Handle, Byte, Event, Firmware, LoopDisk, State, pure, allocs, frees,
  Neutral,
}
use mount.LoopDxe.BlockIo.{complete_token, loop_read_blocks, loop_read_blocks_ex, loop_write_blocks}
use mount.LoopDxe.Factory.{disk_at, loop_factory_destroy}
use mount.LoopDxe.Factory.Create.{Appends}
use mount.LoopDxe.Factory.Ledger.{Ledger, Moves, Refines, IsHonest}
use mount.LoopDxe.Factory.Ledger.Simulation.{
  Follows, Follows-Neutral, Follows-trans, Refines-Neutral,
}
use mount.LoopDxe.Factory.Ledger.Steps.{destroy-Simulated, loop_factory_destroy-hands_back}
use mount.LoopDisk.Factory.{mount_loop_factory_get}
use mount.LoopDisk.Create.{loop_create}
use mount.LoopDisk.Create.Parts.{mount_loop_factory_get-Neutral}
use mount.LoopDisk.Create.Entry.{loop_create-Follows}
use mount.LoopDisk.Sniff.{block}
use mount.LoopDisk.SelfTest.{
  selftest_path, mark_0, mark_1, pattern, reads, reads_ex, exercise, check_loop, destroy_loop,
  round_trip, test_file, loop_disk_self_test,
}

module _ (fw : Firmware) where
  reads-Neutral :
      (disk : LoopDisk) (lba : ℕ) (b : Ptr) (mark : List Byte) (s : State)
      → Neutral s (reads fw disk lba b mark s).1
  unfolding reads loop_read_blocks
  reads-Neutral disk lba b mark s q = ground arith

  reads_ex-Neutral :
      (disk : LoopDisk) (media_id lba : ℕ) (b : Ptr) (mark : List Byte) (s : State)
      → Neutral s (reads_ex fw disk media_id lba b mark s).1
  unfolding reads_ex loop_read_blocks_ex loop_read_blocks complete_token
  reads_ex-Neutral disk media_id lba b mark s q = ground arith

  exercise-Neutral :
      (disk disk2 : LoopDisk) (b : Ptr) (s : State) → Neutral s (exercise fw disk disk2 b s).1
  unfolding exercise loop_write_blocks
  exercise-Neutral disk disk2 b s q =
      let t = (reads fw disk 0 b mark_0 s).1 in
      let u = (reads fw disk 1 b mark_1 t).1 in
      ground (
        arith,
        reads-Neutral disk 0 b mark_0 s q,
        reads-Neutral disk 1 b mark_1 t q,
        reads_ex-Neutral disk2 disk.media.media_id 1 b mark_1 u q,
      )

  pub check_loop-Neutral :
      (handle : Handle) (b : Ptr) (s : State) → Neutral s (check_loop fw handle b s).1
  unfolding check_loop
  check_loop-Neutral handle b s q =
      let disk = (disk_at fw (fw.block_io_of s.log handle).1 s).0 in
      let disk2 = (disk_at fw (fw.block_io2_of s.log handle).1 s).0 in
      ground (arith, exercise-Neutral disk disk2 b s q)

module _ (fw : Firmware) (honest : IsHonest fw) (appends : Appends fw) (s : State)
    (sane : (q : Ptr) → frees q s.log ≤ allocs q s.log) (full : Text) where
  destroy_loop-Follows :
      (handle : Handle) (ok : Bool) (t : State) (l : Ledger)
      → Refines s t l
      → Follows s t (destroy_loop fw full handle ok t).1 l
  unfolding destroy_loop
  destroy_loop-Follows handle ok t l r =
      let (status, u) = mount_loop_factory_get fw full t in
      let a = mount_loop_factory_get-Neutral fw full t in
      let r' = Refines-Neutral s t u l a r in
      elim (Bool-cases (status == efi_success)) [
        | inr absent ↦ rw absent (Follows-Neutral s t u l a r)
        | inl there ↦ rw there (
            let v = (loop_factory_destroy fw handle true u).1 in
            let (m, move, c, files) =
              destroy-Simulated fw honest appends s sane handle true u l r' in
            elim (Bool-cases ((loop_factory_destroy fw handle true u).0.0 == efi_success)) [
              | inl done ↦
                  let back = loop_factory_destroy-hands_back fw handle true u (ground arith) in
                  rw (done, back)
                    (
                      m,
                      Moves.after Moves.here move,
                      record { table = c.table; apart = c.apart; memory = c.memory },
                      λ q. omega (arith, rw done at (files q), (a q).files),
                    )
              | inr failed ↦ rw failed (
                m,
                Moves.after Moves.here move,
                c,
                λ q. omega (arith, rw failed at (files q), (a q).files),
              )
            ])
      ]

  round_trip-Follows :
      (b : Ptr) (t : State) (l : Ledger) → Refines s t l → Follows s t (round_trip fw full b t).1 l
  unfolding round_trip
  round_trip-Follows b t l r =
      let ((status, loop), u) = loop_create fw selftest_path full t in
      let a = loop_create-Follows fw honest appends s sane selftest_path full t l r in
      let ending : (ok : Bool) (v : State) (m : Ledger)
          → Refines s v m
          → Follows s v
              ((if loop.handle == 0 then pure ok else destroy_loop fw full loop.handle ok) v).1 m =
        λ ok v m c. elim (Bool-cases (loop.handle == 0)) [
          | inl null ↦ rw null (m, Moves.here, c, λ q. omega arith)
          | inr live ↦ rw live (destroy_loop-Follows loop.handle ok v m c)
        ] in
      Follows-trans s t u _ l a (λ m c. elim (Bool-cases (status == efi_success)) [
        | inl done ↦ rw done (
            let (ok, v) = check_loop fw loop.handle b u in
            Follows-trans s u v _ m
              (Follows-Neutral s u v m (check_loop-Neutral fw loop.handle b u) c) (ending ok v))
        | inr failed ↦ rw failed (ending false u m c)
      ])

-- The two buffers of the test.
abbrev pub buffers : Ptr → Ptr → State → State
buffers a b s = record s { log = Event.allocated b ∷ Event.allocated a ∷ s.log }

module _ (fw : Firmware) (full : Text) where
  abbrev pub first_buffer : State → Ptr
  first_buffer t = fw.allocate t.log (16 * block)

  abbrev pub second_buffer : State → Ptr
  second_buffer t = fw.allocate (Event.allocated (first_buffer t) ∷ t.log) block

  -- There is no room for the buffers, or the test begins.
  pub loop_disk_self_test-cases :
      (t : State)
      → Neutral t (loop_disk_self_test fw full t).1
        ⊎ (loop_disk_self_test fw full t
            ≡ test_file fw full
                (first_buffer t)
                (second_buffer t)
                (buffers (first_buffer t) (second_buffer t) t))
  unfolding loop_disk_self_test
  loop_disk_self_test-cases t = elim (Bool-cases (first_buffer t == 0)) [
    | inl null ↦ inl (λ q. ground arith)
    | inr live ↦ elim (Bool-cases (second_buffer t == 0)) [
      | inl null ↦ inl (λ q. ground arith)
      | inr both ↦ inr (ground arith)
    ]
  ]

module _ (fw : Firmware) (honest : IsHonest fw) (appends : Appends fw) (s : State)
    (sane : (q : Ptr) → frees q s.log ≤ allocs q s.log) (full : Text) where
  test_file-Follows :
      (a b : Ptr) (t : State) (l : Ledger)
      → Refines s t l
      → Follows s t (test_file fw full a b (buffers a b t)).1 l
  unfolding test_file
  test_file-Follows a b t l r =
      let (made, file) = fw.create_by_name (buffers a b t).log selftest_path in
      let u : State = record t {
        log = Event.opened selftest_path file ∷ Event.allocated b ∷ Event.allocated a ∷ t.log;
      } in
      let v : State = record u { log = Event.closed file ∷ Event.written file pattern ∷ u.log } in
      let (written, size) = fw.write_of u.log file pattern in
      elim (Bool-cases (efi_error made)) [
        | inl bad ↦ rw bad (
          l,
          Moves.here,
          record { table = r.table; apart = r.apart; memory = λ q. omega (arith, r.memory q) },
          λ q. omega arith,
        )
        | inr fine ↦ elim (Bool-cases (efi_error written || not (size == 16 * block))) [
          | inl short ↦
              rw (fine, short)
                (
                  l,
                  Moves.here,
                  record {
                    table = r.table;
                    apart = r.apart;
                    memory = λ q. omega (arith, r.memory q);
                  },
                  λ q. omega arith,
                )
          | inr whole ↦
              rw (fine, whole)
                (let (m, moves, c, files) =
                    round_trip-Follows fw honest appends (buffers a b s)
                      (λ q. omega (arith, sane q)) full b v l
                      (record {
                        table = r.table;
                        apart = r.apart;
                        memory = λ q. omega (arith, r.memory q);
                      }) in
                  (
                    m,
                    moves,
                    record {
                      table = c.table;
                      apart = c.apart;
                      memory = λ q. omega (arith, c.memory q);
                    },
                    λ q. omega (arith, files q),
                  ))
        ]
      ]

  -- Whatever fails in the self test, its loop disk, if it is left over, is all that it keeps.
  pub loop_disk_self_test-Follows :
      (t : State) (l : Ledger) → Refines s t l → Follows s t (loop_disk_self_test fw full t).1 l
  loop_disk_self_test-Follows t l r = elim (loop_disk_self_test-cases fw full t) [
    | inl a ↦ Follows-Neutral s t _ l a r
    | inr e ↦ rw e (test_file-Follows (first_buffer fw full t) (second_buffer fw full t) t l r)
  ]
