-- ===== src/LoopDisk/SelfTest/Clean.antt =====
-- On a machine where nothing fails, the self test of loop devices leaves nothing behind.
use mount.Prelude.{
  ℕ, ◌+◌, ◌*◌, ◌≡◌, refl, sym, ap, ◌∙◌, ◌≢◌, true, false, none, some, ◌∷◌, arith, ◌==◌, ==_refl,
  if◌then◌else◌, length, Text,
}
use mount.Efi.{
  Ptr, Handle, DevicePath, Event, Log, Firmware, State, stored, installed_at, Works, KeepsFile, hit,
  allocs, frees, opens, closes, Neutral,
}
use mount.LoopDxe.Factory.{loop_disk_size}
use mount.LoopDxe.Factory.Ledger.Steps.{loop_factory_destroy-frees}
use mount.LoopDisk.Sniff.{block}
use mount.LoopDisk.Create.{loop_create}
use mount.LoopDisk.Create.Ownership.{FreshPool, FreshPool-Neutral, FreshPool-AfterAlloc}
use mount.LoopDisk.Create.Parts.{AfterAlloc}
use mount.LoopDisk.Create.Success.{mount_loop_factory_get-found, loop_create-Succeeds}
use mount.LoopDisk.SelfTest.{
  selftest_path, pattern, check_loop, destroy_loop, round_trip, test_file, loop_disk_self_test,
}
use mount.LoopDisk.SelfTest.Blocks.{length-pattern}
use mount.LoopDisk.SelfTest.Mounts.{check_loop-Neutral, buffers}
use mount.LoopDisk.SelfTest.Success.{test_disk, check_loop-true, loop_factory_destroy-true}

-- At one address: the loop disk at p is gone, with the device path and the file.
record TakenAt (p file : Ptr) (path : DevicePath) (q : Ptr) (s t : State) : Type 0 where
  allocated : allocs q t.log ≡ allocs q s.log
  freed : frees q t.log ≡ hit q p + hit q path.address + frees q s.log
  opened : opens q t.log ≡ opens q s.log
  closed : closes q t.log ≡ hit q file + closes q s.log
  disk : t.disks q ≡ (if q == p then none else s.disks q)

module _ (fw : Firmware) (made file : Ptr) (keeps : KeepsFile fw selftest_path made file)
    (works : Works fw) (full : Text) where
  destroy_loop-Taken :
      (seq : ℕ) (path : DevicePath) (handle : Handle) (p : Ptr) (s : State)
      → installed_at handle s.log ≡ some p
      → s.disks p ≡ some (test_disk fw made file keeps seq path handle)
      → (q : Ptr) → TakenAt p file path q s (destroy_loop fw full handle true s).1
  unfolding destroy_loop
  destroy_loop-Taken seq path handle p s installed there_is q =
      let done =
        loop_factory_destroy-true fw made file keeps works full seq path handle p s installed
          there_is in
      let (found, _) = works.finds s.log handle p installed in
      let at_p : (fw.block_io_of s.log handle).1 ≡ p = ap (λ r. r.1) found in
      let (_, disks, counts) = loop_factory_destroy-frees fw handle true s (ap (λ r. r.0) done) in
      rw (mount_loop_factory_get-found fw works full s, done)
        (record {
          allocated = (counts q).0;
          freed = rw (at_p, there_is) at ((counts q).1);
          opened = (counts q).2;
          closed = omega (arith, (counts q).3);
          disk = rw at_p at (disks q);
        })

  -- The loop device that is made, used and destroyed is accounted for.
  round_trip-Neutral :
      (read_back : Ptr) (s : State)
      → read_back ≢ 0
      → stored made s.log ≡ some pattern
      → FreshPool fw s
      → Neutral s (round_trip fw full read_back s).1
  unfolding round_trip
  round_trip-Neutral read_back s there content fresh q =
      let measured : (l : Log)
          → stored made l ≡ stored made s.log
          → ((fw.info_of l file).1 ≡ 0) × ((fw.info_of l file).2 ≡ length pattern) =
        λ l same. keeps.measures l pattern (same ∙ content) in
      let (done, a) =
        loop_create-Succeeds fw works selftest_path full made file keeps.there (length pattern) s
          (keeps.opens_again s.log pattern content) measured (omega (arith, length-pattern)) in
      let ((status, loop), t) = loop_create fw selftest_path full s in
      let p = a.over.address in
      let disk : t.disks p ≡ some (test_disk fw made file keeps a.seq a.over.path loop.handle) =
        (a.added p).stored refl ∙ ap some a.made in
      let (ok, calm) =
        check_loop-true fw made file keeps a.seq a.over.path loop.handle read_back there works p t
          (a.content ∙ content) a.installed disk in
      let u = (check_loop fw loop.handle read_back t).1 in
      let used = check_loop-Neutral fw loop.handle read_back t q in
      let taken =
        destroy_loop-Taken a.seq a.over.path loop.handle p u (calm.2 loop.handle ∙ a.installed)
          (ap (λ disks. disks p) calm.0 ∙ disk) q in
      let free : s.disks p ≡ none = rw (sym a.over.allocated) at (
        fresh a.over.before loop_disk_size (λ r. (a.added r).live)
          (rw a.over.allocated at a.over.there)) in
      let live : (loop.handle == 0) ≡ false = ground (arith, a.live) in
      rw (done, ok, live) (ground (arith, a.added q, used, taken, free))

  test_file-Neutral :
      (a b : Ptr) (s : State)
      → b ≢ 0
      → FreshPool fw s
      → Neutral s (test_file fw full a b (buffers a b s)).1
  unfolding test_file
  test_file-Neutral a b s there fresh q =
      let start = buffers a b s in
      let t : State = record start { log = Event.opened selftest_path made ∷ start.log } in
      let u : State = record t { log = Event.closed made ∷ Event.written made pattern ∷ t.log } in
      let fresh' =
        FreshPool-Neutral fw start u
          (FreshPool-AfterAlloc fw b (AfterAlloc a s) (FreshPool-AfterAlloc fw a s fresh))
          (λ r. ground arith) in
      let trip = round_trip-Neutral b u there (rw (==_refl made) refl) fresh' q in
      rw (keeps.creates start.log, keeps.writes t.log pattern, length-pattern)
        (ground (arith, trip))

  -- If nothing fails and pool allocation, as long as no memory of the state is freed, returns NULL
  -- or an address that holds no loop disk.
  pub loop_disk_self_test-Neutral :
      (s : State) → FreshPool fw s → Neutral s (loop_disk_self_test fw full s).1
  unfolding loop_disk_self_test
  loop_disk_self_test-Neutral s fresh q =
      let a = fw.allocate s.log (16 * block) in
      let b = fw.allocate (Event.allocated a ∷ s.log) block in
      let room_a = works.allocates s.log (16 * block) in
      let room_b = works.allocates (Event.allocated a ∷ s.log) block in
      ground (arith, room_a, room_b, test_file-Neutral a b s room_b fresh q)
