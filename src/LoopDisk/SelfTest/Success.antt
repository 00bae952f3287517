-- ===== src/LoopDisk/SelfTest/Success.antt =====
-- On a machine where nothing fails, the self test of loop devices passes.
use mount.Prelude.{
  ℕ, ◌-◌, ◌*◌, ◌/◌, ◌≤◌, ◌≡◌, refl, ap, ◌∙◌, ◌≢◌, true, false, some, List, ◌∷◌, arith, ◌==◌,
  ==_refl, length, take, drop, Text, text_eq_refl,
}
use mount.Efi.{
  efi_success, Ptr, Handle, Byte, DevicePath, Event, Log, Firmware, LoopDisk, State, stored,
  installed_at, Works, KeepsFile,
}
use mount.LoopDxe.BlockIo.{complete_token, loop_read_blocks, loop_read_blocks_ex, loop_write_blocks}
use mount.LoopDxe.BlockIo.Content.{loop_read_blocks-content}
use mount.LoopDxe.Factory.{loop_media_id, loop_factory_destroy}
use mount.LoopDxe.Factory.Create.{made_disk}
use mount.LoopDisk.Sniff.{block}
use mount.LoopDisk.Create.{loop_create}
use mount.LoopDisk.Create.Success.{mount_loop_factory_get-found, loop_create-Succeeds}
use mount.LoopDisk.SelfTest.{
  selftest_path, mark_0, mark_1, pattern, reads, reads_ex, exercise, check_loop, destroy_loop,
  round_trip, test_file, loop_disk_self_test,
}
use mount.LoopDisk.SelfTest.Blocks.{length-pattern, block_0, block_1}

module _ (fw : Firmware) (made file : Ptr) (keeps : KeepsFile fw selftest_path made file) where
  -- A step between calls that change no disk, no handle and no contents.
  abbrev pub Calm : State → State → Type 0
  Calm s t =
      (t.disks ≡ s.disks)
      × (stored made t.log ≡ stored made s.log)
      × ((h : Handle) → installed_at h t.log ≡ installed_at h s.log)

  -- The loop disk over the test file.
  abbrev pub test_disk : (seq : ℕ) → DevicePath → Handle → LoopDisk
  test_disk seq path handle = made_disk file (length pattern / 2048 - 1) seq path handle

  module _ (seq : ℕ) (path : DevicePath) (handle : Handle) (read_back : Ptr)
      (there : read_back ≢ 0) where
    abbrev disk : LoopDisk
    disk = test_disk seq path handle

    loop_read_blocks-Calm :
        (lba : ℕ) (s : State)
        → Calm s (loop_read_blocks fw disk loop_media_id lba block read_back s).1
    unfolding loop_read_blocks
    loop_read_blocks-Calm lba s = (ground arith, ground arith, λ h. ground arith)

    read_block :
        (lba : ℕ) (mark : List Byte) (s : State)
        → lba ≤ 1
        → take block (drop (lba * 2048) pattern) ≡ mark
        → stored made s.log ≡ some pattern
        → (loop_read_blocks fw disk loop_media_id lba block read_back s).0 ≡ (efi_success, mark)
    read_block lba mark s low slice content =
        loop_read_blocks-content fw disk pattern
          (record {
            fits = omega (arith, length-pattern);
            nonempty = omega (arith, length-pattern);
            blocks = refl;
          })
          loop_media_id lba block read_back s
          (record {
            same_media = refl;
            has_buffer = there;
            whole = refl;
            first = omega (arith, length-pattern);
            last = omega (arith, length-pattern);
          })
          (keeps.reads_back s.log pattern content)
        ∙ ap (λ bytes. (efi_success, bytes)) slice

    reads-true :
        (lba : ℕ) (mark : List Byte) (s : State)
        → lba ≤ 1
        → take block (drop (lba * 2048) pattern) ≡ mark
        → stored made s.log ≡ some pattern
        → let r = reads fw disk lba read_back mark s in (r.0 ≡ true) × Calm s r.1
    unfolding reads
    reads-true lba mark s low slice content = (
      rw (read_block lba mark s low slice content, text_eq_refl mark) refl,
      loop_read_blocks-Calm lba s,
    )

    reads_ex-true :
        (lba : ℕ) (mark : List Byte) (s : State)
        → lba ≤ 1
        → take block (drop (lba * 2048) pattern) ≡ mark
        → stored made s.log ≡ some pattern
        → let r = reads_ex fw disk loop_media_id lba read_back mark s in (r.0 ≡ true) × Calm s r.1
    unfolding reads_ex loop_read_blocks_ex complete_token
    reads_ex-true lba mark s low slice content =
        let calm = loop_read_blocks-Calm lba s in
        rw (read_block lba mark s low slice content, text_eq_refl mark) (refl, calm)

    -- The three reads succeed, and the write is refused.
    exercise-true :
        (s : State)
        → stored made s.log ≡ some pattern
        → let r = exercise fw disk disk read_back s in (r.0 ≡ true) × Calm s r.1
    unfolding exercise loop_write_blocks
    exercise-true s content =
        let t = (reads fw disk 0 read_back mark_0 s).1 in
        let u = (reads fw disk 1 read_back mark_1 t).1 in
        let (a, calm_a) = reads-true 0 mark_0 s (omega arith) block_0 content in
        let content_t : stored made t.log ≡ some pattern = calm_a.1 ∙ content in
        let (b, calm_b) = reads-true 1 mark_1 t (omega arith) block_1 content_t in
        let content_u : stored made u.log ≡ some pattern = calm_b.1 ∙ content_t in
        let (c, calm_c) = reads_ex-true 1 mark_1 u (omega arith) block_1 content_u in
        (
          rw (a, b, c) refl,
          (
            calm_c.0 ∙ calm_b.0 ∙ calm_a.0,
            calm_c.1 ∙ calm_b.1 ∙ calm_a.1,
            λ h. calm_c.2 h ∙ calm_b.2 h ∙ calm_a.2 h,
          ),
        )

    pub check_loop-true :
        Works fw
        → (p : Ptr) (s : State) → stored made s.log ≡ some pattern
        → installed_at handle s.log ≡ some p
        → s.disks p ≡ some disk
        → let r = check_loop fw handle read_back s in (r.0 ≡ true) × Calm s r.1
    unfolding check_loop
    check_loop-true works p s content installed there_is =
        let (found, found2) = works.finds s.log handle p installed in
        rw (found, found2, there_is) (exercise-true s content)

  module _ (works : Works fw) (full : Text) where
    pub loop_factory_destroy-true :
        (seq : ℕ) (path : DevicePath) (handle : Handle) (p : Ptr) (s : State)
        → installed_at handle s.log ≡ some p
        → s.disks p ≡ some (test_disk seq path handle)
        → (loop_factory_destroy fw handle true s).0 ≡ (efi_success, some file)
    unfolding loop_factory_destroy
    loop_factory_destroy-true seq path handle p s installed there_is =
        let (found, _) = works.finds s.log handle p installed in
        rw (found, there_is, works.uninstalls s.log handle p) refl

    pub destroy_loop-true :
        (seq : ℕ) (path : DevicePath) (handle : Handle) (p : Ptr) (s : State)
        → installed_at handle s.log ≡ some p
        → s.disks p ≡ some (test_disk seq path handle)
        → (destroy_loop fw full handle true s).0 ≡ true
    unfolding destroy_loop
    destroy_loop-true seq path handle p s installed there_is =
        rw
          (
            mount_loop_factory_get-found fw works full s,
            loop_factory_destroy-true seq path handle p s installed there_is,
          )
          refl

    pub round_trip-true :
        (read_back : Ptr) (s : State)
        → read_back ≢ 0
        → stored made s.log ≡ some pattern
        → (round_trip fw full read_back s).0 ≡ true
    unfolding round_trip
    round_trip-true read_back s there content =
        let measured : (l : Log)
            → stored made l ≡ stored made s.log
            → ((fw.info_of l file).1 ≡ 0) × ((fw.info_of l file).2 ≡ length pattern) =
          λ l same. keeps.measures l pattern (same ∙ content) in
        let (done, a) =
          loop_create-Succeeds fw works selftest_path full made file keeps.there (length pattern) s
            (keeps.opens_again s.log pattern content) measured (omega (arith, length-pattern)) in
        let ((status, loop), t) = loop_create fw selftest_path full s in
        let p = a.over.address in
        let disk : t.disks p ≡ some (test_disk a.seq a.over.path loop.handle) =
          (a.added p).stored refl ∙ ap some a.made in
        let (ok, calm) =
          check_loop-true a.seq a.over.path loop.handle read_back there works p t
            (a.content ∙ content) a.installed disk in
        let u = (check_loop fw loop.handle read_back t).1 in
        let last =
          destroy_loop-true a.seq a.over.path loop.handle p u (calm.2 loop.handle ∙ a.installed)
            (ap (λ disks. disks p) calm.0 ∙ disk) in
        let live : (loop.handle == 0) ≡ false = ground (arith, a.live) in
        rw (done, ok, live, last) refl

    test_file-efi_success :
        (a b : Ptr) (s : State) → b ≢ 0 → (test_file fw full a b s).0 ≡ efi_success
    unfolding test_file
    test_file-efi_success a b s there =
        let t : State = record s { log = Event.opened selftest_path made ∷ s.log } in
        let u : State = record t { log = Event.closed made ∷ Event.written made pattern ∷ t.log } in
        let ok = round_trip-true b u there (rw (==_refl made) refl) in
        rw (keeps.creates s.log, keeps.writes t.log pattern, length-pattern, ok) refl

-- If no service fails that the creation and destruction of a loop disk call, and the file system
-- keeps what is written to the temporary file until it is deleted, so that the file can then be
-- opened by its name, measured and read, then `LoopDiskSelfTest` returns EFI_SUCCESS: the device
-- is made, its blocks 0 and 1 read back as they were written through both protocols, the write to
-- it is refused, and it is destroyed.
pub loop_disk_self_test-efi_success :
    (fw : Firmware) (works : Works fw) (made file : Ptr)
    → KeepsFile fw selftest_path made file
    → (full : Text) (s : State) → (loop_disk_self_test fw full s).0 ≡ efi_success
unfolding loop_disk_self_test
loop_disk_self_test-efi_success fw works made file keeps full s =
    let a = fw.allocate s.log (16 * block) in
    let t : State = record s { log = Event.allocated a ∷ s.log } in
    let b = fw.allocate t.log block in
    let u : State = record s { log = Event.allocated b ∷ Event.allocated a ∷ s.log } in
    let room_a = works.allocates s.log (16 * block) in
    let room_b = works.allocates t.log block in
    ground (arith, room_a, room_b, test_file-efi_success fw made file keeps works full a b u room_b)
