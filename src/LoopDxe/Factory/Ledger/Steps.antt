-- ===== src/LoopDxe/Factory/Ledger/Steps.antt =====
-- Every step of the resident driver is a move of its ledger.
use mount.Prelude.{
  ℕ, ◌+◌, ◌≡◌, ◌≢◌, ◌≤◌, refl, ◌∙◌, sym, Bool, false, Option, none, some, [], ◌∷◌, arith, ◌==◌,
  if◌then◌else◌, Bool-cases, Option-cases, inl, inr,
}
use mount.Efi.{
  LiveStays, efi_success, Ptr, Handle, DevicePath, LoopDisk, Log, Firmware, State, hit, allocs,
  frees, opens, closes,
}
use mount.LoopDxe.BlockIo.ReadOnly.{serve_all, other_calls, serve_all-Unchanged}
use mount.LoopDxe.Factory.{
  next_seq, loop_disk_size, loop_disk_sig, disk_at, loop_factory_create, loop_factory_destroy,
  loop_dxe_entry,
}
use mount.LoopDxe.Factory.Create.{
  made_disk, Appends, loop_factory_create-Refused, loop_factory_create-Created,
}
use mount.LoopDxe.Factory.Destroy.{loop_factory_destroy-error}
use mount.LoopDxe.Factory.Invariant.{Step}
use mount.LoopDxe.Factory.Ledger.{
  Ledger, find, erase, path_hit, Move, Refines, IsHonest, find-owned, owned-erase, backed-erase,
  find-erase, erase-Apart,
}
use mount.LoopDxe.Factory.Ledger.Simulation.{Handed, nothing, Simulated, Refines-same}

module _ (fw : Firmware) (disk : LoopDisk) where
  pub other_calls-counts :
      (q : Ptr) (l : Log)
      → (allocs q (other_calls fw disk l) ≡ allocs q l)
        × (frees q (other_calls fw disk l) ≡ frees q l)
        × (opens q (other_calls fw disk l) ≡ opens q l)
        × (closes q (other_calls fw disk l) ≡ closes q l)
  unfolding other_calls
  other_calls-counts q [] = (refl, refl, refl, refl)
  other_calls-counts q (e ∷ l) = ground (arith, other_calls-counts q l)

module _ (fw : Firmware) (handle : Handle) (out : Bool) (s : State) where
  abbrev pub at_handle : Ptr
  at_handle = (fw.block_io_of s.log handle).1

  abbrev pub found_disk : LoopDisk
  found_disk = (disk_at fw at_handle s).0

  -- A successful destruction frees the disk that was found, and its path, and gives up its file.
  pub loop_factory_destroy-frees :
      (loop_factory_destroy fw handle out s).0.0 ≡ efi_success
      → let t = (loop_factory_destroy fw handle out s).1 in
        (found_disk.signature ≡ loop_disk_sig)
        × ((q : Ptr) → t.disks q ≡ (if q == at_handle then none else s.disks q))
        × ((q : Ptr)
            → (allocs q t.log ≡ allocs q s.log)
              × (frees q t.log
                  ≡ hit q at_handle + path_hit q found_disk.device_path + frees q s.log)
              × (opens q t.log ≡ opens q s.log)
              × (closes q t.log ≡ closes q s.log))
  unfolding loop_factory_destroy
  loop_factory_destroy-frees done = (ground arith, λ q. ground arith, λ q. ground arith)

  -- The file that a destruction gives up.
  abbrev pub given_up : Handed
  given_up = record {
    given = λ q. 0;
    returned = λ q.
        if (loop_factory_destroy fw handle out s).0.0 == efi_success
        then hit q found_disk.backing_file
        else 0;
  }

  pub loop_factory_destroy-hands_back :
      (loop_factory_destroy fw handle out s).0.0 ≡ efi_success
      → (loop_factory_destroy fw handle out s).0.1
        ≡ (if out then some found_disk.backing_file else none)
  unfolding loop_factory_destroy
  loop_factory_destroy-hands_back done = ground arith

module _ (fw : Firmware) (file : Ptr) (path : Option DevicePath) (last_block : ℕ) (out : Bool)
    (s : State) where
  -- The file that a creation takes.
  abbrev pub taken : Handed
  taken = record {
    given = λ q.
        if (loop_factory_create fw file path last_block out s).0.0 == efi_success
        then hit q file
        else 0;
    returned = λ q. 0;
  }

module _ (fw : Firmware) where
  -- The files that a step hands over between the driver and its clients.
  abbrev pub handed : {s t : State} → Step fw s t → Handed
  handed (Step.enter s) = nothing
  handed (Step.create s file path last_block out) = taken fw file path last_block out s
  handed (Step.destroy s handle out) = given_up fw handle out s
  handed (Step.requests s p disk rs found) = nothing
  handed (Step.outside s t a) = nothing

module _ (fw : Firmware) (honest : IsHonest fw) (appends : Appends fw) (s : State)
    (sane : (q : Ptr) → frees q s.log ≤ allocs q s.log) where
  -- An address that holds a disk is not free, as long as no memory is freed.
  pub allocate-fresh :
      (t : State) (l : Ledger) (m : Log) (size : ℕ)
      → Refines s t l
      → LiveStays t.log m
      → fw.allocate m size ≢ 0
      → find (fw.allocate m size) l ≡ none
  allocate-fresh t l m size r stays there =
      let p = fw.allocate m size in
      elim (Option-cases (find p l)) [
        | inl e ↦ e
        | inr (disk, e) ↦
            let some_there : find p l ≢ none = λ none_there. absurd (cc) in
            absurd (
              omega (
                arith,
                honest.fresh m size there,
                r.memory p,
                sane p,
                stays p,
                find-owned p l some_there,
              ))
      ]

  pub destroy-Simulated :
      (handle : Handle) (out : Bool) (t : State) (l : Ledger)
      → Refines s t l
      → Simulated (given_up fw handle out t) s t (loop_factory_destroy fw handle out t).1 l
  destroy-Simulated handle out t l r =
      elim (Bool-cases ((loop_factory_destroy fw handle out t).0.0 == efi_success)) [
        | inr failed ↦
            let (_, disks, _, pool, files) =
              loop_factory_destroy-error fw handle out t (ground arith) in
            rw failed (Refines-same s t _ l r (λ q. ground arith) pool files)
        | inl fine ↦
            let p = at_handle fw handle out t in
            let (signed, disks, log) = loop_factory_destroy-frees fw handle out t (ground arith) in
            elim (Option-cases (t.disks p)) [
              | inl e ↦ absurd (honest.unsigned t.log p (rw e at signed))
              | inr (disk, e) ↦
                  let listed : find p l ≡ some disk = sym (r.table p) ∙ e in
                  (
                    erase p l,
                    Move.remove p disk l listed,
                    record {
                      table = λ q. ground (arith, disks q, r.table q, find-erase q p l r.apart);
                      apart = erase-Apart p l r.apart;
                      memory = λ q. omega (
                        arith,
                        r.memory q,
                        owned-erase q p disk l listed,
                        (rw e at (log q)).0,
                        (rw e at (log q)).1,
                      );
                    },
                    λ q.
                        rw (fine, e)
                          (omega (arith, backed-erase q p disk l listed, (log q).2, (log q).3)),
                  )
            ]
      ]

  create-pathless :
      (file : Ptr) (last_block : ℕ) (out : Bool) (t : State)
      → ((loop_factory_create fw file none last_block out t).1 ≡ t)
        × (((loop_factory_create fw file none last_block out t).0.0 == efi_success) ≡ false)
  unfolding loop_factory_create
  create-pathless file last_block out t = (refl, refl)

  create-Simulated :
      (file : Ptr) (path : Option DevicePath) (last_block : ℕ) (out : Bool) (t : State) (l : Ledger)
      → Refines s t l
      → Simulated
          (taken fw file path last_block out t)
          s
          t
          (loop_factory_create fw file path last_block out t).1
          l
  unfolding find
  create-Simulated file none last_block out t l r =
      let (same, refused) = create-pathless file last_block out t in
      rw (same, refused) (l, Move.same l, r, λ q. omega arith)
  create-Simulated file (some path) last_block out t l r =
      let p = fw.allocate t.log loop_disk_size in
      let free : p ≢ 0 → find p l ≡ none =
        allocate-fresh t l t.log loop_disk_size r (λ q. omega arith) in
      let result = loop_factory_create fw file (some path) last_block out t in
      elim (Bool-cases (result.0.0 == efi_success)) [
        | inr failed ↦
            let a =
              loop_factory_create-Refused fw file last_block out t (some path)
                (λ there. r.table p ∙ free there) (ground arith) in
            rw failed (Refines-same s t result.1 l r a.same_disks a.no_leak a.files)
        | inl fine ↦
            let a =
              loop_factory_create-Created fw appends file last_block out t path (ground arith) in
            let disk = made_disk file last_block (next_seq t.loop_seq) a.disk_path a.handle in
            (
              (p, disk) ∷ l,
              Move.add p disk l (free a.there),
              record {
                table = λ q. ground (arith, r.table q, a.other_disks q, a.disk);
                apart = (free a.there, r.apart);
                memory = λ q. omega (arith, r.memory q, a.kept q);
              },
              λ q. rw (fine, a.installed) (omega arith),
            )
      ]

  pub Step-Simulated :
      {t u : State} (l : Ledger) (step : Step fw t u)
      → Refines s t l
      → Simulated (handed fw step) s t u l
  unfolding loop_dxe_entry
  Step-Simulated l (Step.enter t) r =
      Refines-same s t _ l r (λ q. refl) (λ q. omega arith) (λ q. omega arith)
  Step-Simulated l (Step.create t file path last_block out) r =
      create-Simulated file path last_block out t l r
  Step-Simulated l (Step.destroy t handle out) r = destroy-Simulated handle out t l r
  Step-Simulated l (Step.outside t u a) r =
      Refines-same s t u l r (λ q. (a q).disk) (λ q. (a q).pool) (λ q. (a q).files)
  Step-Simulated l (Step.requests t p disk rs found) r =
      let (log, _, disks) = serve_all-Unchanged fw disk rs t in
      let counts = other_calls-counts fw disk in
      let u = serve_all fw disk rs t in
      Refines-same s t u l r (λ q. ground arith)
        (λ q. ground (arith, counts q t.log, counts q u.log))
        (λ q. ground (arith, counts q t.log, counts q u.log))
