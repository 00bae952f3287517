-- ===== src/LoopDisk/Create/Entry.antt =====
-- The loop disk that `LoopCreate` makes is a new entry of the ledger.
use mount.Prelude.{
  ℕ, ◌+◌, ◌≤◌, ◌≡◌, ◌≢◌, sym, ◌∙◌, none, some, ◌∷◌, arith, inl, inr, ◌==◌, Bool-cases, Text,
}
use mount.Efi.{efi_success, Ptr, Firmware, State, hit, allocs, frees, opens, closes}
use mount.LoopDxe.Factory.Create.{Appends}
use mount.LoopDxe.Factory.Ledger.{Ledger, find, Move, Moves, Refines, IsHonest}
use mount.LoopDxe.Factory.Ledger.Simulation.{Follows, Follows-Neutral}
use mount.LoopDxe.Factory.Ledger.Steps.{allocate-fresh}
use mount.LoopDisk.Create.{loop_create}
use mount.LoopDisk.Create.Disk.{DiskOver, loop_create-HasDisk}
use mount.LoopDisk.Create.Ownership.{FreshPool, loop_create-Neutral}

-- At one address: the loop disk d has been added over the file. The disk and its device path are
-- all the memory that is kept, the file is the only one left open, and the other loop disks are as
-- before. What was live in s was live when the disk was allocated.
pub record EntryAt {fw : Firmware} {file : Ptr} {size : ℕ} (d : DiskOver fw file size) (q : Ptr)
    (s t : State) : Type 0 where
  pub kept :
      allocs q t.log + frees q s.log
      ≡ frees q t.log + allocs q s.log + hit q d.address + hit q d.path.address
  pub live : allocs q s.log + frees q d.before ≤ allocs q d.before + frees q s.log
  pub left_open : opens q t.log + closes q s.log ≡ closes q t.log + opens q s.log + hit q file
  pub stored : q ≡ d.address → t.disks q ≡ some d.disk
  pub other : q ≢ d.address → t.disks q ≡ s.disks q

module _ (fw : Firmware) (honest : IsHonest fw) (appends : Appends fw) (s : State)
    (sane : (q : Ptr) → frees q s.log ≤ allocs q s.log) where
  pub Refines-FreshPool : (t : State) (l : Ledger) → Refines s t l → FreshPool fw t
  Refines-FreshPool t l r m size stays there =
      r.table (fw.allocate m size)
      ∙ allocate-fresh fw honest appends s sane t l m size r stays there

  pub Entry-free :
      (file : Ptr) (size : ℕ) (d : DiskOver fw file size) (t u : State) (l : Ledger)
      → Refines s t l
      → ((q : Ptr) → EntryAt d q t u)
      → find d.address l ≡ none
  Entry-free file size d t u l r at = rw (sym d.allocated) at (
      allocate-fresh fw honest appends s sane t l d.before _ r (λ q. (at q).live)
        (rw d.allocated at d.there))

  pub Entry-Follows :
      (file : Ptr) (size : ℕ) (d : DiskOver fw file size) (t u : State) (l : Ledger)
      → Refines s t l
      → ((q : Ptr) → EntryAt d q t u)
      → Follows s t u l
  unfolding find
  Entry-Follows file size d t u l r at =
      let free = Entry-free file size d t u l r at in
      (
        (d.address, d.disk) ∷ l,
        Moves.after Moves.here (Move.add d.address d.disk l free),
        record {
          table = λ q. ground (arith, r.table q, at q);
          apart = (free, r.apart);
          memory = λ q. rw d.named (omega (arith, r.memory q, (at q).kept));
        },
        λ q. rw d.over (omega (arith, (at q).left_open)),
      )

  -- Whatever becomes of `LoopCreate`, its disk, if any, is what it keeps.
  pub loop_create-Follows :
      (iso_path full : Text) (t : State) (l : Ledger)
      → Refines s t l
      → Follows s t (loop_create fw iso_path full t).1 l
  loop_create-Follows iso_path full t l r =
      elim (Bool-cases ((loop_create fw iso_path full t).0.0 == efi_success)) [
        | inl done ↦
            let ((d, added, _), _) =
              loop_create-HasDisk fw appends iso_path full t (ground arith) in
            Entry-Follows _ _ d t _ l r (λ q. ground (arith, added q))
        | inr failed ↦
            let a =
              loop_create-Neutral fw iso_path full t (Refines-FreshPool t l r) (ground arith) in
            Follows-Neutral s t _ l a r
      ]
