-- ===== src/LoopDxe/Factory/Ledger/Unordered.antt =====
-- The mounted disks without the order in which they were mounted.
use mathlib.Core.Quot
use mathlib.Core.Quot.{Quot}
use native.Mathlib.Nat.{ℕ_set}
use mount.Prelude.{ℕ, ◌≤◌, ◌≡◌, sym, ap, ◌∙◌, some, [], ◌∷◌, arith}
use mount.Efi.{Ptr, LoopDisk, State}
use mount.LoopDxe.Factory.Ledger.{
  Ledger, Apart, Refines, find, erase, owned, backed, find-empty, owned-erase, backed-erase,
  find-erase, erase-Apart,
}

abbrev pub SameDisks : (l m : Ledger) → Type 0
SameDisks l m = (q : Ptr) → find q l ≡ find q m

-- Two ledgers with the same disks, each without a disk at p.
SameDisks-erase :
    (p : Ptr) (disk : LoopDisk) (l m : Ledger)
    → Apart ((p, disk) ∷ l)
    → Apart m
    → SameDisks ((p, disk) ∷ l) m
    → SameDisks l (erase p m)
unfolding find
SameDisks-erase p disk l m (alone, a) b same q = ground (arith, same q, find-erase q p m b)

SameDisks-head :
    (p : Ptr) (disk : LoopDisk) (l m : Ledger) → SameDisks ((p, disk) ∷ l) m → find p m ≡ some disk
unfolding find
SameDisks-head p disk l m same = ground (arith, same p)

-- What the disks own does not depend on the order of the ledger.
owned-SameDisks :
    (q : Ptr) (l m : Ledger) → Apart l → Apart m → SameDisks l m → owned q l ≡ owned q m
unfolding find
owned-SameDisks q [] m a b same = rw (find-empty m (λ p. sym (same p))) (omega arith)
owned-SameDisks q ((p, disk) ∷ l) m a b same =
    let rest =
      owned-SameDisks q l (erase p m) a.1 (erase-Apart p m b)
        (SameDisks-erase p disk l m a b same) in
    omega (arith, rest, owned-erase q p disk m (SameDisks-head p disk l m same))

backed-SameDisks :
    (q : Ptr) (l m : Ledger) → Apart l → Apart m → SameDisks l m → backed q l ≡ backed q m
unfolding find
backed-SameDisks q [] m a b same = rw (find-empty m (λ p. sym (same p))) (omega arith)
backed-SameDisks q ((p, disk) ∷ l) m a b same =
    let rest =
      backed-SameDisks q l (erase p m) a.1 (erase-Apart p m b)
        (SameDisks-erase p disk l m a b same) in
    omega (arith, rest, backed-erase q p disk m (SameDisks-head p disk l m same))

-- A ledger that has all the disks of another one has all their files.
pub backed-le :
    (q : Ptr) (l m : Ledger)
    → Apart l
    → Apart m
    → ((p : Ptr) (disk : LoopDisk) → find p l ≡ some disk → find p m ≡ some disk)
    → backed q l ≤ backed q m
unfolding find
backed-le q [] m a b has = omega arith
backed-le q ((p, disk) ∷ l) m (alone, a) b has =
    let there : find p m ≡ some disk = has p disk (ground arith) in
    let rest =
      backed-le q l (erase p m) a (erase-Apart p m b)
        (λ p' d e. ground (arith, has p' d, find-erase p' p m b)) in
    omega (arith, rest, backed-erase q p disk m there)

-- A ledger whose disks are at different addresses, and the same up to order.
abbrev pub ApartLedger : Type 0
ApartLedger = (l : Ledger) × Apart l

abbrev pub Mounts : Type 0
Mounts = Quot (λ (a b : ApartLedger). SameDisks a.0 b.0)

owned_by : Ptr → Mounts → ℕ
owned_by q = Quot.lift ℕ_set (λ a. owned q a.0) (λ a b same. owned-SameDisks q a.0 b.0 a.1 b.1 same)

backed_by : Ptr → Mounts → ℕ
backed_by q =
    Quot.lift ℕ_set (λ a. backed q a.0) (λ a b same. backed-SameDisks q a.0 b.0 a.1 b.1 same)

-- The mounted disks of a state that a ledger refines.
abbrev view : {s t : State} {l : Ledger} → Refines s t l → Mounts
view {l = l} r = Quot.mk (l, r.apart)

-- They are determined by the driver's table.
view_unique :
    {s t s' t' : State} {l m : Ledger} (r : Refines s t l) (r' : Refines s' t' m)
    → ((q : Ptr) → t.disks q ≡ t'.disks q)
    → view r ≡ view r'
view_unique r r' same = Quot.sound (λ q. sym (r.table q) ∙ same q ∙ r'.table q)

module _ {s t s' t' : State} {l m : Ledger} (r : Refines s t l) (r' : Refines s' t' m)
    (same : (q : Ptr) → t.disks q ≡ t'.disks q) (q : Ptr) where
  pub owned_unique : owned q l ≡ owned q m
  unfolding owned_by
  owned_unique = ap (owned_by q) (view_unique r r' same)

  pub backed_unique : backed q l ≡ backed q m
  unfolding backed_by
  backed_unique = ap (backed_by q) (view_unique r r' same)
