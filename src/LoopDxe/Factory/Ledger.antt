-- ===== src/LoopDxe/Factory/Ledger.antt =====
-- What the loop factory promises to its clients: a ledger of the loop disks that are mounted, each
-- at an address of its own, which own all memory that the driver holds.
pub mod Simulation
pub mod Steps
pub mod Keeps
pub mod Open
pub mod Unordered
use mount.Prelude.{
  ℕ, ◌+◌, ◌≡◌, ◌≢◌, ◌≤◌, refl, Option, none, some, List, [], ◌∷◌, arith, ◌==◌, if◌then◌else◌,
}
use mount.Efi.{Ptr, DevicePath, LoopDisk, Log, Firmware, State, hit, hit_self, allocs, frees}
use mount.LoopDxe.Factory.{loop_disk_sig}

-- The mounted disks by address, the newest one first.
abbrev pub Ledger : Type 0
Ledger = List (Ptr × LoopDisk)

unfoldable pub find : Ptr → Ledger → Option LoopDisk
find q [] = none
find q ((p, disk) ∷ l) = let rest = find q l in if q == p then some disk else rest

unfoldable pub erase : Ptr → Ledger → Ledger
erase q [] = []
erase q ((p, disk) ∷ l) = let rest = erase q l in if q == p then l else (p, disk) ∷ rest

-- How much memory at an address a disk at p owns: itself and its device path.
abbrev pub path_hit : Ptr → Option DevicePath → ℕ
path_hit q none = 0
path_hit q (some path) = hit q path.address

abbrev pub owned : Ptr → Ledger → ℕ
owned q [] = 0
owned q ((p, disk) ∷ l) = hit q p + path_hit q disk.device_path + owned q l

-- How many disks stand on a file.
abbrev pub backed : Ptr → Ledger → ℕ
backed q [] = 0
backed q ((p, disk) ∷ l) = hit q disk.backing_file + backed q l

-- No two disks share an address.
abbrev pub Apart : Ledger → Type 0
Apart [] = Unit
Apart ((p, disk) ∷ l) = (find p l ≡ none) × Apart l

-- One move of the ledger.
pub data Move : Ledger → Ledger → Type 0 where
  same : (l : Ledger) → Move l l
  add : (p : Ptr) (disk : LoopDisk) (l : Ledger) → find p l ≡ none → Move l ((p, disk) ∷ l)
  remove : (p : Ptr) (disk : LoopDisk) (l : Ledger) → find p l ≡ some disk → Move l (erase p l)

pub data Moves (l : Ledger) : Ledger → Type 0 where
  here : Moves l l
  after : {m n : Ledger} → Moves l m → Move m n → Moves l n

-- The driver's table is the ledger, and from the state s on, the memory allocated and not freed
-- again is what the disks of the ledger own.
pub record Refines (s t : State) (l : Ledger) : Type 0 where
  pub table : (q : Ptr) → t.disks q ≡ find q l
  pub apart : Apart l
  pub memory :
      (q : Ptr) → allocs q t.log + frees q s.log ≡ frees q t.log + allocs q s.log + owned q l

-- Pool allocation returns NULL or an address that is free, and no memory but a loop disk carries
-- the signature of one.
pub record IsHonest (fw : Firmware) : Type 0 where
  pub fresh :
      (l : Log) (size : ℕ)
      → fw.allocate l size ≢ 0
      → allocs (fw.allocate l size) l ≡ frees (fw.allocate l size) l
  pub unsigned : (l : Log) (p : Ptr) → (fw.memory_as_disk l p).signature ≢ loop_disk_sig

find-owned : (q : Ptr) (l : Ledger) → find q l ≢ none → 1 ≤ owned q l
unfolding find
find-owned q [] there = absurd (there refl)
find-owned q ((p, disk) ∷ l) there = ground (arith, hit_self q, find-owned q l)

-- A ledger without a disk is empty.
pub find-empty : (l : Ledger) → ((q : Ptr) → find q l ≡ none) → l ≡ []
unfolding find
find-empty [] free = refl
find-empty ((p, disk) ∷ l) free = absurd (ground (arith, free p))

pub owned-erase :
    (q p : Ptr) (disk : LoopDisk) (l : Ledger)
    → find p l ≡ some disk
    → owned q l ≡ hit q p + path_hit q disk.device_path + owned q (erase p l)
unfolding find erase
owned-erase q p disk [] e = absurd (cc)
owned-erase q p disk ((r, other) ∷ l) e = ground (arith, owned-erase q p disk l)

pub backed-erase :
    (q p : Ptr) (disk : LoopDisk) (l : Ledger)
    → find p l ≡ some disk
    → backed q l ≡ hit q disk.backing_file + backed q (erase p l)
unfolding find erase
backed-erase q p disk [] e = absurd (cc)
backed-erase q p disk ((r, other) ∷ l) e = ground (arith, backed-erase q p disk l)

pub find-erase :
    (q p : Ptr) (l : Ledger) → Apart l → find q (erase p l) ≡ (if q == p then none else find q l)
unfolding find erase
find-erase q p [] a = ground arith
find-erase q p ((r, disk) ∷ l) (alone, a) = ground (arith, find-erase q p l a)

pub erase-Apart : (p : Ptr) (l : Ledger) → Apart l → Apart (erase p l)
unfolding find erase
erase-Apart p [] a = tt
erase-Apart p ((r, disk) ∷ l) (alone, a) = ground (arith, find-erase r p l a, erase-Apart p l a)
