-- ===== src/LoopDxe/Factory/Ledger/Simulation.antt =====
-- How the driver's states follow the ledger.
use mount.Prelude.{ℕ, ◌+◌, ◌≡◌, ◌∙◌, arith}
use mount.Efi.{Neutral, Ptr, State, PoolBalanced, FilesBalanced, opens, closes}
use mount.LoopDxe.Factory.Ledger.{Ledger, Moves, Move, Refines, backed}

-- The files that clients have handed to the driver, and those that it has given up again, by how
-- often.
pub record Handed : Type 0 where
  pub given : Ptr → ℕ
  pub returned : Ptr → ℕ

abbrev pub nothing : Handed
nothing = record { given = λ q. 0; returned = λ q. 0 }

abbrev pub both : Handed → Handed → Handed
both c d = record {
  given = λ q. c.given q + d.given q;
  returned = λ q. c.returned q + d.returned q;
}

-- From t to u, where the ledger goes from l to m, the files opened or handed in, and neither closed
-- nor given up, are those on which disks were put and not removed.
abbrev pub FilesFollow : Handed → State → State → (l m : Ledger) → Type 0
FilesFollow c t u l m =
    (q : Ptr)
    → opens q u.log + closes q t.log + c.given q + backed q l
      ≡ closes q u.log + opens q t.log + c.returned q + backed q m

-- A state that the ledger l refines moves to one that a next ledger refines.
abbrev pub Simulated : Handed → (s t u : State) → Ledger → Type 0
Simulated c s t u l = (m : Ledger) × Move l m × Refines s u m × FilesFollow c t u l m

-- The same for several moves.
abbrev pub Settles : Handed → (s t u : State) → Ledger → Type 0
Settles c s t u l = (m : Ledger) × Moves l m × Refines s u m × FilesFollow c t u l m

-- No file is handed over.
abbrev pub Follows : (s t u : State) → Ledger → Type 0
Follows = Settles nothing

-- The same without the files.
abbrev pub Reaches : State → State → Ledger → Type 0
Reaches s u l = (m : Ledger) × Moves l m × Refines s u m

pub Refines-same :
    (s t u : State) (l : Ledger)
    → Refines s t l
    → ((q : Ptr) → u.disks q ≡ t.disks q)
    → PoolBalanced t u
    → FilesBalanced t u
    → Simulated nothing s t u l
Refines-same s t u l r disks pool files = (
  l,
  Move.same l,
  record {
    table = λ q. disks q ∙ r.table q;
    apart = r.apart;
    memory = λ q. omega (arith, r.memory q, pool q);
  },
  λ q. omega (arith, files q),
)

-- Balanced calls that leave the disks alone.
pub Refines-Neutral : (s t u : State) (l : Ledger) → Neutral t u → Refines s t l → Refines s u l
Refines-Neutral s t u l a r = record {
  table = λ q. (a q).disk ∙ r.table q;
  apart = r.apart;
  memory = λ q. omega (arith, r.memory q, (a q).pool);
}

pub Follows-Neutral : (s t u : State) (l : Ledger) → Neutral t u → Refines s t l → Follows s t u l
Follows-Neutral s t u l a r =
    (l, Moves.here, Refines-Neutral s t u l a r, λ q. omega (arith, (a q).files))

module _ (c : Handed) (s t u : State) (l : Ledger) where
  pub Simulated-Settles : Simulated c s t u l → Settles c s t u l
  Simulated-Settles (m, move, r, files) = (m, Moves.after Moves.here move, r, files)

  pub Settles-Reaches : Settles c s t u l → Reaches s u l
  Settles-Reaches (m, moves, r, files) = (m, moves, r)

Moves-trans : {l m n : Ledger} → Moves l m → Moves m n → Moves l n
Moves-trans a Moves.here = a
Moves-trans a (Moves.after b move) = Moves.after (Moves-trans a b) move

pub Reaches-trans :
    (s t u : State) (l : Ledger)
    → Reaches s t l
    → ((m : Ledger) → Refines s t m → Reaches s u m)
    → Reaches s u l
Reaches-trans s t u l (m, moves, r) rest =
    let (n, more, end) = rest m r in (n, Moves-trans moves more, end)

pub Settles-trans :
    (c d : Handed) (s t u v : State) (l : Ledger)
    → Settles c s t u l
    → ((m : Ledger) → Refines s u m → Settles d s u v m)
    → Settles (both c d) s t v l
Settles-trans c d s t u v l (m, moves, r, files) rest =
    let (n, more, end, next) = rest m r in
    (n, Moves-trans moves more, end, λ q. omega (arith, files q, next q))

pub Follows-trans :
    (s t u v : State) (l : Ledger)
    → Follows s t u l
    → ((m : Ledger) → Refines s u m → Follows s u v m)
    → Follows s t v l
Follows-trans s t u v l a rest =
    let (n, moves, end, files) = Settles-trans nothing nothing s t u v l a rest in
    (n, moves, end, λ q. omega (arith, files q))
