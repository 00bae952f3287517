-- ===== src/LoopDxe/Factory/Ledger/Keeps.antt =====
-- Which steps leave the mounted disks as they are.
use mount.Prelude.{
  ℕ, ◌≤◌, ◌≡◌, ap, ◌∙◌, ◌≢◌, inl, inr, Bool, true, false, Option, none, some, arith, ◌==◌,
  Bool-cases,
}
use mount.Efi.{efi_success, Ptr, DevicePath, LoopDisk, Firmware, State, allocs, frees, Neutral}
use mount.LoopDxe.BlockIo.ReadOnly.{serve_all-Unchanged}
use mount.LoopDxe.Factory.{loop_disk_size, loop_factory_create, loop_dxe_entry}
use mount.LoopDxe.Factory.Create.{Appends, loop_factory_create-Refused, loop_factory_create-Created}
use mount.LoopDxe.Factory.Invariant.{Step}
use mount.LoopDxe.Factory.Ledger.{Ledger, find, Refines, IsHonest}
use mount.LoopDxe.Factory.Ledger.Steps.{allocate-fresh}

-- Every loop disk of t is still there in u, unchanged.
abbrev pub Keeps : State → State → Type 0
Keeps t u = (p : Ptr) (disk : LoopDisk) → t.disks p ≡ some disk → u.disks p ≡ some disk

pub Neutral-Keeps : (t u : State) → Neutral t u → Keeps t u
Neutral-Keeps t u a p disk e = (a p).disk ∙ e

-- A disk that is added at an address that the ledger lacks hides no other.
pub added-Keeps :
    (s t u : State) (l : Ledger) (a : Ptr)
    → Refines s t l
    → find a l ≡ none
    → ((q : Ptr) → q ≢ a → u.disks q ≡ t.disks q)
    → Keeps t u
added-Keeps s t u l a r free other p disk e = elim (Bool-cases (p == a)) [
  | inl same ↦ absurd (ground (arith, r.table p))
  | inr differs ↦ ground (arith, other p)
]

module _ (fw : Firmware) where
  -- The step is a destruction.
  abbrev pub is_destroy : {s t : State} → Step fw s t → Bool
  is_destroy (Step.enter s) = false
  is_destroy (Step.create s file path last_block out) = false
  is_destroy (Step.destroy s handle out) = true
  is_destroy (Step.requests s p disk rs found) = false
  is_destroy (Step.outside s t a) = false

module _ (fw : Firmware) (honest : IsHonest fw) (appends : Appends fw) (s : State)
    (sane : (q : Ptr) → frees q s.log ≤ allocs q s.log) where
  create-Keeps :
      (file : Ptr) (path : Option DevicePath) (last_block : ℕ) (out : Bool) (t : State) (l : Ledger)
      → Refines s t l
      → Keeps t (loop_factory_create fw file path last_block out t).1
  unfolding loop_factory_create
  create-Keeps file none last_block out t l r = λ p disk e. e
  create-Keeps file (some path) last_block out t l r =
      let a = fw.allocate t.log loop_disk_size in
      let free : a ≢ 0 → find a l ≡ none =
        allocate-fresh fw honest appends s sane t l t.log loop_disk_size r (λ q. omega arith) in
      let result = loop_factory_create fw file (some path) last_block out t in
      elim (Bool-cases (result.0.0 == efi_success)) [
        | inr failed ↦
            let c =
              loop_factory_create-Refused fw file last_block out t (some path)
                (λ there. r.table a ∙ free there) (ground arith) in
            λ p disk e. c.same_disks p ∙ e
        | inl fine ↦
            let c =
              loop_factory_create-Created fw appends file last_block out t path (ground arith) in
            added-Keeps s t result.1 l a r (free c.there) c.other_disks
      ]

  pub Step-Keeps :
      {t u : State} (l : Ledger) (step : Step fw t u)
      → is_destroy fw step ≡ false
      → Refines s t l
      → Keeps t u
  unfolding loop_dxe_entry
  Step-Keeps l (Step.enter t) e r = λ p disk found. found
  Step-Keeps l (Step.create t file path last_block out) e r =
      create-Keeps file path last_block out t l r
  Step-Keeps l (Step.destroy t handle out) e r = absurd (cc)
  Step-Keeps l (Step.outside t u a) e r = Neutral-Keeps t u a
  Step-Keeps l (Step.requests t q other rs found) e r =
      let (_, _, disks) = serve_all-Unchanged fw other rs t in
      λ p disk there. ap (λ table. table p) disks ∙ there
