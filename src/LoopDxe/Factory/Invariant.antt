-- ===== src/LoopDxe/Factory/Invariant.antt =====
-- Every run of the resident driver keeps its table of loop disks well formed.
use mount.Prelude.{
  ℕ, ◌≡◌, refl, sym, ◌∙◌, ◌≢◌, inl, inr, Bool, true, false, Option, none, some, List, ◌∷◌, arith,
  Option-cases,
}
use mount.Efi.{Neutral, Ptr, Handle, DevicePath, Event, Log, Firmware, LoopDisk, State}
use mathlib.Core.Path.{subst}
use mount.LoopDxe.BlockIo.ReadOnly.{Request, serve_all, serve_all-Unchanged}
use mount.LoopDxe.Factory.{
  loop_disk_size, next_seq, vendor_node, build_disk, install_disk, loop_factory_create,
  loop_factory_destroy, loop_dxe_entry,
}
use mount.LoopDxe.Factory.Create.{iso_media, made_disk}

-- Every loop disk in the table has the property.
abbrev pub AllDisks : (LoopDisk → Type 0) → State → Type 0
AllDisks P s = (p : Ptr) (disk : LoopDisk) → s.disks p ≡ some disk → P disk

module _ (fw : Firmware) where
  -- One call that the driver serves: its entry point, the two functions of the factory, and any
  -- requests to one of its disks. Or a step of the others, who leave the disks alone and give back
  -- what they take, such as a run of `mount -<FORMAT>`.
  pub data Step : State → State → Type 0 where
    enter : (s : State) → Step s (loop_dxe_entry fw s).1
    create :
        (s : State) (file : Ptr) (path : Option DevicePath) (last_block : ℕ) (out : Bool)
        → Step s (loop_factory_create fw file path last_block out s).1
    destroy :
        (s : State) (handle : Handle) (out : Bool) → Step s (loop_factory_destroy fw handle out s).1
    requests :
        (s : State) (p : Ptr) (disk : LoopDisk) (rs : List Request)
        → s.disks p ≡ some disk
        → Step s (serve_all fw disk rs s)
    outside : (s t : State) → Neutral s t → Step s t

  pub data Reach (s : State) : State → Type 0 where
    here : Reach s s
    after : {t u : State} → Reach s t → Step t u → Reach s u

  -- A creation is asked for a last block that is allowed.
  abbrev pub Creates : (ℕ → Type 0) → {s t : State} → Step s t → Type 0
  Creates Allowed (create s file path last_block out) = Allowed last_block
  Creates Allowed (enter s) = Unit {0}
  Creates Allowed (destroy s handle out) = Unit {0}
  Creates Allowed (requests s p disk rs found) = Unit {0}
  Creates Allowed (outside s t a) = Unit {0}

pub Neutral-AllDisks :
    (P : LoopDisk → Type 0) (s t : State) → Neutral s t → AllDisks P s → AllDisks P t
Neutral-AllDisks P s t a h p disk e = h p disk (sym (a p).disk ∙ e)

module _ (fw : Firmware) (P : LoopDisk → Type 0) where
  create-AllDisks :
      (s : State) (file : Ptr) (path : Option DevicePath) (last_block : ℕ) (out : Bool)
      → ((seq : ℕ) (its_path : DevicePath) (handle : Handle)
          → file ≢ 0
          → P (made_disk file last_block seq its_path handle))
      → AllDisks P s
      → AllDisks P (loop_factory_create fw file path last_block out s).1
  unfolding loop_factory_create build_disk install_disk
  create-AllDisks s file none last_block out new h p disk e = h p disk e
  create-AllDisks s file (some path) last_block out new h p disk e =
      let a = fw.allocate s.log loop_disk_size in
      let seq = next_seq s.loop_seq in
      elim (Option-cases (fw.append_node (Event.allocated a ∷ s.log) path (vendor_node seq))) [
        | inl failed ↦ ground (arith, h p disk)
        | inr (its_path, appended) ↦
            let l : Log = Event.allocated its_path.address ∷ Event.allocated a ∷ s.log in
            ground (arith, h p disk, new seq its_path (fw.install_loop_of l its_path a).1)
      ]

  pub destroy-AllDisks :
      (s : State) (handle : Handle) (out : Bool)
      → AllDisks P s
      → AllDisks P (loop_factory_destroy fw handle out s).1
  unfolding loop_factory_destroy
  destroy-AllDisks s handle out h p disk e = ground (arith, h p disk)

  -- A property that every new disk has, if its last block is allowed, stays true of all disks.
  pub Step-AllDisks :
      (Allowed : ℕ → Type 0)
      → ((file : Ptr) (last_block seq : ℕ) (path : DevicePath) (handle : Handle)
          → Allowed last_block
          → file ≢ 0
          → P (made_disk file last_block seq path handle))
      → {s t : State} (step : Step fw s t) → Creates fw Allowed step
      → AllDisks P s
      → AllDisks P t
  unfolding loop_dxe_entry
  Step-AllDisks Allowed new (Step.enter s) allowed h = h
  Step-AllDisks Allowed new (Step.create s file path last_block out) allowed h =
      create-AllDisks s file path last_block out
        (λ seq its_path handle. new file last_block seq its_path handle allowed) h
  Step-AllDisks Allowed new (Step.destroy s handle out) allowed h = destroy-AllDisks s handle out h
  Step-AllDisks Allowed new (Step.outside s t a) allowed h = Neutral-AllDisks P s t a h
  Step-AllDisks Allowed new (Step.requests s p disk rs found) allowed h =
      subst (λ disks. (q : Ptr) (d : LoopDisk) → disks q ≡ some d → P d)
        (sym (serve_all-Unchanged fw disk rs s).2) h

abbrev has_path : Option DevicePath → Bool
has_path none = false
has_path (some path) = true

-- What `LoopReadBlocks` and `LoopFactoryDestroy` rely on: the signature, read-only media of
-- 2048-byte blocks that end where the disk ends, a device path, and a file.
pub record IsLoopDisk (disk : LoopDisk) : Type 0 where
  pub signed : disk.signature ≡ 0x504f_4c4d
  pub media : disk.media ≡ iso_media disk.last_block
  pub pathed : has_path disk.device_path ≡ true
  pub backed : disk.backing_file ≢ 0

pub made_disk-IsLoopDisk :
    (file : Ptr) (last_block seq : ℕ) (path : DevicePath) (handle : Handle)
    → file ≢ 0
    → IsLoopDisk (made_disk file last_block seq path handle)
made_disk-IsLoopDisk file last_block seq path handle there = record {
  signed = refl;
  media = refl;
  pathed = refl;
  backed = there;
}

abbrev pub IsDriver : State → Type 0
IsDriver = AllDisks IsLoopDisk

module _ (fw : Firmware) where
  Creates-any : {s t : State} (step : Step fw s t) → Creates fw (λ n. Unit {0}) step
  Creates-any (Step.enter s) = tt
  Creates-any (Step.create s file path last_block out) = tt
  Creates-any (Step.destroy s handle out) = tt
  Creates-any (Step.requests s p disk rs found) = tt
  Creates-any (Step.outside s t a) = tt

  -- From a state whose disks are well formed, such as the empty table at load, every sequence of
  -- entry, creations, destructions, block requests and steps of the others that leave the disks
  -- alone leads to one whose disks are well formed.
  pub Reach-IsDriver : {s t : State} → IsDriver s → Reach fw s t → IsDriver t
  Reach-IsDriver h Reach.here = h
  Reach-IsDriver h (Reach.after r step) =
      Step-AllDisks fw IsLoopDisk (λ n. Unit {0})
        (λ file last seq path handle _. made_disk-IsLoopDisk file last seq path handle) step
        (Creates-any step) (Reach-IsDriver h r)
