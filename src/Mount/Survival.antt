-- ===== src/Mount/Survival.antt =====
-- A mount outlives the application that made it.
use mount.Prelude.{ℕ, ◌≤◌, ◌≡◌, refl, inl, inr, false, none, some, List, arith, Text, ◌⊎◌}
use mount.Efi.{
  efi_success, Ptr, Byte, Firmware, State, allocs, frees, opens, closes, hit_self, FindsInstalled,
}
use mount.Mount.Machine.{IsMachine}
use mount.LoopDxe.Factory.Invariant.{Step}
use mount.LoopDxe.Factory.Ledger.{Ledger, Moves, Refines}
use mount.LoopDxe.Factory.Ledger.Simulation.{
  Reaches, Reaches-trans, Refines-Neutral, Settles-Reaches,
}
use mount.LoopDxe.Factory.Ledger.Keeps.{Keeps, is_destroy, Step-Keeps}
use mount.LoopDxe.Factory.Ledger.Open.{StaysOpen, Keeps-StaysOpen, Step-StaysOpen}
use mount.LoopDisk.Create.Entry.{Refines-FreshPool}
use mount.SelfTest.Balance.{mount_self_test-Keeps}
use mount.LoopDisk.Create.Blocks.{OpensImage, ServesImage}
use mount.LoopDisk.Iso.{mount_run_iso}
use mount.LoopDisk.Iso.Mounted.{mount_run_iso-Mounted}
use mount.Mount.Dispatch.{greeted}
use mount.Mount.Cases.{arguments_at, uefi_main-cases}
use mount.Mount.Plain.{Plain-Keeps, Plain-Follows, mount_run_iso-Plain, is_selftest}
use mount.Mount.Session.{handed_by, Session, Sessions, Session-Settles, Sessions-Refines}
use mount.Mount.{uefi_main}

-- Runs of `mount` with allowed arguments, and steps of the driver that are no destruction.
pub data Spares (fw : Firmware) (rounds : ℕ) (Allowed : List Text → Type 0)
    : State → State → Type 0 where
  run :
      (s : State) (full : Text)
      → Allowed (arguments_at fw s)
      → Spares fw rounds Allowed s (uefi_main fw rounds full s).1
  driver_step :
      {s t : State} (step : Step fw s t) → is_destroy fw step ≡ false → Spares fw rounds Allowed s t

pub data Spared (fw : Firmware) (rounds : ℕ) (Allowed : List Text → Type 0) (s : State)
    : State → Type 0 where
  here : Spared fw rounds Allowed s s
  after :
      {t u : State}
      → Spared fw rounds Allowed s t
      → Spares fw rounds Allowed t u
      → Spared fw rounds Allowed s u

-- All arguments but `selftest`, and all.
abbrev pub NoSelftest : List Text → Type 0
NoSelftest arguments = is_selftest arguments ≡ false

abbrev pub AnyArguments : List Text → Type 0
AnyArguments arguments = Unit {0}

Spares-Session :
    (fw : Firmware) (rounds : ℕ) (Allowed : List Text → Type 0) {t u : State}
    → Spares fw rounds Allowed t u
    → Session fw rounds t u
Spares-Session fw rounds Allowed (Spares.run t full e) = Session.run t full
Spares-Session fw rounds Allowed (Spares.driver_step step e) = Session.driver_step step

module _ (fw : Firmware) (rounds : ℕ) (laws : IsMachine fw rounds) (s : State)
    (sane : (q : Ptr) → frees q s.log ≤ allocs q s.log) where
  uefi_main-Keeps :
      (full : Text) (t : State) (l : Ledger)
      → NoSelftest (arguments_at fw t) ⊎ FindsInstalled fw
      → Refines s t l
      → Keeps t (uefi_main fw rounds full t).1
  uefi_main-Keeps full t l harmless r =
      let u : State = greeted t in
      let c : Refines s u l = Refines-Neutral s t u l (λ q. ground arith) r in
      elim (uefi_main-cases fw rounds laws s sane full t l c) [
        | inl plain ↦ Plain-Keeps fw rounds laws s sane u _ l c plain
        | inr (test, tested) ↦ elim harmless [
          | inl no_test ↦ absurd (cc)
          | inr finds ↦ rw tested (
              mount_self_test-Keeps fw full finds laws.appends u
                (Refines-FreshPool fw laws.honest laws.appends s sane u l c))
        ]
      ]

  module _ (Allowed : List Text → Type 0)
      (harmless : (arguments : List Text)
        → Allowed arguments
        → NoSelftest arguments ⊎ FindsInstalled fw) where
    Spares-Keeps :
        {t u : State} (l : Ledger)
        → Spares fw rounds Allowed t u
        → Refines s t l
        → Keeps t u × StaysOpen t u
    Spares-Keeps l (Spares.run t full e) r =
        let keeps = uefi_main-Keeps full t l (harmless _ e) r in
        let (m, _, c, files) = Session-Settles fw rounds laws s sane l (Session.run t full) r in
        (keeps, Keeps-StaysOpen r c keeps files)
    Spares-Keeps l (Spares.driver_step step e) r =
        (Step-Keeps fw laws.honest laws.appends s sane l step e r, Step-StaysOpen fw step e)

    -- The disks stay, no file is closed more often than opened, and the ledger goes on.
    Spared-Keeps :
        {t u : State} (l : Ledger)
        → Spared fw rounds Allowed t u
        → Refines s t l
        → Keeps t u × StaysOpen t u × Reaches s u l
    Spared-Keeps l Spared.here r = ((λ p disk e. e), (λ q. omega arith), (l, Moves.here, r))
    Spared-Keeps l (Spared.after {t} {u} before step) r =
        let (kept, left, reached) = Spared-Keeps l before r in
        let (m, _, c) = reached in
        let (keeps, stay) = Spares-Keeps m step c in
        (
          (λ p disk e. keeps p disk (kept p disk e)),
          (λ q. omega (arith, left q, stay q)),
          Reaches-trans s t u l reached (λ n d.
              let session = Spares-Session fw rounds Allowed step in
              Settles-Reaches (handed_by fw rounds session) s t u n
                (Session-Settles fw rounds laws s sane n session d)),
        )

    -- A disk that `mount -ISO` has made goes on serving its image.
    mounted-ServesImage :
        ((q : Ptr) → s.disks q ≡ none)
        → (iso_path full : Text) (file : Ptr) (image : List Byte) {t u : State}
        → Sessions fw rounds s t
        → OpensImage fw iso_path file image
        → closes file t.log ≤ opens file t.log
        → (mount_run_iso fw rounds iso_path full t).0 ≡ some efi_success
        → Spared fw rounds Allowed (mount_run_iso fw rounds iso_path full t).1 u
        → ServesImage fw image u
    mounted-ServesImage none_yet iso_path full file image {t} {u} before opens_image counted done
          later =
        let (l, _, r) = Sessions-Refines fw rounds laws s sane none_yet before in
        let mounted = (mount_run_iso fw rounds iso_path full t).1 in
        let (m, _, c, _) =
          Plain-Follows fw rounds laws s sane t mounted l r
            (mount_run_iso-Plain fw rounds laws s sane full iso_path t l r) in
        let (d, serves, at) =
          mount_run_iso-Mounted fw rounds laws.lists laws.soon laws.appends iso_path full file image
            t opens_image done in
        let (keeps, left, _) = Spared-Keeps m later c in
        (
          d.address,
          d.disk,
          keeps d.address d.disk ((at d.address).stored refl),
          rw d.over (omega (arith, (at file).left_open, hit_self file, left file, counted)),
          serves,
        )

  module _ (none_yet : (q : Ptr) → s.disks q ≡ none) (iso_path full : Text) where
    -- A mount outlives the application. If LocateHandleBuffer returns a buffer exactly when it
    -- succeeds, one of the first `rounds` fs names is free at any time, pool allocation returns
    -- NULL or an address that is free, no memory but a loop disk carries the signature of one, and
    -- AppendDevicePathNode appends, then: when, after any session from a state without loop disks
    -- in which no address is freed more often than allocated, `mount -ISO` returns EFI_SUCCESS for
    -- a name under which the Shell opens an image file of fewer than 2^64 bytes, which is unchanged
    -- and can be read as long as it is open, and which was not closed more often than opened before
    -- the run, then after any further runs of `mount` with arguments other than `selftest` and any
    -- further calls of the driver that are no destructions (and steps of others that leave the
    -- disks alone and give back what they take), a loop disk is still there whose file is still
    -- open and through which, in any state in which that file is open, every read of whole blocks
    -- gives the bytes of the image.
    pub Spared-ServesImage :
        (file : Ptr) (image : List Byte) {t u : State}
        → Sessions fw rounds s t
        → OpensImage fw iso_path file image
        → closes file t.log ≤ opens file t.log
        → (mount_run_iso fw rounds iso_path full t).0 ≡ some efi_success
        → Spared fw rounds NoSelftest (mount_run_iso fw rounds iso_path full t).1 u
        → ServesImage fw image u
    Spared-ServesImage = mounted-ServesImage NoSelftest (λ _ e. inl e) none_yet iso_path full

    -- A mount outlives the application, and its self tests. If LocateHandleBuffer returns a buffer
    -- exactly when it succeeds, one of the first `rounds` fs names is free at any time, pool
    -- allocation returns NULL or an address that is free, no memory but a loop disk carries the
    -- signature of one, AppendDevicePathNode appends, and HandleProtocol finds on a handle the
    -- BlockIo that was last installed there and not uninstalled, then: when, after any session from
    -- a state without loop disks in which no address is freed more often than allocated, `mount
    -- -ISO` returns EFI_SUCCESS for a name under which the Shell opens an image file of fewer than
    -- 2^64 bytes, which is unchanged and can be read as long as it is open, and which was not
    -- closed more often than opened before the run, then after any further runs of `mount` with any
    -- arguments, the self test included, and any further calls of the driver that are no
    -- destructions by other clients (and steps of others that leave the disks alone and give back
    -- what they take), a loop disk is still there whose file is still open and through which, in
    -- any state in which that file is open, every read of whole blocks gives the bytes of the
    -- image.
    pub Spared-ServesImage_tested :
        FindsInstalled fw
        → (file : Ptr) (image : List Byte) {t u : State} → Sessions fw rounds s t
        → OpensImage fw iso_path file image
        → closes file t.log ≤ opens file t.log
        → (mount_run_iso fw rounds iso_path full t).0 ≡ some efi_success
        → Spared fw rounds AnyArguments (mount_run_iso fw rounds iso_path full t).1 u
        → ServesImage fw image u
    Spared-ServesImage_tested finds =
        mounted-ServesImage AnyArguments (λ _ _. inr finds) none_yet iso_path full
