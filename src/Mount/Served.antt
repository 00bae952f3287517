-- ===== src/Mount/Served.antt =====
-- `mount -ISO` at the Shell, on a machine on which nothing fails.
use mount.Prelude.{
  ℕ, ◌≤◌, ◌≡◌, refl, ◌≢◌, ◌∙◌, none, some, List, ◌∷◌, arith, length, Text, codes, text_eq,
}
use mount.Efi.{
  efi_success, Ptr, Byte, Log, Firmware, State, Neutral, Works, allocs, frees, opens, closes,
}
use mount.LoopDxe.Factory.Invariant.{Step}
use mount.LoopDisk.Create.{loop_min_size}
use mount.LoopDisk.Create.Blocks.{OpensImage, ServesImage}
use mount.LoopDisk.Iso.{mount_run_iso}
use mount.LoopDisk.Iso.Mounted.{mount_run_iso-efi_success}
use mount.Mount.{run_iso, run_word, uefi_main}
use mount.Mount.Dispatch.{greeted, uefi_main-word}
use mount.Mount.Machine.{IsMachine}
use mount.Mount.Session.{Session, Sessions}
use mount.Mount.Survival.{Spared, AnyArguments, Spared-ServesImage_tested}

-- The Shell opens the name through a pointer that is not NULL, and the image, of at least 16
-- blocks, can be measured.
pub record IsImage (fw : Firmware) (iso_path : Text) (file : Ptr) (image : List Byte) : Type 0 where
  pub opens : OpensImage fw iso_path file image
  pub there : file ≢ 0
  pub measured : (l : Log) → (fw.info_of l file).1 ≡ 0
  pub enough : loop_min_size ≤ length image

module _ (fw : Firmware) (rounds : ℕ) (full : Text) where
  run_word-iso :
      (iso_path : Text) (rest : List Text) (s : State)
      → run_word fw rounds full (codes "-ISO") (iso_path ∷ rest) s
        ≡ mount_run_iso fw rounds iso_path full s
  unfolding run_word run_iso text_eq
  run_word-iso iso_path rest s = refl

  pub uefi_main-iso :
      (s : State) (program iso_path : Text) (rest : List Text)
      → fw.arguments (greeted s).log ≡ (efi_success, program ∷ codes "-ISO" ∷ iso_path ∷ rest)
      → uefi_main fw rounds full s ≡ mount_run_iso fw rounds iso_path full (greeted s)
  uefi_main-iso s program iso_path rest given =
      uefi_main-word fw rounds full s program (codes "-ISO") (iso_path ∷ rest) given
      ∙ run_word-iso iso_path rest (greeted s)

module _ (fw : Firmware) (rounds : ℕ) (laws : IsMachine fw rounds) (works : Works fw) (s : State)
    (sane : (q : Ptr) → frees q s.log ≤ allocs q s.log) (none_yet : (q : Ptr) → s.disks q ≡ none)
    (full : Text) where
  -- `mount -ISO <file>` mounts the image for good. If LocateHandleBuffer returns a buffer exactly
  -- when it succeeds, one of the first `rounds` fs names is free at any time, pool allocation
  -- always returns an address that is not NULL and free, no memory but a loop disk carries the
  -- signature of one, AppendDevicePathNode appends, the loop factory and the Shell are there,
  -- device paths can be made, and protocols can be installed, found and uninstalled, then: when,
  -- after any session from a state without loop disks in which no address is freed more often than
  -- allocated, the Shell starts `mount -ISO <file>` for the name of an image file of at least 16
  -- blocks and fewer than 2^64 bytes, which it opens through a pointer that is not NULL and can
  -- measure, which is unchanged and can be read as long as it is open, and which was not closed
  -- more often than opened before the run, the program ends with EFI_SUCCESS, and after any further
  -- runs of `mount` with any arguments, the self test included, and any further calls of the driver
  -- that are no destructions by other clients (and steps of others that leave the disks alone and
  -- give back what they take), a loop disk is there whose file is still open and through which, in
  -- any state in which that file is open, every read of whole blocks gives the bytes of the image.
  pub uefi_main-ServesImage :
      (program iso_path : Text) (rest : List Text) (file : Ptr) (image : List Byte) {t u : State}
      → IsImage fw iso_path file image
      → Sessions fw rounds s t
      → closes file t.log ≤ opens file t.log
      → fw.arguments (greeted t).log ≡ (efi_success, program ∷ codes "-ISO" ∷ iso_path ∷ rest)
      → Spared fw rounds AnyArguments (uefi_main fw rounds full t).1 u
      → ((uefi_main fw rounds full t).0 ≡ some efi_success) × ServesImage fw image u
  uefi_main-ServesImage program iso_path rest file image {t} {u} is_image before counted given
        later =
      let g : State = greeted t in
      let quiet : Neutral t g = λ q. ground arith in
      let same = uefi_main-iso fw rounds full t program iso_path rest given in
      let done =
        mount_run_iso-efi_success fw rounds laws.lists laws.soon laws.appends iso_path full file
          image g is_image.opens works is_image.there is_image.measured is_image.enough in
      (
        rw same done,
        Spared-ServesImage_tested fw rounds laws s sane none_yet iso_path full
            (λ l h p e. (works.finds l h p e).0) file image
            (Sessions.after before (Session.driver_step (Step.outside t g quiet))) is_image.opens
            (omega (arith, counted)) done (rw same at later),
      )
