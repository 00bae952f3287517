-- ===== src/Mount/Plain.antt =====
-- A run of `mount` other than the self test: it leaves the loop disks alone, or adds one.
use mount.Prelude.{
  refl, ℕ, ◌≤◌, ◌≡◌, ◌⊎◌, inl, inr, Bool, false, ◌||◌, some, List, [], ◌∷◌, arith, ◌==◌, Bool-cases,
  Option-cases, Text, codes, text_eq,
}
use mount.Efi.{Log, efi_success, Ptr, Message, Event, Firmware, State, allocs, frees, Neutral}
use mount.Formats.{FormatEntry, find_format, formats}
use mount.MapReport.Report.{map_print_current_mappings}
use mount.Mount.Machine.{IsMachine}
use mount.FsDriver.Run.Flow.{mount_run_format-Ran}
use mount.LoopDxe.Factory.Ledger.{Ledger, Refines}
use mount.LoopDxe.Factory.Ledger.Simulation.{Follows, Follows-Neutral}
use mount.LoopDisk.Create.{loop_create}
use mount.LoopDisk.Create.Disk.{loop_create-HasDisk, DiskOver}
use mount.LoopDisk.Create.Entry.{Refines-FreshPool, Entry-Follows, EntryAt, Entry-free}
use mount.LoopDisk.Iso.{mount_run_iso}
use mount.LoopDisk.Iso.Flow.{snapped, mount_run_iso-Neutral}
use mount.LoopDisk.Iso.Mounted.{mount_run_iso-EntryAt}
use mount.Mount.{
  unit, next, print_formats, print_help, run_iso, run_option, run_word, list_mappings,
  run_arguments,
}
use mount.LoopDxe.Factory.Ledger.Keeps.{Keeps, Neutral-Keeps, added-Keeps}

print_formats-Neutral : (es : List FormatEntry) (s : State) → Neutral s (print_formats es s).1
unfolding print_formats
print_formats-Neutral [] s q = ground arith
print_formats-Neutral (e ∷ es) s q =
    let t : State = record s {
      log = Event.printed (Message.format_line e.name e.driver_file e.notes e.tested) ∷ s.log;
    } in
    ground (arith, print_formats-Neutral es t q)

pub print_help-Neutral : (s : State) → Neutral s (print_help s).1
unfolding print_help
print_help-Neutral s q =
    let t : State = record s { log = Event.printed Message.help ∷ s.log } in
    ground (arith, print_formats-Neutral formats t q)

-- Everything is balanced and the disks are as before, or a disk has come with its device path, of
-- the size that GetInfo had reported.
abbrev pub Plain : Firmware → State → State → Type 0
Plain fw t u =
    Neutral t u
    ⊎ ((file : Ptr) × (size : ℕ) × (d : DiskOver fw file size) × ((l : Log) × (size
            ≡ (fw.info_of l file).2))
        × ((q : Ptr) → EntryAt d q t u))

-- Argv[1] is `selftest`.
abbrev pub is_selftest : List Text → Bool
is_selftest [] = false
is_selftest (program ∷ []) = false
is_selftest (program ∷ word ∷ rest) = text_eq word (codes "selftest")

module _ (fw : Firmware) (rounds : ℕ) (laws : IsMachine fw rounds) (s : State)
    (sane : (q : Ptr) → frees q s.log ≤ allocs q s.log) where
  pub Plain-Follows : (t u : State) (l : Ledger) → Refines s t l → Plain fw t u → Follows s t u l
  Plain-Follows t u l r (inl a) = Follows-Neutral s t u l a r
  Plain-Follows t u l r (inr (file, size, d, _, at)) =
      Entry-Follows fw laws.honest laws.appends s sane file size d t u l r at

  pub Plain-Keeps : (t u : State) (l : Ledger) → Refines s t l → Plain fw t u → Keeps t u
  Plain-Keeps t u l r (inl a) = Neutral-Keeps t u a
  Plain-Keeps t u l r (inr (file, size, d, _, at)) =
      added-Keeps s t u l d.address r
        (Entry-free fw laws.honest laws.appends s sane file size d t u l r at) (λ q. (at q).other)

  module _ (full : Text) where
    pub mount_run_iso-Plain :
        (iso_path : Text) (t : State) (l : Ledger)
        → Refines s t l
        → Plain fw t (mount_run_iso fw rounds iso_path full t).1
    mount_run_iso-Plain iso_path t l r =
        elim (Bool-cases ((loop_create fw iso_path full (snapped fw t)).0.0 == efi_success)) [
          | inl made ↦
              let fine : (loop_create fw iso_path full (snapped fw t)).0.0 ≡ efi_success =
                ground arith in
              let ((d, added, _), _) =
                loop_create-HasDisk fw laws.appends iso_path full (snapped fw t) fine in
              let at =
                mount_run_iso-EntryAt fw rounds laws.lists laws.soon laws.appends iso_path full _ d
                  t fine added in
              inr (_, _, d, (_, refl), at)
          | inr failed ↦ inl (
              (mount_run_iso-Neutral fw rounds laws.lists iso_path full t
                (Refines-FreshPool fw laws.honest laws.appends s sane t l r) (ground arith)).1)
        ]

    run_iso-Plain :
        (rest : List Text) (t : State) (l : Ledger)
        → Refines s t l
        → Plain fw t (run_iso fw rounds full rest t).1
    unfolding run_iso
    run_iso-Plain [] t l r = inl (λ q. ground arith)
    run_iso-Plain (path ∷ rest) t l r = mount_run_iso-Plain path t l r

    run_option-Neutral : (name : Text) (t : State) → Neutral t (run_option fw rounds full name t).1
    unfolding run_option
    run_option-Neutral name t = elim (Option-cases (find_format (some name))) [
      | inl e ↦
          let told : State = record t {
            log = Event.printed (Message.unknown_format name) ∷ t.log;
          } in
          rw (e, run_option) (λ q. ground (arith, print_help-Neutral told q))
      | inr (entry, found) ↦
          let (_, _, ran) = mount_run_format-Ran fw rounds laws.lists laws.soon entry full t in
          rw (found, run_option) ran.neutral
    ]

    pub run_word-Plain :
        (word : Text) (rest : List Text) (t : State) (l : Ledger)
        → text_eq word (codes "selftest") ≡ false
        → Refines s t l
        → Plain fw t (run_word fw rounds full word rest t).1
    unfolding run_word
    run_word-Plain word rest t l no_test r =
        elim (Bool-cases (text_eq word (codes "-?") || text_eq word (codes "-h"))) [
          | inl help ↦ rw help (inl (print_help-Neutral t))
          | inr no_help ↦ elim (Bool-cases (text_eq word (codes "-ISO"))) [
            | inl iso ↦ rw (no_help, no_test, iso) (run_iso-Plain rest t l r)
            | inr no_iso ↦ elim (Bool-cases (unit word == b'-')) [
              | inl dash ↦
                  rw (no_help, no_test, no_iso, dash) (inl (run_option-Neutral (next word) t))
              | inr no_dash ↦ rw (no_help, no_test, no_iso, no_dash) (inl (λ q. ground arith))
            ]
          ]
        ]

    list_mappings-Neutral : (t : State) → Neutral t (list_mappings fw rounds full t).1
    unfolding list_mappings map_print_current_mappings
    list_mappings-Neutral t q =
        let listed : State = record t { log = Event.map_listed ∷ t.log } in
        ground (arith, print_help-Neutral listed q)

    pub run_arguments-Plain :
        (arguments : List Text) (t : State) (l : Ledger)
        → is_selftest arguments ≡ false
        → Refines s t l
        → Plain fw t (run_arguments fw rounds full arguments t).1
    unfolding run_arguments
    run_arguments-Plain [] t l no_test r = inl (list_mappings-Neutral t)
    run_arguments-Plain (program ∷ []) t l no_test r = inl (list_mappings-Neutral t)
    run_arguments-Plain (program ∷ word ∷ rest) t l no_test r =
        run_word-Plain word rest t l no_test r
