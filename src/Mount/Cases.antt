-- ===== src/Mount/Cases.antt =====
-- A whole run of `mount`: the self test, or a run that leaves the loop disks alone or adds one.
use mount.Prelude.{
  ℕ, ◌≤◌, ◌≡◌, refl, ◌⊎◌, inl, inr, true, ◌||◌, List, [], ◌∷◌, Bool-cases, Text, codes, text_eq,
}
use mount.Efi.{efi_error, Ptr, Firmware, State, allocs, frees}
use mount.LoopDxe.Factory.Ledger.{Ledger, Refines}
use mount.SelfTest.{mount_self_test}
use mount.Mount.{run_word, run_arguments, uefi_main}
use mount.Mount.Dispatch.{greeted}
use mount.Mount.Machine.{IsMachine}
use mount.Mount.Plain.{Plain, is_selftest, print_help-Neutral, run_arguments-Plain}

-- Argv, as a run that begins in s sees it.
abbrev pub arguments_at : Firmware → State → List Text
arguments_at fw s = (fw.arguments (greeted s).log).1

-- From t on, the self test has run to v, if the arguments say so.
abbrev pub Tested : Firmware → Text → List Text → State → State → Type 0
Tested fw full arguments t v = (is_selftest arguments ≡ true) × (v ≡ (mount_self_test fw full t).1)

module _ (fw : Firmware) (rounds : ℕ) (laws : IsMachine fw rounds) (s : State)
    (sane : (q : Ptr) → frees q s.log ≤ allocs q s.log) (full : Text) where
  -- `selftest`, unless the text is taken for another word before.
  run_selftest-cases :
      (arguments : List Text) (t : State)
      → is_selftest arguments ≡ true
      → let v = (run_arguments fw rounds full arguments t).1 in
        Plain fw t v ⊎ Tested fw full arguments t v
  unfolding run_arguments run_word
  run_selftest-cases [] t test = absurd (cc)
  run_selftest-cases (program ∷ []) t test = absurd (cc)
  run_selftest-cases (program ∷ word ∷ rest) t test =
      elim (Bool-cases (text_eq word (codes "-?") || text_eq word (codes "-h"))) [
        | inl help ↦ rw help (inl (inl (print_help-Neutral t)))
        | inr no_help ↦ rw (no_help, test) (inr (refl, refl))
      ]

  run_arguments-cases :
      (arguments : List Text) (t : State) (l : Ledger)
      → Refines s t l
      → let v = (run_arguments fw rounds full arguments t).1 in
        Plain fw t v ⊎ Tested fw full arguments t v
  run_arguments-cases arguments t l r = elim (Bool-cases (is_selftest arguments)) [
    | inl test ↦ run_selftest-cases arguments t test
    | inr no_test ↦ inl (run_arguments-Plain fw rounds laws s sane full arguments t l no_test r)
  ]

  pub uefi_main-cases :
      (t : State) (l : Ledger)
      → Refines s (greeted t) l
      → let v = (uefi_main fw rounds full t).1 in
        Plain fw (greeted t) v ⊎ Tested fw full (arguments_at fw t) (greeted t) v
  unfolding uefi_main
  uefi_main-cases t l r =
      let u : State = greeted t in
      elim (Bool-cases (efi_error (fw.arguments u.log).0)) [
        | inl bad ↦ rw bad (inl (inl (print_help-Neutral u)))
        | inr fine ↦ rw fine (run_arguments-cases (fw.arguments u.log).1 u l r)
      ]
