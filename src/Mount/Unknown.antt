-- ===== src/Mount/Unknown.antt =====
-- What the program does with a word that it does not know.
use mount.Prelude.{
  ℕ, ◌≡◌, refl, ap, ◌∙◌, ◌≢◌, inl, inr, false, Option, none, some, List, [], ◌∷◌, ◌++◌, map, ◌==◌,
  ==_iff, Bool-cases, Option-cases, Text, codes, text_eq, text_eq_iff, NoNul,
}
use mount.Efi.{Status, efi_success, status_invalid_parameter, Message, Event, Log, Firmware, State}
use mount.Formats.{FormatEntry, formats, format_entry, find_format}
use mathlib.Core.Path.{subst}
use mount.Formats.Lookup.{find_format_upper, SameUpToCase, SameUpToCase-iff}
use mount.Mount.{print_formats, print_help, run_option, run_word, uefi_main}
use mount.Mount.Dispatch.{greeted, uefi_main-word}

-- Only lines have been printed from s to t.
abbrev pub Prints : State → State → Type 0
Prints s t =
    (lines : List Message) × (t.log ≡ map Event.printed lines ++ s.log)
    × (t.disks ≡ s.disks)
    × (t.loop_seq ≡ s.loop_seq)

-- The word is none of the four reserved ones, and no row's name behind a dash, whatever its case.
pub record IsUnknown (word : Text) : Type 0 where
  pub sound : NoNul word
  pub no_question_mark : word ≢ codes "-?"
  pub no_h : word ≢ codes "-h"
  pub no_selftest : word ≢ codes "selftest"
  pub no_iso : word ≢ codes "-ISO"
  pub no_row :
      (i : ℕ) (e : FormatEntry) → format_entry i ≡ some e → ¬ SameUpToCase (b'-' ∷ e.name) word

text_eq-false : (word other : Text) → word ≢ other → text_eq word other ≡ false
text_eq-false word other ne = elim (Bool-cases (text_eq word other)) [
  | inl same ↦ absurd (ne ((text_eq_iff word other).0 same))
  | inr differ ↦ differ
]

-- A failed dispatch: the exit code, and only lines have been printed.
abbrev pub Complains : State → Option Status × State → Type 0
Complains s r = (r.0 ≡ some status_invalid_parameter) × Prints s r.1

Prints-line :
    (m : Message) (s t : State) → Prints (record s { log = Event.printed m ∷ s.log }) t → Prints s t
Prints-line m s t (lines, log, disks, seq) = (lines ++ m ∷ [], log ∙ snoc lines m s.log, disks, seq)
  where
    snoc :
        (ls : List Message) (x : Message) (l : Log)
        → map Event.printed ls ++ Event.printed x ∷ l ≡ map Event.printed (ls ++ x ∷ []) ++ l
    snoc [] x l = refl
    snoc (y ∷ ls) x l = ap (λ k. Event.printed y ∷ k) (snoc ls x l)

print_formats-Prints : (es : List FormatEntry) (s : State) → Prints s (print_formats es s).1
unfolding print_formats
print_formats-Prints [] s = ([], refl, refl, refl)
print_formats-Prints (e ∷ es) s =
    let line : Message = Message.format_line e.name e.driver_file e.notes e.tested in
    let (lines, log, disks, seq) =
      print_formats-Prints es (record s { log = Event.printed line ∷ s.log }) in
    Prints-line line s _ (lines, log, disks, seq)

module _ (fw : Firmware) (rounds : ℕ) (full : Text) where
  run_option-none :
      (n : Text) (s : State)
      → find_format (some n) ≡ none
      → Complains s (run_option fw rounds full n s)
  unfolding run_option print_help
  run_option-none n s e =
      rw (e, run_option)
        (
          refl,
          Prints-line (Message.unknown_format n) s _
              (Prints-line Message.help _ _ (print_formats-Prints formats _)),
        )

  no_row-find_format : (n : Text) → IsUnknown (b'-' ∷ n) → find_format (some n) ≡ none
  no_row-find_format n unknown = elim (Option-cases (find_format (some n))) [
    | inl e ↦ e
    | inr (e, found) ↦
        let ((i, at), same) = (find_format_upper n e unknown.sound.1).0 found in
        absurd (unknown.no_row i e at (inl refl, (SameUpToCase-iff e.name n).0 same))
  ]

  run_word-unknown :
      (word : Text) (rest : List Text) (s : State)
      → IsUnknown word
      → Complains s (run_word fw rounds full word rest s)
  unfolding run_word
  run_word-unknown [] rest s unknown =
      rw
        (
          text_eq-false [] _ unknown.no_question_mark,
          text_eq-false [] _ unknown.no_h,
          text_eq-false [] _ unknown.no_selftest,
          text_eq-false [] _ unknown.no_iso,
        )
        (refl, (Message.unknown_option [] ∷ [], refl, refl, refl))
  run_word-unknown (c ∷ n) rest s unknown =
      rw
        (
          text_eq-false (c ∷ n) _ unknown.no_question_mark,
          text_eq-false (c ∷ n) _ unknown.no_h,
          text_eq-false (c ∷ n) _ unknown.no_selftest,
          text_eq-false (c ∷ n) _ unknown.no_iso,
        )
        (elim (Bool-cases (c == b'-')) [
          | inl dash ↦
              let unknown' : IsUnknown (b'-' ∷ n) =
                subst (λ (d : ℕ). IsUnknown (d ∷ n)) ((==_iff c b'-').0 dash) unknown in
              rw dash (run_option-none n s (no_row-find_format n unknown'))
          | inr plain ↦ rw plain (refl, (Message.unknown_option (c ∷ n) ∷ [], refl, refl, refl))
        ])

  -- With a first argument without NUL that is not `-?`, `-h`, `selftest` or `-ISO`, and is no
  -- row's name behind a dash, whatever its case, the program returns STATUS_INVALID_PARAMETER, and
  -- all that it has done is to print.
  pub uefi_main-unknown :
      (s : State) (program word : Text) (rest : List Text)
      → fw.arguments (greeted s).log ≡ (efi_success, program ∷ word ∷ rest)
      → IsUnknown word
      → Complains s (uefi_main fw rounds full s)
  uefi_main-unknown s program word rest given unknown =
      let (code, prints) = run_word-unknown word rest (greeted s) unknown in
      rw (uefi_main-word fw rounds full s program word rest given)
        (code, Prints-line Message.version s _ prints)
