-- ===== src/Mount/Dispatch.antt =====
-- Which words reach which flow.
use mount.Prelude.{
  ℕ, zero, suc, ◌≡◌, refl, ◌∙◌, inl, inr, Bool, true, false, ◌||◌, some, List, [], ◌∷◌, map, arith,
  Bool-cases, Text, codes, text_eq, text_eq_iff, NoNul,
}
use mount.Efi.{efi_success, Message, Event, Firmware, State}
use mount.Formats.{FormatEntry, format_entry, find_format, to_upper}
use mount.Formats.Lookup.{find_format_upper, SameUpToCase, SameUpToCase-iff}
use mount.FsDriver.Run.{mount_run_format}
use mount.Mount.{run_option, run_word, run_arguments, uefi_main}

-- The words in UpperCase that `UefiMain` keeps for itself, without their dash.
abbrev reserved : List Text
reserved = codes "?" ∷ codes "H" ∷ codes "ISO" ∷ []

abbrev among : Text → List Text → Bool
among word [] = false
among word (w ∷ ws) = text_eq word w || among word ws

row_unreserved :
    (i : ℕ) {e : FormatEntry}
    → format_entry i ≡ some e
    → among (map to_upper e.name) reserved ≡ false
unfolding format_entry to_upper text_eq
row_unreserved zero at = ground arith
row_unreserved (suc zero) at = ground arith
row_unreserved (suc (suc zero)) at = ground arith
row_unreserved (suc (suc (suc zero))) at = ground arith
row_unreserved (suc (suc (suc (suc i)))) at = absurd (cc)

-- A word whose upper case is not reserved is none of these three.
differs :
    (word name : Text)
    → among (map to_upper name) reserved ≡ true
    → (n : Text) → among (map to_upper n) reserved ≡ false
    → text_eq n name ≡ false
differs word name held n free = elim (Bool-cases (text_eq n name)) [
  | inl same ↦ absurd (cc (rw ((text_eq_iff n name).0 same) at free))
  | inr other ↦ other
]

question_mark_reserved : among (map to_upper (codes "?")) reserved ≡ true
unfolding to_upper text_eq
question_mark_reserved = refl

h_reserved : among (map to_upper (codes "h")) reserved ≡ true
unfolding to_upper text_eq
h_reserved = refl

iso_reserved : among (map to_upper (codes "ISO")) reserved ≡ true
unfolding to_upper text_eq
iso_reserved = refl

-- The state once the version is printed.
abbrev pub greeted : State → State
greeted s = record s { log = Event.printed Message.version ∷ s.log }

module _ (fw : Firmware) (rounds : ℕ) (full : Text) where
  run_word-option :
      (n : Text) (rest : List Text) (s : State)
      → among (map to_upper n) reserved ≡ false
      → run_word fw rounds full (b'-' ∷ n) rest s ≡ run_option fw rounds full n s
  unfolding run_word text_eq
  run_word-option n rest s free = rw (
    differs n (codes "?") question_mark_reserved n free,
    differs n (codes "h") h_reserved n free,
    differs n (codes "ISO") iso_reserved n free,
  )

  pub uefi_main-word :
      (s : State) (program word : Text) (rest : List Text)
      → fw.arguments (greeted s).log ≡ (efi_success, program ∷ word ∷ rest)
      → uefi_main fw rounds full s ≡ run_word fw rounds full word rest (greeted s)
  unfolding uefi_main run_arguments
  uefi_main-word s program word rest given = rw given

  run_option-row :
      (n : Text) (e : FormatEntry) (s : State)
      → find_format (some n) ≡ some e
      → run_option fw rounds full n s ≡ mount_run_format fw rounds (some e) full s
  unfolding run_option
  run_option-row n e s found = rw (found, run_option)

  -- With a dash and the name of a row of the table as first argument, each ASCII letter of it in
  -- either case, and without NUL, the program prints its version and runs the flow of that row: no
  -- row is hidden by another one or by a reserved word.
  pub uefi_main-format :
      (s : State) (program n : Text) (rest : List Text) (i : ℕ) (e : FormatEntry)
      → fw.arguments (greeted s).log ≡ (efi_success, program ∷ (b'-' ∷ n) ∷ rest)
      → NoNul n
      → format_entry i ≡ some e
      → SameUpToCase e.name n
      → uefi_main fw rounds full s ≡ mount_run_format fw rounds (some e) full (greeted s)
  uefi_main-format s program n rest i e given sound at alike =
      let same = (SameUpToCase-iff e.name n).1 alike in
      let free : among (map to_upper n) reserved ≡ false = rw same at (row_unreserved i at) in
      let found = (find_format_upper n e sound).1 ((i, at), same) in
      uefi_main-word s program (b'-' ∷ n) rest given
      ∙ run_word-option n rest (greeted s) free
      ∙ run_option-row n e (greeted s) found
