-- ===== src/Formats/Lookup.antt =====
-- What a lookup by format name finds: the table's row with that name, whatever its case.
use mount.Prelude.{
  Option, ℕ, zero, suc, ◌≡◌, refl, ◌≢◌, ◌↔◌, inl, inr, true, false, some, List, [], ◌∷◌, map, arith,
  Bool-cases, leb, ◌&&◌, sub_ℕ, Text, ◌⊎◌, ◌+◌, ◌≤◌, NoNul, All, get_elem?, suc, zero, sym, ◌∙◌,
}
use mathlib.Core.Path.{subst}
use mathlib.Core.Option.{get_or}
use mount.Formats.{
  FormatEntry, formats, format_entry, format_count, to_upper, stri_cmp, is_zero, find_row,
  find_format,
}

-- A loop `for (I = index; I < MountFormatCount (); I++)` over the rows `MountFormatEntry (I)`.
rows_from : (rounds index : ℕ) → List (Option FormatEntry)
unfolding format_entry
rows_from zero index = []
rows_from (suc rounds) index = format_entry index ∷ rows_from rounds (suc index)

-- Such a loop walks the table, as the recursions on `formats` do.
rows_from-formats : rows_from format_count 0 ≡ map some formats
unfolding rows_from format_count
rows_from-formats = refl

to_upper-eq-zero : (c : ℕ) → to_upper c ≡ 0 → c ≡ 0
unfolding to_upper
to_upper-eq-zero c h = ground arith

is_zero-sub_ℕ : (a b : ℕ) → a ≢ b → is_zero (sub_ℕ a b) ≡ false
is_zero-sub_ℕ a b h = ground arith

-- The comparison is 0 exactly when the texts agree up to the case of ASCII letters.
pub stri_cmp_iff :
    (a b : Text)
    → NoNul a
    → NoNul b
    → (is_zero (stri_cmp a b) ≡ true) ↔ (map to_upper a ≡ map to_upper b)
unfolding stri_cmp
stri_cmp_iff [] [] h k = (λ _. refl, λ _. refl)
stri_cmp_iff [] (d ∷ b) h k = (λ e. absurd (ground (arith)), λ e. absurd (cc))
stri_cmp_iff (c ∷ a) [] h k = (λ e. absurd (ground (arith)), λ e. absurd (cc))
stri_cmp_iff (c ∷ a) (d ∷ b) h k = ground (arith, stri_cmp_iff a b h.1 k.1, to_upper-eq-zero c)

find_row_congr :
    (es : List FormatEntry) (m n : Text)
    → All (λ e. NoNul e.name) es
    → NoNul m
    → NoNul n
    → map to_upper m ≡ map to_upper n
    → find_row es m ≡ find_row es n
unfolding find_row
find_row_congr [] m n h k l e = refl
find_row_congr (r ∷ es) m n h k l e = ground (
  arith,
  stri_cmp_iff r.name m h.0 k,
  stri_cmp_iff r.name n h.0 l,
  find_row_congr es m n h.1 k l e,
)

formats-NoNul : All (λ e. NoNul e.name) formats
formats-NoNul = omega arith

-- Two option words that differ in the case of ASCII letters only select the same row.
find_format-case :
    (m n : Text)
    → NoNul m
    → NoNul n
    → map to_upper m ≡ map to_upper n
    → find_format (some m) ≡ find_format (some n)
unfolding find_format
find_format-case m n k l e = find_row_congr formats m n formats-NoNul k l e

-- A row found stands in the table, and its name is the word asked for up to ASCII case.
find_row_sound :
    (es : List FormatEntry) (n : Text) {r : FormatEntry}
    → All (λ e. NoNul e.name) es
    → NoNul n
    → find_row es n ≡ some r
    → ((i : ℕ) × (get_elem? es i ≡ some r)) × (map to_upper r.name ≡ map to_upper n)
unfolding find_row
find_row_sound [] n h k e = absurd (cc)
find_row_sound (x ∷ es) n h k e = elim (Bool-cases (is_zero (stri_cmp x.name n))) [
  | inl hit ↦ ((zero, ground arith), ground (arith, stri_cmp_iff x.name n h.0 k))
  | inr miss ↦ let ((i, at), same) = find_row_sound es n h.1 k (ground arith) in ((suc i, at), same)
]

-- Every row is found by its own name.
find_format_self :
    (i : ℕ) {r : FormatEntry} → format_entry i ≡ some r → find_format (some r.name) ≡ some r
unfolding find_format format_entry stri_cmp
find_format_self zero e = ground arith
find_format_self (suc zero) e = ground arith
find_format_self (suc (suc zero)) e = ground arith
find_format_self (suc (suc (suc zero))) e = ground arith
find_format_self (suc (suc (suc (suc i)))) e = absurd (cc)

get_elem?-All :
    (es : List FormatEntry) (i : ℕ) {r : FormatEntry}
    → All (λ e. NoNul e.name) es
    → get_elem? es i ≡ some r
    → NoNul r.name
get_elem?-All [] i h e = absurd (cc)
get_elem?-All (x ∷ es) zero h e = subst (λ o. NoNul (get_or o x).name) e h.0
get_elem?-All (x ∷ es) (suc i) h e = get_elem?-All es i h.1 e

format_entry-NoNul : (i : ℕ) {r : FormatEntry} → format_entry i ≡ some r → NoNul r.name
unfolding format_entry
format_entry-NoNul i e = get_elem?-All formats i formats-NoNul e

find_format_complete :
    (n : Text) (i : ℕ) {r : FormatEntry}
    → NoNul n
    → format_entry i ≡ some r
    → map to_upper r.name ≡ map to_upper n
    → find_format (some n) ≡ some r
find_format_complete n i {r} k at same =
    find_format-case n r.name k (format_entry-NoNul i at) (sym same) ∙ find_format_self i at

-- The same with the code's own folding.
pub find_format_upper :
    (n : Text) (r : FormatEntry)
    → NoNul n
    → (find_format (some n) ≡ some r)
      ↔ (((i : ℕ) × (format_entry i ≡ some r)) × (map to_upper r.name ≡ map to_upper n))
unfolding find_format format_entry
find_format_upper n r k = (
  λ e. find_row_sound formats n formats-NoNul k e,
  λ ((i, at), same). find_format_complete n i k at same,
)

-- The second is a small ASCII letter, 97 to 122, and the first the capital of it, 32 before.
abbrev IsCapitalOf : ℕ → ℕ → Type 0
IsCapitalOf c d = (97 ≤ d) × (d ≤ 122) × (c + 32 ≡ d)

-- The same character, or the same ASCII letter in two cases.
abbrev SameLetter : ℕ → ℕ → Type 0
SameLetter c d = (c ≡ d) ⊎ (IsCapitalOf c d ⊎ IsCapitalOf d c)

-- Texts that differ at most in the case of ASCII letters.
abbrev pub SameUpToCase : Text → Text → Type 0
SameUpToCase [] [] = Unit {0}
SameUpToCase [] (d ∷ b) = ⊥
SameUpToCase (c ∷ a) [] = ⊥
SameUpToCase (c ∷ a) (d ∷ b) = SameLetter c d × SameUpToCase a b

to_upper_iff : (c d : ℕ) → (to_upper c ≡ to_upper d) ↔ SameLetter c d
unfolding to_upper
to_upper_iff c d = (
  λ e. elim (Bool-cases (leb b'a' c && leb c b'z')) [
    | inl small ↦ elim (Bool-cases (leb b'a' d && leb d b'z')) [
      | inl both ↦ inl (ground arith)
      | inr other ↦ inr (inr (ground arith))
    ]
    | inr large ↦ elim (Bool-cases (leb b'a' d && leb d b'z')) [
      | inl other ↦ inr (inl (ground arith))
      | inr both ↦ inl (ground arith)
    ]
  ],
  λ e. ground arith,
)

pub SameUpToCase-iff : (a b : Text) → (map to_upper a ≡ map to_upper b) ↔ SameUpToCase a b
SameUpToCase-iff [] [] = (λ _. tt, λ _. refl)
SameUpToCase-iff [] (d ∷ b) = (λ e. absurd (cc), λ e. absurd e)
SameUpToCase-iff (c ∷ a) [] = (λ e. absurd (cc), λ e. absurd e)
SameUpToCase-iff (c ∷ a) (d ∷ b) =
    let letter = to_upper_iff c d in
    let rest = SameUpToCase-iff a b in
    (λ e. (letter.0 (cc), rest.0 (cc)), λ (x, y). cc (letter.1 x, rest.1 y))

-- For a word without NUL `MountFindFormat` returns row r exactly when r is a row of the table and
-- its name differs from the word at most in the case of the ASCII letters A to Z: no row hides
-- another one.
pub find_format_iff :
    (n : Text) (r : FormatEntry)
    → NoNul n
    → (find_format (some n) ≡ some r)
      ↔ (((i : ℕ) × (format_entry i ≡ some r)) × SameUpToCase r.name n)
find_format_iff n r k =
    let upper = find_format_upper n r k in
    let same = SameUpToCase-iff r.name n in
    (
      λ e. let (row, folded) = upper.0 e in (row, same.0 folded),
      λ (row, alike). upper.1 (row, same.1 alike),
    )
