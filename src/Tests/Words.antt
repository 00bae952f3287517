-- ===== src/Tests/Words.antt =====
-- The table of formats on an option word of both cases.
use mount.Prelude.{ℕ, ◌≡◌, refl, ◌↔◌, true, some, arith, Text, codes, NoNul}
use mount.Formats.{FormatEntry, entry, format_entry, to_upper, stri_cmp, find_format}
use mount.Formats.Lookup.{SameUpToCase, find_format_iff}

abbrev mixed_word : Text
mixed_word = codes "eXt4"

abbrev ext4 : FormatEntry
ext4 = entry "EXT4" "drivers\\ext2_x64.efi" "efifs ext2 covers ext2/3/4, read-only" true

mixed-NoNul : NoNul mixed_word
mixed-NoNul = ground arith

find_format_iff_example :
    (find_format (some mixed_word) ≡ some ext4)
    ↔ (((i : ℕ) × (format_entry i ≡ some ext4)) × SameUpToCase ext4.name mixed_word)
find_format_iff_example = find_format_iff mixed_word ext4 mixed-NoNul

-- Both sides of it hold.
mixed_is_ext4 : find_format (some mixed_word) ≡ some ext4
unfolding find_format stri_cmp to_upper
mixed_is_ext4 = refl

mixed_is_row : ((i : ℕ) × (format_entry i ≡ some ext4)) × SameUpToCase ext4.name mixed_word
mixed_is_row = (find_format_iff mixed_word ext4 mixed-NoNul).0 mixed_is_ext4
