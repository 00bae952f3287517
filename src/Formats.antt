-- ===== src/Formats.antt =====
-- MountPkg/Application/Mount/FsDriver.c, the table part: `mFormats`, `MountFormatCount`,
-- `MountFormatEntry`, `StaticStriCmp` and `MountFindFormat`, with MOUNT_FORMAT_ENTRY of
-- MountPkg/Include/FsDriver.h.
pub mod Lookup
use mount.Prelude.{
  ℕ, ◌+◌, ◌-◌, Bool, true, false, ◌&&◌, Option, none, some, String, List, [], ◌∷◌, ◌==◌, leb,
  if◌then◌else◌, ℤ, pos, sub_ℕ, length, get_elem?, Text, codes,
}

-- The three strings of a row are literals, so none of the pointers is NULL.
pub record FormatEntry : Type 0 where
  pub name : Text
  pub driver_file : Text
  pub notes : Text
  pub tested : Bool

abbrev pub entry : String → String → String → Bool → FormatEntry
entry name driver_file notes tested = record {
  name = codes name;
  driver_file = codes driver_file;
  notes = codes notes;
  tested = tested;
}

abbrev pub formats : List FormatEntry
formats =
    entry "NTFS" "drivers\\ntfs_x64.efi" "efifs, read-only" true
    ∷ entry "EXT4" "drivers\\ext2_x64.efi" "efifs ext2 covers ext2/3/4, read-only" true
    ∷ entry "BTRFS" "drivers\\btrfs_x64.efi" "efifs, read-only; RAID/zstd may fail" false
    ∷ entry "XFS" "drivers\\xfs_x64.efi" "efifs, read-only; v5/CRC TBD" false
    ∷ []

unfoldable pub format_count : ℕ
format_count = length formats

unfoldable pub format_entry : ℕ → Option FormatEntry
format_entry index = get_elem? formats index

-- `if ((C >= L'a') && (C <= L'z')) C = (CHAR16)(C - L'a' + L'A')`
unfoldable pub to_upper : ℕ → ℕ
to_upper c = if leb b'a' c && leb c b'z' then c - b'a' + b'A' else c

-- The unit at a pointer: past the last unit stands the terminator.
abbrev pub unit : Text → ℕ
unit [] = 0
unit (c ∷ s) = c

abbrev pub next : Text → Text
next [] = []
next (c ∷ s) = s

unfoldable pub stri_cmp : Text → Text → ℤ
unfolding to_upper
stri_cmp [] b = sub_ℕ (to_upper 0) (to_upper (unit b))
stri_cmp (c ∷ a) b =
    let rest = stri_cmp a (next b) in
    if to_upper c == to_upper (unit b)
    then (if to_upper c == 0 then pos 0 else rest)
    else sub_ℕ (to_upper c) (to_upper (unit b))

abbrev pub is_zero : ℤ → Bool
is_zero (pos n) = n == 0
is_zero _ = false

unfoldable pub find_row : List FormatEntry → Text → Option FormatEntry
find_row [] name = none
find_row (e ∷ es) name = if is_zero (stri_cmp e.name name) then some e else find_row es name

-- A NULL name is `none`.
unfoldable pub find_format : Option Text → Option FormatEntry
unfolding find_row
find_format none = none
find_format (some name) = find_row formats name
