-- ===== src/MapReport/Alias.antt =====
-- `MapFindFsAlias` and `MapCopyAlias`. The Shell joins the aliases of a device path by `;`. A
-- pointer into that text is the rest of the text from there on.
pub mod Tokens
use mount.Prelude.{
  ℕ, ◌+◌, Bool, true, not, ◌&&◌, ◌||◌, Option, none, some, [], ◌∷◌, ltb, ◌==◌, if◌then◌else◌, Text,
  sub_64,
}
use mount.Efi.{StringLib}
use mount.Formats.{unit}

-- The test at one position of the loop: `first` says that the position is the start of the text
-- or stands behind a `;`.
abbrev pub starts_fs : (first : Bool) (c : ℕ) (rest : Text) → Bool
starts_fs first c rest =
    first && ((c == b'f' || c == b'F') && (unit rest == b's' || unit rest == b'S'))

unfoldable pub find_from : (first : Bool) → Text → Option Text
find_from first [] = none
find_from first (c ∷ rest) =
    let later = find_from (c == b';') rest in
    if starts_fs first c rest then some (c ∷ rest) else later

-- A NULL text is `none`.
unfoldable pub map_find_fs_alias : Option Text → Option Text
unfolding find_from
map_find_fs_alias none = none
map_find_fs_alias (some map_names) = find_from true map_names

-- The counting loop of `MapCopyAlias`, from position `len` on.
unfoldable pub alias_length : Text → (name_size len : ℕ) → ℕ
alias_length [] name_size len = len
alias_length (c ∷ alias) name_size len =
    let rest = alias_length alias name_size (len + 1) in
    if not (c == b';') && ltb len (sub_64 name_size 1) then rest else len

unfoldable pub map_copy_alias : StringLib → (alias name : Text) (name_size : ℕ) → Text
map_copy_alias lib alias name name_size =
    lib.strn_cpy_s name name_size alias (alias_length alias name_size 0)
