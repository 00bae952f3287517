-- ===== src/MapReport/Alias/Tokens.antt =====
-- The alias that is displayed, by the tokens of the Shell's text.
use mount.Prelude.{
  ℕ, zero, suc, ◌+◌, ◌-◌, ◌≤◌, ◌<◌, ◌≡◌, refl, ap, ◌∙◌, sub_64, u64_mod, inl, inr, Bool, true,
  false, ◌&&◌, ◌||◌, Option, none, some, List, [], ◌∷◌, arith, ◌==◌, if◌then◌else◌, Bool-cases,
  length, take, length-take, Text,
}
use mount.Efi.{StringLib, IsStringLib}
use mathlib.Core.Option
use Prim.Native.Nat.add
use mount.MapReport.Alias.{find_from, map_find_fs_alias, alias_length, map_copy_alias}

-- What stands before the first semicolon, and the tokens behind it.
unfoldable pub first_token : Text → Text
first_token [] = []
first_token (c ∷ text) = let rest = first_token text in if c == b';' then [] else c ∷ rest

pub later_tokens : Text → List Text
unfolding first_token
later_tokens [] = []
later_tokens (c ∷ text) =
    let rest = later_tokens text in if c == b';' then first_token text ∷ rest else rest

abbrev pub tokens : Text → List Text
tokens text = first_token text ∷ later_tokens text

-- A token that begins with `fs` in any case.
pub is_fs : Text → Bool
is_fs (c ∷ d ∷ token) = (c == b'f' || c == b'F') && (d == b's' || d == b'S')
is_fs _ = false

pub first_fs : List Text → Option Text
unfolding is_fs
first_fs [] = none
first_fs (t ∷ ts) = if is_fs t then some t else first_fs ts

abbrev tokens_from : Bool → Text → List Text
tokens_from true text = tokens text
tokens_from false text = later_tokens text

find_from-first_fs :
    (first : Bool) (text : Text)
    → Option.map first_token (find_from first text) ≡ first_fs (tokens_from first text)
unfolding find_from first_token later_tokens first_fs
find_from-first_fs true [] = refl
find_from-first_fs false [] = refl
find_from-first_fs true (c ∷ []) = ground arith
find_from-first_fs false (c ∷ []) = ground arith
find_from-first_fs true (c ∷ d ∷ text) =
    ground (arith, find_from-first_fs true (d ∷ text), find_from-first_fs false (d ∷ text))
find_from-first_fs false (c ∷ d ∷ text) =
    ground (arith, find_from-first_fs true (d ∷ text), find_from-first_fs false (d ∷ text))

-- `MapFindFsAlias` points at the first alias, between semicolons, that begins with `fs` in any
-- case, and is NULL exactly when no alias does.
pub map_find_fs_alias-first_fs :
    (map_names : Text)
    → Option.map first_token (map_find_fs_alias (some map_names)) ≡ first_fs (tokens map_names)
unfolding map_find_fs_alias
map_find_fs_alias-first_fs map_names = find_from-first_fs true map_names

-- The last index of the buffer is `len + n`.
alias_length-take :
    (alias : Text) (name_size n len : ℕ)
    → sub_64 name_size 1 ≡ len + n
    → alias_length alias name_size len ≡ len + length (take n (first_token alias))
unfolding alias_length first_token
alias_length-take [] name_size zero len last = omega arith
alias_length-take [] name_size (suc n) len last = omega arith
alias_length-take (c ∷ alias) name_size zero len last = rw last (ground arith)
alias_length-take (c ∷ alias) name_size (suc n) len last =
    let ih = alias_length-take alias name_size n (len + 1) (omega (arith, last)) in
    rw last (ground (arith, ih))

take-first_token :
    (n : ℕ) (alias : Text)
    → take (length (take n (first_token alias))) alias ≡ take n (first_token alias)
unfolding first_token
take-first_token zero alias = refl
take-first_token (suc n) [] = refl
take-first_token (suc n) (c ∷ alias) = elim (Bool-cases (c == b';')) [
  | inl e ↦ rw e
  | inr e ↦ rw (e, take-first_token n alias)
]

length-take_le : (n : ℕ) (xs : Text) → length (take n xs) ≤ n
length-take_le n xs = omega (arith, length-take n xs)

-- If StrnCpyS keeps its contract and the size of the buffer is at least 1 and below 2^64, the range
-- of UINTN, then `MapCopyAlias` copies the alias up to its semicolon, cut to what fits the buffer
-- with the terminator.
pub map_copy_alias-first_token :
    (lib : StringLib)
    → IsStringLib lib
    → (alias name : Text) (name_size : ℕ) → 0 < name_size
    → name_size < u64_mod
    → map_copy_alias lib alias name name_size ≡ take (name_size - 1) (first_token alias)
unfolding map_copy_alias
map_copy_alias-first_token lib ok alias name name_size h fits =
    let n : ℕ = name_size - 1 in
    let token : Text = first_token alias in
    ap (lib.strn_cpy_s name name_size alias)
      (alias_length-take alias name_size n 0 (omega arith) ∙ add.zero _)
    ∙ ok.strn_cpy_s-fits name name_size alias _ (omega (arith, length-take_le n token))
    ∙ take-first_token n alias
