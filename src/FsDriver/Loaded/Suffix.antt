-- ===== src/FsDriver/Loaded/Suffix.antt =====
-- The match of a driver's path at the end of an image's path.
use mount.Prelude.{
  ℕ, zero, suc, ◌+◌, ◌-◌, ◌≤◌, ◌<◌, ◌≡◌, refl, ap, ◌∙◌, ◌↔◌, ◌⊎◌, inl, inr, true, [], ◌∷◌, ◌++◌,
  arith, ==_refl, length, length-append, get_or, take, drop, Text, text_eq_refl, text_eq_iff,
}
use mathlib.Core.Path.{ap₂}
use mount.FsDriver.Loaded.{ends_with_file}

-- The path is the file, or ends with a backslash and the file.
abbrev pub EndsWith : (text driver_file : Text) → Type 0
EndsWith text driver_file =
    (text ≡ driver_file) ⊎ ((folder : Text) × (text ≡ folder ++ b'\\' ∷ driver_file))

ends_with_file_self : (file : Text) → ends_with_file file file ≡ true
unfolding ends_with_file
ends_with_file_self file =
    let e : length file - length file ≡ 0 = omega arith in
    rw (e, text_eq_refl file, ==_refl (length file)) (ground arith)

get_or-append_length : (xs ys : Text) (y : ℕ) → get_or (xs ++ y ∷ ys) (length xs) 0 ≡ y
get_or-append_length [] ys y = refl
get_or-append_length (x ∷ xs) ys y = get_or-append_length xs ys y

drop-append_suc : (xs ys : Text) (y : ℕ) → drop (suc (length xs)) (xs ++ y ∷ ys) ≡ ys
drop-append_suc [] ys y = refl
drop-append_suc (x ∷ xs) ys y = drop-append_suc xs ys y

ends_with_file-folder : (folder file : Text) → ends_with_file (folder ++ b'\\' ∷ file) file ≡ true
unfolding ends_with_file
ends_with_file-folder folder file =
    let n : length (folder ++ b'\\' ∷ file) ≡ length folder + suc (length file) =
      length-append folder (b'\\' ∷ file) in
    let m : length folder + suc (length file) - length file ≡ suc (length folder) = omega arith in
    let k : suc (length folder) - 1 ≡ length folder = omega arith in
    rw
      (
        n,
        m,
        drop-append_suc folder file b'\\',
        text_eq_refl file,
        k,
        get_or-append_length folder file b'\\',
      )
      (ground arith)

-- A text around the position n.
split_at :
    (n : ℕ) (text : Text)
    → n < length text
    → text ≡ take n text ++ get_or text n 0 ∷ drop (suc n) text
split_at n [] h = absurd (omega arith)
split_at zero (c ∷ text) h = refl
split_at (suc n) (c ∷ text) h = ap (λ t. c ∷ t) (split_at n text (omega arith))

EndsWith-drop :
    (m : ℕ) (text file : Text)
    → m ≤ length text
    → drop m text ≡ file
    → (m ≡ 0) ⊎ (get_or text (m - 1) 0 ≡ b'\\')
    → EndsWith text file
EndsWith-drop zero text file h e at = inl e
EndsWith-drop (suc m) text file h e (inl zeroed) = absurd (omega arith)
EndsWith-drop (suc m) text file h e (inr slash) =
    let k : suc m - 1 ≡ m = omega arith in
    let at = rw k at slash in
    inr (
      take m text,
      split_at m text (omega arith) ∙ ap₂ (λ (c : ℕ) (t : Text). take m text ++ c ∷ t) at e,
    )

ends_with_file-EndsWith : (text file : Text) → ends_with_file text file ≡ true → EndsWith text file
unfolding ends_with_file
ends_with_file-EndsWith text file h =
    EndsWith-drop (length text - length file) text file (omega arith)
      ((text_eq_iff (drop (length text - length file) text) file).0 (ground arith)) (ground arith)

-- The three tests of `MountDriverLoaded` hold exactly when the image's path is the driver's file or
-- ends with it behind a backslash, that is, on the boundary of a path component.
pub ends_with_file_iff : (text file : Text) → (ends_with_file text file ≡ true) ↔ EndsWith text file
ends_with_file_iff text file = (ends_with_file-EndsWith text file, back)
  where
    back : EndsWith text file → ends_with_file text file ≡ true
    back (inl e) = rw e (ends_with_file_self file)
    back (inr (folder, e)) = rw e (ends_with_file-folder folder file)
