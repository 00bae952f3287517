-- ===== src/LoopDisk/SelfTest/Blocks.antt =====
-- The blocks of the pattern that the self test writes.
use mount.Prelude.{
  ℕ, zero, suc, ◌*◌, ◌≡◌, refl, ap, List, [], ◌∷◌, ◌++◌, arith, length, length-append, take, drop,
}
use mount.Efi.{Byte}
use mathlib.Core.Path.{subst}
use mount.LoopDisk.Sniff.{block}
use mount.LoopDisk.SelfTest.{filled, mark_0, mark_1, pattern}

length-filled : (count : ℕ) (value : Byte) → length (filled count value) ≡ count
unfolding filled
length-filled zero value = refl
length-filled (suc count) value = ap suc (length-filled count value)

length-mark_0 : length mark_0 ≡ 2048
unfolding mark_0
length-mark_0 = length-filled 2048 0x4d

length-mark_1 : length mark_1 ≡ 2048
unfolding mark_1
length-mark_1 = length-filled 2048 0x55

pub length-pattern : length pattern ≡ 16 * 2048
unfolding pattern
length-pattern =
    let zeros = filled (14 * block) 0 in
    omega (
      arith,
      length-append (mark_0 ++ mark_1) zeros,
      length-append mark_0 mark_1,
      length-mark_0,
      length-mark_1,
      length-filled (14 * block) 0,
    )

take-append {ℓ} : {A : Type ℓ} (xs ys : List A) → take (length xs) (xs ++ ys) ≡ xs
take-append [] ys = refl
take-append (x ∷ xs) ys = ap (λ zs. x ∷ zs) (take-append xs ys)

first_part {ℓ} : {A : Type ℓ} (xs ys zs : List A) → take (length xs) ((xs ++ ys) ++ zs) ≡ xs
first_part [] ys zs = refl
first_part (x ∷ xs) ys zs = ap (λ ws. x ∷ ws) (first_part xs ys zs)

second_part {ℓ} :
    {A : Type ℓ} (xs ys zs : List A) → take (length ys) (drop (length xs) ((xs ++ ys) ++ zs)) ≡ ys
second_part [] ys zs = take-append ys zs
second_part (x ∷ xs) ys zs = second_part xs ys zs

-- The first two blocks of the file.
pub block_0 : take block (drop (0 * 2048) pattern) ≡ mark_0
unfolding pattern
block_0 =
    let zeros = filled (14 * block) 0 in
    subst (λ n. take n ((mark_0 ++ mark_1) ++ zeros) ≡ mark_0) length-mark_0
      (first_part mark_0 mark_1 zeros)

pub block_1 : take block (drop (1 * 2048) pattern) ≡ mark_1
unfolding pattern
block_1 =
    let zeros = filled (14 * block) 0 in
    subst (λ n. take n (drop 2048 ((mark_0 ++ mark_1) ++ zeros)) ≡ mark_1) length-mark_1
      (subst (λ m. take (length mark_1) (drop m ((mark_0 ++ mark_1) ++ zeros)) ≡ mark_1)
        length-mark_0 (second_part mark_0 mark_1 zeros))
