-- ===== src/LoopDisk/Sniff/Content.antt =====
-- What the sniff says of an image file.
use native.Mathlib.Decide.{dec_lt}
use mount.Prelude.{
  ℕ, zero, suc, ◌+◌, ◌-◌, ◌*◌, ◌≤◌, ◌<◌, String, ◌≡◌, refl, sym, ap, ◌∙◌, ◌≢◌, ◌↔◌, ◌⊎◌, inl, inr,
  Bool, true, false, ◌||◌, List, [], ◌∷◌, arith, ◌==◌, length, take, drop, length-take, length-drop,
  Text, codes, text_eq_iff,
}
use mount.Efi.{Ptr, Byte, Firmware, HoldsBytes, State}
use Prim.Native.Nat.add
use mount.LoopDisk.Sniff.{block, stands_at, is_iso9660, is_udf, loop_sniff}

-- The tag stands at byte 1 of a sector of the image.
abbrev pub HasTag : (image : List Byte) (sector : ℕ) → String → Type 0
HasTag image sector tag = take 5 (drop (sector * block + 1) image) ≡ codes tag

-- The sectors in which the sniff looks for UDF descriptors.
abbrev pub HasUdf : List Byte → Type 0
HasUdf image =
    HasTag image 16 "BEA01"
    ⊎ HasTag image 17 "BEA01"
    ⊎ HasTag image 18 "NSR02"
    ⊎ HasTag image 18 "NSR03"
    ⊎ HasTag image 19 "NSR02"
    ⊎ HasTag image 19 "NSR03"

drop-nil : (n : ℕ) → drop {A = ℕ} n [] ≡ []
drop-nil zero = refl
drop-nil (suc n) = refl

drop-drop : (m n : ℕ) (xs : List ℕ) → drop m (drop n xs) ≡ drop (n + m) xs
drop-drop m zero xs = ap (λ (k : ℕ). drop k xs) (sym (add.zero m))
drop-drop m (suc n) [] = drop-nil m ∙ sym (drop-nil (suc n + m))
drop-drop m (suc n) (x ∷ xs) = drop-drop m n xs ∙ rw (add.suc n m)

take-take : (m n : ℕ) (xs : List ℕ) → m ≤ n → take m (take n xs) ≡ take m xs
take-take zero n xs h = refl
take-take (suc m) zero xs h = absurd (omega arith)
take-take (suc m) (suc n) [] h = refl
take-take (suc m) (suc n) (x ∷ xs) h = ap (λ ys. x ∷ ys) (take-take m n xs (omega arith))

drop-take : (m n : ℕ) (xs : List ℕ) → drop m (take (m + n) xs) ≡ take n (drop m xs)
drop-take zero n xs = rw (add.zero n)
drop-take (suc m) zero [] = rw (add.suc m 0)
drop-take (suc m) (suc n) [] = rw (add.suc m (suc n))
drop-take (suc m) n (x ∷ xs) = rw (add.suc m n) (drop-take m n xs)

-- A short piece of a window of the image is that piece of the image.
window :
    (image : List ℕ) (start size offset count : ℕ)
    → offset + count ≤ size
    → take count (drop offset (take size (drop start image)))
      ≡ take count (drop (start + offset) image)
window image start size offset count h =
    let split : size ≡ offset + (size - offset) = omega arith in
    ap (λ (k : ℕ). take count (drop offset (take k (drop start image)))) split
    ∙ ap (take count) (drop-take offset (size - offset) (drop start image))
    ∙ take-take count (size - offset) (drop offset (drop start image)) (omega arith)
    ∙ ap (take count) (drop-drop offset start image)

length-window :
    (image : List ℕ) (start size : ℕ)
    → start + size ≤ length image
    → length (take size (drop start image)) ≡ size
length-window image start size h =
    omega (arith, length-take size (drop start image), length-drop start image)

short-window :
    (image : List ℕ) (start size : ℕ)
    → length image < start + size
    → 0 < size
    → (length (take size (drop start image)) == size) ≡ false
short-window image start size h some_size =
    let a = length-take size (drop start image) in
    let b = length-drop start image in
    let ne : length (take size (drop start image)) ≢ size = omega arith in
    different (length (take size (drop start image))) size ne
  where
    different : (m n : ℕ) → m ≢ n → (m == n) ≡ false
    different m n ne = ground arith

-- The six sectors that are read.
abbrev sectors : List Byte → List Byte
sectors image = take 0x3000 (drop 0x8000 image)

stands_at_iff :
    (image : List Byte) (offset : ℕ) (tag : Text)
    → offset + 5 ≤ 0x3000
    → (stands_at (sectors image) offset tag ≡ true) ↔ (take 5 (drop (0x8000 + offset) image) ≡ tag)
unfolding stands_at
stands_at_iff image offset tag h =
    rw (window image 0x8000 0x3000 offset 5 h)
      (text_eq_iff (take 5 (drop (0x8000 + offset) image)) tag)

is_iso9660_iff : (image : List Byte) → (is_iso9660 (sectors image) ≡ true) ↔ HasTag image 16 "CD001"
unfolding is_iso9660
is_iso9660_iff image = stands_at_iff image 1 (codes "CD001") (omega arith)

or_iff : (a b : Bool) {P Q : Type 0} → (a ≡ true) ↔ P → (b ≡ true) ↔ Q → ((a || b) ≡ true) ↔ (P ⊎ Q)
or_iff true b p q = (λ e. inl (p.0 refl), λ h. refl)
or_iff false b p q = (λ e. inr (q.0 e), elim [ inl h ↦ absurd (cc (p.1 h)) | inr h ↦ q.1 h ])

is_udf_iff : (image : List Byte) → (is_udf (sectors image) ≡ true) ↔ HasUdf image
unfolding is_udf
is_udf_iff image = or_iff _ _ (stands_at_iff image 1 (codes "BEA01") (omega arith)) (
    or_iff _ _ (stands_at_iff image 2049 (codes "BEA01") (omega arith)) (
      or_iff _ _ (stands_at_iff image 4097 (codes "NSR02") (omega arith)) (
        or_iff _ _ (stands_at_iff image 4097 (codes "NSR03") (omega arith)) (
          or_iff _ _ (stands_at_iff image 6145 (codes "NSR02") (omega arith))
            (stands_at_iff image 6145 (codes "NSR03") (omega arith))))))

module _ (fw : Firmware) (file : Ptr) (image : List Byte) (holds : HoldsBytes fw file image)
    (s : State) where
  loop_sniff-sectors :
      0xb000 ≤ length image
      → (loop_sniff fw file s).0 ≡ (is_iso9660 (sectors image), is_udf (sectors image))
  unfolding loop_sniff
  loop_sniff-sectors long =
      rw ((holds _).seek, (holds _).read, length-window image 0x8000 0x3000 (omega arith))

  pub loop_sniff-short : length image < 0xb000 → (loop_sniff fw file s).0 ≡ (false, false)
  unfolding loop_sniff
  loop_sniff-short short =
      rw ((holds _).seek, (holds _).read, short-window image 0x8000 0x3000 short (omega arith))

  -- Of an unchanged image file the sniff says ISO9660 exactly when the file has 22 sectors or more
  -- and `CD001` stands at byte 1 of sector 16, and UDF exactly when the file has 22 sectors or more
  -- and `BEA01` stands there in sector 16 or 17, or `NSR02` or `NSR03` in sector 18 or 19.
  pub loop_sniff_iff :
      (((loop_sniff fw file s).0.0 ≡ true) ↔ ((0xb000 ≤ length image) × HasTag image 16 "CD001"))
      × (((loop_sniff fw file s).0.1 ≡ true) ↔ ((0xb000 ≤ length image) × HasUdf image))
  loop_sniff_iff = elim (dec_lt (length image) 0xb000) [
    | yes short ↦ rw (loop_sniff-short short) (
      ((λ e. absurd (cc)), λ h. absurd (omega (arith, h.0))),
      ((λ e. absurd (cc)), λ h. absurd (omega (arith, h.0))),
    )
    | no long ↦
        let enough : 0xb000 ≤ length image = omega arith in
        let iso = is_iso9660_iff image in
        let udf = is_udf_iff image in
        rw (loop_sniff-sectors enough)
          (((λ e. (enough, iso.0 e)), λ h. iso.1 h.1), ((λ e. (enough, udf.0 e)), λ h. udf.1 h.1))
  ]
