-- ===== src/MapReport/Handles/Fresh.antt =====
-- Which handles of a new list an older snapshot lacks.
use mount.Prelude.{◌≡◌, true, false, List, [], ◌∷◌, arith, ◌==◌, Bool-cases, inl, inr}
use mathlib.Core.List.{Memᴰ}
use mount.Efi.{Handle}
use mount.MapReport.Handles.{map_is_in_snapshot}

-- hs are the handles of `now` that `old` lacks, in order.
pub data NewIn (old : List Handle) : (now hs : List Handle) → Type 0 where
  empty : NewIn old [] []
  known :
      {h : Handle} {now hs : List Handle} → Memᴰ h old → NewIn old now hs → NewIn old (h ∷ now) hs
  fresh :
      {h : Handle} {now hs : List Handle}
      → ¬ Memᴰ h old
      → NewIn old now hs
      → NewIn old (h ∷ now) (h ∷ hs)

pub listed-Memᴰ : (h : Handle) (old : List Handle) → map_is_in_snapshot h old ≡ true → Memᴰ h old
unfolding map_is_in_snapshot
listed-Memᴰ h [] e = absurd (cc)
listed-Memᴰ h (g ∷ old) e = elim (Bool-cases (g == h)) [
  | inl same ↦ Memᴰ.head (ground arith)
  | inr other ↦ Memᴰ.tail (listed-Memᴰ h old (ground arith))
]

pub Memᴰ-listed : (h : Handle) (old : List Handle) → Memᴰ h old → map_is_in_snapshot h old ≡ true
unfolding map_is_in_snapshot
Memᴰ-listed h [] m = elim m [ ]
Memᴰ-listed h (g ∷ old) (Memᴰ.head e) = ground arith
Memᴰ-listed h (g ∷ old) (Memᴰ.tail m) = ground (arith, Memᴰ-listed h old m)

pub unlisted-Memᴰ :
    (h : Handle) (old : List Handle) → map_is_in_snapshot h old ≡ false → ¬ Memᴰ h old
unlisted-Memᴰ h old e m = absurd (ground (arith, Memᴰ-listed h old m))
