-- ===== src/Efi/Balance.antt =====
-- Counts of what a log has allocated and freed, opened and closed.
use mount.Prelude.{◌<◌, arith, ℕ, ◌+◌, ◌≡◌, ◌≢◌, ◌≤◌, [], ◌∷◌, ◌==◌, if◌then◌else◌}
use mount.Efi.Types.{Ptr, Log, Event}
use mount.Efi.Machine.{State}

-- 1 if the two pointers are one. It stays shut: sums of these need no case split.
pub hit : Ptr → Ptr → ℕ
hit q p = if q == p then 1 else 0

pub hit_self : (p : Ptr) → hit p p ≡ 1
unfolding hit
hit_self p = ground arith

pub hit_other : (q p : Ptr) → q ≢ p → hit q p ≡ 0
unfolding hit
hit_other q p ne = ground arith

abbrev pub allocs : Ptr → Log → ℕ
allocs q [] = 0
allocs q (Event.allocated p ∷ l) = hit q p + allocs q l
allocs q (_ ∷ l) = allocs q l

abbrev pub frees : Ptr → Log → ℕ
frees q [] = 0
frees q (Event.freed p ∷ l) = hit q p + frees q l
frees q (_ ∷ l) = frees q l

-- Files opened, in a volume or by name, and volumes' root directories.
abbrev pub opens : Ptr → Log → ℕ
opens q [] = 0
opens q (Event.opened name f ∷ l) = hit q f + opens q l
opens q (Event.volume_opened h f ∷ l) = hit q f + opens q l
opens q (_ ∷ l) = opens q l

abbrev pub closes : Ptr → Log → ℕ
closes q [] = 0
closes q (Event.closed f ∷ l) = hit q f + closes q l
closes q (_ ∷ l) = closes q l

-- A file is open: it has been opened more often than closed.
abbrev pub IsOpen : Ptr → Log → Type 0
IsOpen file l = closes file l < opens file l

-- Between the two states every pool block is freed as often as it is allocated.
abbrev pub PoolBalanced : State → State → Type 0
PoolBalanced s t = (q : Ptr) → allocs q t.log + frees q s.log ≡ frees q t.log + allocs q s.log

-- Between the two states every file is closed as often as it is opened.
abbrev pub FilesBalanced : State → State → Type 0
FilesBalanced s t = (q : Ptr) → opens q t.log + closes q s.log ≡ closes q t.log + opens q s.log

-- Whatever memory is live after the calls of `l` is live after those of `m`.
abbrev pub LiveStays : (l m : Log) → Type 0
LiveStays l m = (q : Ptr) → allocs q l + frees q m ≤ allocs q m + frees q l

-- At one address: memory and files are balanced, and the loop disk is as before.
pub record NeutralAt (q : Ptr) (s t : State) : Type 0 where
  pub pool : allocs q t.log + frees q s.log ≡ frees q t.log + allocs q s.log
  pub files : opens q t.log + closes q s.log ≡ closes q t.log + opens q s.log
  pub disk : t.disks q ≡ s.disks q

-- The same at every address.
abbrev pub Neutral : State → State → Type 0
Neutral s t = (q : Ptr) → NeutralAt q s t

pub Neutral-trans : (s t u : State) → Neutral s t → Neutral t u → Neutral s u
Neutral-trans s t u a b q = ground (arith, a q, b q)
