-- ===== src/Tests/Working.antt =====
-- A machine on which nothing fails.
use mount.Prelude.{
  ℕ, suc, ◌+◌, ◌≤◌, ◌≡◌, refl, sym, Option, none, some, List, [], ◌∷◌, arith, Text, codes,
}
use mount.Efi.{
  Status, efi_not_found, Ptr, Event, Log, Firmware, hit_other, allocs, frees, installed_at, Works,
  FindsInstalled, ListsHandles, ReportsSizes,
}
use mount.LoopDxe.Factory.Create.{Appends}
use mount.LoopDxe.Factory.Ledger.{IsHonest}
use mount.MapReport.Refresh.Complete.{FreeSoon}
use mount.Mount.Machine.{IsMachine}
use mount.LoopDisk.Create.Blocks.{OpensImage}
use mount.Tests.Demo.{bytes, length-bytes, demo}

-- An address that no log entry of the pool has.
abbrev pub top : Log → ℕ
top [] = 0
top (Event.allocated p ∷ l) = p + top l
top (Event.freed p ∷ l) = p + top l
top (_ ∷ l) = top l

pub above : (q : Ptr) (l : Log) → suc (top l) ≤ q → (allocs q l ≡ 0) × (frees q l ≡ 0)
above q [] h = (refl, refl)
above q (Event.allocated p ∷ l) h = ground (arith, above q l, hit_other q p)
above q (Event.freed p ∷ l) h = ground (arith, above q l, hit_other q p)
above q (e ∷ l) h = ground (arith, above q l)

-- The firmware of the other examples, with fresh memory and handles that are found.
abbrev pub at_or_null : Option Ptr → Status × Ptr
at_or_null none = (efi_not_found, 0)
at_or_null (some p) = (0, p)

-- Such a machine, on which the Shell hands out the given arguments.
abbrev pub machine : List Text → Firmware
machine arguments = record (demo 0x8000) {
  arguments = λ l. (0, arguments);
  allocate = λ l n. suc (top l);
  block_io_of = λ l h. at_or_null (installed_at h l);
  block_io2_of = λ l h. at_or_null (installed_at h l);
}

pub machine-Works : (arguments : List Text) → Works (machine arguments)
unfolding demo
machine-Works arguments = record {
  allocates = λ l n. omega arith;
  factory = λ l. refl;
  shell = λ l. refl;
  resolves = λ l name. (_, refl);
  appends = λ l path node. (_, refl);
  installs = λ l path p. (90, omega arith, refl);
  finds = λ l h p e. rw e (refl, refl);
  uninstalls = λ l h p. refl;
}

pub machine-FindsInstalled : (arguments : List Text) → FindsInstalled (machine arguments)
unfolding demo
machine-FindsInstalled arguments l h p e = rw e refl

pub machine-IsHonest : (arguments : List Text) → IsHonest (machine arguments)
unfolding demo
machine-IsHonest arguments = record {
  fresh = λ l n there. omega (arith, above (suc (top l)) l (omega arith));
  unsigned = λ l p e. omega (arith, e);
}

pub machine-Appends : (arguments : List Text) → Appends (machine arguments)
unfolding demo
machine-Appends arguments l path node made e = ground arith

pub machine-ListsHandles : (arguments : List Text) → ListsHandles (machine arguments)
unfolding demo
machine-ListsHandles arguments = record {
  given = λ l protocol fine. omega arith;
  refused = λ l protocol bad. absurd (cc);
}

pub machine-FreeSoon : (arguments : List Text) → FreeSoon (machine arguments) 1
unfolding demo
machine-FreeSoon arguments l = (0, omega arith, refl)

pub machine-ReportsSizes : (arguments : List Text) → ReportsSizes (machine arguments)
unfolding demo
machine-ReportsSizes arguments l file = omega arith

pub machine-IsMachine : (arguments : List Text) → IsMachine (machine arguments) 1
machine-IsMachine arguments = record {
  honest = machine-IsHonest arguments;
  appends = machine-Appends arguments;
  lists = machine-ListsHandles arguments;
  soon = machine-FreeSoon arguments;
}

-- It has an image of 16 blocks.
abbrev pub iso_name : Text
iso_name = codes "boot.iso"

pub machine-OpensImage :
    (arguments : List Text) → OpensImage (machine arguments) iso_name 30 (bytes 0x8000 0)
unfolding demo
machine-OpensImage arguments = record {
  named = λ l. refl;
  sized = λ l. sym (length-bytes 0x8000 0);
  holds = λ l still. record { seek = λ p. refl; read = λ p n. refl };
  fits = omega (arith, length-bytes 0x8000 0);
}

pub machine-measured : (arguments : List Text) (l : Log) → ((machine arguments).info_of l 30).1 ≡ 0
unfolding demo
machine-measured arguments l = refl
