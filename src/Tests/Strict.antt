-- ===== src/Tests/Strict.antt =====
-- A firmware whose Secure Boot refuses every driver.
use mount.Prelude.{◌≡◌, refl, Option, none, some, [], ◌∷◌, arith, ◌==◌, if◌then◌else◌, Text, codes}
use mount.Efi.{efi_security_violation, Node, DevicePath, Event, Log, Firmware}
use mathlib.Core.Path.{subst}
use mount.MapReport.Handles.{map_is_in_snapshot}
use mount.FsDriver.SelfPath.{last_file_path}
use mount.FsDriver.SelfPath.Beside.{LoadedFrom}
use mount.FsDriver.Loaded.Scan.{image_text, ImagesStay}
use mount.FsDriver.Load.Blocked.{KeepsBlocked}
use mount.Tests.Demo.{path_at, self_path, demo}

-- Secure Boot refuses every driver, and the refused image is the second one that is listed.
abbrev refused : Log → Option DevicePath
refused [] = none
refused (Event.image_loaded path status image ∷ l) = some path
refused (_ ∷ l) = refused l

unfoldable pub strict : Firmware
unfolding demo
strict = record (demo 0) {
  load_image_of = λ l path. (efi_security_violation, 60);
  loaded_image_of = λ l h.
      (0, record { device_handle = 3; file_path = if h == 1 then some self_path else refused l });
}

pub strict-ImagesStay : ImagesStay strict
unfolding strict demo image_text
strict-ImagesStay = record { allocation = λ l p h. refl; release = λ l p h. refl }

pub strict-LoadedFrom :
    (l : Log) → LoadedFrom strict l 3 self_path (codes "efi") (codes "mount.efi")
unfolding strict demo last_file_path
strict-LoadedFrom l = record { loaded = refl; named = refl; file_name = ground arith }

abbrev file_of : Option DevicePath → Option Text
file_of none = none
file_of (some path) = last_file_path path.nodes none

strict-named :
    (path : DevicePath) (file : Text)
    → some (path_at 860 (Node.file_path file ∷ [])) ≡ some path
    → last_file_path path.nodes none ≡ some file
unfolding last_file_path
strict-named path file e = subst (λ (o : Option DevicePath). file_of o ≡ some file) e refl

pub strict-KeepsBlocked : KeepsBlocked strict
unfolding strict demo image_text map_is_in_snapshot
strict-KeepsBlocked = record {
  named = λ l volume file path e. strict-named path file e;
  listed = λ l path image name e. (refl, (6, refl, rw e));
}
