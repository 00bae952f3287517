-- ===== src/Tests/Keeping.antt =====
-- A machine on which nothing fails, with a file system that keeps what is written.
use mount.Prelude.{
  ◌≡◌, refl, Option, none, some, List, [], arith, length, take, drop, Text, codes, ◌∷◌,
}
use mount.Efi.{efi_success, Byte, Log, Firmware, stored, Works, KeepsFile, Neutral}
use mount.LoopDisk.SelfTest.{selftest_path}
use mount.SelfTest.{mount_self_test}
use mount.SelfTest.Balance.{mount_self_test-Neutral}
use mount.Formats.{formats}
use mount.FsDriver.SelfPath.{mount_get_self_dir, last_slash, last_file_path}
use mount.SelfTest.Present.{HasDrivers}
use mount.Mount.{uefi_main}
use mount.Mount.Dispatch.{greeted}
use mount.Mount.Passes.{uefi_main-selftest}
use mount.Tests.Demo.{start, position, demo}
use mount.Tests.Working.{machine}

-- A file system that keeps what is written through pointer 33.
abbrev stored_or_empty : Option (List Byte) → List Byte
stored_or_empty none = []
stored_or_empty (some content) = content

abbrev contents : Log → List Byte
contents l = stored_or_empty (stored 33 l)

abbrev selftest_arguments : List Text
selftest_arguments = codes "mount.efi" ∷ codes "selftest" ∷ []

abbrev keeping : Firmware
keeping = record (machine selftest_arguments) {
  file_system_of = λ l h. 0;
  info_of = λ l file. (100, 0, length (contents l));
  read_of = λ l file n. (0, take n (drop (position l) (contents l)));
}

keeping-Works : Works keeping
unfolding demo
keeping-Works = record {
  allocates = λ l n. omega arith;
  factory = λ l. refl;
  shell = λ l. refl;
  resolves = λ l name. (_, refl);
  appends = λ l path node. (_, refl);
  installs = λ l path p. (90, omega arith, refl);
  finds = λ l h p e. rw e (refl, refl);
  uninstalls = λ l h p. refl;
}

keeping-KeepsFile : KeepsFile keeping selftest_path 33 30
unfolding demo
keeping-KeepsFile = record {
  there = omega arith;
  creates = λ l. refl;
  writes = λ l content. refl;
  opens_again = λ l content e. refl;
  measures = λ l content e. rw e (refl, refl);
  reads_back = λ l content e. record { seek = λ p. refl; read = λ p n. rw e refl };
}

-- mount.efi lies in a directory of volume 3.
its_place : (l : Log) → mount_get_self_dir keeping l ≡ (efi_success, 3, codes "efi")
unfolding mount_get_self_dir last_slash last_file_path demo
its_place l = refl

keeping-HasDrivers : HasDrivers keeping [] formats 3 (codes "efi") 31
unfolding demo
keeping-HasDrivers = record {
  located = its_place;
  file_system = λ l. refl;
  root_opens = λ l. refl;
  files = (λ l. refl, (λ l. refl, (λ l. refl, (λ l. refl, tt))));
}

selftest_given :
    keeping.arguments (greeted start).log ≡ (efi_success, codes "mount.efi" ∷ codes "selftest" ∷ [])
unfolding demo
selftest_given = refl

uefi_main-selftest_example :
    ((uefi_main keeping 1 [] start).0 ≡ some efi_success)
    × Neutral start (uefi_main keeping 1 [] start).1
uefi_main-selftest_example =
    uefi_main-selftest keeping 1 [] keeping-Works 33 30 keeping-KeepsFile 3 (codes "efi") 31
      keeping-HasDrivers start (λ l n stays there. refl) (codes "mount.efi") [] selftest_given

mount_self_test-Neutral_example : Neutral start (mount_self_test keeping [] start).1
mount_self_test-Neutral_example =
    mount_self_test-Neutral keeping [] keeping-Works 33 30 keeping-KeepsFile start
      (λ l n stays there. refl)
