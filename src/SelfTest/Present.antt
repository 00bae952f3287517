-- ===== src/SelfTest/Present.antt =====
-- The item on driver files passes where every file of the table can be opened.
use mount.Prelude.{◌≡◌, refl, Bool, false, some, List, [], ◌∷◌, Text, All}
use mount.Efi.{efi_success, efi_error, Ptr, Handle, Event, Log, Firmware, State}
use mount.Formats.{FormatEntry}
use mount.FsDriver.SelfPath.{mount_get_self_dir, mount_join_self_path, mount_open_driver_file}
use mount.SelfTest.{check_files}

module _ (fw : Firmware) (full : Text) where
  -- mount.efi lies in a directory of a volume, and the files of these rows can be opened beside it.
  pub record HasDrivers (es : List FormatEntry) (volume : Handle) (dir : Text) (root : Ptr)
      : Type 0 where
    pub located : (l : Log) → mount_get_self_dir fw l ≡ (efi_success, volume, dir)
    pub file_system : (l : Log) → efi_error (fw.file_system_of l volume) ≡ false
    pub root_opens : (l : Log) → fw.open_volume_of l volume ≡ (efi_success, root)
    pub files :
        All
          (λ (e : FormatEntry).
            (l : Log)
            → efi_error
                (fw.open_in_volume l root
                  (mount_join_self_path fw.strings dir e.driver_file full)).0
              ≡ false)
          es

  module _ (volume : Handle) (dir : Text) (root : Ptr) where
    mount_open_driver_file-opens :
        (e : FormatEntry) (s : State)
        → HasDrivers (e ∷ []) volume dir root
        → efi_error (mount_open_driver_file fw (some e.driver_file) full s).0.0 ≡ false
    unfolding mount_open_driver_file
    mount_open_driver_file-opens e s has =
        rw (has.located s.log, has.file_system s.log, has.root_opens s.log)
          (has.files.0 (Event.volume_opened volume root ∷ s.log))

    pub check_files-present :
        (es : List FormatEntry) (all : Bool) (s : State)
        → HasDrivers es volume dir root
        → (check_files fw full es all s).0 ≡ all
    unfolding check_files
    check_files-present [] all s has = refl
    check_files-present (e ∷ es) all s has =
        let first : HasDrivers (e ∷ []) volume dir root = record {
          located = has.located;
          file_system = has.file_system;
          root_opens = has.root_opens;
          files = (has.files.0, tt);
        } in
        let rest : HasDrivers es volume dir root = record {
          located = has.located;
          file_system = has.file_system;
          root_opens = has.root_opens;
          files = has.files.1;
        } in
        let ((status, file), t) = mount_open_driver_file fw (some e.driver_file) full s in
        rw (mount_open_driver_file-opens e s first)
          (check_files-present es all (record t { log = Event.closed file ∷ t.log }) rest)
