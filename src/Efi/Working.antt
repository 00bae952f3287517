-- ===== src/Efi/Working.antt =====
-- A machine on which nothing fails: its services, and a file system that keeps what is written.
use mount.Prelude.{
  ℕ, ◌≡◌, ◌≢◌, Option, none, some, List, [], ◌∷◌, ◌==◌, if◌then◌else◌, Text, length,
}
use mount.Efi.Types.{Ptr, Handle, Byte, Node, DevicePath, Log, Event, efi_error}
use mount.Efi.Services.{Firmware, HoldsBytesAt}

-- What was last written to a file, if nothing was deleted since.
abbrev pub stored : Ptr → Log → Option (List Byte)
stored file [] = none
stored file (Event.written f content ∷ l) =
    let rest = stored file l in if f == file then some content else rest
stored file (Event.deleted name ∷ l) = none
stored file (_ ∷ l) = stored file l

-- The loop disk whose protocols are installed on a handle.
abbrev pub installed_at : Handle → Log → Option Ptr
installed_at h [] = none
installed_at h (Event.loop_installed path p status handle ∷ l) =
    let rest = installed_at h l in
    if efi_error status then rest else if handle == h then some p else rest
installed_at h (Event.loop_uninstalled handle p status ∷ l) =
    let rest = installed_at h l in
    if efi_error status then rest else if handle == h then none else rest
installed_at h (_ ∷ l) = installed_at h l

-- HandleProtocol finds on a handle the BlockIo of the loop disk that was installed on it.
abbrev pub FindsInstalled : Firmware → Type 0
FindsInstalled fw =
    (l : Log) (h : Handle) (p : Ptr) → installed_at h l ≡ some p → fw.block_io_of l h ≡ (0, p)

-- Memory does not run out, the loop factory and the Shell are there, device paths can be made, and
-- protocols can be installed, found and uninstalled.
pub record Works (fw : Firmware) : Type 0 where
  pub allocates : (l : Log) (size : ℕ) → fw.allocate l size ≢ 0
  pub factory : (l : Log) → fw.locate_factory l ≡ 0
  pub shell : (l : Log) → fw.locate_shell l ≡ 0
  pub resolves :
      (l : Log) (name : Text) → (path : DevicePath) × (fw.path_of_file l name ≡ some path)
  pub appends :
      (l : Log) (path : DevicePath) (node : Node)
      → (made : DevicePath) × (fw.append_node l path node ≡ some made)
  pub installs :
      (l : Log) (path : DevicePath) (p : Ptr)
      → (handle : Handle) × (handle ≢ 0) × (fw.install_loop_of l path p ≡ (0, handle))
  pub finds :
      (l : Log) (h : Handle) (p : Ptr)
      → installed_at h l ≡ some p
      → (fw.block_io_of l h ≡ (0, p)) × (fw.block_io2_of l h ≡ (0, p))
  pub uninstalls : (l : Log) (h : Handle) (p : Ptr) → fw.uninstall_loop_of l h p ≡ 0

-- A file that can be created and written through one pointer, and that afterwards can be opened by
-- its name, measured and read through another.
pub record KeepsFile (fw : Firmware) (name : Text) (made file : Ptr) : Type 0 where
  pub there : file ≢ 0
  pub creates : (l : Log) → fw.create_by_name l name ≡ (0, made)
  pub writes : (l : Log) (content : List Byte) → fw.write_of l made content ≡ (0, length content)
  pub opens_again :
      (l : Log) (content : List Byte)
      → stored made l ≡ some content
      → fw.open_by_name l name ≡ (0, file)
  pub measures :
      (l : Log) (content : List Byte)
      → stored made l ≡ some content
      → ((fw.info_of l file).1 ≡ 0) × ((fw.info_of l file).2 ≡ length content)
  pub reads_back :
      (l : Log) (content : List Byte)
      → stored made l ≡ some content
      → HoldsBytesAt fw l file content
