-- ===== src/Efi/Services.antt =====
-- The services that the program calls. Each answer is a function of the calls made so far.
use mount.Prelude.{
  u64_mod, true, ◌≢◌, false, drop, ℕ, ◌+◌, ◌*◌, ◌<◌, ◌≤◌, ◌≡◌, Option, List, ◌∷◌, ◌++◌, min, Text,
  length, take,
}
use mount.Efi.Types.{
  efi_error, LoopDisk, Event, Status, Ptr, Handle, Byte, Node, DevicePath, Protocol, Log,
}

-- BaseLib's StrnCpyS and PrintLib's UnicodeSPrint: the contents of the destination afterwards.
pub record StringLib : Type 0 where
  -- StrnCpyS (Destination, DestMax, Source, Length)
  pub strn_cpy_s : (destination : Text) (dest_max : ℕ) (source : Text) (count : ℕ) → Text
  -- UnicodeSPrint (Buffer, BufferSize, L"%s\\%s", Dir, Relative)
  pub s_print_path : (buffer_size : ℕ) (dir relative : Text) → Text
  -- UnicodeSPrint (Buffer, BufferSize, L"fs%u:", Index)
  pub s_print_fs : (buffer_size index : ℕ) → Text

-- EFI_LOADED_IMAGE_PROTOCOL, the two fields that are read.
pub record LoadedImage : Type 0 where
  pub device_handle : Handle
  pub file_path : Option DevicePath

pub record Firmware : Type 0 where
  pub strings : StringLib
  -- gImageHandle
  pub image_handle : Handle
  -- LocateHandleBuffer: the status, the buffer and the handles in it.
  pub locate_handle_buffer : Log → Protocol → Status × Ptr × List Handle
  -- HandleProtocol for EFI_LOADED_IMAGE_PROTOCOL, and for the presence of a file system.
  pub loaded_image_of : Log → Handle → Status × LoadedImage
  pub file_system_of : Log → Handle → Status
  -- HandleProtocol for BlockIo: the LOOP_DISK that BASE_CR computes from the interface.
  pub block_io_of : Log → Handle → Status × Ptr
  pub block_io2_of : Log → Handle → Status × Ptr
  -- What reads as a LOOP_DISK at such an address where the driver keeps none.
  pub memory_as_disk : Log → Ptr → LoopDisk
  -- HandleProtocol for the Shell parameters: Argv.
  pub arguments : Log → Status × List Text
  -- LocateProtocol for the loop factory and for the Shell.
  pub locate_factory : Log → Status
  pub locate_shell : Log → Status
  pub load_image_of : Log → DevicePath → Status × Ptr
  pub start_image_of : Log → Ptr → Status
  pub connect : Log → Handle → Status
  pub install_factory_of : Log → Status
  pub install_loop_of : Log → DevicePath → Ptr → Status × Handle
  pub uninstall_loop_of : Log → Handle → Ptr → Status
  -- Pool allocation: 0 when it fails.
  pub allocate : Log → ℕ → Ptr
  -- DevicePathLib: `none` is NULL, and the result is a fresh allocation.
  pub append_node : Log → DevicePath → Node → Option DevicePath
  pub file_device_path : Log → Handle → Text → Option DevicePath
  pub path_to_text : Log → DevicePath → Option (Ptr × Text)
  pub path_of_handle : Log → Handle → Option DevicePath
  -- Files: ShellOpenFileByName to read, and to create and write.
  pub open_by_name : Log → Text → Status × Ptr
  pub create_by_name : Log → Text → Status × Ptr
  pub info_of : Log → Ptr → ℕ × Status × ℕ
  pub set_position_of : Log → Ptr → ℕ → Status
  pub read_of : Log → Ptr → ℕ → Status × List Byte
  pub write_of : Log → Ptr → List Byte → Status × ℕ
  pub open_volume_of : Log → Handle → Status × Ptr
  pub open_in_volume : Log → Ptr → Text → Status × Ptr
  pub label_of : Log → Ptr → Status × Text
  -- EFI_SHELL_PROTOCOL
  pub path_of_file : Log → Text → Option DevicePath
  pub map_of_path : Log → DevicePath → Option Text
  pub path_of_map : Log → Text → Option DevicePath
  pub set_map_of : Log → DevicePath → Text → Status

-- What the documentation of the string functions says.
pub record IsStringLib (lib : StringLib) : Type 0 where
  -- StrnCpyS copies if the text and its terminator fit, and leaves the destination alone if not.
  pub strn_cpy_s-fits :
      (destination : Text) (dest_max : ℕ) (source : Text) (count : ℕ)
      → min (length source) count < dest_max
      → lib.strn_cpy_s destination dest_max source count ≡ take count source
  pub strn_cpy_s-short :
      (destination : Text) (dest_max : ℕ) (source : Text) (count : ℕ)
      → dest_max ≤ min (length source) count
      → lib.strn_cpy_s destination dest_max source count ≡ destination
  -- UnicodeSPrint prints the whole text if it and its terminator fit.
  pub s_print_path-fits :
      (buffer_size : ℕ) (dir relative : Text)
      → 2 * (length dir + length relative + 2) ≤ buffer_size
      → lib.s_print_path buffer_size dir relative ≡ dir ++ b'\\' ∷ relative

-- What an open file holds after the calls of a log: seeking succeeds, and a read directly after it
-- returns the bytes from there on, as many as there are.
pub record HoldsBytesAt (fw : Firmware) (l : Log) (file : Ptr) (content : List Byte) : Type 0 where
  pub seek : (position : ℕ) → fw.set_position_of l file position ≡ 0
  pub read :
      (position size : ℕ)
      → fw.read_of (Event.positioned file position ∷ l) file size
        ≡ (0, take size (drop position content))

-- A file that nobody changes.
abbrev pub HoldsBytes : Firmware → Ptr → List Byte → Type 0
HoldsBytes fw file content = (l : Log) → HoldsBytesAt fw l file content

-- The FileSize that EFI_FILE_INFO reports is a UINT64.
abbrev pub ReportsSizes : Firmware → Type 0
ReportsSizes fw = (l : Log) (file : Ptr) → (fw.info_of l file).2 < u64_mod

-- LocateHandleBuffer returns a buffer when it succeeds, and NULL and no handles when it fails.
pub record ListsHandles (fw : Firmware) : Type 0 where
  pub given :
      (l : Log) (protocol : Protocol)
      → efi_error (fw.locate_handle_buffer l protocol).0 ≡ false
      → (fw.locate_handle_buffer l protocol).1 ≢ 0
  pub refused :
      (l : Log) (protocol : Protocol)
      → efi_error (fw.locate_handle_buffer l protocol).0 ≡ true
      → (fw.locate_handle_buffer l protocol).1 ≡ 0
