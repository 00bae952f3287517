-- ===== src/Efi/Types.antt =====
-- Status codes of the UEFI specification, the exit codes of MountPkg/Include/FsDriver.h, device
-- paths, loop disks, and the log of calls.
use mount.Prelude.{Option, ℕ, Bool, List, leb, Text}

-- EFI_STATUS: 64 bits, of which the highest one marks an error.
abbrev pub Status : Type 0
Status = ℕ

abbrev pub error_bit : ℕ
error_bit = 0x8000_0000_0000_0000

abbrev pub efi_success : Status
efi_success = 0

abbrev pub efi_load_error : Status
efi_load_error = 0x8000_0000_0000_0001

abbrev pub efi_invalid_parameter : Status
efi_invalid_parameter = 0x8000_0000_0000_0002

abbrev pub efi_device_error : Status
efi_device_error = 0x8000_0000_0000_0007

abbrev pub efi_write_protected : Status
efi_write_protected = 0x8000_0000_0000_0008

abbrev pub efi_out_of_resources : Status
efi_out_of_resources = 0x8000_0000_0000_0009

abbrev pub efi_not_found : Status
efi_not_found = 0x8000_0000_0000_000e

abbrev pub efi_already_started : Status
efi_already_started = 0x8000_0000_0000_0014

abbrev pub efi_security_violation : Status
efi_security_violation = 0x8000_0000_0000_001a

-- EFI_ERROR (Status)
abbrev pub efi_error : Status → Bool
efi_error s = leb 0x8000_0000_0000_0000 s

-- The exit codes of FsDriver.h carry no error bit.
abbrev pub status_invalid_parameter : Status
status_invalid_parameter = 1

abbrev pub status_driver_missing : Status
status_driver_missing = 2

abbrev pub status_secure_boot : Status
status_secure_boot = 3

abbrev pub status_iso_error : Status
status_iso_error = 4

-- Pointers and handles; 0 is NULL.
abbrev pub Ptr : Type 0
Ptr = ℕ

abbrev pub Handle : Type 0
Handle = ℕ

abbrev pub Byte : Type 0
Byte = ℕ

-- EFI_GUID
pub record Guid : Type 0 where
  pub data1 : ℕ
  pub data2 : ℕ
  pub data3 : ℕ
  pub data4 : List ℕ

-- One node of a device path, up to the end node: a MEDIA_FILEPATH_DP node with its PathName, a
-- MEDIA_VENDOR_DP node, or any other type and subtype with its payload.
pub data Node : Type 0 where
  file_path : Text → Node
  vendor_media : Guid → Node
  other_node : ℕ → ℕ → List Byte → Node

-- A device path in memory.
pub record DevicePath : Type 0 where
  pub address : Ptr
  pub nodes : List Node

-- EFI_BLOCK_IO_MEDIA
pub record Media : Type 0 where
  pub media_id : ℕ
  pub removable_media : Bool
  pub media_present : Bool
  pub logical_partition : Bool
  pub read_only : Bool
  pub write_caching : Bool
  pub block_size : ℕ
  pub io_align : ℕ
  pub last_block : ℕ

-- LOOP_DISK. The two protocol tables hold the functions of the driver and a pointer to the media.
pub record LoopDisk : Type 0 where
  pub signature : ℕ
  pub media : Media
  pub device_path : Option DevicePath
  pub backing_file : Ptr
  pub handle : Handle
  pub last_block : ℕ
  pub seq : ℕ

-- The protocols by which handles are enumerated.
pub data Protocol : Type 0 where
  simple_file_system block_io loaded_image : Protocol

-- The lines that the program prints, by format string.
pub data Message : Type 0 where
  version : Message
  help : Message
  format_line : (name driver_file notes : Text) (tested : Bool) → Message
  iso_requires_path : Message
  unknown_format : Text → Message
  unknown_option : Text → Message
  driver_already_loaded : Text → Message
  driver_loaded_line : Text → Message
  driver_not_found : Text → Message
  driver_blocked : Message
  load_image_failed : Text → Status → Message
  start_image_failed : Status → Message
  no_self_directory : Status → Message
  loop_driver_blocked : Message
  loop_driver_load_failed : Status → Message
  loop_driver_start_failed : Status → Message
  no_loop_factory : Message
  cannot_open : Text → Status → Message
  cannot_stat : Text → Message
  file_too_small : Message
  tail_ignored : Message
  no_device_path : Text → Message
  loop_create_failed : Status → Message
  loop_created : Text → Message
  iso9660_driver_missing : Message
  loop_device_kept : Message
  new_volume : (name label : Text) → Message
  map_refreshed : ℕ → Message
  selftest_item : Text → Bool → Message
  selftest_missing : Text → Message
  selftest_all_pass : Message
  selftest_failed : ℕ → Message

-- The calls that change something outside the calling function, each with what identifies it.
pub data Event : Type 0 where
  printed : Message → Event
  allocated : Ptr → Event
  freed : Ptr → Event
  opened : Text → Ptr → Event
  closed : Ptr → Event
  deleted : Text → Event
  positioned : Ptr → ℕ → Event
  was_read : Ptr → ℕ → Event
  written : Ptr → List Byte → Event
  volume_opened : Handle → Ptr → Event
  image_loaded : DevicePath → Status → Ptr → Event
  image_started : Ptr → Status → Event
  image_unloaded : Ptr → Event
  controller_connected : Handle → Event
  loop_installed : DevicePath → Ptr → Status → Handle → Event
  loop_uninstalled : Handle → Ptr → Status → Event
  factory_installed : Status → Event
  event_signaled : Ptr → Event
  map_set : DevicePath → Text → Status → Event
  map_listed : Event

-- The newest call stands first.
abbrev pub Log : Type 0
Log = List Event
