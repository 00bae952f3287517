-- ===== src/Efi.antt =====
-- What the program sees of UEFI: status codes, device paths, the calls that it makes and the
-- answers to them. Firmware, Shell and EDK II libraries are not part of the repository: they
-- enter as the record `Firmware`, whose answers may depend on every call made so far.
mod Types
mod Services
mod Machine
mod Balance
mod Working
pub use Types.*
pub use Services.*
unfoldable pub use Machine.*
pub use Balance.*
pub use Working.*
