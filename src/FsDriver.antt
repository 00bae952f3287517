-- ===== src/FsDriver.antt =====
-- MountPkg/Application/Mount/FsDriver.c, but for its table: where mount.efi lies, which driver
-- images are loaded, the load of one, and the flow of `mount -<FORMAT>`.
pub mod SelfPath
pub mod Loaded
pub mod Load
pub mod Run
