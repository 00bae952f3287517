-- ===== src/LoopDisk.antt =====
-- MountPkg/Application/Mount/LoopDisk.c: the content sniff of an image, the loop factory's driver,
-- the creation of a loop device over an image file, and the flow of `mount -ISO`.
pub mod Sniff
pub mod Factory
pub mod Create
pub mod Iso
pub mod SelfTest
