-- ===== src/LoopDxe.antt =====
-- MountPkg/Drivers/LoopDxe/LoopDxe.c: the resident loop driver. `BlockIo` serves the block
-- protocols of a loop disk, `Factory` creates and destroys loop disks.
pub mod BlockIo
pub mod Factory
