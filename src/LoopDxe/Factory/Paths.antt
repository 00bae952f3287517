-- ===== src/LoopDxe/Factory/Paths.antt =====
-- How far the device paths of loop disks are distinct.
