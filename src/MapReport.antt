-- ===== src/MapReport.antt =====
-- MountPkg/Application/Mount/MapReport.c: snapshots and rescans of handles, aliases of the Shell's
-- map, the refresh of that map, and the report of new volumes.
pub mod Alias
pub mod Handles
pub mod Refresh
pub mod Report
pub mod Balance
