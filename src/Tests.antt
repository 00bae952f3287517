-- ===== src/Tests.antt =====
-- A concrete firmware, and runs of the theorems on it.
mod Demo
mod Strict
mod Words
mod Levels
mod Working
mod Sessions
mod Keeping
mod Disks
mod Maps
mod Drivers
mod Images
mod Runs
mod Volumes
mod Once
