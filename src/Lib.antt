-- ===== src/Lib.antt =====
-- `mount`, a UEFI Shell tool that mounts file systems (MountPkg), and its resident loop driver.
--
-- The program has two images. The application MountPkg/Application/Mount reads its arguments
-- (Mount.c), tests itself for `mount selftest` (SelfTest.c), loads file system drivers for `mount
-- -<FORMAT>` (FsDriver.c), makes a block device of an image file for `mount -ISO` (LoopDisk.c),
-- and has the new volumes named in the Shell's map and reported (MapReport.c). The
-- driver MountPkg/Drivers/LoopDxe stays resident: it publishes a factory, by which LoopDisk.c
-- creates loop devices, and it serves the block requests of their volumes.
--
-- Files:
--   Prelude   numbers, texts and lists over the native numbers, and the library names in use
--   Efi       what the program sees of UEFI: status codes (and the exit codes of
--             MountPkg/Include/FsDriver.h), device paths, LOOP_DISK of LoopDxe.c, the log of calls,
--             the record `Firmware` of the services, the state monad `M`, the balance of
--             allocations and files between two states, and the laws of a working machine
--   Formats   FsDriver.c: mFormats, MountFormatCount, MountFormatEntry, StaticStriCmp,
--             MountFindFormat
--   LoopDxe   LoopDxe.c: BlockIo (LoopReset ... LoopFlushBlocksEx, LoopCompleteToken) and Factory
--             (LoopFactoryCreate, LoopFactoryDestroy, LoopDxeEntry, mFactory, and the protocol of
--             MountPkg/Include/Protocol/MountLoopFactory.h), with the ledger of mounted disks that the
--             factory implements in Factory/Ledger, without their order in Factory/Ledger/Unordered,
--             and which files stay open in Factory/Ledger/Open
--   MapReport MapReport.c: Alias (MapFindFsAlias, MapCopyAlias), Handles (MapSnapshotFsHandles,
--             MapIsInSnapshot, MapConnectAllControllers), Refresh (MapRefreshShell), Report
--             (MapPrintNewVolumes, MapPrintCurrentMappings)
--   FsDriver  FsDriver.c: SelfPath (MountGetSelfDir, MountJoinSelfPath, MountOpenDriverFile,
--             MountBuildDriverDevicePath), Loaded (MountDriverLoaded), Load (MountLoadDriver), Run
--             (MountRunFormat)
--   LoopDisk  LoopDisk.c: Sniff (LoopSniff), Factory (MountLoopFactoryGet, MountIsoFileDevicePath),
--             Create (LoopCreate), Iso (MountRunIso), SelfTest (LoopDiskSelfTest)
--   SelfTest  SelfTest.c: Report, MountSelfTest
--   Mount     Mount.c: PrintVersion, PrintHelp, UefiMain; Session, History, Survival, Served and
--             Bounded: runs of the application and calls of the driver in sequence; and Passes: a
--             run of the self test
--   DebugPrintErrorLevelLib
--             MountPkg/Library/FixedDebugPrintErrorLevelLib: the mask of debug messages
--   Tests     a concrete firmware with its laws, and runs of the theorems on it
-- The child modules of a part are named for what they prove.
--
-- State. Firmware, Shell and the EDK II libraries are not in the repository. They are the
-- parameter `Firmware`, a record of answers, each a function of the log of all state-changing
-- calls made so far (newest first). What the theorems need of them is a named hypothesis with the
-- documented behaviour: IsStringLib, HoldsBytes, ListsHandles, Appends, FsStays, IsShellMap,
-- FreeSoon, ImagesStay, LoadedFrom, KeepsBlocked, KeepsStarted, FreshPool, ReportsSizes,
-- OpensImage, IsImage, HasDrivers, IsHonest, Works, FindsInstalled, KeepsFile, IsListable;
-- IsMachine is those that every theorem on sessions takes, and an image file (OpensImage) can be
-- read only as long as it is open. The program's own state is `State`: the
-- log, the counter mLoopSeq, and the LOOP_DISKs by address. The factory that the application
-- locates is mFactory of LoopDxe.c. A driver that the application starts does not change the loop
-- disks.
--
-- Conventions. A function with effects is a value of `M`; an OUT parameter is part of its result, with
-- `none` where it is not written. CHAR16 strings are the lists of units before their NUL. NULL is 0 for
-- pointers and handles, `none` for device paths and strings. StrLen, StrCmp and CompareMem have their
-- meaning of the C library; StrnCpyS and UnicodeSPrint are parameters, with the local array that they
-- may leave as it is (`full`) passed in. Arithmetic on UINT64 and UINT32 wraps as written. A line that
-- the program prints is a `Message`; the debug output on the serial line is left out.
--
-- Fuel. MapRefreshShell searches for a free name fs0:, fs1:, ... without a bound. The model gives each
-- search `rounds` and returns `none` beyond. If one of the first `rounds` names is free at any time,
-- the search ends. All other loops are recursions on lists.
--
-- Not modelled: the debug output, the build files, the scripts and images of the tests, and the
-- drivers of other projects in drivers/.
pub mod Prelude
pub mod Efi
pub mod Formats
pub mod LoopDxe
pub mod MapReport
pub mod FsDriver
pub mod LoopDisk
pub mod SelfTest
pub mod DebugPrintErrorLevelLib
pub mod Mount
pub mod Tests
