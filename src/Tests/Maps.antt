-- ===== src/Tests/Maps.antt =====
-- A rescan, a refresh and a report over two handles, of which one has a file system.
use mount.Prelude.{◌-◌, ◌≡◌, refl, ◌≢◌, false, some, [], ◌∷◌, arith, take, Text, codes}
use mount.Efi.{efi_success, efi_error, Handle, Protocol, Firmware, PoolBalanced}
use mathlib.Core.Option
use mount.MapReport.Alias.{find_from, map_find_fs_alias, map_copy_alias}
use mount.MapReport.Alias.Tokens.{
  first_token, tokens, first_fs, map_find_fs_alias-first_fs, map_copy_alias-first_token,
}
use mount.MapReport.Handles.{map_connect_all_controllers}
use mount.MapReport.Handles.Rescan.{Rescanned, map_connect_all_controllers-Rescanned}
use mount.MapReport.Refresh.{map_refresh_shell}
use mount.MapReport.Refresh.Names.{AllFirstFree, map_refresh_shell-AllFirstFree}
use mount.MapReport.Report.{map_print_new_volumes}
use mount.MapReport.Report.Shown.{shown_label}
use mount.MapReport.Report.Lines.{Reports, map_print_new_volumes-lines}
use mount.Tests.Demo.{start, library, library-IsStringLib, demo, demo-FsStays}

abbrev fw : Firmware
fw = demo 0

abbrev names : Text
names = codes "BLK2:;FS1:;HD0b:"

map_find_fs_alias-first_fs_example :
    Option.map first_token (map_find_fs_alias (some names)) ≡ first_fs (tokens names)
map_find_fs_alias-first_fs_example = map_find_fs_alias-first_fs names

the_alias : map_find_fs_alias (some names) ≡ some (codes "FS1:;HD0b:")
unfolding map_find_fs_alias find_from
the_alias = refl

map_copy_alias-first_token_example :
    map_copy_alias library (codes "FS1:;HD0b:") (codes "?") 32
    ≡ take (32 - 1) (first_token (codes "FS1:;HD0b:"))
map_copy_alias-first_token_example =
    map_copy_alias-first_token library library-IsStringLib (codes "FS1:;HD0b:") (codes "?") 32
      (omega arith) (omega arith)

listing : (p : Protocol) → efi_error (fw.locate_handle_buffer start.log p).0 ≡ false
unfolding demo
listing p = refl

map_connect_all_controllers-Rescanned_example :
    let (status, t) = map_connect_all_controllers fw start in
    (status ≡ efi_success)
    × PoolBalanced start t
    × ((h : Handle)
        → Rescanned fw (fw.locate_handle_buffer start.log Protocol.block_io).2 start t h)
map_connect_all_controllers-Rescanned_example =
    map_connect_all_controllers-Rescanned fw (demo-FsStays 0) start (listing Protocol.block_io)

map_refresh_shell-AllFirstFree_example : AllFirstFree fw (map_refresh_shell fw 1 start).1.log
map_refresh_shell-AllFirstFree_example = map_refresh_shell-AllFirstFree fw 1 start tt

buffer_there : (fw.locate_handle_buffer start.log Protocol.simple_file_system).1 ≢ 0
unfolding demo
buffer_there = omega arith

map_print_new_volumes-lines_example :
    Reports fw (6 ∷ []) start (map_print_new_volumes fw (6 ∷ []) start).1
unfolding demo
map_print_new_volumes-lines_example =
    map_print_new_volumes-lines fw library-IsStringLib (6 ∷ []) start
      (listing Protocol.simple_file_system) buffer_there

-- The handle 5 has a file system with the label DATA, the handle 6 has none.
label_of_volume : shown_label fw 5 start.log ≡ codes "DATA"
unfolding demo
label_of_volume = refl

label_of_other : shown_label fw 6 start.log ≡ codes "-"
unfolding demo
label_of_other = refl
