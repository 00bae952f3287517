-- ===== src/LoopDisk/Sniff.antt =====
-- `LoopSniff`: which descriptors stand in the sectors from 16 on.
pub mod Position
pub mod Content
use mount.Prelude.{
  ℕ, ◌*◌, Bool, false, not, ◌||◌, List, ◌==◌, if◌then◌else◌, length, take, drop, Text, codes,
  text_eq,
}
use mount.Efi.{efi_error, Ptr, Byte, Firmware, M, pure, ◌>>=◌, ◌>>◌, set_position, read_file}

abbrev pub block : ℕ
block = 2048

-- CompareMem (Buf + offset, "...", 5) == 0
unfoldable pub stands_at : List Byte → ℕ → Text → Bool
stands_at buf offset tag = text_eq (take 5 (drop offset buf)) tag

unfoldable pub is_iso9660 : List Byte → Bool
is_iso9660 buf = stands_at buf 1 (codes "CD001")

unfoldable pub is_udf : List Byte → Bool
is_udf buf =
    stands_at buf 1 (codes "BEA01")
    || (stands_at buf 2049 (codes "BEA01")
        || (stands_at buf 4097 (codes "NSR02")
            || (stands_at buf 4097 (codes "NSR03")
                || (stands_at buf 6145 (codes "NSR02") || stands_at buf 6145 (codes "NSR03")))))

module _ (fw : Firmware) where
  -- File->SetPosition (File, 0), its status ignored
  abbrev rewind : Ptr → M (Unit {0})
  rewind file = set_position fw file 0 >>= λ _. pure tt

  -- The results are `*Iso9660` and `*Udf`.
  unfoldable pub loop_sniff : Ptr → M (Bool × Bool)
  loop_sniff file = do
    status ← set_position fw file (16 * block)
    if efi_error status then (do rewind file; pure (false, false)) else do
      (status, buf) ← read_file fw file (6 * block)
      rewind file
      pure (
          if efi_error status || not (length buf == 6 * block)
          then (false, false)
          else (is_iso9660 buf, is_udf buf))
