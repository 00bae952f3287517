-- ===== src/LoopDxe/BlockIo/ReadOnly.antt =====
-- No sequence of block requests changes a file or the driver.
use mount.Prelude.{ℕ, ◌≡◌, refl, Bool, Option, none, List, [], ◌∷◌, arith, ◌==◌, if◌then◌else◌}
use mount.Efi.{Status, Ptr, Event, Log, Firmware, LoopDisk, State}
use mount.LoopDxe.BlockIo.{
  some, Token, complete_token, loop_reset, loop_write_blocks, loop_flush_blocks, loop_reset_ex,
  loop_write_blocks_ex, loop_flush_blocks_ex, loop_read_blocks, loop_read_blocks_ex,
}

-- A call through one of the two protocol tables of a disk.
pub data Request : Type 0 where
  reset : Bool → Request
  read : (media_id lba buffer_size : ℕ) → Ptr → Request
  write : (media_id lba buffer_size : ℕ) → Ptr → Request
  flush : Request
  reset_ex : Bool → Request
  read_ex : (media_id lba : ℕ) → Option Token → ℕ → Ptr → Request
  write_ex : (media_id lba : ℕ) → Option Token → ℕ → Ptr → Request
  flush_ex : Option Token → Request

module _ (fw : Firmware) (disk : LoopDisk) where
  serve : Request → State → State
  unfolding loop_read_blocks
  serve (reset x) s = (loop_reset disk x s).1
  serve (read m l n b) s = (loop_read_blocks fw disk m l n b s).1
  serve (write m l n b) s = (loop_write_blocks disk m l n b s).1
  serve flush s = (loop_flush_blocks disk s).1
  serve (reset_ex x) s = (loop_reset_ex disk x s).1
  serve (read_ex m l t n b) s = (loop_read_blocks_ex fw disk m l t n b s).1
  serve (write_ex m l t n b) s = (loop_write_blocks_ex disk m l t n b s).1
  serve (flush_ex t) s = (loop_flush_blocks_ex disk t s).1

  unfoldable pub serve_all : List Request → State → State
  unfolding serve
  serve_all [] s = s
  serve_all (r ∷ rs) s = serve_all rs (serve r s)

  -- The calls other than seeks and reads of the backing file and signals of an event.
  unfoldable pub other_calls : Log → Log
  other_calls [] = []
  other_calls (Event.positioned f p ∷ l) =
      let rest = other_calls l in
      if f == disk.backing_file then rest else Event.positioned f p ∷ rest
  other_calls (Event.was_read f n ∷ l) =
      let rest = other_calls l in if f == disk.backing_file then rest else Event.was_read f n ∷ rest
  other_calls (Event.event_signaled e ∷ l) = other_calls l
  other_calls (e ∷ l) = e ∷ other_calls l

  -- The driver's memory is as before, and so is the log but for reads and signals.
  abbrev pub Unchanged : State → State → Type 0
  Unchanged s t =
      (other_calls t.log ≡ other_calls s.log) × (t.loop_seq ≡ s.loop_seq) × (t.disks ≡ s.disks)

  complete_token-Unchanged :
      (token : Option Token) (status : Status) (s : State)
      → Unchanged s (complete_token token status s).1
  unfolding complete_token other_calls
  complete_token-Unchanged none status s = (refl, refl, refl)
  complete_token-Unchanged (some token) status s = ground arith

  loop_read_blocks-Unchanged :
      (m lba n : ℕ) (b : Ptr) (s : State) → Unchanged s (loop_read_blocks fw disk m lba n b s).1
  unfolding loop_read_blocks other_calls
  loop_read_blocks-Unchanged m lba n b s = ground arith

  loop_read_blocks_ex-Unchanged :
      (m lba : ℕ) (t : Option Token) (n : ℕ) (b : Ptr) (s : State)
      → Unchanged s (loop_read_blocks_ex fw disk m lba t n b s).1
  unfolding loop_read_blocks_ex other_calls
  loop_read_blocks_ex-Unchanged m lba none n b s = loop_read_blocks-Unchanged m lba n b s
  loop_read_blocks_ex-Unchanged m lba (some t) n b s =
      ground (arith, loop_read_blocks-Unchanged m lba n b s)

  serve-Unchanged : (r : Request) (s : State) → Unchanged s (serve r s)
  unfolding serve loop_reset loop_write_blocks loop_flush_blocks loop_reset_ex loop_write_blocks_ex
      loop_flush_blocks_ex other_calls
  serve-Unchanged (reset x) s = (refl, refl, refl)
  serve-Unchanged (read m l n b) s = loop_read_blocks-Unchanged m l n b s
  serve-Unchanged (write m l n b) s = (refl, refl, refl)
  serve-Unchanged flush s = (refl, refl, refl)
  serve-Unchanged (reset_ex x) s = (refl, refl, refl)
  serve-Unchanged (read_ex m l t n b) s = loop_read_blocks_ex-Unchanged m l t n b s
  serve-Unchanged (write_ex m l none n b) s = (refl, refl, refl)
  serve-Unchanged (write_ex m l (some t) n b) s = ground arith
  serve-Unchanged (flush_ex none) s = (refl, refl, refl)
  serve-Unchanged (flush_ex (some t)) s = ground arith

  -- Whatever requests a mounted volume sends through the two protocols of a loop disk, in any
  -- order, the only calls that leave the driver are seeks and reads of the image file and signals
  -- of events: nothing is written, and the driver's table and counter stay as they were.
  pub serve_all-Unchanged : (rs : List Request) (s : State) → Unchanged s (serve_all rs s)
  unfolding serve_all
  serve_all-Unchanged [] s = (refl, refl, refl)
  serve_all-Unchanged (r ∷ rs) s =
      ground (arith, serve-Unchanged r s, serve_all-Unchanged rs (serve r s))
