-- ===== src/Efi/Machine.antt =====
-- The state of a run: the log of calls, and the memory of the resident driver.
use mount.Prelude.{ℕ, Bool, Option, none, some, List, ◌∷◌, ◌==◌, if◌then◌else◌}
use mount.Efi.Types.{
  LoopDisk, Status, Ptr, Handle, Byte, DevicePath, Protocol, Log, Event, Message, efi_error,
}
use mount.Efi.Services.{Firmware}

-- The LOOP_DISKs by address, and `mLoopSeq`.
pub record State : Type 0 where
  pub log : Log
  pub loop_seq : ℕ
  pub disks : Ptr → Option LoopDisk

abbrev pub M : Type 0 → Type 0
M A = State → A × State

abbrev pub pure : {A : Type 0} → A → M A
pure a s = (a, s)

infixl 5 ◌>>=◌ ◌>>◌
abbrev pub ◌>>=◌ : {A B : Type 0} → M A → (A → M B) → M B
◌>>=◌ m f s = let (a, t) = m s in f a t

abbrev pub ◌>>◌ : {B : Type 0} → M (Unit {0}) → M B → M B
◌>>◌ m k s = let (_, t) = m s in k t

-- A call that changes something is logged.
abbrev pub emit : Event → M (Unit {0})
emit e s = (tt, record s { log = e ∷ s.log })

-- A question to the firmware.
abbrev pub ask : {A : Type 0} → (Log → A) → M A
ask question s = (question s.log, s)

abbrev pub say : Message → M (Unit {0})
say m = emit (Event.printed m)

abbrev pub when : Bool → M (Unit {0}) → M (Unit {0})
when b m = if b then m else pure tt

-- if (Pointer != NULL) FreePool (Pointer)
abbrev pub free_unless_null : Ptr → M (Unit {0})
free_unless_null p = if p == 0 then pure tt else emit (Event.freed p)

abbrev pub store_disk : Ptr → Option LoopDisk → M (Unit {0})
store_disk p d s = (tt, record s { disks = λ q. if q == p then d else s.disks q })

-- A device path that a library allocates.
abbrev pub new_path : (Log → Option DevicePath) → M (Option DevicePath)
new_path question = do
  made ← ask question
  elim made [
    | none ↦ pure none
    | some path ↦ (do emit (Event.allocated path.address); pure (some path))
  ]

-- The services with their log entries.
module _ (fw : Firmware) where
  abbrev pub allocate : ℕ → M Ptr
  allocate size = do
    p ← ask (λ l. fw.allocate l size)
    if p == 0 then pure p else (do emit (Event.allocated p); pure p)

  abbrev pub locate_handles : Protocol → M (Status × Ptr × List Handle)
  locate_handles protocol = do
    (status, buffer, handles) ← ask (λ l. fw.locate_handle_buffer l protocol)
    if efi_error status
        then pure (status, buffer, handles)
        else do emit (Event.allocated buffer); pure (status, buffer, handles)

  abbrev pub load_image : DevicePath → M (Status × Ptr)
  load_image path = do
    (status, image) ← ask (λ l. fw.load_image_of l path)
    emit (Event.image_loaded path status image)
    pure (status, image)

  abbrev pub start_image : Ptr → M Status
  start_image image = do
    status ← ask (λ l. fw.start_image_of l image)
    emit (Event.image_started image status)
    pure status

  abbrev pub connect_controller : Handle → M Status
  connect_controller handle = do
    status ← ask (λ l. fw.connect l handle)
    emit (Event.controller_connected handle)
    pure status

  abbrev pub set_position : Ptr → ℕ → M Status
  set_position file position = do
    status ← ask (λ l. fw.set_position_of l file position)
    emit (Event.positioned file position)
    pure status

  abbrev pub read_file : Ptr → ℕ → M (Status × List Byte)
  read_file file size = do
    (status, bytes) ← ask (λ l. fw.read_of l file size)
    emit (Event.was_read file size)
    pure (status, bytes)
