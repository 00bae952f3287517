-- ===== src/MapReport/Report/Lines.antt =====
-- What the report prints, and what it gives back.
use mount.Prelude.{
  ℕ, ◌+◌, ◌≡◌, refl, ◌≢◌, inl, inr, false, List, [], ◌∷◌, arith, Bool-cases, length,
}
use mount.Efi.{
  Status, efi_error, Ptr, Handle, Protocol, Message, Event, Log, Firmware, State, Neutral,
  Neutral-trans, IsStringLib,
}
use mount.MapReport.Handles.{map_is_in_snapshot}
use mount.MapReport.Handles.Fresh.{NewIn, listed-Memᴰ, unlisted-Memᴰ}
use mount.MapReport.Report.{
  name_of_path, display_name, read_label, display_label, report_volume, report_new,
  map_print_new_volumes,
}
use mount.MapReport.Report.Shown.{
  shown_name, shown_label, label_calls, display_name-shown, display_label-shown,
}

module _ (fw : Firmware) where
  display_name-state : (h : Handle) (s : State) → (display_name fw h s).1 ≡ s
  unfolding display_name name_of_path
  display_name-state h s = ground arith

  display_label-Neutral : (h : Handle) (s : State) → Neutral s (display_label fw h s).1
  unfolding display_label read_label
  display_label-Neutral h s q = ground arith

  report_volume-Neutral : (h : Handle) (s : State) → Neutral s (report_volume fw h s).1
  unfolding report_volume
  report_volume-Neutral h s q =
      let a = display_label-Neutral h s q in rw display_name-state (ground (arith, a))

  pub report_new-Neutral :
      (old now : List Handle) (count : ℕ) (s : State) → Neutral s (report_new fw old now count s).1
  unfolding report_new
  report_new-Neutral old [] count s = λ q. ground arith
  report_new-Neutral old (h ∷ now) count s = elim (Bool-cases (map_is_in_snapshot h old)) [
    | inl known ↦ rw known (report_new-Neutral old now count s)
    | inr new ↦ rw new (
        let t = (report_volume fw h s).1 in
        Neutral-trans s t _ (report_volume-Neutral h s) (report_new-Neutral old now (count + 1) t))
  ]

  -- The log behind the lines for these handles, each with its name and its label.
  abbrev pub line_for : Handle → Log → Log
  line_for h l =
      Event.printed (Message.new_volume (shown_name fw h l) (shown_label fw h l))
      ∷ label_calls fw h l

  abbrev pub lines_for : List Handle → Log → Log
  lines_for [] l = l
  lines_for (h ∷ hs) l = lines_for hs (line_for h l)

module _ (fw : Firmware) (ok : IsStringLib fw.strings) where
  report_volume-line :
      (h : Handle) (s : State) → report_volume fw h s ≡ (tt, record s { log = line_for fw h s.log })
  unfolding report_volume
  report_volume-line h s = rw (display_name-shown fw ok h s, display_label-shown fw ok h s) refl

  report_new-lines :
      (old now : List Handle) (count : ℕ) (s : State)
      → (hs : List Handle) × NewIn old now hs
        × (report_new fw old now count s
            ≡ (count + length hs, record s { log = lines_for fw hs s.log }))
  unfolding report_new
  report_new-lines old [] count s = ([], NewIn.empty, ground arith)
  report_new-lines old (h ∷ now) count s = elim (Bool-cases (map_is_in_snapshot h old)) [
    | inl known ↦
        let (hs, new, same) = report_new-lines old now count s in
        (hs, NewIn.known (listed-Memᴰ h old (ground arith)) new, rw known same)
    | inr new ↦
        let t : State = record s { log = line_for fw h s.log } in
        let (hs, rest, same) = report_new-lines old now (count + 1) t in
        (
          h ∷ hs,
          NewIn.fresh (unlisted-Memᴰ h old (ground arith)) rest,
          rw (new, report_volume-line h s, same) (ground arith),
        )
  ]

-- From s to t, in this order: the file systems are listed, each handle that `old` lacks gets its
-- line, the list is freed, and the number of the lines is printed.
abbrev pub Reports : Firmware → (old : List Handle) → State → State → Type 0
Reports fw old s t =
    let (_, buffer, now) = fw.locate_handle_buffer s.log Protocol.simple_file_system in
    (hs : List Handle) × NewIn old now hs
    × (t ≡ record s {
      log =
          Event.printed (Message.map_refreshed (length hs))
          ∷ Event.freed buffer
          ∷ lines_for fw hs (Event.allocated buffer ∷ s.log);
    })
    × Neutral s t

module _ (fw : Firmware) (ok : IsStringLib fw.strings) (old : List Handle) (s : State) where
  abbrev found : Status × Ptr × List Handle
  found = fw.locate_handle_buffer s.log Protocol.simple_file_system

  abbrev listed_at : State
  listed_at = record s { log = Event.allocated found.1 ∷ s.log }

  abbrev reported : ℕ × State
  reported = report_new fw old found.2 0 listed_at

  map_print_new_volumes-eq :
      efi_error found.0 ≡ false
      → found.1 ≢ 0
      → map_print_new_volumes fw old s ≡ (
        tt,
        record (reported.1) {
          log =
              Event.printed (Message.map_refreshed reported.0)
              ∷ Event.freed found.1
              ∷ reported.1.log;
        },
      )
  unfolding map_print_new_volumes
  map_print_new_volumes-eq listed full = ground arith

  -- If StrnCpyS keeps its contract, then, when the file systems can be listed, in a buffer that is
  -- not NULL, `MapPrintNewVolumes` prints one line for each handle of the new list that is not a
  -- member of the old one, in order, and then the line with their number. A line shows the first 31
  -- characters of the handle's first alias that begins with `fs`, or else of its first alias, and
  -- `?` without a Shell, a device path or an alias; and the first 63 characters of the volume's
  -- label, or `-` if the label cannot be read. The list and every information buffer are freed,
  -- every root directory that was opened is closed, and no other call is made that changes a state.
  pub map_print_new_volumes-lines :
      efi_error (fw.locate_handle_buffer s.log Protocol.simple_file_system).0 ≡ false
      → (fw.locate_handle_buffer s.log Protocol.simple_file_system).1 ≢ 0
      → Reports fw old s (map_print_new_volumes fw old s).1
  map_print_new_volumes-lines listed full =
      let (hs, new, same) = report_new-lines fw ok old found.2 0 listed_at in
      let a = report_new-Neutral fw old found.2 0 listed_at in
      (
        hs,
        new,
        rw (map_print_new_volumes-eq listed full, same) (ground arith),
        rw (map_print_new_volumes-eq listed full) (λ q. ground (arith, a q)),
      )
