-- ===== src/FsDriver/Loaded/Scan.antt =====
-- `MountDriverLoaded` by the paths of the loaded images.
use mount.Prelude.{
  ◌≡◌, refl, sym, ◌∙◌, ◌↔◌, ◌⊎◌, inl, inr, Bool, true, false, ◌||◌, Option, none, some, List, [],
  ◌∷◌, arith, ◌==◌, if◌then◌else◌, Bool-cases, Option-cases, Text,
}
use mount.Efi.{
  Status, efi_error, Ptr, Handle, DevicePath, Protocol, Event, Log, Firmware, State, PoolBalanced,
}
use mount.MapReport.Handles.{map_is_in_snapshot}
use mount.FsDriver.Loaded.{
  ends_with_file, path_matches, image_matches, find_image, mount_driver_loaded,
}
use mount.FsDriver.Loaded.Suffix.{EndsWith, ends_with_file_iff}

abbrev text_of : Option (Ptr × Text) → Option Text
text_of none = none
text_of (some (p, text)) = some text

abbrev path_text : Firmware → Log → Option DevicePath → Option Text
path_text fw l none = none
path_text fw l (some path) = text_of (fw.path_to_text l path)

-- The path of a loaded image as text, if it has one.
unfoldable pub image_text : Firmware → Log → Handle → Option Text
image_text fw l h =
    if efi_error (fw.loaded_image_of l h).0
    then none
    else path_text fw l (fw.loaded_image_of l h).1.file_path

-- Allocating and freeing memory does not change what the images are.
pub record ImagesStay (fw : Firmware) : Type 0 where
  pub allocation :
      (l : Log) (p : Ptr) (h : Handle) → image_text fw (Event.allocated p ∷ l) h ≡ image_text fw l h
  pub release :
      (l : Log) (p : Ptr) (h : Handle) → image_text fw (Event.freed p ∷ l) h ≡ image_text fw l h

abbrev matches : Option Text → Text → Bool
matches none file = false
matches (some text) file = ends_with_file text file

-- One of the handles is an image whose path is the file's, or ends with it on a path boundary.
abbrev pub HasImage : Firmware → Log → List Handle → Text → Type 0
HasImage fw l hs file =
    (h : Handle) × (text : Text) × (map_is_in_snapshot h hs ≡ true)
    × (image_text fw l h ≡ some text)
    × EndsWith text file

-- The step between two states is none, or an allocation that is freed at once.
abbrev Passing : State → State → Type 0
Passing s t =
    (t ≡ s) ⊎ ((p : Ptr) × (t ≡ record s { log = Event.freed p ∷ Event.allocated p ∷ s.log }))

module _ (fw : Firmware) (file : Text) where
  path_matches-answer :
      (o : Option DevicePath) (s : State)
      → ((path_matches fw file o s).0 ≡ matches (path_text fw s.log o) file)
        × Passing s (path_matches fw file o s).1
  unfolding path_matches
  path_matches-answer none s = (refl, inl refl)
  path_matches-answer (some path) s = elim (Option-cases (fw.path_to_text s.log path)) [
    | inl e ↦ rw e (refl, inl refl)
    | inr ((p, text), e) ↦ rw e (refl, inr (p, refl))
  ]

  image_matches-answer :
      (h : Handle) (s : State)
      → ((image_matches fw file h s).0 ≡ matches (image_text fw s.log h) file)
        × Passing s (image_matches fw file h s).1
  unfolding image_matches image_text
  image_matches-answer h s = elim (Bool-cases (efi_error (fw.loaded_image_of s.log h).0)) [
    | inl bad ↦ rw bad (refl, inl refl)
    | inr fine ↦ rw fine (path_matches-answer (fw.loaded_image_of s.log h).1.file_path s)
  ]

module _ (fw : Firmware) (stay : ImagesStay fw) (file : Text) where
  -- What a look at images leaves: the images, and a balanced pool.
  record Kept (s t : State) : Type 0 where
    images : (g : Handle) → image_text fw t.log g ≡ image_text fw s.log g
    pool : PoolBalanced s t

  Passing-Kept : (s t : State) → Passing s t → Kept s t
  Passing-Kept s t (inl e) = rw e (record { images = λ g. refl; pool = λ q. omega arith })
  Passing-Kept s t (inr (p, e)) = rw e (record {
    images = λ g. stay.release (Event.allocated p ∷ s.log) p g ∙ stay.allocation s.log p g;
    pool = λ q. omega arith;
  })

  -- The answer of the loop, by the texts of the images.
  unfoldable any_image : Log → List Handle → Bool
  any_image l [] = false
  any_image l (h ∷ hs) = matches (image_text fw l h) file || any_image l hs

  any_image-stay :
      (l m : Log) (hs : List Handle)
      → ((g : Handle) → image_text fw m g ≡ image_text fw l g)
      → any_image m hs ≡ any_image l hs
  unfolding any_image
  any_image-stay l m [] h = refl
  any_image-stay l m (g ∷ hs) h = rw (h g, any_image-stay l m hs h)

  find_image-answer :
      (hs : List Handle) (s : State)
      → ((find_image fw file hs s).0 ≡ any_image s.log hs) × Kept s (find_image fw file hs s).1
  unfolding find_image any_image
  find_image-answer [] s = (refl, record { images = λ g. refl; pool = λ q. omega arith })
  find_image-answer (h ∷ hs) s =
      let (answer, passing) = image_matches-answer fw file h s in
      let t = (image_matches fw file h s).1 in
      let kept = Passing-Kept s t passing in
      elim (Bool-cases (matches (image_text fw s.log h) file)) [
        | inl found ↦ rw (answer, found) (refl, kept)
        | inr differ ↦
            rw (answer, differ)
              (let (later, more) = find_image-answer hs t in
                (
                  later ∙ any_image-stay s.log t.log hs kept.images,
                  record {
                    images = λ g. more.images g ∙ kept.images g;
                    pool = λ q. omega (arith, kept.pool q, more.pool q);
                  },
                ))
      ]

  any_image-HasImage : (l : Log) (hs : List Handle) → any_image l hs ≡ true → HasImage fw l hs file
  unfolding any_image map_is_in_snapshot
  any_image-HasImage l [] e = absurd (cc)
  any_image-HasImage l (h ∷ hs) e = elim (Bool-cases (matches (image_text fw l h) file)) [
    | inl here ↦ elim (Option-cases (image_text fw l h)) [
      | inl absent ↦ absurd (ground arith)
      | inr (text, at) ↦
          (h, text, ground arith, at, (ends_with_file_iff text file).0 (ground arith))
    ]
    | inr there ↦
        let (g, text, listed, at, ends) = any_image-HasImage l hs (ground arith) in
        (g, text, ground arith, at, ends)
  ]

  HasImage-any_image : (l : Log) (hs : List Handle) → HasImage fw l hs file → any_image l hs ≡ true
  unfolding any_image map_is_in_snapshot
  HasImage-any_image l [] (g, text, listed, at, ends) = absurd (cc)
  HasImage-any_image l (h ∷ hs) (g, text, listed, at, ends) =
      let fits : ends_with_file text file ≡ true = (ends_with_file_iff text file).1 ends in
      elim (Bool-cases (h == g)) [
        | inl same ↦ ground arith
        | inr differ ↦ ground (arith, HasImage-any_image l hs (g, text, ground arith, at, ends))
      ]

module _ (fw : Firmware) (stay : ImagesStay fw) (file : Text) (s : State) where
  abbrev listing : Status × Ptr × List Handle
  listing = fw.locate_handle_buffer s.log Protocol.loaded_image

  abbrev looked : Bool × State
  looked = find_image fw file listing.2 (record s { log = Event.allocated listing.1 ∷ s.log })

  mount_driver_loaded-eq :
      efi_error listing.0 ≡ false
      → mount_driver_loaded fw file s
        ≡ (looked.0, record (looked.1) { log = Event.freed listing.1 ∷ looked.1.log })
  unfolding mount_driver_loaded
  mount_driver_loaded-eq ok = ground arith

  mount_driver_loaded-answer :
      efi_error listing.0 ≡ false
      → ((mount_driver_loaded fw file s).0 ≡ any_image fw stay file s.log listing.2)
        × Kept fw stay file s (mount_driver_loaded fw file s).1
  mount_driver_loaded-answer ok =
      let t : State = record s { log = Event.allocated listing.1 ∷ s.log } in
      let (answer, kept) = find_image-answer fw stay file listing.2 t in
      rw (mount_driver_loaded-eq ok) (
        answer
            ∙ any_image-stay fw stay file s.log t.log listing.2 (stay.allocation s.log listing.1),
        record {
          images = λ g.
              stay.release looked.1.log listing.1 g
              ∙ kept.images g
              ∙ stay.allocation s.log listing.1 g;
          pool = λ q. omega (arith, kept.pool q);
        },
      )

  -- If allocating and freeing memory does not change the paths of the loaded images, and these can
  -- be listed, `MountDriverLoaded` is TRUE exactly when the path of one of them is the driver's
  -- file or ends with it on a path boundary, and it frees all that it allocates.
  pub mount_driver_loaded_iff :
      efi_error (fw.locate_handle_buffer s.log Protocol.loaded_image).0 ≡ false
      → (((mount_driver_loaded fw file s).0 ≡ true)
          ↔ HasImage fw s.log (fw.locate_handle_buffer s.log Protocol.loaded_image).2 file)
        × PoolBalanced s (mount_driver_loaded fw file s).1
  mount_driver_loaded_iff ok =
      let (answer, kept) = mount_driver_loaded-answer ok in
      (
        (
          λ e. any_image-HasImage fw stay file s.log listing.2 (sym answer ∙ e),
          λ has. answer ∙ HasImage-any_image fw stay file s.log listing.2 has,
        ),
        kept.pool,
      )
