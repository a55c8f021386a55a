-- ===== src/Client/Windows/Entries.antt =====
-- The handlers of client/src/fuse/windows.rs that list directories and tell of the volume.
pub mod Lookup
pub mod Order
pub mod Pages
use remote_file_system.Prelude.{
  ℕ, suc, ◌*◌, Bool, true, false, ◌||◌, Option, none, some, List, [], ◌∷◌, ltb, ◌==◌, if◌then◌else◌,
}
use mathlib.Core.Logic.{ite}
use remote_file_system.Paths.{Text, text, Text-discrete, FilePath, parse, join}
use remote_file_system.Action.{Outcome, ok, err, pure, ◌>>=◌, ◌>>◌}
use remote_file_system.Client.Network.{RemoteStorage, SerializableFsItem}
use remote_file_system.Client.Model.Data
use remote_file_system.Client.Model.Listing
use remote_file_system.Client.Windows.{
  Winfsp, FspError, FileInfo, Handle, Handler, path_text, fill_file_info, file_info, model,
  of_outcome,
}

-- The order of strings, by their bytes.
unfoldable pub text_le : Text → Text → Bool
text_le [] u = true
text_le (c ∷ t) [] = false
text_le (c ∷ t) (d ∷ u) = if c == d then text_le t u else ltb c d

-- `items.sort_by(|a, b| a.name.cmp(&b.name))`, which keeps the order of equal names.
unfoldable pub insert_by_name :
    SerializableFsItem → List SerializableFsItem → List SerializableFsItem
insert_by_name i [] = i ∷ []
insert_by_name i (j ∷ js) = if text_le i.name j.name then i ∷ j ∷ js else j ∷ insert_by_name i js

unfoldable pub sort_by_name : List SerializableFsItem → List SerializableFsItem
sort_by_name [] = []
sort_by_name (i ∷ is) = insert_by_name i (sort_by_name is)

abbrev pub same_name : Text → Text → Bool
same_name a b = ite (Text-discrete a b) true false

-- What comes after the first item of a name, where there is one.
unfoldable pub after_named : Text → List SerializableFsItem → Option (List SerializableFsItem)
after_named name [] = none
after_named name (i ∷ is) = if same_name i.name name then some is else after_named name is

-- The items from the place that the marker gives on.
unfoldable pub from_marker : Option Text → List SerializableFsItem → List SerializableFsItem
from_marker none items = items
from_marker (some name) items = elim (after_named name items) [ none ↦ items | some is ↦ is ]

pub record VolumeInfo : Type 0 where
  pub total_size : ℕ
  pub free_size : ℕ
  pub label : Text

unfoldable pub get_volume_info : VolumeInfo → VolumeInfo
get_volume_info v = record {
  total_size = 1024 * 1024 * 1024;
  free_size = 1024 * 1024 * 1024;
  label = text "remote FS";
}

unfoldable pub set_volume_label : VolumeInfo → VolumeInfo
set_volume_label v = record v { label = text "remote FS" }

module _ (win : Winfsp) where
  abbrev pub entry : SerializableFsItem → Text × FileInfo
  entry i = (i.name, fill_file_info win i.attributes win.default_info)

  -- The loop over the entries: it ends where the buffer is full.
  unfoldable pub emit : List SerializableFsItem → win.Buffer → Outcome FspError win.Buffer
  emit [] buffer = ok buffer
  emit (i ∷ is) buffer = elim (win.name_error i.name) [
    | some e ↦ err e
    | none ↦ elim (win.append (entry i) buffer) [
      | none ↦ ok buffer
      | some buffer' ↦ emit is buffer'
    ]
  ]

  -- A name that is not UTF-16 is no marker.
  abbrev pub marker_name : Option (List ℕ) → Option Text
  marker_name none = none
  marker_name (some name) = win.to_string name

  abbrev pub check_name : Option FspError → Outcome FspError (Unit {0})
  check_name none = ok tt
  check_name (some e) = err e

module _ (win : Winfsp) (env : RemoteStorage) where
  unfoldable pub read_directory :
      Handle → Option (List ℕ) → win.Buffer → Handler env (ℕ × win.Buffer)
  read_directory context marker buffer = do
    items ← model env (Listing.readdir env context.path)
    filled ←
        of_outcome env (emit win (from_marker (marker_name win marker) (sort_by_name items)) buffer)
    pure (win.cursor (win.finalize filled), win.finalize filled)

  -- What is found at a path.
  unfoldable pub info_at : FilePath → Text → Handler env (Text × FileInfo)
  info_at path name = do
    a ← model env (Data.get_attributes env path)
    of_outcome env (check_name win (win.name_error name))
    pure (name, file_info win a)

  -- The name is a path of its own, which `join` puts in place of the directory's.
  unfoldable pub get_dir_info_by_name : Handle → List ℕ → Handler env (Text × FileInfo)
  get_dir_info_by_name context file_name = do
    name ← of_outcome env (path_text win file_name)
    info_at (join context.path (parse name)) name
