-- ===== src/Examples/Windows/Listing.antt =====
-- The listing of a directory for WinFSP at a concrete input.
use mathlib.Core.List.{Perm}
use mathlib.Core.Option.{bind}
use remote_file_system.Prelude.{
  ℕ, ◌≡◌, refl, true, Option, none, some, List, [], ◌∷◌, map, length, ℕ_discrete,
}
use remote_file_system.Paths.{Text, text, path_is_utf8, Text-discrete, FilePath-discrete}
use remote_file_system.Action.{ok}
use remote_file_system.Client.Action as ModelAction
use remote_file_system.Client.Network.{
  RemoteStorage, SerializableFsItem, done, file_type, directory_type,
}
use remote_file_system.Client.Model.{State, ask, path_to_string, cache_get, cache_try}
use remote_file_system.Client.Model.Data.{get_attributes}
use remote_file_system.Client.Model.Names.{get_parent_path}
use remote_file_system.Client.Model.Listing.{
  readdir, list_remote, list_path, put_children, with_dots, dot_entry, children_of,
}
use remote_file_system.Client.Windows.Files.{handle_of}
use remote_file_system.Client.Windows.Entries.{
  entry, read_directory, sort_by_name, insert_by_name, text_le, emit, from_marker, after_named,
}
use remote_file_system.Client.Windows.Entries.Order.{IsOrdered}
use remote_file_system.Client.Windows.Entries.Pages.{
  HasDistinctNames, Pages, page, last, pages_complete,
}
use remote_file_system.Examples.Server.{logging, plain}
use remote_file_system.Examples.Model.{idle, system}
use remote_file_system.Examples.Windows.{small, Entries, small-KeepsEntries, path_of_a}

abbrev item_of : ℕ → SerializableFsItem
item_of c = record { name = c ∷ []; item_type = file_type; attributes = plain }

-- A server that holds a directory with two files.
abbrev listing_server : RemoteStorage
listing_server = record logging {
  get_attributes = λ p w. (done plain, w);
  list_path = λ p w. (done (item_of 98 ∷ item_of 97 ∷ []), w);
}

abbrev above : Text → SerializableFsItem
above name = record { name = name; item_type = directory_type; attributes = plain }

abbrev listed_items : List SerializableFsItem
listed_items = above (46 ∷ []) ∷ above (46 ∷ 46 ∷ []) ∷ item_of 98 ∷ item_of 97 ∷ []

abbrev fresh : State listing_server
fresh = system true idle

lists : readdir listing_server path_of_a fresh ≡ (ModelAction.ok listed_items, fresh)
unfolding readdir list_remote list_path put_children with_dots dot_entry children_of get_attributes
    path_to_string path_is_utf8 ask cache_get cache_try get_parent_path text bind FilePath-discrete
lists = refl

distinct : HasDistinctNames listed_items
unfolding after_named Text-discrete ℕ_discrete
distinct = (refl, (refl, (refl, (refl, tt))))

abbrev sorted_items : List SerializableFsItem
sorted_items = above (46 ∷ []) ∷ above (46 ∷ 46 ∷ []) ∷ item_of 97 ∷ item_of 98 ∷ []

sorts : sort_by_name listed_items ≡ sorted_items
unfolding sort_by_name insert_by_name text_le
sorts = refl

abbrev Call : Option (List ℕ) → Entries → Type 0
Call marker es =
    read_directory small listing_server (handle_of path_of_a) marker [] fresh
    ≡ (ok (length es, es), fresh)

abbrev entries_of : List SerializableFsItem → Entries
entries_of = map (entry small)

calls :
    Call none (entries_of (above (46 ∷ []) ∷ above (46 ∷ 46 ∷ []) ∷ []))
    × Call (some (46 ∷ 46 ∷ [])) (entries_of (item_of 97 ∷ item_of 98 ∷ []))
    × Call (some (98 ∷ [])) []
unfolding read_directory from_marker after_named emit Text-discrete ℕ_discrete
calls = (rw (lists, sorts) refl, rw (lists, sorts) refl, rw (lists, sorts) refl)

pages :
    Pages small small-KeepsEntries listing_server
      (handle_of path_of_a)
      listed_items
      none
      (entries_of sorted_items)
pages =
    let all : Entries = entries_of sorted_items in
    let second : Entries = entries_of (item_of 97 ∷ item_of 98 ∷ []) in
    page none all fresh fresh fresh 2 (entries_of (above (46 ∷ []) ∷ above (46 ∷ 46 ∷ []) ∷ []))
      (entries_of (above (46 ∷ []) ∷ [])) (46 ∷ 46 ∷ []) (entry small (above (46 ∷ 46 ∷ []))).1
      (46 ∷ 46 ∷ []) second lists calls.0 refl refl
      (page (some (46 ∷ 46 ∷ [])) second fresh fresh fresh 2 second (entries_of (item_of 97 ∷ []))
        (98 ∷ []) (entry small (item_of 98)).1 (98 ∷ []) [] lists calls.1 refl refl
        (last (some (98 ∷ [])) [] fresh fresh fresh 0 [] lists calls.2 refl refl) refl)
      refl

pages_complete_example :
    (sorted : List SerializableFsItem) × (entries_of sorted_items ≡ entries_of sorted)
    × IsOrdered sorted
    × Perm sorted listed_items
pages_complete_example =
    pages_complete small small-KeepsEntries listing_server (handle_of path_of_a) listed_items
      (entries_of sorted_items) distinct pages
