-- ===== src/Client/Network.antt =====
-- What the client asks of the server: the trait `RemoteStorage` of client/src/network.rs, and the
-- records of client/src/network/models.rs. The HTTP requests behind it are a parameter: a record of
-- functions over a state of the world, which also holds the clock.
use remote_file_system.Prelude.{ℕ, Option, none, some, List, ◌≡◌, refl, ◌⊎◌, inl, inr}
use remote_file_system.Paths.{Text, FilePath}
use remote_file_system.Client.Attributes.{Attributes, SetAttr, Stats, RenameFlags}
use remote_file_system.Client.Errors.{NetworkError}
use remote_file_system.Client.Items.{CacheItem, file, sym_link, directory}
use remote_file_system.Client.Pages
use mathlib.Core.Option

pub data ItemType : Type 0 where
  file_type sym_link_type directory_type : ItemType

pub record SerializableFsItem : Type 0 where
  pub name : Text
  pub item_type : ItemType
  pub attributes : Attributes

-- `CacheItem::from`
unfoldable pub item_of_serializable : SerializableFsItem → CacheItem
item_of_serializable i = elim i.item_type [
  | directory_type ↦
      directory (record { name = i.name; attributes = some i.attributes; children = none })
  | sym_link_type ↦
      sym_link (record { name = i.name; attributes = some i.attributes; target = none })
  | file_type ↦ file (Pages.new i.name (some i.attributes))
]

-- `SerializableFSItem::try_from`; `none` is its error, `ConversionFailed`. Names are cached only
-- from paths that are UTF-8, so that `to_string_lossy` keeps them.
unfoldable pub serializable_of_item : CacheItem → Option SerializableFsItem
serializable_of_item (directory d) =
    Option.map (λ a. record { name = d.name; item_type = directory_type; attributes = a })
      d.attributes
serializable_of_item (sym_link l) =
    Option.map (λ a. record { name = l.name; item_type = sym_link_type; attributes = a })
      l.attributes
serializable_of_item (file f) =
    Option.map (λ a. record { name = f.name; item_type = file_type; attributes = a }) f.attributes

pub data Reply (A : Type 0) : Type 0 where
  done : A → Reply A
  failed : NetworkError → Reply A

-- A path string that goes over the network stands for its components.
pub record RemoteStorage : Type 1 where
  pub World : Type 0
  pub now : World → ℕ
  pub get_attributes : FilePath → World → Reply Attributes × World
  pub set_attributes : FilePath → SetAttr → World → Reply Attributes × World
  pub get_x_attributes : FilePath → Text → World → Reply (Option (List ℕ)) × World
  pub set_x_attributes : FilePath → Text → List ℕ → World → Reply (Unit {0}) × World
  pub list_x_attributes : FilePath → World → Reply (List Text) × World
  pub remove_x_attributes : FilePath → Text → World → Reply (Unit {0}) × World
  pub get_permissions : FilePath → ℕ → World → Reply (Unit {0}) × World
  pub get_stats : FilePath → World → Reply Stats × World
  pub list_path : FilePath → World → Reply (List SerializableFsItem) × World
  pub read_file : FilePath → ℕ → ℕ → World → Reply (List ℕ) × World
  pub write_file : FilePath → ℕ → List ℕ → World → Reply Attributes × World
  pub mkdir : FilePath → World → Reply Attributes × World
  pub rename : FilePath → FilePath → RenameFlags → World → Reply (Unit {0}) × World
  pub remove : FilePath → World → Reply (Unit {0}) × World
  pub create_symlink : FilePath → Text → World → Reply Attributes × World
  pub read_symlink : FilePath → World → Reply Text × World

pub reply-cases :
    {A : Type 0} (r : Reply A) → ((a : A) × (r ≡ done a)) ⊎ ((e : NetworkError) × (r ≡ failed e))
reply-cases (done a) = inl (a, refl)
reply-cases (failed e) = inr (e, refl)
