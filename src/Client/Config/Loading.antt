-- ===== src/Client/Config/Loading.antt =====
-- What a configuration that is loaded means to the file system: client/src/config.rs and
-- client/src/fs_model.rs.
use remote_file_system.Prelude.{
  ℕ, ◌≡◌, refl, inl, inr, Bool-cases, not, ◌&&◌, leb, isize_max, Bool, true, false, Option, none,
  some, ◌==◌, arith,
}
use remote_file_system.Client.Model.{FileSystem, FsConfig, new}
use remote_file_system.Client.Cache.{CacheConfig}
use remote_file_system.Client.ReadBuffer
use remote_file_system.Client.WriteBuffer
use remote_file_system.Client.Config.{
  RfsConfig, merged, LoadResult, loaded, refused, load, finalize,
}

abbrev pub is_none : {A : Type 0} → Option A → Bool
is_none none = true
is_none (some a) = false

-- A file system of a configuration, where one is loaded.
abbrev pub started : {World : Type 0} → World → ℕ → LoadResult → Option (FileSystem World)
started remote now (loaded c) = new remote now c.file_system c.cache
started remote now (refused e) = none

-- A file system can be made where the page size is not zero, since it is divided by, and where the
-- buffers can be allocated.
abbrev pub can_be_made : FsConfig → Bool
can_be_made f = not (f.page_size == 0) && leb f.buffer_size isize_max

pub new-can_be_made :
    {World : Type 0} (remote : World) (now : ℕ) (f : FsConfig) (k : CacheConfig)
    → not (is_none (new remote now f k)) ≡ can_be_made f
unfolding new ReadBuffer.new WriteBuffer.new
new-can_be_made remote now f k = elim (Bool-cases (leb f.buffer_size isize_max)) [
  | inl b ↦ rw b (ground arith)
  | inr b ↦ rw b (ground arith)
]

-- A configuration of which no file system can be made is loaded like any other.
pub start_of_loaded :
    {World : Type 0} (remote : World) (now : ℕ) (windows : Bool) (c : RfsConfig)
    → (load windows (merged c) ≡ loaded (finalize windows c))
      × (not (is_none (started remote now (load windows (merged c)))) ≡ can_be_made c.file_system)
unfolding load finalize
start_of_loaded remote now windows c = (refl, new-can_be_made remote now c.file_system c.cache)
