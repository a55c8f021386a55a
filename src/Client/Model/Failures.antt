-- ===== src/Client/Model/Failures.antt =====
-- What the methods of client/src/fs_model.rs do when the server reports an error.
use remote_file_system.Prelude.{ℕ, ◌≡◌, Option, List, [], arith, Bool-cases, inl, inr, true, false}
use remote_file_system.Paths.{Text, FilePath, path_is_utf8}
use remote_file_system.Client.Attributes.{SetAttr}
use remote_file_system.Client.Errors.{FsModelError, NetworkError}
use remote_file_system.Client.Action.{Outcome, err, Action, pure, ◌>>=◌, ◌>>◌}
use remote_file_system.Client.Network.{RemoteStorage, Reply, failed, reply-cases}
use remote_file_system.Client.Items.{CacheItem}
use remote_file_system.Client.Cache.{Cache, cache_put_attr}
use remote_file_system.Client.WriteBuffer.{get_content}
use remote_file_system.Client.Model.{State, ask, path_to_string, cache_try, cache_do, cache_remove}
use remote_file_system.Client.Model.Data.{is_empty, upload, flush_write_buffer}
use remote_file_system.Client.Model.Names.{
  store_new, create_file, mkdir, remove, set_attributes, create_symlink,
}
use remote_file_system.Client.Model.Uploads.{pending, pending-clean}

-- The result is an error, not a panic.
abbrev pub IsError : {A : Type 0} → Outcome A → Type 0
IsError r = (e : FsModelError) × (r ≡ err e)

-- The operations that change one path.
pub data Change : Type 0 where
  creating : ℕ → List ℕ → Change
  making_directory removing : Change
  linking : Text → Change
  setting : SetAttr → Change

module _ (env : RemoteStorage) where
  -- A flush of a buffer with bytes for a path that is UTF-8, which the server refuses, reports the
  -- server's error, and the bytes are no longer in the buffer.
  pub flush_failed :
      (s : State env) (e : NetworkError)
      → is_empty (get_content s.write_buffer).2 ≡ false
      → path_is_utf8 (get_content s.write_buffer).0 ≡ true
      → (env.write_file
          (get_content s.write_buffer).0
          (get_content s.write_buffer).1
          (get_content s.write_buffer).2
          s.remote).0
        ≡ failed e
      → let (r, s') = flush_write_buffer env s in
        (r ≡ err (FsModelError.server_error e)) × (pending s'.write_buffer ≡ [])
  unfolding flush_write_buffer upload path_to_string ask
  flush_failed s e some_bytes utf8 refused = ground (arith, pending-clean s.write_buffer)

  -- What follows an answer of the server ends without an error.
  abbrev Quiet : {A B : Type 0} → (A → Action (State env) B) → Type 0
  Quiet {A} k = (a : A) (s : State env) → ¬ IsError (k a s).0

  -- Where what follows the answer is quiet, an error comes before any change of the cache.
  asked_error :
      {A B : Type 0} (path : FilePath) (request : FilePath → env.World → Reply A × env.World)
      (k : A → Action (State env) B) (s : State env)
      → Quiet k
      → let m = path_to_string path >>= (λ p. ask env (request p) >>= k) in
        IsError (m s).0 → (m s).1.cache ≡ s.cache
  unfolding path_to_string ask
  asked_error path request k s quiet h = elim (Bool-cases (path_is_utf8 path)) [
    | inl u ↦ elim (reply-cases (request path s.remote).0) [
      | inl (a, r) ↦ absurd (
          quiet a (record s { remote = (request path s.remote).1 })
            (h.0, ground (arith, u, r, h.1)))
      | inr (f, r) ↦ ground (arith, u, r)
    ]
    | inr u ↦ ground (arith, u)
  ]

  stores_quietly :
      {A : Type 0} (path : FilePath) (item_of : A → Text → CacheItem)
      → Quiet (λ a. store_new env path (item_of a) >> pure a)
  unfolding store_new cache_do cache_try
  stores_quietly path item_of a s (e, h) = ground arith

  removes_quietly : (path : FilePath) → Quiet {A = Unit {0}} (λ _. cache_remove env path >> pure tt)
  unfolding cache_remove
  removes_quietly path a s (e, h) = ground arith

  puts_quietly :
      (path : FilePath)
      → Quiet (λ a. cache_try env (λ l c now. cache_put_attr l c now path a) >> pure a)
  unfolding cache_try
  puts_quietly path a s (e, h) = ground arith

  -- Whether a change ends with an error, and the cache after it.
  abbrev pub Fails : Change → FilePath → State env → Type 0
  Fails (creating offset bytes) path s = IsError (create_file env path offset bytes s).0
  Fails making_directory path s = IsError (mkdir env path s).0
  Fails removing path s = IsError (remove env path s).0
  Fails (linking target) path s = IsError (create_symlink env path target s).0
  Fails (setting attributes) path s = IsError (set_attributes env path attributes s).0

  abbrev pub cache_after : Change → FilePath → State env → Option Cache
  cache_after (creating offset bytes) path s = (create_file env path offset bytes s).1.cache
  cache_after making_directory path s = (mkdir env path s).1.cache
  cache_after removing path s = (remove env path s).1.cache
  cache_after (linking target) path s = (create_symlink env path target s).1.cache
  cache_after (setting attributes) path s = (set_attributes env path attributes s).1.cache

  -- Whichever of `create_file`, `mkdir`, `remove`, `create_symlink` and `set_attributes` ends with
  -- an error, the cache is as it was before the call.
  pub error_keeps_cache :
      (change : Change) (path : FilePath) (s : State env)
      → Fails change path s
      → cache_after change path s ≡ s.cache
  unfolding create_file mkdir remove create_symlink set_attributes
  error_keeps_cache (creating offset bytes) path s =
      asked_error path (λ p. env.write_file p offset bytes) _ s (stores_quietly path _)
  error_keeps_cache making_directory path s = asked_error path env.mkdir _ s (stores_quietly path _)
  error_keeps_cache removing path s = asked_error path env.remove _ s (removes_quietly path)
  error_keeps_cache (linking target) path s =
      asked_error path (λ p. env.create_symlink p target) _ s (stores_quietly path _)
  error_keeps_cache (setting attributes) path s =
      asked_error path (λ p. env.set_attributes p attributes) _ s (puts_quietly path)
