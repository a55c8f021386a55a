-- ===== src/Client/Model/Data.antt =====
-- The bytes and the attributes of files: `get_attributes`, `read_file`, `write_file`,
-- `flush_write_buffer`, `open`, `release` of client/src/fs_model.rs.
use remote_file_system.Prelude.{
  ℕ, min, Bool, true, false, Option, none, some, List, [], ◌∷◌, ◌++◌, length, take, add_usize, leb,
  if◌then◌else◌, ℕ_discrete,
}
use remote_file_system.Prelude.Assoc.{lookup, insert, remove}
use remote_file_system.Paths.{FilePath}
use remote_file_system.Client.Attributes.{Attributes}
use remote_file_system.Client.Action.{Action, ok, panicked, pure, attempt, ◌>>=◌, ◌>>◌}
use remote_file_system.Client.Network.{RemoteStorage}
use remote_file_system.Client.Items.{CacheItem, file, get_attributes as attributes_of}
use remote_file_system.Client.Cache.{cache_write_file, cache_put_attr}
use remote_file_system.Client.Pages
use remote_file_system.Client.ReadBuffer
use remote_file_system.Client.WriteBuffer
use remote_file_system.Client.WriteBuffer.{WriteBuffer}
use mathlib.Core.Option.{bind}
use remote_file_system.Client.Model.{State, path_to_string, ask, cache_get, cache_try}

-- One call of the server's `write_file`: path, offset and bytes.
abbrev pub Upload : Type 0
Upload = FilePath × ℕ × List ℕ

abbrev pub is_empty : {A : Type 0} → List A → Bool
is_empty [] = true
is_empty (_ ∷ _) = false

-- The content of the buffer, where there is any.
abbrev pub drain : WriteBuffer → List Upload
drain b = if is_empty (WriteBuffer.get_content b).2 then [] else WriteBuffer.get_content b ∷ []

-- The part of `write_file` under the lock: the buffer, the bytes taken and the uploads.
unfoldable pub stage : WriteBuffer → FilePath → ℕ → List ℕ → WriteBuffer × ℕ × List Upload
stage b path offset bytes =
    let appends = WriteBuffer.is_appending b path offset in
    let displaced = if appends then [] else drain b in
    let (b', written) =
      WriteBuffer.write (if appends then b else WriteBuffer.clean b) path offset bytes in
    if WriteBuffer.is_full b'
    then (WriteBuffer.clean b', written, displaced ++ WriteBuffer.get_content b' ∷ [])
    else (b', written, displaced)

module _ (env : RemoteStorage) where
  unfoldable pub get_attributes : FilePath → Action (State env) Attributes
  get_attributes path = do
    item ← cache_get env path
    elim (bind item attributes_of) [
      | some a ↦ pure a
      | none ↦ do
        p ← path_to_string path
        a ← ask env (env.get_attributes p)
        cache_try env (λ l c now. cache_put_attr l c now path a)
        pure a
    ]

  -- Whether `get_attributes` gives a size that the offset is at or past.
  abbrev pub is_past_end : Option Attributes → ℕ → Bool
  is_past_end none offset = false
  is_past_end (some a) offset = leb a.size offset

  -- The bytes that a cached file gives.
  abbrev pub cached_bytes : Option CacheItem → ℕ → ℕ → Action (State env) (List ℕ)
  cached_bytes (some (file f)) offset size s = elim (Pages.read s.limits.page_size f offset size) [
    | none ↦ (panicked, s)
    | some bytes ↦ (ok bytes, s)
  ]
  cached_bytes _ offset size s = (ok [], s)

  abbrev pub buffered_bytes : FilePath → ℕ → ℕ → Action (State env) (List ℕ)
  buffered_bytes path offset size s =
      (ok (ReadBuffer.read s.read_buffer (env.now s.remote) path offset size), s)

  abbrev pub fill_buffer : FilePath → ℕ → List ℕ → Action (State env) (Unit {0})
  fill_buffer path offset bytes s = (
    ok tt,
    record s { read_buffer = ReadBuffer.fill s.read_buffer (env.now s.remote) path offset bytes },
  )

  abbrev pub read_capacity : Action (State env) ℕ
  read_capacity s = (ok s.read_buffer.capacity, s)

  -- The last part of `read_file`: the server's bytes.
  unfoldable pub read_remote : FilePath → ℕ → ℕ → Action (State env) (List ℕ)
  read_remote path offset size = do
    p ← path_to_string path
    capacity ← read_capacity
    bytes ← ask env (env.read_file p offset capacity)
    fill_buffer path offset bytes
    cache_try env (λ l c now. cache_write_file l c now path offset bytes false)
    pure (take (min (length bytes) size) bytes)

  -- The second part: the read buffer, then the server.
  unfoldable pub read_buffered : FilePath → ℕ → ℕ → Action (State env) (List ℕ)
  read_buffered path offset size = do
    bytes ← buffered_bytes path offset size
    if is_empty bytes then read_remote path offset size else do
      cache_try env (λ l c now. cache_write_file l c now path offset bytes false)
      pure bytes

  unfoldable pub read_file : FilePath → ℕ → ℕ → Action (State env) (List ℕ)
  read_file path offset size = do
    attributes ← attempt (get_attributes path)
    if is_past_end attributes offset then pure [] else do
      item ← cache_get env path
      bytes ← cached_bytes item offset size
      if is_empty bytes then read_buffered path offset size else pure bytes

  -- One round of the loop over `uploads`.
  unfoldable pub upload : Upload → Action (State env) (Unit {0})
  upload (path, offset, bytes) = do
    p ← path_to_string path
    ask env (env.write_file p offset bytes)
    cache_try env (λ l c now. cache_write_file l c now path offset bytes true)

  unfoldable pub upload_all : List Upload → Action (State env) (Unit {0})
  upload_all [] = pure tt
  upload_all (u ∷ us) = do upload u; upload_all us

  unfoldable pub write_file : FilePath → ℕ → List ℕ → Action (State env) ℕ
  write_file path offset bytes s =
      let (buffer, written, uploads) = stage s.write_buffer path offset bytes in
      (upload_all uploads >> pure written) (record s { write_buffer = buffer })

  unfoldable pub flush_write_buffer : Action (State env) (Unit {0})
  flush_write_buffer s =
      if is_empty (WriteBuffer.get_content s.write_buffer).2
      then (ok tt, s)
      else upload (WriteBuffer.get_content s.write_buffer)
          (record s { write_buffer = WriteBuffer.clean s.write_buffer })

  unfoldable pub open_file : FilePath → Action (State env) ℕ
  open_file path s = (
    ok s.current_fh,
    record s {
      current_fh = add_usize s.current_fh 1;
      file_handlers = insert ℕ_discrete s.current_fh path s.file_handlers;
    },
  )

  unfoldable pub release : ℕ → Action (State env) (Unit {0})
  release fh s = (ok tt, record s { file_handlers = remove ℕ_discrete fh s.file_handlers })

  unfoldable pub get_path_from_fh : ℕ → Action (State env) (Option FilePath)
  get_path_from_fh fh s = (ok (lookup ℕ_discrete fh s.file_handlers), s)
