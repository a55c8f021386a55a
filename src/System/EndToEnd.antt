-- ===== src/System/EndToEnd.antt =====
-- A read through the client, the network and the server, down to the disk.
use remote_file_system.Prelude.{
  ℕ, ◌+◌, ◌<◌, ◌^◌, ◌≡◌, refl, ◌∙◌, true, false, some, List, [], ◌∷◌, ◌++◌, length, take, drop,
  word_size, arith,
}
use remote_file_system.Paths.{Text, FilePath, text, path_is_utf8, parse, root, same_path}
use remote_file_system.Action.{ok}
use remote_file_system.Client.Attributes.{Attributes}
use remote_file_system.Client.Network.{RemoteStorage}
use remote_file_system.Client.Remote.{RemoteClient, auth_header, request, remote_client}
use remote_file_system.Client.Remote.Decoding.{
  attributes_of_server, same_attributes, handle_response,
}
use remote_file_system.Client.Model.{State as ClientState}
use remote_file_system.Client.Attributes.Modes.{Libc}
use remote_file_system.Client.Fuse.Files.{read}
use remote_file_system.Client.Fuse.ReadLoop.Content.{Serves, IsReady, read_gives}
use remote_file_system.Client.Fuse.ReadLoop.Fronts.{IsPrefix}
use remote_file_system.Server.Disk.{Disk, Metadata, done as io_done}
use remote_file_system.Server.Attributes.{read_operation}
use remote_file_system.Server.Storage.{
  FileSystem, make_real_path, attributes_of, get_attributes_by_path, get_attributes,
}
use remote_file_system.Server.Storage.Access.{bit_allows, digit_for, is_allowed_mode}
use remote_file_system.Server.Storage.Files.{read_file}
use remote_file_system.Server.Database.{ok as row}
use remote_file_system.Server.Database.Tokens.{AuthenticatedUser, verify_token}
use remote_file_system.Server.Requests.{
  Request, get_attributes_request, read_request, respond, content, attributes,
}
use remote_file_system.Server.Routes.{State, check_permission}
use remote_file_system.Server.Routes.Handlers
use remote_file_system.Server.Routes.Session.{
  header, after_prefix, token_of_header, with_token, auth_middleware,
}
use remote_file_system.System.Link.{Keys, link}

-- A file on the disk that the process of the server can read, in the states that are `Here`: its
-- metadata stay, opening, seeking and reading succeed and lead to such states, and a read gives a
-- front of the bytes from its offset on, and something where there is something.
pub record Holding (disk : Disk) (real : FilePath) (bytes : List ℕ) : Type 1 where
  pub Here : disk.World → Type 0
  pub metadata : Metadata
  pub sized : metadata.len ≡ length bytes
  pub described : (w : disk.World) → Here w → disk.symlink_metadata real w ≡ io_done metadata
  pub reads :
      (offset n : ℕ) (w : disk.World)
      → Here w
      → 0 < n
      → offset < length bytes
      → (f : disk.File) × (w1 : disk.World) × (k : ℕ) × (w2 : disk.World) × (b : ℕ) × (bs : List ℕ)
        × (w3 : disk.World) × (disk.open_read real w ≡ (io_done f, w1))
        × (disk.seek f offset w1 ≡ (io_done k, w2))
        × (disk.read f n w2 ≡ (io_done (b ∷ bs), w3))
        × IsPrefix (b ∷ bs) (drop offset bytes)
        × Here w3

after_bearer : (p t : Text) → after_prefix p (p ++ t) ≡ some t
unfolding after_prefix
after_bearer [] t = refl
after_bearer (c ∷ p) t = ground (arith, after_bearer p t)

bearer_token : (t : Text) → token_of_header (header (text "Bearer " ++ t)) ≡ ok t
unfolding token_of_header
bearer_token t = ground (arith, after_bearer (text "Bearer ") t)

readable :
    (m : Metadata)
    → m.mode < 2 ^ 16
    → (a : Attributes) × (attributes_of_server (attributes_of m) ≡ some a) × (a.size ≡ m.len)
unfolding attributes_of_server same_attributes attributes_of
readable m small = (same_attributes (attributes_of m), ground arith, refl)

module _ (disk : Disk) (fs : FileSystem) (keys : Keys) (decimal : ℕ → Text)
    (spelling : FilePath → Text) (path : FilePath) (bytes : List ℕ) (t : Text)
    (user : AuthenticatedUser) (held : Holding disk (make_real_path fs path) bytes) where
  abbrev pub system : RemoteStorage
  system = remote_client (link disk fs keys decimal spelling)

  -- The client has a token that the server accepts for the user, and the file is there.
  pub record HasSession (c : RemoteClient (link disk fs keys decimal spelling)) : Type 0 where
    pub stored : c.token_store ≡ some t
    pub accepted : verify_token keys.decode_claims c.wire.seconds t c.wire.state.database ≡ row user
    pub here : held.Here c.wire.state.world

  admitted :
      (r : Request) (now : ℕ) (s : State disk)
      → verify_token keys.decode_claims now t s.database ≡ row user
      → auth_middleware disk fs keys.decode_claims now (header (text "Bearer " ++ t)) r s
        ≡ Handlers.handle disk fs user r s
  unfolding auth_middleware with_token
  admitted r now s v = ground (arith, bearer_token t, v)

  gets_attributes :
      (s : State disk)
      → parse (spelling path) ≡ path
      → held.Here s.world
      → Handlers.handle disk fs user (get_attributes_request (spelling path)) s
        ≡ (ok (attributes (attributes_of held.metadata)), s)
  unfolding Handlers.handle Handlers.get_attributes get_attributes get_attributes_by_path
  gets_attributes s p h = ground (arith, p, held.described s.world h)

  may_read :
      (s : State disk)
      → parse (spelling path) ≡ path
      → same_path (make_real_path fs path) (make_real_path fs root) ≡ false
      → bit_allows held.metadata user.user_id read_operation
          (digit_for held.metadata user.user_id user.group_id)
        ≡ true
      → held.Here s.world
      → check_permission disk fs user (spelling path) read_operation s ≡ (ok tt, s)
  unfolding check_permission
  may_read s p n b h = ground (
    arith,
    p,
    b,
    is_allowed_mode disk fs user.user_id user.group_id path read_operation s.world held.metadata
        (held.described s.world h) n,
  )

  reads_content :
      (offset n : ℕ) (s : State disk)
      → parse (spelling path) ≡ path
      → same_path (make_real_path fs path) (make_real_path fs root) ≡ false
      → bit_allows held.metadata user.user_id read_operation
          (digit_for held.metadata user.user_id user.group_id)
        ≡ true
      → held.Here s.world
      → 0 < n
      → offset < length bytes
      → (b : ℕ) × (bs : List ℕ) × (w : disk.World) × (Handlers.handle disk fs user
            (read_request (spelling path) offset n)
            s
          ≡ (ok (content (b ∷ bs)), record s { world = w }))
        × IsPrefix (b ∷ bs) (drop offset bytes)
        × held.Here w
  unfolding Handlers.handle Handlers.get_file_content read_file
  reads_content offset n s p not_root allowed h asked left =
      let (f, w1, k, w2, b, bs, w3, opens, seeks, gives, front, here) =
        held.reads offset n s.world h asked left in
      (
        b,
        bs,
        w3,
        ground (arith, may_read s p not_root allowed h, p, opens, seeks, gives),
        front,
        here,
      )

  serves :
      parse (spelling path) ≡ path
      → same_path (make_real_path fs path) (make_real_path fs root) ≡ false
      → held.metadata.mode < 2 ^ 16
      → bit_allows held.metadata user.user_id read_operation
          (digit_for held.metadata user.user_id user.group_id)
        ≡ true
      → Serves system path bytes HasSession
  unfolding request handle_response auth_header respond
  serves p not_root small allowed = record {
    describes = λ c h.
        let s = c.wire.state in
        let (a, decoded, size) = readable held.metadata small in
        (
          a,
          record c { wire = record c.wire { state = s } },
          ground (
            arith,
            h.stored,
            admitted (get_attributes_request (spelling path)) c.wire.seconds s h.accepted,
            gets_attributes s p h.here,
            decoded,
          ),
          size ∙ held.sized,
          record { stored = h.stored; accepted = h.accepted; here = h.here },
        );
    reads = λ offset n c h asked left.
        let s = c.wire.state in
        let (b, bs, w, gives, front, here) =
          reads_content offset n s p not_root allowed h.here asked left in
        (
          b,
          bs,
          record c { wire = record c.wire { state = record s { world = w } } },
          ground (
            arith,
            h.stored,
            admitted (read_request (spelling path) offset n) c.wire.seconds s h.accepted,
            gives,
          ),
          front,
          record { stored = h.stored; accepted = h.accepted; here = here },
        );
  }

  -- The whole system, without a client cache: a read through the FUSE adapter gives exactly the bytes
  -- of the file on the server's disk from its offset on, at most as many as it is asked for, and
  -- leaves a state in which the next read does the same. The client has a token that the server
  -- accepts for the user; the file can be read by the server's process and stays; it is not the root
  -- of the file system, and the bits of its mode let the user read; its mode has 16 bits. The path
  -- is UTF-8 and is read by the server as it was written; the offset, the size and the capacity of
  -- the read buffer fit a usize together.
  pub read_end_to_end :
      (libc : Libc) (fh offset size : ℕ) (s : ClientState system)
      → parse (spelling path) ≡ path
      → path_is_utf8 path ≡ true
      → same_path (make_real_path fs path) (make_real_path fs root) ≡ false
      → held.metadata.mode < 2 ^ 16
      → bit_allows held.metadata user.user_id read_operation
          (digit_for held.metadata user.user_id user.group_id)
        ≡ true
      → IsReady system path bytes HasSession s
      → offset + size + s.read_buffer.capacity < word_size
      → (after : ClientState system) × (read libc system (some path) fh offset size s
          ≡ (ok (take size (drop offset bytes)), after))
        × IsReady system path bytes HasSession after
  read_end_to_end libc fh offset size s p u not_root small allowed r fits =
      read_gives libc system path bytes HasSession (serves p not_root small allowed) fh offset size
        s u r fits
