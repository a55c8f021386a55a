-- ===== src/Examples/System.antt =====
-- A read through the whole system on a small disk.
use remote_file_system.Prelude.{
  ℕ, suc, zero, ◌+◌, ◌<◌, ◌≡◌, refl, ap, true, false, none, some, List, [], ◌∷◌, ◌++◌, length,
  length-drop, take, drop, word_size, arith, ℕ_discrete,
}
use remote_file_system.Paths.{
  Text, FilePath, FilePath-discrete, Text-discrete, root_dir, normal, root, same_path, parse,
  segments, of_segments, of_segment, is_dot, is_absolute, path_is_utf8,
}
use remote_file_system.Action.{ok}
use remote_file_system.Client.ReadBuffer
use remote_file_system.Client.Model.{FileSystem as ClientFileSystem}
use remote_file_system.Client.Remote.{RemoteClient}
use remote_file_system.Client.Fuse.Files.{read}
use remote_file_system.Client.Fuse.ReadLoop.Content.{IsReady}
use remote_file_system.Client.Fuse.ReadLoop.Fronts.{IsPrefix, take-IsPrefix}
use remote_file_system.Server.Disk.{Metadata}
use remote_file_system.Server.Storage.{FileSystem, make_real_path}
use remote_file_system.Server.Attributes.Records.{since_epoch}
use remote_file_system.Server.Database.{ok as row}
use remote_file_system.Server.Database.Tokens.{Claims, user_of, verify_token, is_token_revoked}
use remote_file_system.System.Link.{Keys, link}
use remote_file_system.System.EndToEnd.{Holding, HasSession, system, read_end_to_end}
use remote_file_system.Examples.Disk.{Tree, Entry, tree_disk, put}
use remote_file_system.Examples.Fuse.{linux}
use remote_file_system.Examples.Model.{idle}

abbrev pub served : FileSystem
served = record { real_path = root_dir ∷ normal (115 ∷ []) ∷ [] }

abbrev pub path_a : FilePath
path_a = root_dir ∷ normal (97 ∷ []) ∷ []

abbrev pub bytes_a : List ℕ
bytes_a = 1 ∷ 2 ∷ 3 ∷ []

abbrev pub entry_a : Entry
entry_a = record { is_dir = false; mode = 416; uid = 7; gid = 8; bytes = bytes_a }

abbrev metadata_a : Metadata
metadata_a = record {
  is_dir = false;
  is_file = true;
  is_symlink = false;
  len = 3;
  accessed = since_epoch 0 0;
  modified = since_epoch 0 0;
  ctime = record { sec = 0; nsec = 0 };
  mode = 416;
  uid = 7;
  gid = 8;
}

-- A path of names as a string.
abbrev pub spelling : FilePath → Text
spelling [] = []
spelling (normal t ∷ p) = 47 ∷ (t ++ spelling p)
spelling (_ ∷ p) = spelling p

abbrev pub decimal : ℕ → Text
decimal n = (48 + n) ∷ []

abbrev claims : Claims
claims = record { user_id = 1; group_id = 8; token_id = 120 ∷ []; exp = 1000 }

abbrev pub keys : Keys
keys = record {
  decode_claims = λ t. some claims;
  verify_password = λ p h. false;
  generate_token = λ u g. row [];
}

real_of_a : make_real_path served path_a ≡ root_dir ∷ normal (115 ∷ []) ∷ normal (97 ∷ []) ∷ []
unfolding make_real_path
real_of_a = refl

abbrev HasFile : Tree → Type 0
HasFile w = w.entries (make_real_path served path_a) ≡ some entry_a

first_of :
    (l : List ℕ) (n : ℕ)
    → 0 < n
    → 0 < length l
    → (b : ℕ) × (bs : List ℕ) × (take n l ≡ b ∷ bs) × IsPrefix (b ∷ bs) l
first_of (x ∷ l) (suc n) h k = (x, take n l, refl, ap (◌∷◌ x) (take-IsPrefix n l))
first_of [] n h k = absurd (omega arith)
first_of (x ∷ l) zero h k = absurd (omega arith)

abbrev holding : Holding tree_disk (make_real_path served path_a) bytes_a
holding = record {
  Here = HasFile;
  metadata = metadata_a;
  sized = refl;
  described = λ w h. ground (arith, h);
  reads = λ offset n w h asked left.
      let (b, bs, some_bytes, front) =
        first_of (drop offset bytes_a) n asked (omega (arith, length-drop offset bytes_a, left)) in
      (
        make_real_path served path_a,
        w,
        offset,
        record w { position = offset },
        b,
        bs,
        record w { position = offset },
        ground (arith, h),
        refl,
        ground (arith, h, some_bytes),
        front,
        h,
      );
}

abbrev pub start : ClientFileSystem (RemoteClient (link tree_disk served keys decimal spelling))
start = record {
  remote = record {
    token_store = some (116 ∷ []);
    wire = record {
      state = record {
        world = record {
          entries = put (make_real_path served path_a) (some entry_a) (λ q. none);
          position = 0;
        };
        database = record { users = []; revoked_tokens = []; xattributes = [] };
      };
      seconds = 500;
      milliseconds = 0;
    };
  };
  limits = record { page_size = 4; max_pages = 2 };
  current_fh = 1;
  xattributes_enabled = true;
  file_handlers = [];
  read_buffer = ReadBuffer.empty 0 2;
  write_buffer = idle;
  cache = none;
}

read_buffer_empty :
    (now offset n : ℕ)
    → offset + n < word_size
    → IsPrefix (ReadBuffer.read start.read_buffer now path_a offset n) (drop offset bytes_a)
unfolding ReadBuffer.read ReadBuffer.empty
read_buffer_empty now offset n h = ground arith

token_accepted :
    verify_token keys.decode_claims 500 (116 ∷ []) start.remote.wire.state.database
    ≡ row (user_of claims)
unfolding verify_token is_token_revoked
token_accepted = refl

in_place : HasFile start.remote.wire.state.world
unfolding make_real_path FilePath-discrete Text-discrete ℕ_discrete
in_place = refl

start-IsReady :
    IsReady
      (system tree_disk served keys decimal spelling path_a bytes_a
        (116 ∷ [])
        (user_of claims)
        holding)
      path_a
      bytes_a
      (HasSession tree_disk served keys decimal spelling path_a bytes_a
        (116 ∷ [])
        (user_of claims)
        holding)
      start
unfolding ReadBuffer.empty
start-IsReady = record {
  uncached = refl;
  buffer = record {
    valid = record { storage = refl; filled = omega arith };
    room = omega arith;
    serves = read_buffer_empty;
  };
  held = record { stored = refl; accepted = token_accepted; here = in_place };
}

pub spelled : parse (spelling path_a) ≡ path_a
unfolding parse segments of_segments of_segment is_dot is_absolute
spelled = refl

utf8 : path_is_utf8 path_a ≡ true
unfolding path_is_utf8
utf8 = refl

below_root : same_path (make_real_path served path_a) (make_real_path served root) ≡ false
unfolding make_real_path FilePath-discrete Text-discrete ℕ_discrete
below_root = refl

fits : 1 + 9 + start.read_buffer.capacity < word_size
unfolding ReadBuffer.empty
fits = omega arith

read_end_to_end_example :
    let env =
      system tree_disk served keys decimal spelling path_a bytes_a
        (116 ∷ [])
        (user_of claims)
        holding in
    let Session =
      HasSession tree_disk served keys decimal spelling path_a bytes_a
        (116 ∷ [])
        (user_of claims)
        holding in
    (after : ClientFileSystem (RemoteClient (link tree_disk served keys decimal spelling))) × (read
        linux env
        (some path_a)
        1
        1
        9
        start
      ≡ (ok (take 9 (drop 1 bytes_a)), after))
    × IsReady env path_a bytes_a Session after
read_end_to_end_example =
    read_end_to_end tree_disk served keys decimal spelling path_a bytes_a (116 ∷ [])
      (user_of claims) holding linux 1 1 9 start spelled utf8 below_root (omega arith) refl
      start-IsReady fits
