-- ===== src/Examples/Fuse.antt =====
-- Reads through the FUSE adapter on a server that holds one file.
use remote_file_system.Prelude.{
  ℕ, ◌+◌, ◌<◌, ◌≡◌, refl, ap, zero, suc, length, length-drop, true, some, List, [], ◌∷◌, take, drop,
  word_size, arith,
}
use remote_file_system.Paths.{path_is_utf8}
use remote_file_system.Action.{ok}
use remote_file_system.Client.Attributes.Modes.{Libc}
use remote_file_system.Client.Network.{RemoteStorage, Reply, done}
use remote_file_system.Client.ReadBuffer
use remote_file_system.Client.Model.{FileSystem}
use remote_file_system.Client.Fuse.Files.{read, read_loop}
use remote_file_system.Client.Fuse.ReadLoop.{has_ended, read_loop_ends}
use remote_file_system.Client.Fuse.ReadLoop.Content.{Serves, IsReady, read_gives}
use remote_file_system.Client.Fuse.ReadLoop.Fronts.{IsPrefix, take-IsPrefix}
use remote_file_system.Examples.Server.{logging, plain, Server}
use remote_file_system.Examples.Model.{notes, idle, system}

-- Linux's constants.
abbrev pub linux : Libc
linux = record {
  s_ifmt = 61440;
  s_ififo = 4096;
  s_ifchr = 8192;
  s_ifblk = 24576;
  s_ifdir = 16384;
  s_ifreg = 32768;
  s_iflnk = 40960;
  s_ifsock = 49152;
  r_ok = 4;
  w_ok = 2;
  x_ok = 1;
  o_accmode = 3;
  o_rdonly = 0;
  o_wronly = 1;
  o_rdwr = 2;
  o_creat = 64;
  o_excl = 128;
  o_trunc = 512;
  o_append = 1024;
  o_nonblock = 2048;
  o_noctty = 256;
  o_sync = 1052672;
  o_dsync = 4096;
  o_directory = 65536;
  o_nofollow = 131072;
  o_cloexec = 524288;
  o_tmpfile = 4259840;
  o_async = 8192;
  o_direct = 16384;
  o_noatime = 262144;
  o_path = 2097152;
}

abbrev content : List ℕ
content = 5 ∷ 6 ∷ 7 ∷ 8 ∷ []

-- It answers every read and every question for attributes with this file.
abbrev keeping : RemoteStorage
keeping = record logging {
  get_attributes = λ p w. (done plain, w);
  read_file = λ p offset n w. (done (take n (drop offset content)), w);
}

-- It always holds the file.
abbrev Always : Server → Type 0
Always w = Unit {0}

gives_some :
    (l : List ℕ) (n : ℕ) (w : Server)
    → 0 < n
    → 0 < length l
    → (b : ℕ) × (bs : List ℕ) × (w' : Server) × (◌≡◌ {A = Reply (List ℕ) × Server}
        (done (take n l), w)
        (done (b ∷ bs), w'))
      × IsPrefix (b ∷ bs) l
      × Always w'
gives_some (x ∷ l) (suc n) w h k = (x, take n l, w, refl, ap (◌∷◌ x) (take-IsPrefix n l), tt)
gives_some [] n w h k = absurd (omega arith)
gives_some (x ∷ l) zero w h k = absurd (omega arith)

keeping-Serves : Serves keeping notes content Always
keeping-Serves = record {
  describes = λ w h. (plain, w, refl, refl, tt);
  reads = λ offset n w h asked left.
      gives_some (drop offset content) n w asked (omega (arith, length-drop offset content, left));
}

abbrev fresh : FileSystem Server
fresh = system true idle

utf8 : path_is_utf8 notes ≡ true
unfolding path_is_utf8
utf8 = refl

empty_buffer :
    (now offset n : ℕ)
    → offset + n < word_size
    → IsPrefix (ReadBuffer.read fresh.read_buffer now notes offset n) (drop offset content)
unfolding ReadBuffer.read ReadBuffer.empty
empty_buffer now offset n h = ground arith

fresh-IsReady : IsReady keeping notes content Always fresh
unfolding ReadBuffer.empty
fresh-IsReady = record {
  uncached = refl;
  buffer = record {
    valid = record { storage = refl; filled = omega arith };
    room = omega arith;
    serves = empty_buffer;
  };
  held = tt;
}

fits : 1 + 9 + fresh.read_buffer.capacity < word_size
unfolding ReadBuffer.empty
fits = omega arith

read_gives_example :
    (after : FileSystem Server) × (read linux keeping (some notes) 1 1 9 fresh
      ≡ (ok (take 9 (drop 1 content)), after))
    × IsReady keeping notes content Always after
read_gives_example =
    read_gives linux keeping notes content Always keeping-Serves 1 1 9 fresh utf8 fresh-IsReady fits

read_loop_ends_example : has_ended 9 (read_loop linux keeping 10 notes 1 9 [] fresh).0 ≡ true
read_loop_ends_example = read_loop_ends linux keeping notes 1 9 fresh
