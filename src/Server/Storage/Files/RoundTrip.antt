-- ===== src/Server/Storage/Files/RoundTrip.antt =====
-- What is read after a write: server/src/storage.rs.
use remote_file_system.Prelude.{
  ℕ, ◌≤◌, ◌≡◌, sym, ap, ◌∙◌, Bool, true, false, some, List, arith, length, take, drop,
  if◌then◌else◌,
}
use remote_file_system.Paths.{FilePath}
use remote_file_system.Action.{ok, bind-ok, pure}
use remote_file_system.Server.Disk.{Disk, call, call-ok, call_other-ok}
use remote_file_system.Server.Disk.Laws.{KeepsBytes, after_write}
use remote_file_system.Server.Storage.{FileSystem, make_real_path, exists}
use remote_file_system.Server.Storage.Files.{set_owner, write_file, read_file}

module _ (disk : Disk) (laws : KeepsBytes disk) (fs : FileSystem) where
  set_owner_keeps :
      (user_id group_id : ℕ) (path : FilePath) (w w' : disk.World)
      → set_owner disk user_id group_id path w ≡ (ok tt, w')
      → laws.bytes path w' ≡ laws.bytes path w
  unfolding set_owner
  set_owner_keeps user_id group_id path w w' h =
      laws.chown path (some user_id) (some group_id) w w'
        (call_other-ok (disk.chown path (some user_id) (some group_id)) w w' tt h)

  owner_step_keeps :
      (existed : Bool) (user_id group_id : ℕ) (path : FilePath) (w w' : disk.World)
      → (if existed then pure tt else set_owner disk user_id group_id path) w ≡ (ok tt, w')
      → laws.bytes path w' ≡ laws.bytes path w
  owner_step_keeps true user_id group_id path w w' h = ap (λ r. laws.bytes path r.1) (sym h)
  owner_step_keeps false user_id group_id path w w' h = set_owner_keeps user_id group_id path w w' h

  -- A write that succeeds leaves the bytes of the file overwritten at the offset.
  pub bytes-write_file :
      (user_id group_id : ℕ) (path : FilePath) (b : List ℕ) (offset : ℕ) (w w' : disk.World)
      → write_file disk fs user_id group_id path b offset w ≡ (ok tt, w')
      → laws.bytes (make_real_path fs path) w'
        ≡ after_write (laws.bytes (make_real_path fs path) w) offset b
  unfolding write_file
  bytes-write_file user_id group_id path b offset w w' h =
      let real = make_real_path fs path in
      let (f, w1, h1, r1) = bind-ok (call (disk.open_write true real)) _ w w' tt h in
      let (n, w2, h2, r2) = bind-ok (call (disk.seek f offset)) _ w1 w' tt r1 in
      let (_, w3, h3, r3) = bind-ok (call (disk.write_all f b)) _ w2 w' tt r2 in
      let (here, o1) =
        laws.open_write true real w w1 f (call-ok (disk.open_write true real) w w1 f h1) in
      let (there, o2) = laws.seek f offset n real w1 w2 (call-ok (disk.seek f offset) w1 w2 n h2) in
      let o3 = laws.write_all f b w2 w3 (call-ok (disk.write_all f b) w2 w3 tt h3) in
      let o4 = owner_step_keeps (exists disk real w) user_id group_id real w3 w' r3 in
      ground (arith, here, o1, there, o2, o3, o4)

  -- A read that succeeds gives at most the bytes it is asked for, and these are the file's.
  read_file_sound :
      (path : FilePath) (offset size : ℕ) (b : List ℕ) (w w' : disk.World)
      → read_file disk fs path offset size w ≡ (ok b, w')
      → (length b ≤ size)
        × (b ≡ take (length b) (drop offset (laws.bytes (make_real_path fs path) w)))
  unfolding read_file
  read_file_sound path offset size b w w' h =
      let real = make_real_path fs path in
      let (f, w1, h1, r1) = bind-ok (call (disk.open_read real)) _ w w' b h in
      let (n, w2, h2, h3) = bind-ok (call (disk.seek f offset)) _ w1 w' b r1 in
      let (here, o1) = laws.open_read real w w1 f (call-ok (disk.open_read real) w w1 f h1) in
      let (there, o2) = laws.seek f offset n real w1 w2 (call-ok (disk.seek f offset) w1 w2 n h2) in
      let (short, o3) = laws.read f size w2 w' b (call-ok (disk.read f size) w2 w' b h3) in
      (short, ground (arith, here, o1, there, o2, o3))

  -- After a write that succeeds, a read of the same path that succeeds gives at most the bytes it
  -- is asked for, and they are those from its offset on of the bytes that the write leaves: the old ones
  -- overwritten at its offset, where what lies between the end of the file and the write is zeros, and
  -- the old ones alone where nothing is written.
  pub read_file-write_file :
      (user_id group_id : ℕ) (path : FilePath) (data_bytes : List ℕ) (at from size : ℕ) (b : List ℕ)
      (w w' w'' : disk.World)
      → write_file disk fs user_id group_id path data_bytes at w ≡ (ok tt, w')
      → read_file disk fs path from size w' ≡ (ok b, w'')
      → (length b ≤ size)
        × (b
            ≡ take
                (length b)
                (drop from (after_write (laws.bytes (make_real_path fs path) w) at data_bytes)))
  read_file-write_file user_id group_id path data_bytes at from size b w w' w'' h r =
      let written = bytes-write_file user_id group_id path data_bytes at w w' h in
      let (short, given) = read_file_sound path from size b w' w'' r in
      (short, given ∙ ap (λ x. take (length b) (drop from x)) written)
