-- ===== src/Server/Attributes/Records.antt =====
-- The attributes of a file as the server sends and takes them: the records of
-- server/src/attributes.rs, with the conversions of their times.
use remote_file_system.Prelude.{
  ℕ, ◌+◌, ◌-◌, ◌/◌, ◌%◌, ◌^◌, min, Option, none, some, ltb, if◌then◌else◌,
}
use remote_file_system.Server.Attributes.{FileType}

-- `std::time::SystemTime`: the seconds and nanoseconds since or up to the epoch.
pub data SystemTime : Type 0 where
  since_epoch : ℕ → ℕ → SystemTime
  up_to_epoch : ℕ → ℕ → SystemTime

-- `sec` is an `i64`, as its 64 bits.
pub record Timestamp : Type 0 where
  pub sec : ℕ
  pub nsec : ℕ

-- A time before the epoch becomes the epoch, and one past an `i64` the greatest.
unfoldable pub timestamp_of_time : SystemTime → Timestamp
timestamp_of_time (since_epoch s n) = record { sec = min s (2 ^ 63 - 1); nsec = n }
timestamp_of_time (up_to_epoch s n) = record { sec = 0; nsec = 0 }

-- `none` is the panic of the `unwrap`: a time past the greatest, as which a negative number of
-- seconds is read.
unfoldable pub time_of_timestamp : Timestamp → Option SystemTime
time_of_timestamp t =
    let sec = t.sec + t.nsec / 1000000000 in
    if ltb sec (2 ^ 63) then some (since_epoch sec (t.nsec % 1000000000)) else none

pub record FileAttr : Type 0 where
  pub size : ℕ
  pub blocks : ℕ
  pub atime : Timestamp
  pub mtime : Timestamp
  pub ctime : Timestamp
  pub kind : FileType
  pub perm : ℕ
  pub nlink : ℕ
  pub uid : ℕ
  pub gid : ℕ
  pub rdev : ℕ
  pub blksize : ℕ

-- The fields that nothing reads (`ctime` to `flags`) are left out.
pub record SetAttr : Type 0 where
  pub mode : Option ℕ
  pub uid : Option ℕ
  pub gid : Option ℕ
  pub size : Option ℕ
  pub atime : Option Timestamp
  pub mtime : Option Timestamp

pub record Stats : Type 0 where
  pub blocks : ℕ
  pub bfree : ℕ
  pub bavail : ℕ
  pub files : ℕ
  pub ffree : ℕ
  pub bsize : ℕ
  pub namelen : ℕ
  pub frsize : ℕ
