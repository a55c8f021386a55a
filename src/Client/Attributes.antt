-- ===== src/Client/Attributes.antt =====
-- The attributes that the client keeps of a file: client/src/fs_model/attributes.rs.
pub mod Modes
use remote_file_system.Prelude.{ℕ, Bool, Option}

pub data FileType : Type 0 where
  named_pipe char_device block_device directory regular_file symlink socket : FileType

-- `sec` counts from the epoch; it is the bit pattern of an `i64`.
pub record Timestamp : Type 0 where
  pub sec : ℕ
  pub nsec : ℕ

pub record Attributes : Type 0 where
  pub size : ℕ
  pub blocks : ℕ
  pub atime : Timestamp
  pub mtime : Timestamp
  pub ctime : Timestamp
  pub kind : FileType
  pub perm : ℕ
  pub nlink : ℕ
  pub uid : ℕ
  pub gid : ℕ
  pub rdev : ℕ
  pub blksize : ℕ

pub record SetAttr : Type 0 where
  pub mode : Option ℕ
  pub uid : Option ℕ
  pub gid : Option ℕ
  pub size : Option ℕ
  pub atime : Option Timestamp
  pub mtime : Option Timestamp
  pub ctime : Option Timestamp

pub record Stats : Type 0 where
  pub blocks : ℕ
  pub bfree : ℕ
  pub bavail : ℕ
  pub files : ℕ
  pub ffree : ℕ
  pub bsize : ℕ
  pub namelen : ℕ
  pub frsize : ℕ

-- `RenameFlags`, one field for each flag.
pub record RenameFlags : Type 0 where
  pub noreplace : Bool
  pub exchange : Bool
  pub whiteout : Bool
