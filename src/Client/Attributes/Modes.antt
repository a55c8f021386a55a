-- ===== src/Client/Attributes/Modes.antt =====
-- The numbers that stand for file types, permissions and open flags:
-- client/src/fs_model/attributes.rs. The constants of libc are a parameter.
use remote_file_system.Prelude.{
  ℕ, ◌/◌, ◌%◌, ◌*◌, ◌^◌, Bool, true, false, not, Option, none, some, ◌==◌, if◌then◌else◌,
}
use Prim.Native.Nat.{bit_and, bit_or}
use remote_file_system.Client.Attributes.{
  FileType, named_pipe, char_device, block_device, directory, regular_file, symlink, socket,
}

pub record Libc : Type 0 where
  pub s_ifmt : ℕ
  pub s_ififo : ℕ
  pub s_ifchr : ℕ
  pub s_ifblk : ℕ
  pub s_ifdir : ℕ
  pub s_ifreg : ℕ
  pub s_iflnk : ℕ
  pub s_ifsock : ℕ
  pub r_ok : ℕ
  pub w_ok : ℕ
  pub x_ok : ℕ
  pub o_accmode : ℕ
  pub o_rdonly : ℕ
  pub o_wronly : ℕ
  pub o_rdwr : ℕ
  pub o_creat : ℕ
  pub o_excl : ℕ
  pub o_trunc : ℕ
  pub o_append : ℕ
  pub o_nonblock : ℕ
  pub o_noctty : ℕ
  pub o_sync : ℕ
  pub o_dsync : ℕ
  pub o_directory : ℕ
  pub o_nofollow : ℕ
  pub o_cloexec : ℕ
  pub o_tmpfile : ℕ
  pub o_async : ℕ
  pub o_direct : ℕ
  pub o_noatime : ℕ
  pub o_path : ℕ

pub record PermissionType : Type 0 where
  pub read : Bool
  pub write : Bool
  pub execute : Bool

pub record Permission : Type 0 where
  pub user : PermissionType
  pub group : PermissionType
  pub other : PermissionType

pub record Flags : Type 0 where
  pub readonly : Bool
  pub writeonly : Bool
  pub readwrite : Bool
  pub create : Bool
  pub excl : Bool
  pub trunc : Bool
  pub append : Bool
  pub nonblock : Bool
  pub noctt : Bool
  pub sync : Bool
  pub dsync : Bool
  pub directory : Bool
  pub nofollow : Bool
  pub cloexec : Bool
  pub tmpfile : Bool
  pub async_io : Bool
  pub direct : Bool
  pub noatime : Bool
  pub path : Bool

-- `Flags::default`
unfoldable pub default_flags : Flags
default_flags = record {
  readonly = false;
  writeonly = false;
  readwrite = true;
  create = true;
  excl = false;
  trunc = false;
  append = true;
  nonblock = false;
  noctt = false;
  sync = false;
  dsync = false;
  directory = false;
  nofollow = false;
  cloexec = false;
  tmpfile = false;
  async_io = false;
  direct = false;
  noatime = false;
  path = false;
}

-- `value & flag != 0`
abbrev pub has : ℕ → ℕ → Bool
has value flag = not (bit_and value flag == 0)

abbrev pub flag_if : Bool → ℕ → ℕ
flag_if true n = n
flag_if false n = 0

module _ (libc : Libc) where
  unfoldable pub mode_of_file_type : FileType → ℕ
  mode_of_file_type named_pipe = libc.s_ififo
  mode_of_file_type char_device = libc.s_ifchr
  mode_of_file_type block_device = libc.s_ifblk
  mode_of_file_type directory = libc.s_ifdir
  mode_of_file_type regular_file = libc.s_ifreg
  mode_of_file_type symlink = libc.s_iflnk
  mode_of_file_type socket = libc.s_ifsock

  -- The type of what is left of a mode under `S_IFMT`.
  abbrev pub file_type_of_bits : ℕ → Option FileType
  file_type_of_bits kind =
      if kind == libc.s_ififo
      then some named_pipe
      else if kind == libc.s_ifchr
      then some char_device
      else if kind == libc.s_ifblk
      then some block_device
      else if kind == libc.s_ifdir
      then some directory
      else if kind == libc.s_ifreg
      then some regular_file
      else if kind == libc.s_iflnk
      then some symlink
      else if kind == libc.s_ifsock
      then some socket
      else none

  -- `none` is the error `ConversionFailed`.
  unfoldable pub file_type_of_mode : ℕ → Option FileType
  file_type_of_mode value = file_type_of_bits (bit_and value libc.s_ifmt)

  unfoldable pub bits_of_permission_type : PermissionType → ℕ
  bits_of_permission_type p =
      bit_or (bit_or (flag_if p.read libc.r_ok) (flag_if p.write libc.w_ok))
        (flag_if p.execute libc.x_ok)

  unfoldable pub permission_type_of_bits : ℕ → PermissionType
  permission_type_of_bits value = record {
    read = has value libc.r_ok;
    write = has value libc.w_ok;
    execute = has value libc.x_ok;
  }

  unfoldable pub bits_of_permission : Permission → ℕ
  bits_of_permission p =
      bit_or (bit_or (bits_of_permission_type p.user * 64) (bits_of_permission_type p.group * 8))
        (bits_of_permission_type p.other)

  unfoldable pub permission_of_bits : ℕ → Permission
  permission_of_bits value = record {
    user = permission_type_of_bits (value / 64);
    group = permission_type_of_bits (value / 8);
    other = permission_type_of_bits value;
  }

  -- `Flags::from_target`
  unfoldable pub bits_of_flags : Flags → ℕ
  bits_of_flags f = bit_or (flag_if f.readonly libc.o_rdonly) (
      bit_or (flag_if f.writeonly libc.o_wronly) (
        bit_or (flag_if f.readwrite libc.o_rdwr) (
          bit_or (flag_if f.create libc.o_creat) (
            bit_or (flag_if f.excl libc.o_excl) (
              bit_or (flag_if f.trunc libc.o_trunc) (
                bit_or (flag_if f.append libc.o_append) (
                  bit_or (flag_if f.nonblock libc.o_nonblock) (
                    bit_or (flag_if f.noctt libc.o_noctty) (
                      bit_or (flag_if f.sync libc.o_sync) (
                        bit_or (flag_if f.dsync libc.o_dsync) (
                          bit_or (flag_if f.directory libc.o_directory) (
                            bit_or (flag_if f.nofollow libc.o_nofollow) (
                              bit_or (flag_if f.cloexec libc.o_cloexec) (
                                bit_or (flag_if f.tmpfile libc.o_tmpfile) (
                                  bit_or (flag_if f.async_io libc.o_async) (
                                    bit_or (flag_if f.direct libc.o_direct) (
                                      bit_or (flag_if f.noatime libc.o_noatime)
                                        (flag_if f.path libc.o_path))))))))))))))))))

  -- `Flags::try_to_target`, of the low 32 bits of a number.
  unfoldable pub flags_of_bits : ℕ → Flags
  flags_of_bits bits =
      let value = bits % 2 ^ 32 in
      let access_mode = bit_and value libc.o_accmode in
      record {
        readonly = access_mode == libc.o_rdonly;
        writeonly = access_mode == libc.o_wronly;
        readwrite = access_mode == libc.o_rdwr;
        create = has value libc.o_creat;
        excl = has value libc.o_excl;
        trunc = has value libc.o_trunc;
        append = has value libc.o_append;
        nonblock = has value libc.o_nonblock;
        noctt = has value libc.o_noctty;
        sync = has value libc.o_sync;
        dsync = has value libc.o_dsync;
        directory = has value libc.o_directory;
        nofollow = has value libc.o_nofollow;
        cloexec = has value libc.o_cloexec;
        tmpfile = has value libc.o_tmpfile;
        async_io = has value libc.o_async;
        direct = has value libc.o_direct;
        noatime = has value libc.o_noatime;
        path = has value libc.o_path;
      }
