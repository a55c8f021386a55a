-- ===== src/Client/Windows/Creation/Options.antt =====
-- Which options of `create` lead to which request: client/src/fuse/windows.rs.
use remote_file_system.Prelude.{
  ℕ, ◌/◌, ◌%◌, ◌≡◌, refl, ap, ◌∙◌, false, ◌||◌, Bool-cases, inl, inr, Option, List, [], ◌==◌,
  if◌then◌else◌, arith,
}
use remote_file_system.Prelude.Bits.{bit_and-one, bit_and-two, bit_and-three, bit_and-sixty_four}
use remote_file_system.Paths.{FilePath}
use remote_file_system.Action.{ok, pure, raise, ◌>>◌}
use remote_file_system.Client.Network.{RemoteStorage}
use remote_file_system.Client.Model.{State}
use remote_file_system.Client.Model.Names
use remote_file_system.Client.Windows.{
  Win32, Winfsp, FileInfo, Handle, Handler, io_invalid_input, has_flag, model,
  winfsp_path_to_pathbuf,
}
use remote_file_system.Client.Windows.Files.{handle_of}
use remote_file_system.Client.Windows.Creation.{
  empty_info, create, create_directory, create_regular,
}

-- The values that the documentation of Windows gives to the constants.
pub record HasDocumentedOptions (c : Win32) : Type 0 where
  pub opens : c.file_open ≡ 1
  pub creates : c.file_create ≡ 2
  pub opens_if : c.file_open_if ≡ 3
  pub is_directory : c.file_directory_file ≡ 1
  pub is_file : c.file_non_directory_file ≡ 64

-- The tests of the options, as tests of single digits.
directory_flag : (o : ℕ) → has_flag o 1 ≡ (o % 2 == 1)
directory_flag o = ground (arith, bit_and-one o)

file_flag : (o : ℕ) → has_flag o 64 ≡ (o / 64 % 2 == 1)
file_flag o = ground (arith, bit_and-sixty_four o)

create_flag : (o : ℕ) → has_flag o 2 ≡ (o / 2 % 2 == 1)
create_flag o = ground (arith, bit_and-two o)

open_if_flag : (o : ℕ) → has_flag o 3 ≡ ((o % 2 == 1) || (o / 2 % 2 == 1))
open_if_flag o = ground (arith, bit_and-three o)

module _ (win : Winfsp) (documented : HasDocumentedOptions win.constants)
    (env : RemoteStorage) where
  -- What the numbers of the options ask for, where a link is not.
  abbrev pub asked : ℕ → FilePath → FileInfo → Handler env (Handle × FileInfo)
  asked options path info =
      if options % 2 == 1
      then (model env (Names.mkdir env path)
          >> pure (handle_of path, empty_info win.constants.file_attribute_directory info))
      else if options / 64 % 2 == 1
      then (if options / 2 % 2 == 1
          then (model env (Names.create_file env path 0 [])
              >> pure (handle_of path, empty_info win.constants.file_attribute_normal info))
          else pure (handle_of path, empty_info win.constants.file_attribute_normal info))
      else raise io_invalid_input

  flags :
      (o : ℕ)
      → (has_flag o win.constants.file_directory_file ≡ (o % 2 == 1))
        × (has_flag o win.constants.file_non_directory_file ≡ (o / 64 % 2 == 1))
        × (has_flag o win.constants.file_open ≡ (o % 2 == 1))
        × (has_flag o win.constants.file_create ≡ (o / 2 % 2 == 1))
        × (has_flag o win.constants.file_open_if ≡ ((o % 2 == 1) || (o / 2 % 2 == 1)))
  flags o = (
    ap (has_flag o) documented.is_directory ∙ directory_flag o,
    ap (has_flag o) documented.is_file ∙ file_flag o,
    ap (has_flag o) documented.opens ∙ directory_flag o,
    ap (has_flag o) documented.creates ∙ create_flag o,
    ap (has_flag o) documented.opens_if ∙ open_if_flag o,
  )

  -- With the documented constants, for a name that can be read and no link: where the lowest option is
  -- set, that of a directory, the directory is made, also where it is only to be opened. Of the
  -- others, those for a file make the file where the second lowest option is set; where it is not,
  -- nothing is asked of the server and a handle is given. All others are an error.
  pub create_by_options :
      (name : List ℕ) (path : FilePath) (options : ℕ) (extra : Option (List ℕ)) (info : FileInfo)
      (s : State env)
      → winfsp_path_to_pathbuf win name ≡ ok path
      → create win env name options extra false info s ≡ asked options path info s
  unfolding create create_directory create_regular
  create_by_options name path options extra info s named =
      let (f1, f2, f3, f4, f5) = flags options in
      elim (Bool-cases (options % 2 == 1)) [
        | inl odd ↦ rw (named, f1, f3, f4, f5, odd) (ground arith)
        | inr even ↦ elim (Bool-cases (options / 64 % 2 == 1)) [
          | inr no_file ↦ rw (named, f1, f2, even, no_file) refl
          | inl is_file ↦ elim (Bool-cases (options / 2 % 2 == 1)) [
            | inl two ↦ rw (named, f1, f2, f3, f4, f5, even, is_file, two) (ground arith)
            | inr one ↦ rw (named, f1, f2, f3, f4, f5, even, is_file, one) refl
          ]
        ]
      ]
