-- ===== src/Server/Storage/Confinement.antt =====
-- The paths on the server's disk: `make_real_path` of server/src/storage.rs.
use remote_file_system.Prelude.{◌≡◌, refl, Bool, true, false, not, [], ◌∷◌, ◌++◌, arith}
use remote_file_system.Paths.{FilePath, root_dir, cur_dir, parent_dir, normal, join}
use remote_file_system.Server.Storage.{FileSystem, make_real_path, without_root}

-- Whether no component after the first is `.`, as `components` gives them, and the first is not.
abbrev pub has_no_dot : FilePath → Bool
has_no_dot [] = true
has_no_dot (cur_dir ∷ p) = false
has_no_dot (c ∷ p) = has_no_dot p

without_root-joins :
    (q p : FilePath) → has_no_dot p ≡ true → join q (without_root p) ≡ q ++ without_root p
without_root-joins [] [] h = refl
without_root-joins [] (root_dir ∷ p) h = without_root-joins [] p h
without_root-joins [] (cur_dir ∷ p) h = ground (arith, h)
without_root-joins [] (parent_dir ∷ p) h = refl
without_root-joins [] (normal t ∷ p) h = refl
without_root-joins (c ∷ q) [] h = ground arith
without_root-joins (c ∷ q) (root_dir ∷ p) h = without_root-joins (c ∷ q) p h
without_root-joins (c ∷ q) (cur_dir ∷ p) h = ground (arith, h)
without_root-joins (c ∷ q) (parent_dir ∷ p) h = refl
without_root-joins (c ∷ q) (normal t ∷ p) h = refl

abbrev pub has_parent : FilePath → Bool
has_parent [] = false
has_parent (parent_dir ∷ p) = true
has_parent (c ∷ p) = has_parent p

-- Whether a path only goes down, by names.
abbrev pub goes_down : FilePath → Bool
goes_down [] = true
goes_down (normal t ∷ p) = goes_down p
goes_down (c ∷ p) = false

goes_down-without_root :
    (p : FilePath) → has_no_dot p ≡ true → goes_down (without_root p) ≡ not (has_parent p)
goes_down-without_root [] h = refl
goes_down-without_root (root_dir ∷ p) h = goes_down-without_root p h
goes_down-without_root (cur_dir ∷ p) h = ground (arith, h)
goes_down-without_root (parent_dir ∷ p) h = refl
goes_down-without_root (normal t ∷ p) h = goes_down-without_root p h

-- For a path without `.`, whether or not it begins with `/`, the path on the disk is the root of the file system followed by the
-- components of the path but `/`, and these only go down, by names, exactly where the path has no
-- `..`: one that has is passed on and may lead out of the root.
pub make_real_path_confined :
    (fs : FileSystem) (path : FilePath)
    → has_no_dot path ≡ true
    → (make_real_path fs path ≡ fs.real_path ++ without_root path)
      × (goes_down (without_root path) ≡ not (has_parent path))
unfolding make_real_path
make_real_path_confined fs path h =
    (without_root-joins fs.real_path path h, goes_down-without_root path h)
