-- ===== src/Paths/Parse.antt =====
-- The components of a path that is given as bytes (`Path::components`), and names joined to a path.
use remote_file_system.Prelude.{Bool, false, List, [], ◌∷◌, ◌++◌, ◌==◌, if◌then◌else◌}
use remote_file_system.Paths.Components.{
  Text, root_dir, cur_dir, parent_dir, normal, FilePath, join,
}

-- The bytes up to the first slash, and the segments after it.
unfoldable pub segments : Text → Text × List Text
segments [] = ([], [])
segments (c ∷ t) =
    let (first, rest) = segments t in if c == 47 then ([], first ∷ rest) else (c ∷ first, rest)

-- The components of one segment: an empty one and a dot have none.
unfoldable pub of_segment : Text → FilePath
of_segment [] = []
of_segment (c ∷ []) = if c == 46 then [] else normal (c ∷ []) ∷ []
of_segment (c ∷ d ∷ []) =
    if c == 46
    then if d == 46 then parent_dir ∷ [] else normal (c ∷ d ∷ []) ∷ []
    else normal (c ∷ d ∷ []) ∷ []
of_segment (c ∷ d ∷ e ∷ t) = normal (c ∷ d ∷ e ∷ t) ∷ []

unfoldable pub of_segments : List Text → FilePath
of_segments [] = []
of_segments (s ∷ ss) = of_segment s ++ of_segments ss

unfoldable pub is_dot : Text → Bool
is_dot (c ∷ []) = c == 46
is_dot _ = false

unfoldable pub is_absolute : Text → Bool
is_absolute (c ∷ _) = c == 47
is_absolute [] = false

-- A path that starts with a dot keeps it.
unfoldable pub parse : Text → FilePath
parse t =
    let (first, rest) = segments t in
    if is_absolute t
    then root_dir ∷ of_segments rest
    else if is_dot first
    then cur_dir ∷ of_segments rest
    else of_segment first ++ of_segments rest

-- `path.join(name)`
abbrev pub join_name : FilePath → Text → FilePath
join_name path name = join path (parse name)
