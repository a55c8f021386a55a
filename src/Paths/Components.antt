-- ===== src/Paths/Components.antt =====
-- Paths as the client and the server use them (`std::path`): the sequence of their components,
-- which is what `Path` compares, hashes and takes apart.
use remote_file_system.Prelude.{
  ℕ, Bool, true, false, Option, none, some, List, [], ◌∷◌, ◌++◌, ℕ_discrete, ◌==◌, if◌then◌else◌,
}
use mathlib.Core.Logic.{ite}
use Prim.Native.Char.{code}
use Prim.Native.String.{String}

-- An `OsString` or a `String`, as its bytes.
abbrev pub Text : Type 0
Text = List ℕ

-- The bytes of a literal of ASCII characters.
unfoldable pub text : String → Text
text String.[] = []
text (String.◌∷◌ c s) = code c ∷ text s

-- `std::path::Component` on Unix.
pub data Component : Type 0 where
  root_dir : Component
  cur_dir : Component
  parent_dir : Component
  normal : Text → Component

abbrev pub FilePath : Type 0
FilePath = List Component

unfoldable pub Text-discrete : Discrete Text
Text-discrete = hlevel ℕ_discrete

unfoldable pub FilePath-discrete : Discrete FilePath
FilePath-discrete = hlevel ℕ_discrete

-- `==` of paths.
abbrev pub same_path : FilePath → FilePath → Bool
same_path p q = ite (FilePath-discrete p q) true false

-- `Path::new("/")`
abbrev pub root : FilePath
root = root_dir ∷ []

-- `PathBuf::new()`
abbrev pub empty_path : FilePath
empty_path = []

-- `Path::parent`: nothing for the root and for the empty path.
abbrev pub parent : FilePath → Option FilePath
parent [] = none
parent (root_dir ∷ []) = none
parent (c ∷ []) = some []
parent (c ∷ d ∷ p) = elim (parent (d ∷ p)) [ none ↦ some (c ∷ []) | some q ↦ some (c ∷ q) ]

-- `Path::file_name`
abbrev pub file_name : FilePath → Option Text
file_name [] = none
file_name (normal t ∷ []) = some t
file_name (c ∷ []) = none
file_name (c ∷ d ∷ p) = file_name (d ∷ p)

-- The bytes up to the last dot of a name.
abbrev pub before_last_dot : Text → Option Text
before_last_dot [] = none
before_last_dot (c ∷ t) = elim (before_last_dot t) [
  | some u ↦ some (c ∷ u)
  | none ↦ if c == 46 then some [] else none
]

-- The name up to its last dot; one that has no dot, or none but the first byte, is whole.
abbrev pub file_stem : Text → Text
file_stem t = elim (before_last_dot t) [ none ↦ t | some [] ↦ t | some (c ∷ u) ↦ c ∷ u ]

-- `Path::with_extension`, of an extension that is not empty: a path that ends in no name stays.
abbrev pub with_extension : Text → FilePath → FilePath
with_extension e [] = []
with_extension e (normal t ∷ []) = normal (file_stem t ++ 46 ∷ e) ∷ []
with_extension e (c ∷ []) = c ∷ []
with_extension e (c ∷ d ∷ p) = c ∷ with_extension e (d ∷ p)

-- `Path::join`: an absolute path replaces what it is joined to, and `.` stands for what it is
-- joined to.
abbrev pub join : FilePath → FilePath → FilePath
join p (root_dir ∷ q) = root_dir ∷ q
join [] q = q
join p (cur_dir ∷ q) = p ++ q
join p q = p ++ q
