-- ===== src/Client/Windows/Entries/Lookup.antt =====
-- The looking up of one name of a directory: client/src/fuse/windows.rs.
use remote_file_system.Prelude.{
  ℕ, ◌≡◌, refl, ap, true, Option-cases, inl, inr, List, [], ◌∷◌, arith,
}
use remote_file_system.Paths.{Text, FilePath, parse, is_absolute, join}
use remote_file_system.Action.{ok, outcome-cases}
use remote_file_system.Client.Network.{RemoteStorage}
use remote_file_system.Client.Model.{State}
use remote_file_system.Client.Windows.{Winfsp, Handle, path_text, with_slash, replace_backslashes}
use remote_file_system.Client.Windows.Entries.{info_at, get_dir_info_by_name}

-- An absolute path replaces what it is joined to.
join_absolute :
    (p q : FilePath) (t : Text) → is_absolute t ≡ true → join p (parse t) ≡ join q (parse t)
unfolding parse
join_absolute p q t h = ground (arith, h)

with_slash-is_absolute : (t : Text) → is_absolute (with_slash t) ≡ true
unfolding is_absolute
with_slash-is_absolute [] = refl
with_slash-is_absolute (c ∷ t) = ground arith

path_text-is_absolute :
    (win : Winfsp) (name : List ℕ) (t : Text) → path_text win name ≡ ok t → is_absolute t ≡ true
unfolding path_text
path_text-is_absolute win name t h = elim (Option-cases (win.to_string name)) [
  | inl n ↦ ground (arith, n, h)
  | inr (u, n) ↦ ground (arith, n, h, with_slash-is_absolute (replace_backslashes u))
]

module _ (win : Winfsp) (env : RemoteStorage) where
  -- What is found under a name does not depend on the directory that it is looked up in: in every
  -- state, for every name, the answer, the errors and what is asked of the server are the same for
  -- all directories.
  pub get_dir_info_ignores_directory :
      (here there : Handle) (name : List ℕ) (s : State env)
      → get_dir_info_by_name win env here name s ≡ get_dir_info_by_name win env there name s
  unfolding get_dir_info_by_name
  get_dir_info_ignores_directory here there name s = elim (outcome-cases (path_text win name)) [
    | inr (inl (e, f)) ↦ rw f refl
    | inr (inr f) ↦ rw f refl
    | inl (t, f) ↦ rw f (
        ap (λ p. info_at win env p t s)
          (join_absolute here.path there.path t (path_text-is_absolute win name t f)))
  ]
