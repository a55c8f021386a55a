-- ===== src/Client/Commands/Generating.antt =====
-- Where `TomlConfigGenerator` of client/src/commands.rs writes.
use mathlib.Core.Path.{subst}
use remote_file_system.Prelude.{
  ℕ, ◌≡◌, refl, sym, ap, ◌∙◌, Bool, true, false, not, ◌&&◌, Bool-cases, inl, inr, ◌⊎◌, Option, none,
  some, Option-cases, [], ◌∷◌, ◌++◌, ◌==◌, arith,
}
use remote_file_system.Paths.{
  Text, text, FilePath, root_dir, cur_dir, parent_dir, normal, Text-discrete, file_stem,
  with_extension, before_last_dot,
}
use remote_file_system.Util.{normalize_path}
use remote_file_system.Action.{Outcome, ok, err, panicked, is_ok}
use remote_file_system.Client.Gui.{is}
use remote_file_system.Client.Config.{RfsConfig, default_config}
use remote_file_system.Client.Commands.{
  CommandError, after_last_dot, extension_of_name, extension, by_extension, ensure_extension, Files,
  Run, written, write_formatted, generate, execute,
}

-- What is left of a name with an extension without dots, and the extension.
abbrev HasNoDot : Text → Type 0
HasNoDot t = after_last_dot t ≡ none

before_last_dot-none : (t : Text) → HasNoDot t → before_last_dot t ≡ none
before_last_dot-none [] h = refl
before_last_dot-none (c ∷ t) h = elim (Option-cases (after_last_dot t)) [
  | inl n ↦
      rw (before_last_dot-none t n)
        (elim (Bool-cases (c == 46)) [ inl b ↦ ground (arith, h, n, b) | inr b ↦ rw b refl ])
  | inr (u, n) ↦ ground (arith, h, n)
]

after_last_dot-append : (t e : Text) → HasNoDot e → after_last_dot (t ++ 46 ∷ e) ≡ some e
after_last_dot-append [] e h = rw h refl
after_last_dot-append (c ∷ t) e h = rw (after_last_dot-append t e h) refl

before_last_dot-append : (t e : Text) → HasNoDot e → before_last_dot (t ++ 46 ∷ e) ≡ some t
before_last_dot-append [] e h = rw (before_last_dot-none e h) refl
before_last_dot-append (c ∷ t) e h = rw (before_last_dot-append t e h) refl

extension-append : (c : ℕ) (t e : Text) → HasNoDot e → extension_of_name (c ∷ t ++ 46 ∷ e) ≡ some e
extension-append c t e h = rw (before_last_dot-append t e h, after_last_dot-append t e h) refl

-- The last component of a path is a name that is not empty.
abbrev pub EndsInName : FilePath → Type 0
EndsInName [] = ⊥
EndsInName (normal (c ∷ t) ∷ []) = Unit {0}
EndsInName (x ∷ []) = ⊥
EndsInName (x ∷ y ∷ p) = EndsInName (y ∷ p)

file_stem-some : (c : ℕ) (t : Text) → (d : ℕ) × (u : Text) × (file_stem (c ∷ t) ≡ d ∷ u)
file_stem-some c t = elim (Option-cases (before_last_dot (c ∷ t))) [
  | inl n ↦ (c, t, ground (arith, n))
  | inr ([], n) ↦ (c, t, ground (arith, n))
  | inr (d ∷ u, n) ↦ (d, u, ground (arith, n))
]

with_extension-extension :
    (e : Text) (p : FilePath) → HasNoDot e → EndsInName p → extension (with_extension e p) ≡ some e
with_extension-extension e [] h named = elim named [ ]
with_extension-extension e (normal (c ∷ t) ∷ []) h named =
    let (d, u, stem) = file_stem-some c t in
    ap (λ n. extension_of_name (n ++ 46 ∷ e)) stem ∙ extension-append d u e h
with_extension-extension e (normal [] ∷ []) h named = elim named [ ]
with_extension-extension e (root_dir ∷ []) h named = elim named [ ]
with_extension-extension e (cur_dir ∷ []) h named = elim named [ ]
with_extension-extension e (parent_dir ∷ []) h named = elim named [ ]
with_extension-extension e (x ∷ normal (c ∷ t) ∷ []) h named =
    with_extension-extension e (normal (c ∷ t) ∷ []) h tt
with_extension-extension e (x ∷ normal [] ∷ []) h named = elim named [ ]
with_extension-extension e (x ∷ root_dir ∷ []) h named = elim named [ ]
with_extension-extension e (x ∷ cur_dir ∷ []) h named = elim named [ ]
with_extension-extension e (x ∷ parent_dir ∷ []) h named = elim named [ ]
with_extension-extension e (x ∷ y ∷ z ∷ p) h named = with_extension-extension e (y ∷ z ∷ p) h named

is-true : (a b : Text) → is a b ≡ true → a ≡ b
is-true a b h = elim (Text-discrete a b) [ yes e ↦ e | no n ↦ ground (arith, h, n) ]

by_extension-ok :
    (e : Text) (p q : FilePath) (x : Option Text)
    → HasNoDot e
    → EndsInName p
    → extension p ≡ x
    → by_extension e p x ≡ ok q
    → extension q ≡ some e
by_extension-ok e p q none h named known made =
    let same : with_extension e p ≡ q = ground (arith, made) in
    ap extension (sym same) ∙ with_extension-extension e p h named
by_extension-ok e p q (some x) h named known made = elim (Bool-cases (is x e)) [
  | inl b ↦
      let same : p ≡ q = ground (arith, made, b) in
      ap extension (sym same) ∙ known ∙ ap some (is-true x e b)
  | inr b ↦ ground (arith, made, b)
]

module _ (files : Files) (format : RfsConfig → Option Text) (force : Bool) where
  -- A command that fails and writes nothing, or one that writes one file: a file whose name ends in
  -- `.toml`, which was not there before unless the command is forced.
  abbrev pub WritesToml : files.World → Run files → Type 0
  WritesToml w r =
      ((is_ok r.0 ≡ false) × (r.1 ≡ w))
      ⊎ ((q : FilePath) × (t : Text) × (extension q ≡ some (text "toml"))
          × ((files.exists q w && not force) ≡ false)
          × (r ≡ written files (files.write q t w)))

  write_formatted-writes :
      (toml : Option Text) (q : FilePath) (w : files.World)
      → extension q ≡ some (text "toml")
      → (files.exists q w && not force) ≡ false
      → WritesToml w (write_formatted files toml q w)
  write_formatted-writes none q w named free = inl (refl, refl)
  write_formatted-writes (some t) q w named free = inr (q, t, named, free, refl)

  generate-writes :
      (toml : Option Text) (p : FilePath) (w : files.World)
      → EndsInName p
      → (made : Outcome CommandError FilePath) → ensure_extension (text "toml") p ≡ made
      → WritesToml w (generate files toml force made w)
  unfolding ensure_extension text
  generate-writes toml p w named (err m) e = inl (refl, refl)
  generate-writes toml p w named panicked e = inl (refl, refl)
  generate-writes toml p w named (ok q) e = elim (Bool-cases (files.exists q w && not force)) [
    | inl taken ↦ inl (rw taken refl, rw taken refl)
    | inr free ↦
        let kept : generate files toml force (ok q) w ≡ write_formatted files toml q w =
          rw free refl in
        subst (WritesToml w) (sym kept) (
          write_formatted-writes toml q w
            (by_extension-ok (text "toml") p q (extension p) refl named refl e) free)
  ]

  -- Where the path ends in a name after its normalisation, the generator of a TOML configuration either
  -- fails and writes nothing, or writes one file, whose name ends in `.toml` and which was not there before
  -- unless the command is forced.
  pub execute_writes :
      (output : FilePath) (w : files.World)
      → EndsInName (normalize_path output)
      → WritesToml w (execute files format force output w)
  unfolding execute
  execute_writes output w named =
      generate-writes (format default_config) (normalize_path output) w named
        (ensure_extension (text "toml") (normalize_path output)) refl
