-- ===== src/Examples/Directories.antt =====
-- A disk of directories for the example of an exchange: what is at each name of each directory.
use remote_file_system.Prelude.{
  ℕ, ◌≡◌, ◌≢◌, refl, sym, ap, ◌∙◌, Bool, true, false, Option, none, some, List, [], ◌∷◌, arith,
  if◌then◌else◌, ℕ_discrete,
}
use mathlib.Core.Logic.{ite}
use mathlib.Core.Path.{subst}
use remote_file_system.Paths.{Text, text, FilePath, root_dir, cur_dir, parent_dir, normal}
use remote_file_system.Action.{ok}
use remote_file_system.Server.Disk.{Disk, IoResult, done, failed}
use remote_file_system.Server.Disk.Laws.{Renames, Avoids}
use remote_file_system.Server.Storage.Files.{rename_exchange}
use remote_file_system.Server.Storage.Files.Exchange
use remote_file_system.Server.Storage.Files.Exchange.{tmp_of, LeadsTo}
use remote_file_system.Examples.Disk.{missing}

-- A name in a directory, which has a number.
abbrev Place : Type 0
Place = ℕ × Text

Place-discrete : Discrete Place
Place-discrete = hlevel ℕ_discrete

abbrev same_place : Place → Place → Bool
same_place p q = ite (Place-discrete p q) true false

pub data Node : Type 0 where
  file_node : ℕ → Node
  directory_node : ℕ → Node

abbrev Names : Type 0
Names = Place → Option Node

abbrev put_node : Place → Option Node → Names → Names
put_node p n m q = if same_place q p then n else m q

abbrev Walk : Type 0
Walk = Option (List Place × Place)

abbrev through : Place → Walk → Walk
through p none = none
through p (some (via, q)) = some (p ∷ via, q)

abbrev into : Option Node → (ℕ → Walk) → Walk
into (some (directory_node d)) rest = rest d
into _ rest = none

abbrev walk_from : Names → FilePath → ℕ → Walk
walk_from m (normal t ∷ []) d = some ([], (d, t))
walk_from m (normal t ∷ c ∷ p) d = through (d, t) (into (m (d, t)) (walk_from m (c ∷ p)))
walk_from m _ d = none

-- The root has the number 0.
abbrev walk : FilePath → Names → Walk
walk (root_dir ∷ p) m = walk_from m p 0
walk _ m = none

abbrev rename_node : Place → Place → Option Node → Names → IoResult (Unit {0}) × Names
rename_node p q none m = (failed missing, m)
rename_node p q (some n) m = (done tt, put_node q (some n) (put_node p none m))

abbrev rename_at : Walk → Walk → Names → IoResult (Unit {0}) × Names
rename_at (some (_, p)) (some (_, q)) m = rename_node p q (m p) m
rename_at _ _ m = (failed missing, m)

abbrev unsupported : {A : Type 0} → Names → IoResult A × Names
unsupported m = (failed missing, m)

abbrev directories : Disk
directories = record {
  World = Names;
  File = Unit {0};
  symlink_metadata = λ p m. failed missing;
  read_dir = λ p m. failed missing;
  read_link = λ p m. failed missing;
  statvfs = λ p m. failed missing;
  create_dir = λ p. unsupported;
  rename = λ p q m. rename_at (walk p m) (walk q m) m;
  remove_file = λ p. unsupported;
  remove_dir = λ p. unsupported;
  symlink = λ t p. unsupported;
  chown = λ p u g. unsupported;
  set_permissions = λ p n. unsupported;
  set_file_times = λ p a b. unsupported;
  open_read = λ p. unsupported;
  open_write = λ c p. unsupported;
  seek = λ f n. unsupported;
  read = λ f n. unsupported;
  write_all = λ f b. unsupported;
  set_len = λ f n. unsupported;
}

same_refl : (p : Place) → same_place p p ≡ true
same_refl p = elim (Place-discrete p p) [ yes e ↦ ground (arith, e) | no n ↦ elim (n refl) [ ] ]

same_of_ne : (p q : Place) → p ≢ q → same_place p q ≡ false
same_of_ne p q d = elim (Place-discrete p q) [ yes e ↦ elim (d e) [ ] | no n ↦ ground (arith, n) ]

put_node-same : (p : Place) (n : Option Node) (m : Names) → put_node p n m p ≡ n
put_node-same p n m = rw (same_refl p) refl

put_node-other : (p q : Place) (n : Option Node) (m : Names) → q ≢ p → put_node p n m q ≡ m q
put_node-other p q n m d = rw (same_of_ne q p d) refl

renamed-node :
    (p q : Place) (n : Option Node) (m m' : Names)
    → m p ≡ n
    → rename_node p q n m ≡ (done tt, m')
    → (m p ≢ none) × (m' ≡ put_node q (m p) (put_node p none m))
renamed-node p q none m m' e h = ground (arith, h)
renamed-node p q (some n) m m' e h = (
  λ z. let no : some n ≡ none = sym e ∙ z in ground (arith, no),
  sym (ap (λ r. r.1) h) ∙ ap (λ x. put_node q x (put_node p none m)) (sym e),
)

-- What a renaming does to the names.
renamed :
    (old new : FilePath) (via via' : List Place) (p q : Place) (m m' : Names)
    → directories.rename old new m ≡ (done tt, m')
    → walk old m ≡ some (via, p)
    → walk new m ≡ some (via', q)
    → (m p ≢ none) × (m' ≡ put_node q (m p) (put_node p none m))
renamed old new via via' p q m m' h from to = renamed-node p q (m p) m m' refl (
    ap (λ x. rename_at x (some (via', q)) m) (sym from)
    ∙ ap (λ x. rename_at (walk old m) x m) (sym to)
    ∙ h)

found_node :
    (old new : FilePath) (via : List Place) (p : Place) (w : Walk) (m m' : Names)
    → walk old m ≡ some (via, p)
    → walk new m ≡ w
    → directories.rename old new m ≡ (done tt, m')
    → m p ≢ none
found_node old new via p none m m' from to h =
    let x : rename_at (some (via, p)) none m ≡ (done tt, m') =
      ap (λ x. rename_at x none m) (sym from) ∙ ap (λ x. rename_at (walk old m) x m) (sym to) ∙ h in
    ground (arith, x)
found_node old new via p (some (via', q)) m m' from to h =
    (renamed old new via via' p q m m' h from to).0

moves_node :
    (p q : Place) (m m' : Names)
    → m' ≡ put_node q (m p) (put_node p none m)
    → m p ≢ m q
    → (m' q ≡ m p) × (m' p ≡ none)
moves_node p q m m' e differ =
    let other : p ≢ q = λ s. differ (ap m s) in
    (
      ap (λ x. x q) e ∙ put_node-same q (m p) (put_node p none m),
      ap (λ x. x p) e ∙ put_node-other q p (m p) (put_node p none m) other ∙ put_node-same p none m,
    )

keeps_node :
    (p q : Place) (m m' : Names)
    → m' ≡ put_node q (m p) (put_node p none m)
    → (x : Place) → x ≢ p
    → x ≢ q
    → m' x ≡ m x
keeps_node p q m m' e x not_p not_q =
    ap (λ f. f x) e
    ∙ put_node-other q x (m p) (put_node p none m) not_q
    ∙ put_node-other p x none m not_p

through-some :
    (x : Place) (w : Walk) (via : List Place) (r : Place)
    → through x w ≡ some (via, r)
    → (rest : List Place) × (w ≡ some (rest, r)) × (x ∷ rest ≡ via)
through-some x none via r h = ground (arith, h)
through-some x (some (v, r')) via r h = (v, ground (arith, h), ground (arith, h))

into-same :
    (n : Option Node) (f g : ℕ → Walk) (rest : List Place) (r : Place)
    → ((d : ℕ) → f d ≡ some (rest, r) → g d ≡ some (rest, r))
    → into n f ≡ some (rest, r)
    → into n g ≡ some (rest, r)
into-same none f g rest r on h = ground (arith, h)
into-same (some (file_node i)) f g rest r on h = ground (arith, h)
into-same (some (directory_node d)) f g rest r on h = on d h

agrees :
    (m m' : Names) (p q : Place)
    → ((x : Place) → x ≢ p → x ≢ q → m' x ≡ m x)
    → (path : FilePath) (d : ℕ) (via : List Place) (r : Place) → walk_from m path d ≡ some (via, r)
    → Avoids via p
    → Avoids via q
    → walk_from m' path d ≡ some (via, r)
agrees m m' p q same [] d via r h not_p not_q = ground (arith, h)
agrees m m' p q same (root_dir ∷ path) d via r h not_p not_q = ground (arith, h)
agrees m m' p q same (cur_dir ∷ path) d via r h not_p not_q = ground (arith, h)
agrees m m' p q same (parent_dir ∷ path) d via r h not_p not_q = ground (arith, h)
agrees m m' p q same (normal t ∷ []) d via r h not_p not_q = h
agrees m m' p q same (normal t ∷ c ∷ path) d via r h not_p not_q =
    let (rest, below, shape) = through-some (d, t) _ via r h in
    let off_p : Avoids ((d, t) ∷ rest) p = subst (λ v. Avoids v p) (sym shape) not_p in
    let off_q : Avoids ((d, t) ∷ rest) q = subst (λ v. Avoids v q) (sym shape) not_q in
    let on =
      into-same (m (d, t)) (walk_from m (c ∷ path)) (walk_from m' (c ∷ path)) rest r
        (λ e k. agrees m m' p q same (c ∷ path) e rest r k off_p.1 off_q.1) below in
    ap (λ n. through (d, t) (into n (walk_from m' (c ∷ path)))) (same (d, t) off_p.0 off_q.0)
    ∙ ap (through (d, t)) on
    ∙ ap (λ v. some (v, r)) shape

leads_node :
    (m m' : Names) (p q : Place)
    → ((x : Place) → x ≢ p → x ≢ q → m' x ≡ m x)
    → (path : FilePath) (via : List Place) (r : Place) → walk path m ≡ some (via, r)
    → Avoids via p
    → Avoids via q
    → walk path m' ≡ some (via, r)
leads_node m m' p q same (root_dir ∷ path) via r h not_p not_q =
    agrees m m' p q same path 0 via r h not_p not_q
leads_node m m' p q same [] via r h not_p not_q = ground (arith, h)
leads_node m m' p q same (cur_dir ∷ path) via r h not_p not_q = ground (arith, h)
leads_node m m' p q same (parent_dir ∷ path) via r h not_p not_q = ground (arith, h)
leads_node m m' p q same (normal t ∷ path) via r h not_p not_q = ground (arith, h)

abbrev directories-Renames : Renames directories
directories-Renames = record {
  Place = Place;
  Entry = Node;
  walk = walk;
  held = λ p m. m p;
  found = λ old new via p m m' h from. found_node old new via p (walk new m) m m' from refl h;
  moves = λ old new via via' p q m m' h from to.
      moves_node p q m m' (renamed old new via via' p q m m' h from to).1;
  keeps = λ old new via via' p q other m m' h from to.
      keeps_node p q m m' (renamed old new via via' p q m m' h from to).1 other;
  leads = λ old new path via via' via'' p q r m m' h from to.
      leads_node m m' p q (keeps_node p q m m' (renamed old new via via' p q m m' h from to).1) path
        via'' r;
}

abbrev real : Text → FilePath
real name = root_dir ∷ normal (115 ∷ []) ∷ normal name ∷ []

-- `/s` has the number 1; in it `a` is a directory with a file in it, and `b` is a file.
abbrev full : Names
full =
    put_node (0, 115 ∷ []) (some (directory_node 1))
      (put_node (1, 97 ∷ []) (some (directory_node 2))
        (put_node (2, 120 ∷ []) (some (file_node 3))
          (put_node (1, 98 ∷ []) (some (file_node 4)) (λ p. none))))

abbrev path_a : FilePath
path_a = real (97 ∷ [])

abbrev path_b : FilePath
path_b = real (98 ∷ [])

-- `a..swap_tmp`
abbrev tmp_name : Text
tmp_name = 97 ∷ 46 ∷ text ".swap_tmp"

abbrev place : Text → Place
place name = (1, name)

abbrev renamed_to : FilePath → FilePath → Names → Names
renamed_to p q m = (directories.rename p q m).1

abbrev exchanged : Names
exchanged =
    renamed_to (tmp_of path_a) path_b
      (renamed_to path_b path_a (renamed_to path_a (tmp_of path_a) full))

exchanges : rename_exchange directories path_a path_b full ≡ (ok tt, exchanged)
unfolding rename_exchange text Place-discrete ℕ_discrete
exchanges = refl

-- The walk to a name in `/s`.
abbrev Leads : FilePath → Text → Names → Type 0
Leads path name m =
    LeadsTo directories directories-Renames path (place name) (place (97 ∷ [])) (place (98 ∷ []))
      (place tmp_name) m

off : (d : ℕ) (name other : Text) → d ≢ 1 → (d, other) ≢ place name
off d name other n e = n (ap (λ p. p.0) e)

leads :
    (path : FilePath) (name : Text)
    → walk path full ≡ some ((0, 115 ∷ []) ∷ [], place name)
    → Leads path name full
leads path name h = record {
  via = (0, 115 ∷ []) ∷ [];
  walks = h;
  avoids = (
    (off 0 (97 ∷ []) (115 ∷ []) (λ e. omega (arith, e)), tt),
    (off 0 (98 ∷ []) (115 ∷ []) (λ e. omega (arith, e)), tt),
    (off 0 tmp_name (115 ∷ []) (λ e. omega (arith, e)), tt),
  );
}

walks_a : walk path_a full ≡ some ((0, 115 ∷ []) ∷ [], place (97 ∷ []))
unfolding Place-discrete ℕ_discrete
walks_a = refl

walks_b : walk path_b full ≡ some ((0, 115 ∷ []) ∷ [], place (98 ∷ []))
unfolding Place-discrete ℕ_discrete
walks_b = refl

walks_tmp : walk (tmp_of path_a) full ≡ some ((0, 115 ∷ []) ∷ [], place tmp_name)
unfolding text Place-discrete ℕ_discrete
walks_tmp = refl

a_not_b : place (97 ∷ []) ≢ place (98 ∷ [])
a_not_b e = ground (arith, e)

tmp_not_b : place tmp_name ≢ place (98 ∷ [])
unfolding text
tmp_not_b e = ground (arith, e)

held_differ : full (place (97 ∷ [])) ≢ full (place tmp_name)
unfolding text Place-discrete ℕ_discrete
held_differ e = ground (arith, e)

rename_exchange_swaps_example :
    (exchanged (place (97 ∷ [])) ≡ full (place (98 ∷ [])))
    × (exchanged (place (98 ∷ [])) ≡ full (place (97 ∷ [])))
    × (exchanged (place tmp_name) ≡ none)
    × Leads path_a (97 ∷ []) exchanged
    × Leads path_b (98 ∷ []) exchanged
rename_exchange_swaps_example =
    Exchange.rename_exchange_swaps directories directories-Renames path_a path_b (place (97 ∷ []))
      (place (98 ∷ [])) (place tmp_name) full exchanged (leads path_a (97 ∷ []) walks_a)
      (leads path_b (98 ∷ []) walks_b) (leads (tmp_of path_a) tmp_name walks_tmp) a_not_b tmp_not_b
      held_differ exchanges
