-- ===== src/Server/Routes/Guards.antt =====
-- What a request needs to be allowed, and what happens where it is not.
use remote_file_system.Prelude.{
  ℕ, ◌≡◌, Bool, true, false, Bool-cases, Option, none, some, inl, inr, List, [], ◌∷◌, ◌++◌,
  append-nil, arith, if◌then◌else◌,
}
use remote_file_system.Paths.{Text, parse}
use remote_file_system.Server.Attributes.{
  Operation, read_operation, write_operation, execute_operation, has_bit,
}
use remote_file_system.Action.{Outcome, ok, is_ok, reading, outcome-cases, ◌>>=◌}
use remote_file_system.Server.Disk.{Disk}
use remote_file_system.Server.Storage.{FileSystem, is_allowed}
use remote_file_system.Server.Database.Tokens.{AuthenticatedUser}
use remote_file_system.Server.Requests.{
  Request, list_request, read_request, write_request, mkdir_request, delete_request, rename_request,
  get_attributes_request, set_attributes_request, permissions_request, stats_request,
  symlink_request, read_symlink_request, set_x_attributes_request, get_x_attributes_request,
  list_x_attributes_request, delete_x_attributes_request, logout_request, Body, parse_u32,
  or_invalid, get_mask,
}
use remote_file_system.Server.Routes.{State, Handler, check_permission}
use remote_file_system.Server.Routes.Handlers

-- A path and what is to be done there.
abbrev pub Access : Type 0
Access = Text × Operation

abbrev pub of_bit : Text → ℕ → ℕ → Operation → List Access
of_bit path mask n op = if has_bit mask n then (path, op) ∷ [] else []

-- The accesses that a mask asks for.
abbrev pub of_mask : Text → Option ℕ → List Access
of_mask path none = []
of_mask path (some m) =
    of_bit path m 4 read_operation
    ++ (of_bit path m 2 write_operation ++ of_bit path m 1 execute_operation)

abbrev pub of_parent : Option (Text × Text) → List Access
of_parent none = []
of_parent (some (p, name)) = (Handlers.or_root p, write_operation) ∷ []

-- The accesses that a request needs, besides those that `set_attributes` itself asks for.
unfoldable pub needed : Request → List Access
needed (list_request path) = (path, read_operation) ∷ []
needed (read_request path offset size) = (path, read_operation) ∷ []
needed (write_request path offset bytes) = (path, write_operation) ∷ []
needed (mkdir_request path) = of_parent (Handlers.rsplit_slash path)
needed (delete_request path) = (path, write_operation) ∷ []
needed (rename_request old_path new_path bits) =
    (old_path, write_operation) ∷ (new_path, write_operation) ∷ []
needed (get_attributes_request path) = []
needed (set_attributes_request path new) = []
needed (permissions_request path mask) = of_mask path (parse_u32 mask)
needed (stats_request path) = (path, read_operation) ∷ []
needed (symlink_request path link) = (path, write_operation) ∷ []
needed (read_symlink_request path) = (path, read_operation) ∷ []
needed (set_x_attributes_request path name bytes) = (path, write_operation) ∷ []
needed (get_x_attributes_request path name) = (path, read_operation) ∷ []
needed (list_x_attributes_request path) = (path, read_operation) ∷ []
needed (delete_x_attributes_request path name) = (path, write_operation) ∷ []
needed logout_request = []

abbrev pub is_yes : {E : Type 0} → Outcome E Bool → Bool
is_yes (ok b) = b
is_yes _ = false

module _ (disk : Disk) (fs : FileSystem) (user : AuthenticatedUser) where
  unfoldable pub allows : Access → disk.World → Bool
  allows (path, op) w = is_yes (is_allowed disk fs user.user_id user.group_id (parse path) op w)

  -- Whether every access is allowed on the disk as it is.
  unfoldable pub all_allowed : List Access → disk.World → Bool
  all_allowed [] w = true
  all_allowed (a ∷ more) w = let rest = all_allowed more w in if allows a w then rest else false

  -- An error or a panic that changes nothing.
  record Refuses {A : Type 0} (m : Handler disk A) (s : State disk) : Type 0 where
    failed : is_ok (m s).0 ≡ false
    kept : (m s).1 ≡ s

  passes :
      (path : Text) (op : Operation) (s : State disk)
      → allows (path, op) s.world ≡ true
      → check_permission disk fs user path op s ≡ (ok tt, s)
  unfolding allows check_permission
  passes path op s h =
      elim (outcome-cases (is_allowed disk fs user.user_id user.group_id (parse path) op s.world)) [
        | inl (true, e) ↦ ground (arith, e, h)
        | inl (false, e) ↦ ground (arith, e, h)
        | inr (inl (_, e)) ↦ ground (arith, e, h)
        | inr (inr e) ↦ ground (arith, e, h)
      ]

  blocks :
      {A : Type 0} (path : Text) (op : Operation) (f : Unit {0} → Handler disk A) (s : State disk)
      → allows (path, op) s.world ≡ false
      → Refuses (check_permission disk fs user path op >>= f) s
  unfolding allows check_permission
  blocks path op f s h =
      elim (outcome-cases (is_allowed disk fs user.user_id user.group_id (parse path) op s.world)) [
        | inl (true, e) ↦ ground (arith, e, h)
        | inl (false, e) ↦ record { failed = ground (arith, e, h); kept = ground (arith, e, h) }
        | inr (inl (_, e)) ↦ record { failed = ground (arith, e, h); kept = ground (arith, e, h) }
        | inr (inr e) ↦ record { failed = ground (arith, e, h); kept = ground (arith, e, h) }
      ]

  only :
      (a : Access) (s : State disk)
      → all_allowed (a ∷ []) s.world ≡ false
      → allows a s.world ≡ false
  unfolding all_allowed
  only a s h = elim (Bool-cases (allows a s.world)) [ inl e ↦ ground (arith, e, h) | inr e ↦ e ]

  guarded :
      {A : Type 0} (path : Text) (op : Operation) (f : Unit {0} → Handler disk A) (s : State disk)
      → all_allowed ((path, op) ∷ []) s.world ≡ false
      → Refuses (check_permission disk fs user path op >>= f) s
  guarded path op f s h = blocks path op f s (only (path, op) s h)

  -- A first check that passes leaves the rest.
  guarded_first :
      {A : Type 0} (path : Text) (op : Operation) (f : Unit {0} → Handler disk A) (s : State disk)
      (more : List Access)
      → all_allowed ((path, op) ∷ more) s.world ≡ false
      → (all_allowed more s.world ≡ false → Refuses (f tt) s)
      → Refuses (check_permission disk fs user path op >>= f) s
  unfolding all_allowed
  guarded_first path op f s more h rest = elim (Bool-cases (allows (path, op) s.world)) [
    | inr e ↦ blocks path op f s e
    | inl e ↦
        let r = rest (ground (arith, e, h)) in
        let p = passes path op s e in
        record { failed = ground (arith, p, r.failed); kept = ground (arith, p, r.kept) }
  ]

  guarded_bit :
      {A : Type 0} (path : Text) (m n : ℕ) (op : Operation) (f : Unit {0} → Handler disk A)
      (s : State disk) (more : List Access)
      → all_allowed (of_bit path m n op ++ more) s.world ≡ false
      → (all_allowed more s.world ≡ false → Refuses (f tt) s)
      → Refuses (Handlers.check_bit disk fs user path m n op >>= f) s
  guarded_bit path m n op f s more h rest = elim (Bool-cases (has_bit m n)) [
    | inl e ↦ rw e (guarded_first path op f s more (ground (arith, e, h)) rest)
    | inr e ↦ rw e (rest (ground (arith, e, h)))
  ]

  mkdir_refused :
      (path : Text) (split : Option (Text × Text)) (s : State disk)
      → all_allowed (of_parent split) s.world ≡ false
      → Refuses (Handlers.make_directory_at disk fs user path split) s
  unfolding all_allowed
  mkdir_refused path none s h = ground (arith, h)
  mkdir_refused path (some (p, name)) s h = guarded (Handlers.or_root p) write_operation _ s h

  mask_refused :
      (path : Text) (parsed : Option ℕ) (f : ℕ → Handler disk Body) (s : State disk)
      → all_allowed (of_mask path parsed) s.world ≡ false
      → ((m : ℕ) → all_allowed (of_mask path (some m)) s.world ≡ false → Refuses (f m) s)
      → Refuses (reading (λ s. or_invalid parsed) >>= f) s
  unfolding all_allowed
  mask_refused path none f s h rest = ground (arith, h)
  mask_refused path (some m) f s h rest =
      let r = rest m h in record { failed = r.failed; kept = r.kept }

  permissions_refused :
      (path mask : Text) (s : State disk)
      → all_allowed (of_mask path (parse_u32 mask)) s.world ≡ false
      → Refuses (Handlers.get_permissions disk fs user path mask) s
  unfolding Handlers.get_permissions all_allowed get_mask
  permissions_refused path mask s h = mask_refused path (parse_u32 mask) _ s h (λ m h4.
      guarded_bit path m 4 read_operation _ s
        (of_bit path m 2 write_operation ++ of_bit path m 1 execute_operation) h4
        (λ h2.
          guarded_bit path m 2 write_operation _ s (of_bit path m 1 execute_operation) h2 (λ h1.
            guarded_bit path m 1 execute_operation _ s []
              (ground (arith, append-nil (of_bit path m 1 execute_operation), h1))
              (λ h0. ground (arith, h0)))))

  refuses :
      (request : Request) (s : State disk)
      → all_allowed (needed request) s.world ≡ false
      → Refuses (Handlers.handle disk fs user request) s
  unfolding needed all_allowed Handlers.handle Handlers.list_path Handlers.make_directory
      Handlers.get_file_content Handlers.write_file Handlers.delete_item Handlers.get_stats
      Handlers.rename Handlers.create_symlink Handlers.read_symlink Handlers.set_x_attributes
      Handlers.get_x_attributes Handlers.list_x_attributes Handlers.delete_x_attributes
  refuses (list_request path) s h = guarded path read_operation _ s h
  refuses (read_request path offset size) s h = guarded path read_operation _ s h
  refuses (write_request path offset bytes) s h = guarded path write_operation _ s h
  refuses (mkdir_request path) s h = mkdir_refused path (Handlers.rsplit_slash path) s h
  refuses (delete_request path) s h = guarded path write_operation _ s h
  refuses (rename_request old_path new_path bits) s h =
      guarded_first old_path write_operation _ s ((new_path, write_operation) ∷ []) h
        (λ h1. guarded new_path write_operation _ s h1)
  refuses (get_attributes_request path) s h = ground (arith, h)
  refuses (set_attributes_request path new) s h = ground (arith, h)
  refuses (permissions_request path mask) s h = permissions_refused path mask s h
  refuses (stats_request path) s h = guarded path read_operation _ s h
  refuses (symlink_request path link) s h = guarded path write_operation _ s h
  refuses (read_symlink_request path) s h = guarded path read_operation _ s h
  refuses (set_x_attributes_request path name bytes) s h = guarded path write_operation _ s h
  refuses (get_x_attributes_request path name) s h = guarded path read_operation _ s h
  refuses (list_x_attributes_request path) s h = guarded path read_operation _ s h
  refuses (delete_x_attributes_request path name) s h = guarded path write_operation _ s h
  refuses logout_request s h = ground (arith, h)

  -- A request that needs an access which is not allowed to the user fails, and changes neither the
  -- disk nor the database. The accesses are those of `needed`: reading for a list, a read, the
  -- statistics, a link and the extended attributes that are read, writing for what changes a path,
  -- the parent for a new directory, both paths for a renaming, and what a mask asks for.
  pub denied_request :
      (request : Request) (s : State disk)
      → all_allowed (needed request) s.world ≡ false
      → (is_ok (Handlers.handle disk fs user request s).0 ≡ false)
        × ((Handlers.handle disk fs user request s).1 ≡ s)
  denied_request request s h = let r = refuses request s h in (r.failed, r.kept)
