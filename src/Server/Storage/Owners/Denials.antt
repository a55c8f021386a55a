-- ===== src/Server/Storage/Owners/Denials.antt =====
-- Who may change the attributes of a file: server/src/storage.rs.
use remote_file_system.Prelude.{
  ℕ, ◌≡◌, refl, Bool, true, false, ◌||◌, Bool-cases, Option-cases, Option, none, some, inl, inr,
  arith, ◌==◌,
}
use remote_file_system.Paths.{FilePath}
use remote_file_system.Server.Errors.{permission_denied}
use remote_file_system.Server.Attributes.{owner_only}
use remote_file_system.Server.Attributes.Records.{FileAttr, SetAttr}
use remote_file_system.Action.{ok, err, outcome-cases, is_ok}
use remote_file_system.Server.Disk.{Disk}
use remote_file_system.Server.Storage.{
  FileSystem, make_real_path, get_attributes_by_path, is_allowed,
}
use remote_file_system.Server.Storage.Owners.{
  is_some, is_just, resolve, resolve_owner, set_mode, set_ownership, set_attributes,
}

-- Whether a number is not asked for, or the current one is.
abbrev pub asks_same : Option ℕ → ℕ → Bool
asks_same none current = true
asks_same (some r) current = r == current

asks_nothing :
    (uid gid : Option ℕ) (a : FileAttr) (n : ℕ)
    → (is_some uid || is_some gid) ≡ false
    → (asks_same uid a.uid ≡ true) × ((asks_same gid a.gid || is_just gid n) ≡ true)
asks_nothing none none a n h = (refl, refl)
asks_nothing none (some g) a n h = ground (arith, h)
asks_nothing (some u) gid a n h = ground (arith, h)

module _ (disk : Disk) (fs : FileSystem) (path : FilePath) (user_id group_id : ℕ) where
  set_mode_denied :
      (mode : ℕ) (w : disk.World)
      → is_allowed disk fs user_id group_id path owner_only w ≡ ok false
      → set_mode disk fs path user_id group_id (some mode) w ≡ (err permission_denied, w)
  unfolding set_mode
  set_mode_denied mode w h = ground (arith, h)

  set_ownership_denied :
      (uid gid : Option ℕ) (w : disk.World)
      → is_allowed disk fs user_id group_id path owner_only w ≡ ok false
      → (is_some uid || is_some gid) ≡ true
      → set_ownership disk fs path user_id group_id uid gid w ≡ (err permission_denied, w)
  unfolding set_ownership
  set_ownership_denied uid gid w h asks = ground (arith, h, asks)

  -- A user to whom what is for the owner only is not allowed can change neither the mode nor the
  -- owner nor the group of a file: a request for any of them, whatever else it asks for, fails with
  -- `PermissionDenied` and changes nothing.
  pub set_attributes_denied :
      (new : SetAttr) (w : disk.World)
      → is_allowed disk fs user_id group_id path owner_only w ≡ ok false
      → (is_some new.mode || (is_some new.uid || is_some new.gid)) ≡ true
      → set_attributes disk fs path user_id group_id new w ≡ (err permission_denied, w)
  unfolding set_attributes set_mode
  set_attributes_denied new w h asks = elim (Option-cases new.mode) [
    | inl e ↦ ground (arith, e, set_ownership_denied new.uid new.gid w h (ground (arith, e, asks)))
    | inr (m, e) ↦ ground (arith, e, set_mode_denied m w h)
  ]

  resolved :
      (r : Option ℕ) (current : ℕ) (is_member : Bool) (t : Option ℕ)
      → (user_id == 0) ≡ false
      → resolve user_id r current is_member ≡ ok t
      → (asks_same r current || is_member) ≡ true
  unfolding resolve
  resolved none current is_member t u h = ground arith
  resolved (some r) current is_member t u h = elim (Bool-cases (r == current)) [
    | inl e ↦ ground (arith, e)
    | inr e ↦ ground (arith, e, u, h)
  ]

  resolve_owner_sound :
      (uid gid : Option ℕ) (w : disk.World) (a : FileAttr)
      → (user_id == 0) ≡ false
      → get_attributes_by_path disk (make_real_path fs path) w ≡ ok a
      → (resolve_owner disk fs path user_id group_id uid gid w).0 ≡ ok tt
      → (asks_same uid a.uid ≡ true) × ((asks_same gid a.gid || is_just gid group_id) ≡ true)
  unfolding resolve_owner
  resolve_owner_sound uid gid w a u e h = elim (outcome-cases (resolve user_id uid a.uid false)) [
    | inr (inl (_, r)) ↦ ground (arith, e, r, h)
    | inr (inr r) ↦ ground (arith, e, r, h)
    | inl (t, r) ↦ elim (outcome-cases (resolve user_id gid a.gid (is_just gid group_id))) [
      | inr (inl (_, q)) ↦ ground (arith, e, r, q, h)
      | inr (inr q) ↦ ground (arith, e, r, q, h)
      | inl (t', q) ↦ (
        ground (arith, resolved uid a.uid false t u r),
        resolved gid a.gid (is_just gid group_id) t' u q,
      )
    ]
  ]

  set_ownership_sound :
      (uid gid : Option ℕ) (w : disk.World) (a : FileAttr)
      → (user_id == 0) ≡ false
      → get_attributes_by_path disk (make_real_path fs path) w ≡ ok a
      → (set_ownership disk fs path user_id group_id uid gid w).0 ≡ ok tt
      → (asks_same uid a.uid ≡ true) × ((asks_same gid a.gid || is_just gid group_id) ≡ true)
  unfolding set_ownership
  set_ownership_sound uid gid w a u e h = elim (Bool-cases (is_some uid || is_some gid)) [
    | inr n ↦ asks_nothing uid gid a group_id n
    | inl s ↦ elim (outcome-cases (is_allowed disk fs user_id group_id path owner_only w)) [
      | inl (true, p) ↦ resolve_owner_sound uid gid w a u e (ground (arith, s, p, h))
      | inl (false, p) ↦ ground (arith, s, p, h)
      | inr (inl (_, p)) ↦ ground (arith, s, p, h)
      | inr (inr p) ↦ ground (arith, s, p, h)
    ]
  ]

  -- In a request that leaves the mode and succeeds for a user other than root: the owner that is asked for is the one the file has, and
  -- the group is the one it has or the user's own.
  pub set_attributes_keeps_owner :
      (new : SetAttr) (w : disk.World) (a : FileAttr)
      → new.mode ≡ none
      → (user_id == 0) ≡ false
      → get_attributes_by_path disk (make_real_path fs path) w ≡ ok a
      → is_ok (set_attributes disk fs path user_id group_id new w).0 ≡ true
      → (asks_same new.uid a.uid ≡ true)
        × ((asks_same new.gid a.gid || is_just new.gid group_id) ≡ true)
  unfolding set_attributes set_mode
  set_attributes_keeps_owner new w a n u e h =
      elim (outcome-cases (set_ownership disk fs path user_id group_id new.uid new.gid w).0) [
        | inl (_, o) ↦ set_ownership_sound new.uid new.gid w a u e o
        | inr (inl (_, o)) ↦ ground (arith, n, o, h)
        | inr (inr o) ↦ ground (arith, n, o, h)
      ]
