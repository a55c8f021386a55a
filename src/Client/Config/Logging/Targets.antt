-- ===== src/Client/Config/Logging/Targets.antt =====
-- What `finalize` of client/src/config/logging.rs makes of the targets and of the file of the log.
use remote_file_system.Prelude.{
  ◌≡◌, refl, ap, ◌∙◌, Bool, true, false, not, ◌&&◌, ◌||◌, Bool-cases, inl, inr, Option, none, some,
  List, [], ◌∷◌, ◌==◌, if◌then◌else◌, arith,
}
use remote_file_system.Util.{normalize_optional_path}
use remote_file_system.Client.Config.Logging.{
  LogTargets, none_target, console, file, all, LoggingConfig, rank, insert_target, sort_targets,
  dedup_after, dedup, contains, special, needs_file, with_file, finalize,
}

contains-insert_target :
    (t u : LogTargets) (us : List LogTargets)
    → contains t (insert_target u us) ≡ ((rank u == rank t) || contains t us)
unfolding contains insert_target
contains-insert_target t u [] = refl
contains-insert_target t u (v ∷ us) = ground (arith, contains-insert_target t u us)

contains-sort_targets :
    (t : LogTargets) (us : List LogTargets) → contains t (sort_targets us) ≡ contains t us
unfolding sort_targets contains
contains-sort_targets t [] = refl
contains-sort_targets t (u ∷ us) =
    contains-insert_target t u (sort_targets us)
    ∙ ap (λ b. (rank u == rank t) || b) (contains-sort_targets t us)

contains-dedup_after :
    (t u : LogTargets) (us : List LogTargets)
    → ((rank u == rank t) || contains t (dedup_after u us)) ≡ ((rank u == rank t) || contains t us)
unfolding contains dedup_after
contains-dedup_after t u [] = refl
contains-dedup_after t u (v ∷ us) =
    ground (arith, contains-dedup_after t u us, contains-dedup_after t v us)

contains-dedup : (t : LogTargets) (us : List LogTargets) → contains t (dedup us) ≡ contains t us
unfolding contains dedup
contains-dedup t [] = refl
contains-dedup t (u ∷ us) = contains-dedup_after t u us

contains-special :
    (t : LogTargets) (us : List LogTargets)
    → contains t (special us) ≡ (
        not (contains none_target us)
        && (if contains all us then (rank all == rank t) else contains t us))
unfolding special contains
contains-special t us = elim (Bool-cases (contains none_target us)) [
  | inl n ↦ rw n refl
  | inr n ↦ elim (Bool-cases (contains all us)) [
    | inl a ↦ rw (n, a) (ground arith)
    | inr a ↦ rw (n, a) refl
  ]
]

abbrev pub is_some : {A : Type 0} → Option A → Bool
is_some none = false
is_some (some a) = true

-- The targets of a configuration after `finalize`, by those before.
final_targets :
    (t : LogTargets) (c : LoggingConfig)
    → contains t (special (dedup (sort_targets c.log_targets))) ≡ (
        not (contains none_target c.log_targets)
        && (if contains all c.log_targets then (rank all == rank t) else contains t c.log_targets))
final_targets t c =
    let sorted = dedup (sort_targets c.log_targets) in
    let same = λ (u : LogTargets).
      contains-dedup u (sort_targets c.log_targets) ∙ contains-sort_targets u c.log_targets in
    contains-special t sorted
    ∙ ap (λ b. not b && (if contains all sorted then (rank all == rank t) else contains t sorted))
        (same none_target)
    ∙ ap
        (λ b.
          not (contains none_target c.log_targets)
          && (if b then (rank all == rank t) else contains t sorted))
        (same all)
    ∙ ap
        (λ b.
          not (contains none_target c.log_targets)
          && (if contains all c.log_targets then (rank all == rank t) else b))
        (same t)

with_file_lem :
    (b : Bool) (c : LoggingConfig)
    → ((with_file b c).log_targets ≡ c.log_targets)
      × (is_some (with_file b c).log_dir ≡ b)
      × (is_some (with_file b c).log_file ≡ b)
      × (is_some (with_file b c).log_rotation ≡ b)
unfolding with_file
with_file_lem true c = ground arith
with_file_lem false c = ground arith

-- After `finalize`, where `none` was among the targets there are none; otherwise, where `all` was
-- among them it is the only one; otherwise the targets are those that there were. There are a
-- directory, a file and a rotation exactly where the log goes to a file.
pub finalize_lem :
    (c : LoggingConfig)
    → let f = finalize c in
      let silent = contains none_target c.log_targets in
      let whole = contains all c.log_targets in
      (contains none_target f.log_targets ≡ false)
      × (contains all f.log_targets ≡ (not silent && whole))
      × (contains console f.log_targets
          ≡ (not silent && (not whole && contains console c.log_targets)))
      × (contains file f.log_targets ≡ (not silent && (not whole && contains file c.log_targets)))
      × (is_some f.log_dir ≡ (not silent && (whole || contains file c.log_targets)))
      × (is_some f.log_file ≡ (not silent && (whole || contains file c.log_targets)))
      × (is_some f.log_rotation ≡ (not silent && (whole || contains file c.log_targets)))
unfolding finalize
finalize_lem c =
    let targets = special (dedup (sort_targets c.log_targets)) in
    let settled = with_file_lem (needs_file targets) (record c {
      log_targets = targets;
      log_dir = normalize_optional_path c.log_dir;
      log_file = normalize_optional_path c.log_file;
    }) in
    let of_none = final_targets none_target c in
    let of_all = final_targets all c in
    let of_console = final_targets console c in
    let of_file = final_targets file c in
    elim (Bool-cases (contains none_target c.log_targets)) [
      | inl n ↦ ground (arith, settled, of_none, of_all, of_console, of_file, n)
      | inr n ↦ elim (Bool-cases (contains all c.log_targets)) [
        | inl a ↦ ground (arith, settled, of_none, of_all, of_console, of_file, n, a)
        | inr a ↦ ground (arith, settled, of_none, of_all, of_console, of_file, n, a)
      ]
    ]
