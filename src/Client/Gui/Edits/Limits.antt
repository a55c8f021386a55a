-- ===== src/Client/Gui/Edits/Limits.antt =====
-- What a sequence of changes in the window does to the configuration: client/src/gui/logic.rs.
use mathlib.Core.Path.{subst}
use native.Mathlib.Nat.{mul_comm}
use remote_file_system.Prelude.{
  ℕ, ◌*◌, ◌^◌, ◌≤◌, ◌<◌, ◌≡◌, refl, sym, Bool, true, Bool-cases, inl, inr, List, [], ◌∷◌, leb,
  arith,
}
use remote_file_system.Paths.{Text, text, FilePath}
use remote_file_system.Client.Config.{RfsConfig}
use remote_file_system.Client.Gui.{Gui, is, as_usize}
use remote_file_system.Client.Gui.Edits.{
  Item, change_string, change_bool, change_log, change_int, change_cache, Checked, changed, refused,
  checked, below_five, cache_limit, mul_usize, on_change_string_property, on_change_bool_property,
  on_change_int_property, on_restore_default,
}

-- A change in the window.
pub data Edit : Type 0 where
  editing_string : Item Text → Edit
  editing_bool : Item Bool → Edit
  editing_int : Item ℕ → Edit
  restoring : Edit

unfoldable pub edit : (FilePath → Text) → Edit → Gui → Gui
edit spelling (editing_string o) g = on_change_string_property spelling o g
edit spelling (editing_bool o) g = on_change_bool_property spelling o g
edit spelling (editing_int o) g = on_change_int_property spelling o g
edit spelling restoring g = on_restore_default spelling g

unfoldable pub edit_all : (FilePath → Text) → List Edit → Gui → Gui
edit_all spelling [] g = g
edit_all spelling (e ∷ es) g = edit_all spelling es (edit spelling e g)

-- No number that is entered is negative.
abbrev pub IsNatural : Edit → Type 0
IsNatural (editing_int o) = o.value < 2 ^ 31
IsNatural _ = Unit {0}

abbrev pub AllNatural : List Edit → Type 0
AllNatural [] = Unit {0}
AllNatural (e ∷ es) = IsNatural e × AllNatural es

-- The most that the cache can hold, by its settings, is a gibibyte.
pub record InLimit (c : RfsConfig) : Type 0 where
  pub capacity : c.cache.capacity < 2 ^ 31
  pub max_size : c.cache.max_size < 2 ^ 31
  pub bytes : c.cache.capacity * c.cache.max_size ≤ cache_limit

mul_usize_small : (a b : ℕ) → a < 2 ^ 31 → b < 2 ^ 31 → mul_usize a b ≡ a * b
mul_usize_small a b ha hb =
    let bound : a * b ≤ 2 ^ 31 * 2 ^ 31 = grind arith in omega (arith, bound)

change_string-cache :
    (o : Item Text) (c : RfsConfig)
    → ((change_string o c).cache.capacity ≡ c.cache.capacity)
      × ((change_string o c).cache.max_size ≡ c.cache.max_size)
unfolding change_string change_log
change_string-cache o c = ground arith

change_bool-cache :
    (o : Item Bool) (c : RfsConfig)
    → ((change_bool o c).cache.capacity ≡ c.cache.capacity)
      × ((change_bool o c).cache.max_size ≡ c.cache.max_size)
unfolding change_bool
change_bool-cache o c = ground arith

InLimit-same :
    (c d : RfsConfig)
    → d.cache.capacity ≡ c.cache.capacity
    → d.cache.max_size ≡ c.cache.max_size
    → InLimit c
    → InLimit d
InLimit-same c d e f h = ground (arith, e, f)

-- The configuration after a change that may be refused.
abbrev pub accepted : Checked → RfsConfig → RfsConfig
accepted (changed d) c = d
accepted (refused m) c = c

new_max_size :
    (v : ℕ) (c : RfsConfig)
    → v < 2 ^ 31
    → InLimit c
    → leb (mul_usize c.cache.capacity (as_usize v)) cache_limit ≡ true
    → InLimit (record c { cache = record c.cache { max_size = as_usize v } })
new_max_size v c small h fits =
    let same : as_usize v ≡ v = ground (arith, small) in
    let exact = mul_usize_small c.cache.capacity v h.capacity small in
    let bytes : c.cache.capacity * v ≤ cache_limit = ground (arith, exact, same, fits) in
    record {
      capacity = h.capacity;
      max_size = ground (arith, same, small);
      bytes = ground (arith, same, bytes);
    }

new_capacity :
    (v : ℕ) (c : RfsConfig)
    → v < 2 ^ 31
    → InLimit c
    → leb (mul_usize c.cache.max_size (as_usize v)) cache_limit ≡ true
    → InLimit (record c { cache = record c.cache { capacity = as_usize v } })
new_capacity v c small h fits =
    let same : as_usize v ≡ v = ground (arith, small) in
    let exact = mul_usize_small c.cache.max_size v h.max_size small in
    let bytes : v * c.cache.max_size ≤ cache_limit =
      ground (arith, exact, same, fits, mul_comm v c.cache.max_size) in
    record {
      capacity = ground (arith, same, small);
      max_size = h.max_size;
      bytes = ground (arith, same, bytes);
    }

change_cache-InLimit :
    (id : Text) (v : ℕ) (c : RfsConfig)
    → v < 2 ^ 31
    → InLimit c
    → InLimit (accepted (change_cache id v c) c)
unfolding change_cache
change_cache-InLimit id v c small h = elim (Bool-cases (is id (text "max_size"))) [
  | inl m ↦ elim (Bool-cases (leb (mul_usize c.cache.capacity (as_usize v)) cache_limit)) [
    | inl fits ↦ rw (m, fits) (new_max_size v c small h fits)
    | inr full ↦ rw (m, full) h
  ]
  | inr m ↦ elim (Bool-cases (is id (text "capacity"))) [
    | inl n ↦ elim (Bool-cases (leb (mul_usize c.cache.max_size (as_usize v)) cache_limit)) [
      | inl fits ↦ rw (m, n, fits) (new_capacity v c small h fits)
      | inr full ↦ rw (m, n, full) h
    ]
    | inr n ↦ elim (Bool-cases (is id (text "ttl"))) [
      | inl t ↦
          rw (m, n, t) (record { capacity = h.capacity; max_size = h.max_size; bytes = h.bytes })
      | inr t ↦ rw (m, n, t) h
    ]
  ]
]

change_int-InLimit :
    (o : Item ℕ) (c : RfsConfig)
    → o.value < 2 ^ 31
    → InLimit c
    → InLimit (accepted (change_int o c) c)
unfolding change_int
change_int-InLimit o c small h = elim (Bool-cases (is o.env (text "CACHE"))) [
  | inl m ↦ rw m (change_cache-InLimit o.id_rust o.value c small h)
  | inr m ↦ elim (Bool-cases (is o.env (text "FS"))) [
    | inr n ↦ rw (m, n) h
    | inl n ↦ elim (Bool-cases (is o.id_rust (text "buffer_size"))) [
      | inr b ↦ rw (m, n, b) h
      | inl b ↦ elim (Bool-cases (below_five o.value)) [
        | inl few ↦
            rw (m, n, b, few)
              (record { capacity = h.capacity; max_size = h.max_size; bytes = h.bytes })
        | inr many ↦ rw (m, n, b, many) h
      ]
    ]
  ]
]

module _ (spelling : FilePath → Text) where
  pub checked-config : (r : Checked) (g : Gui) → (checked spelling r g).config ≡ accepted r g.config
  checked-config (changed c) g = refl
  checked-config (refused m) g = refl

  edit-InLimit :
      (e : Edit) (g : Gui) → IsNatural e → InLimit g.config → InLimit (edit spelling e g).config
  unfolding edit on_change_string_property on_change_bool_property on_change_int_property
      on_restore_default
  edit-InLimit (editing_string o) g small h =
      let (same_capacity, same_size) = change_string-cache o g.config in
      InLimit-same g.config (change_string o g.config) same_capacity same_size h
  edit-InLimit (editing_bool o) g small h =
      let (same_capacity, same_size) = change_bool-cache o g.config in
      InLimit-same g.config (change_bool o g.config) same_capacity same_size h
  edit-InLimit (editing_int o) g small h =
      subst InLimit (sym (checked-config (change_int o g.config) g))
        (change_int-InLimit o g.config small h)
  edit-InLimit restoring g small h = h

  -- Whatever is changed in the window, as long as no negative number is entered: from a configuration
  -- by which the cache holds at most a gibibyte, whose capacity and greatest size have 31 bits, every
  -- configuration is such.
  pub edit_all-InLimit :
      (es : List Edit) (g : Gui)
      → AllNatural es
      → InLimit g.config
      → InLimit (edit_all spelling es g).config
  unfolding edit_all
  edit_all-InLimit [] g small h = h
  edit_all-InLimit (e ∷ es) g small h =
      edit_all-InLimit es (edit spelling e g) small.1 (edit-InLimit e g small.0 h)
