-- ===== src/Client/Windows/Entries/Pages.antt =====
-- How the pages of `read_directory` make up a directory: client/src/fuse/windows.rs.
use mathlib.Core.List.{Perm}
use mathlib.Core.Path.{subst}
use remote_file_system.Prelude.{
  ℕ, suc, ◌≡◌, ◌≢◌, refl, sym, ap, ◌∙◌, true, false, Bool-cases, Option, none, some, Option-cases,
  inl, inr, List, [], ◌∷◌, ◌++◌, map, append-nil, append_assoc, take, drop, take-append-drop, arith,
}
use remote_file_system.Paths.{Text, Text-discrete}
use remote_file_system.Action.{ok, outcome-cases}
use remote_file_system.Client.Action as ModelAction
use remote_file_system.Client.Network.{RemoteStorage, SerializableFsItem}
use remote_file_system.Client.Model.{State}
use remote_file_system.Client.Model.Listing
use remote_file_system.Client.Windows.{Winfsp, FileInfo, Handle}
use remote_file_system.Client.Windows.Entries.{
  insert_by_name, sort_by_name, same_name, after_named, from_marker, entry, emit, marker_name,
  read_directory,
}
use remote_file_system.Client.Windows.Entries.Order.{
  IsOrdered, sort_by_name-IsOrdered, sort_by_name-perm,
}

-- No name twice.
abbrev pub HasDistinctNames : List SerializableFsItem → Type 0
HasDistinctNames [] = Unit {0}
HasDistinctNames (i ∷ is) = (after_named i.name is ≡ none) × HasDistinctNames is

same_name-sym : (a b : Text) → same_name a b ≡ false → same_name b a ≡ false
same_name-sym a b h = elim (Text-discrete b a) [
  | yes e ↦ ground (arith, e, h)
  | no e ↦ ground (arith, e)
]

absent-insert :
    (name : Text) (i : SerializableFsItem) (js : List SerializableFsItem)
    → same_name i.name name ≡ false
    → after_named name js ≡ none
    → after_named name (insert_by_name i js) ≡ none
unfolding insert_by_name after_named
absent-insert name i [] other h = ground (arith, other)
absent-insert name i (j ∷ js) other h = ground (arith, other, h, absent-insert name i js other)

distinct-insert :
    (i : SerializableFsItem) (js : List SerializableFsItem)
    → after_named i.name js ≡ none
    → HasDistinctNames js
    → HasDistinctNames (insert_by_name i js)
unfolding insert_by_name after_named
distinct-insert i [] fresh h = (refl, tt)
distinct-insert i (j ∷ js) fresh h = elim (Bool-cases (same_name j.name i.name)) [
  | inl same ↦ ground (arith, same, fresh)
  | inr other ↦ ground (
    arith,
    other,
    fresh,
    h,
    absent-insert j.name i js (same_name-sym j.name i.name other) h.0,
    distinct-insert i js,
  )
]

absent-sort :
    (name : Text) (is : List SerializableFsItem)
    → after_named name is ≡ none
    → after_named name (sort_by_name is) ≡ none
unfolding sort_by_name after_named
absent-sort name [] h = refl
absent-sort name (i ∷ is) h =
    ground (arith, h, absent-insert name i (sort_by_name is), absent-sort name is)

HasDistinctNames-sort :
    (is : List SerializableFsItem) → HasDistinctNames is → HasDistinctNames (sort_by_name is)
unfolding sort_by_name
HasDistinctNames-sort [] h = tt
HasDistinctNames-sort (i ∷ is) h =
    distinct-insert i (sort_by_name is) (absent-sort i.name is h.0) (HasDistinctNames-sort is h.1)

same_name_refl : (a : Text) → same_name a a ≡ true
same_name_refl a = elim (Text-discrete a a) [ yes e ↦ ground (arith, e) | no e ↦ ground (arith, e) ]

-- What follows an item is what follows its name.
after_named_lem :
    (a : List SerializableFsItem) (x : SerializableFsItem) (c : List SerializableFsItem)
    → HasDistinctNames (a ++ x ∷ c)
    → after_named x.name (a ++ x ∷ c) ≡ some c
unfolding after_named
after_named_lem [] x c h = ground (arith, same_name_refl x.name)
after_named_lem (y ∷ a) x c h = elim (Text-discrete y.name x.name) [
  | yes e ↦ ground (arith, e, h.0, after_named_lem a x c h.1)
  | no e ↦ ground (arith, e, after_named_lem a x c h.1)
]

at_item :
    (pre a : List SerializableFsItem) (x : SerializableFsItem) (d : List SerializableFsItem)
    → pre ++ ((a ++ x ∷ []) ++ d) ≡ (pre ++ a) ++ x ∷ d
at_item pre a x d = simp append_assoc

after_item :
    (pre a : List SerializableFsItem) (x : SerializableFsItem) (d : List SerializableFsItem)
    → pre ++ ((a ++ x ∷ []) ++ d) ≡ ((pre ++ a) ++ x ∷ []) ++ d
after_item pre a x d = simp append_assoc

-- What the library promises of a buffer: it holds the entries that were put into it, and an empty
-- one takes any one entry.
pub record KeepsEntries (win : Winfsp) : Type 0 where
  pub held : win.Buffer → List (Text × FileInfo)
  pub empty : win.Buffer
  pub holds_nothing : held empty ≡ []
  pub has_room : (e : Text × FileInfo) → win.append e empty ≢ none
  pub appends :
      (e : Text × FileInfo) (b b' : win.Buffer)
      → win.append e b ≡ some b'
      → held b' ≡ held b ++ e ∷ []
  pub finalizes : (b : win.Buffer) → held (win.finalize b) ≡ held b

module _ (win : Winfsp) (laws : KeepsEntries win) where
  emit_front :
      (is : List SerializableFsItem) (b b' : win.Buffer)
      → emit win is b ≡ ok b'
      → (n : ℕ) × (laws.held b' ≡ laws.held b ++ map (entry win) (take n is))
  unfolding emit
  emit_front [] b b' h = (0, ground (arith, h, append-nil (laws.held b)))
  emit_front (i ∷ is) b b' h = elim (Option-cases (win.name_error i.name)) [
    | inr (e, bad) ↦ ground (arith, bad, h)
    | inl fine ↦ elim (Option-cases (win.append (entry win i) b)) [
      | inl full ↦ (0, ground (arith, fine, full, h, append-nil (laws.held b)))
      | inr (b1, put) ↦
          let (n, e) = emit_front is b1 b' (ground (arith, fine, put, h)) in
          (
            suc n,
            e
                ∙ ap (λ l. l ++ map (entry win) (take n is)) (laws.appends (entry win i) b b1 put)
                ∙ append_assoc (laws.held b) (entry win i ∷ []) (map (entry win) (take n is)),
          )
    ]
  ]

  -- Where nothing is emitted into an empty buffer there was nothing to emit.
  emit_nothing :
      (is : List SerializableFsItem) (b' : win.Buffer)
      → emit win is laws.empty ≡ ok b'
      → laws.held b' ≡ []
      → is ≡ []
  unfolding emit
  emit_nothing [] b' h e = refl
  emit_nothing (i ∷ is) b' h e = elim (Option-cases (win.name_error i.name)) [
    | inr (err, bad) ↦ ground (arith, bad, h)
    | inl fine ↦ elim (Option-cases (win.append (entry win i) laws.empty)) [
      | inl full ↦ absurd (laws.has_room (entry win i) full)
      | inr (b1, put) ↦
          let (n, g) = emit_front is b1 b' (ground (arith, fine, put, h)) in
          ground
            (arith, sym e ∙ g, laws.appends (entry win i) laws.empty b1 put, laws.holds_nothing)
    ]
  ]

  map_snoc :
      (l : List SerializableFsItem) (es : List (Text × FileInfo)) (e : Text × FileInfo)
      → map (entry win) l ≡ es ++ e ∷ []
      → (a : List SerializableFsItem) × (x : SerializableFsItem) × (l ≡ a ++ x ∷ [])
        × (entry win x ≡ e)
  map_snoc [] [] e h = ground (arith, h)
  map_snoc [] (d ∷ es) e h = ground (arith, h)
  map_snoc (x ∷ []) [] e h = ([], x, refl, ground (arith, h))
  map_snoc (x ∷ y ∷ l) [] e h = ground (arith, h)
  map_snoc (x ∷ l) (d ∷ es) e h =
      let (a, y, split, same) = map_snoc l es e (ground (arith, h)) in
      (x ∷ a, y, ap (◌∷◌ x) split, same)

  map_append :
      (a b : List SerializableFsItem)
      → map (entry win) (a ++ b) ≡ map (entry win) a ++ map (entry win) b
  map_append [] b = refl
  map_append (x ∷ a) b = ap (◌∷◌ (entry win x)) (map_append a b)

  -- A marker with the name of an item stands for the place after it.
  resume :
      (l p : List SerializableFsItem) (x : SerializableFsItem) (d : List SerializableFsItem)
      (next : List ℕ) (name : Text)
      → HasDistinctNames l
      → l ≡ p ++ x ∷ d
      → win.to_string next ≡ some name
      → x.name ≡ name
      → from_marker (marker_name win (some next)) l ≡ d
  unfolding from_marker
  resume l p x d next name distinct split named same =
      let found = after_named_lem p x d (subst HasDistinctNames split distinct) in
      ground (arith, found, split, named, same)

  module _ (env : RemoteStorage) (context : Handle) (items : List SerializableFsItem) where
    -- The calls that list a directory: each gives the marker of its last entry to the next one, and
    -- one that gives no entry ends the listing. In between the directory stays, and any other calls
    -- may be made. The entries of all of them, one call after the other.
    pub data Pages : Option (List ℕ) → List (Text × FileInfo) → Type 0 where
      last :
          (marker : Option (List ℕ)) (out : List (Text × FileInfo)) (s s' t : State env) (k : ℕ)
          (b : win.Buffer)
          → Listing.readdir env context.path s ≡ (ModelAction.ok items, t)
          → read_directory win env context marker laws.empty s ≡ (ok (k, b), s')
          → laws.held b ≡ []
          → out ≡ []
          → Pages marker out
      page :
          (marker : Option (List ℕ)) (out : List (Text × FileInfo)) (s s' t : State env) (k : ℕ)
          (b : win.Buffer) (es : List (Text × FileInfo)) (name : Text) (info : FileInfo)
          (next : List ℕ) (rest : List (Text × FileInfo))
          → Listing.readdir env context.path s ≡ (ModelAction.ok items, t)
          → read_directory win env context marker laws.empty s ≡ (ok (k, b), s')
          → laws.held b ≡ es ++ (name, info) ∷ []
          → win.to_string next ≡ some name
          → Pages (some next) rest
          → out ≡ laws.held b ++ rest
          → Pages marker out

    read_inv :
        (marker : Option (List ℕ)) (s s' t : State env) (k : ℕ) (b : win.Buffer)
        → Listing.readdir env context.path s ≡ (ModelAction.ok items, t)
        → read_directory win env context marker laws.empty s ≡ (ok (k, b), s')
        → (b0 : win.Buffer) × (emit win
              (from_marker (marker_name win marker) (sort_by_name items))
              laws.empty
            ≡ ok b0)
          × (laws.held b ≡ laws.held b0)
    unfolding read_directory
    read_inv marker s s' t k b listed h =
        elim (outcome-cases
          (emit win (from_marker (marker_name win marker) (sort_by_name items)) laws.empty)) [
            | inl (b0, e) ↦ (b0, e, ground (arith, listed, h, e, laws.finalizes b0))
            | inr (inl (f, e)) ↦ ground (arith, listed, h, e)
            | inr (inr e) ↦ ground (arith, listed, h, e)
          ]

    -- What a listing from a marker gives, where that marker stands for the place before `c`.
    pages_from :
        (pre c : List SerializableFsItem) (marker : Option (List ℕ)) (out : List (Text × FileInfo))
        → Pages marker out
        → HasDistinctNames (sort_by_name items)
        → sort_by_name items ≡ pre ++ c
        → from_marker (marker_name win marker) (sort_by_name items) ≡ c
        → out ≡ map (entry win) c
    unfolding from_marker
    pages_from pre c marker out (last _ _ s s' t k b listed h nothing none_out) distinct split at =
        let (b0, e, same) = read_inv marker s s' t k b listed h in
        let ended =
          emit_nothing c b0 (ap (λ l. emit win l laws.empty) (sym at) ∙ e) (sym same ∙ nothing) in
        none_out ∙ sym (ap (map (entry win)) ended)
    pages_from pre c marker out
          (page _ _ s s' t k b es name info next rest listed h some_out named more whole) distinct
          split at =
        let (b0, e, same) = read_inv marker s s' t k b listed h in
        let (n, g) = emit_front c laws.empty b0 (ap (λ l. emit win l laws.empty) (sym at) ∙ e) in
        let front : laws.held b ≡ map (entry win) (take n c) =
          same ∙ g ∙ ap (λ l. l ++ map (entry win) (take n c)) laws.holds_nothing in
        let (a, x, ends, is_last) = map_snoc (take n c) es (name, info) (sym front ∙ some_out) in
        let whole_again = split ∙ ap (λ l. pre ++ l) (sym (take-append-drop n c)) in
        let regrouped = ap (λ l. pre ++ (l ++ drop n c)) ends in
        let resumes =
          resume (sort_by_name items) (pre ++ a) x (drop n c) next name distinct
            (whole_again ∙ regrouped ∙ at_item pre a x (drop n c)) named (ap (λ r. r.0) is_last) in
        let later =
          pages_from ((pre ++ a) ++ x ∷ []) (drop n c) (some next) rest more distinct
            (whole_again ∙ regrouped ∙ after_item pre a x (drop n c)) resumes in
        whole
        ∙ ap (λ l. l ++ rest) front
        ∙ ap (λ l. map (entry win) (take n c) ++ l) later
        ∙ sym (map_append (take n c) (drop n c))
        ∙ ap (map (entry win)) (take-append-drop n c)

    -- A directory without two equal names that stays while it is listed: whatever number of entries
    -- each call has room for, the calls give every entry exactly once, by the order of the names.
    pub pages_complete :
        (out : List (Text × FileInfo))
        → HasDistinctNames items
        → Pages none out
        → (sorted : List SerializableFsItem) × (out ≡ map (entry win) sorted)
          × IsOrdered sorted
          × Perm sorted items
    unfolding from_marker
    pages_complete out distinct pages = (
      sort_by_name items,
      pages_from [] (sort_by_name items) none out pages (HasDistinctNames-sort items distinct) refl
          refl,
      sort_by_name-IsOrdered items,
      sort_by_name-perm items,
    )
