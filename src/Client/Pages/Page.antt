-- ===== src/Client/Pages/Page.antt =====
-- What `FilePage::write` of client/src/fs_model/file.rs does to the bytes of one page.
use remote_file_system.Prelude.{
  ℕ, ◌+◌, ◌-◌, ◌/◌, ◌%◌, ◌≤◌, ◌<◌, min, max, ◌≡◌, refl, sym, none, some, List, length, get_elem?,
  overwrite, ℕ_discrete, arith, word_size, length-overwrite, get_elem?-overwrite, length-replicate,
  Option-cases, inl, inr, ◌⊎◌, ◌≢◌, in_page,
}
use remote_file_system.Prelude.Assoc.{lookup, insert, All-lookup, All-insert, lookup-insert}
use remote_file_system.Client.Pages.{FilePage, Content, new_page, write_page, page_at, write_round}
use remote_file_system.Client.Pages.Bytes.{page_byte, byte_at, IsValidPage, IsValid}
use mathlib.Core.Logic.{if_pos, if_neg}

-- The page after a write that fits.
unfoldable pub written : FilePage → List ℕ → ℕ → FilePage
written p bytes offset = record {
  content = overwrite p.content offset bytes;
  valid_up_to = max p.valid_up_to (offset + length bytes);
  valid_from = min p.valid_from offset;
}

pub write_page-written :
    (ps : ℕ) (p : FilePage) (bytes : List ℕ) (offset : ℕ)
    → IsValidPage ps p
    → ps < word_size
    → offset + length bytes ≤ ps
    → write_page ps p bytes offset ≡ some (written p bytes offset)
unfolding write_page written
write_page-written ps p bytes offset v w h = ground arith

pub written-IsValidPage :
    {ps : ℕ} {p : FilePage} (bytes : List ℕ) (offset : ℕ)
    → IsValidPage ps p
    → offset + length bytes ≤ ps
    → IsValidPage ps (written p bytes offset)
unfolding written
written-IsValidPage {p = p} bytes offset v h =
    ground (arith, length-overwrite p.content offset bytes)

-- The written bytes stand at their places.
pub page_byte-written :
    {ps : ℕ} {p : FilePage} (bytes : List ℕ) (offset k : ℕ)
    → IsValidPage ps p
    → offset + length bytes ≤ ps
    → k < length bytes
    → page_byte (written p bytes offset) (offset + k) ≡ get_elem? bytes k
unfolding written
page_byte-written {p = p} bytes offset k v h lt =
    let same : offset + k - offset ≡ k = omega arith in
    ground (arith, get_elem?-overwrite p.content offset bytes (offset + k), same)

-- On a page that held nothing, nothing but the written bytes is held.
pub page_byte-written_fresh :
    (ps : ℕ) (bytes : List ℕ) (offset i : ℕ)
    → offset + length bytes ≤ ps
    → (i < offset) ⊎ (offset + length bytes ≤ i)
    → page_byte (written (new_page ps) bytes offset) i ≡ none
unfolding written new_page
page_byte-written_fresh ps bytes offset i h out = ground arith

pub new_page-IsValidPage : (ps : ℕ) → IsValidPage ps (new_page ps)
unfolding new_page
new_page-IsValidPage ps = ground (arith, length-replicate {A = ℕ} ps 0)

pub page_at-IsValidPage :
    (ps : ℕ) (c : Content) (i : ℕ) → IsValid ps c → IsValidPage ps (page_at ps c i)
page_at-IsValidPage ps c i v = elim (Option-cases (lookup ℕ_discrete i c)) [
  | inl e ↦ rw e (new_page-IsValidPage ps)
  | inr (p, e) ↦ rw e (All-lookup ℕ_discrete (IsValidPage ps) i c v e)
]

-- The pages after a round of the loop.
abbrev pub after_round : ℕ → Content → ℕ → List ℕ → Content
after_round ps c offset bytes =
    insert ℕ_discrete (offset / ps) (written (page_at ps c (offset / ps)) bytes (offset % ps)) c

pub write_round-after_round :
    (ps : ℕ) (c : Content) (offset : ℕ) (bytes : List ℕ)
    → IsValid ps c
    → ps < word_size
    → offset % ps + length bytes ≤ ps
    → write_round ps c offset bytes ≡ some (after_round ps c offset bytes)
unfolding write_round
write_round-after_round ps c offset bytes v w h = rw (
    write_page-written ps (page_at ps c (offset / ps)) bytes (offset % ps)
      (page_at-IsValidPage ps c (offset / ps) v) w h)

pub after_round-IsValid :
    (ps : ℕ) (c : Content) (offset : ℕ) (bytes : List ℕ)
    → IsValid ps c
    → offset % ps + length bytes ≤ ps
    → IsValid ps (after_round ps c offset bytes)
after_round-IsValid ps c offset bytes v h =
    All-insert ℕ_discrete (IsValidPage ps) (offset / ps) _ c v
      (written-IsValidPage bytes (offset % ps) (page_at-IsValidPage ps c (offset / ps) v) h)

-- A round writes its bytes at their places, and leaves the other pages alone.
pub byte_at-after_round :
    (ps : ℕ) (c : Content) (offset : ℕ) (bytes : List ℕ) (k : ℕ)
    → IsValid ps c
    → offset % ps + length bytes ≤ ps
    → k < length bytes
    → byte_at ps (after_round ps c offset bytes) (offset + k) ≡ get_elem? bytes k
unfolding byte_at
byte_at-after_round ps c offset bytes k v h lt =
    let (same, place) = in_page ps offset k (omega arith) in
    let p = page_at ps c (offset / ps) in
    rw
      (
        same,
        place,
        lookup-insert ℕ_discrete (offset / ps) (offset / ps) (written p bytes (offset % ps)) c,
      )
      (rw (if_pos (ℕ_discrete (offset / ps) (offset / ps)) refl)
        (page_byte-written bytes (offset % ps) k (page_at-IsValidPage ps c (offset / ps) v) h lt))

pub byte_at-after_round_ne :
    (ps : ℕ) (c : Content) (offset : ℕ) (bytes : List ℕ) (i : ℕ)
    → i / ps ≢ offset / ps
    → byte_at ps (after_round ps c offset bytes) i ≡ byte_at ps c i
unfolding byte_at
byte_at-after_round_ne ps c offset bytes i ne = rw (
  lookup-insert ℕ_discrete (offset / ps) (i / ps) _ c,
  if_neg (ℕ_discrete (offset / ps) (i / ps)) (λ e. ne (sym e)),
)
