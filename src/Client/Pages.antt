-- ===== src/Client/Pages.antt =====
-- The cached content of a file in pages: `FilePage` and `File` of client/src/fs_model/file.rs.
-- The globals PAGE_SIZE and MAX_PAGES, set once by `FileSystem::new`, are the record `Limits`.
-- A function that can panic returns an option, and `none` is the panic.
pub mod Bytes
pub mod Read
pub mod Page
pub mod Write
pub mod RoundTrip
pub mod Gap
use remote_file_system.Prelude.{
  ℕ, zero, suc, ◌+◌, ◌-◌, ◌*◌, ◌/◌, ◌%◌, min, max, Bool, ◌&&◌, ◌||◌, Option, none, some, List, [],
  ◌∷◌, ◌++◌, length, take, drop, slice, replicate, overwrite, is_empty, add_usize, leb, ltb, ◌==◌,
  ℕ_discrete, if◌then◌else◌,
}
use remote_file_system.Prelude.Assoc.{lookup, insert}
use remote_file_system.Paths.{Text}
use remote_file_system.Client.Attributes.{Attributes}
use mathlib.Core.Option

pub record Limits : Type 0 where
  pub page_size : ℕ
  pub max_pages : ℕ

pub record FilePage : Type 0 where
  pub content : List ℕ
  pub valid_up_to : ℕ
  pub valid_from : ℕ

unfoldable pub new_page : ℕ → FilePage
new_page ps = record { content = replicate ps 0; valid_up_to = 0; valid_from = ps }

-- `copy_from_slice` panics unless the two lengths agree.
unfoldable pub write_page : ℕ → FilePage → List ℕ → ℕ → Option FilePage
write_page ps p bytes offset =
    let real_end = min (add_usize offset (length bytes)) ps in
    if ltb real_end offset
    then some p
    else if length bytes == real_end - offset && leb real_end (length p.content)
    then some (record {
      content = overwrite p.content offset bytes;
      valid_up_to = max p.valid_up_to real_end;
      valid_from = min p.valid_from offset;
    })
    else none

unfoldable pub read_page : ℕ → FilePage → ℕ → ℕ → Option (List ℕ)
read_page ps p offset size =
    let real_end = min (min (add_usize offset size) ps) p.valid_up_to in
    if ltb offset p.valid_from
    then none
    else if ltb real_end offset
    then none
    else some (slice p.content offset real_end)

abbrev pub Content : Type 0
Content = List (ℕ × FilePage)

pub record File : Type 0 where
  pub name : Text
  pub attributes : Option Attributes
  pub content : Content

unfoldable pub new : Text → Option Attributes → File
new name attributes = record { name = name; attributes = attributes; content = [] }

-- `entry(index).or_default()`
abbrev pub page_at : ℕ → Content → ℕ → FilePage
page_at ps c index = Option.get_or (lookup ℕ_discrete index c) (new_page ps)

-- One round of the loop of `write_content`; the pages after it, or a panic.
unfoldable pub write_round : ℕ → Content → ℕ → List ℕ → Option Content
write_round ps c offset bytes =
    Option.map (λ p. insert ℕ_discrete (offset / ps) p c)
      (write_page ps (page_at ps c (offset / ps)) bytes (offset % ps))

-- The loop of `write_content`. It also gives `none` where the fuel runs out.
unfoldable pub write_loop : ℕ → Limits → Content → List ℕ → ℕ → Option Content
write_loop zero l c remaining offset = none
write_loop (suc fuel) l c remaining offset =
    let to_write = min (length remaining) (l.page_size - offset % l.page_size) in
    if is_empty remaining || (l.max_pages == 0 || leb l.max_pages (length c))
    then some c
    else if l.page_size == 0
    then none
    else elim (write_round l.page_size c offset (take to_write remaining)) [
      | none ↦ none
      | some c' ↦ write_loop fuel l c' (drop to_write remaining) (add_usize offset to_write)
    ]

unfoldable pub write_content : Limits → File → ℕ → List ℕ → Option File
write_content l f offset bytes =
    Option.map (λ c. record f { content = c })
      (write_loop (suc (length bytes)) l f.content bytes offset)

-- The loop of `read`, with the bytes read so far in `buffer`; `none` is a division by zero, or the
-- fuel running out.
unfoldable pub read_loop : ℕ → ℕ → Content → List ℕ → ℕ → ℕ → Option (List ℕ)
read_loop zero ps c buffer remaining offset = none
read_loop (suc fuel) ps c buffer remaining offset =
    let max_read = min remaining (ps - offset % ps) in
    if remaining == 0
    then some buffer
    else if ps == 0
    then none
    else elim (lookup ℕ_discrete (offset / ps) c) [
      | none ↦ some buffer
      | some p ↦ elim (read_page ps p (offset % ps) max_read) [
        | none ↦ some buffer
        | some s ↦
            if ltb (length s) max_read
            then some (buffer ++ s)
            else read_loop fuel ps c (buffer ++ s) (remaining - length s)
                (add_usize offset max_read)
      ]
    ]

unfoldable pub read : ℕ → File → ℕ → ℕ → Option (List ℕ)
read ps f offset size = read_loop (suc size) ps f.content [] size offset
