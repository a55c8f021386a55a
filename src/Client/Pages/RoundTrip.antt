-- ===== src/Client/Pages/RoundTrip.antt =====
-- `File::write_content` and `File::read` of client/src/fs_model/file.rs together.
use remote_file_system.Prelude.{
  ℕ, suc, ◌+◌, ◌≤◌, ◌<◌, max, ◌≡◌, refl, ap, ◌∙◌, some, List, length, word_size, arith,
}
use remote_file_system.Client.Pages.{Limits, File, write_content, read}
use remote_file_system.Client.Pages.Bytes.{byte_at, IsValid, known_run_list}
use remote_file_system.Client.Pages.Read.{read-known_run}
use remote_file_system.Client.Pages.Write.{pages_spanned, write_loop-Wrote, write_loop-Kept}

-- A write into a file with valid pages, of a size that is positive and a usize, never panics: it
-- keeps the name and the attributes, leaves valid pages, and adds none beyond the limit.
pub write_content-IsValid :
    (l : Limits) (f : File) (offset : ℕ) (bytes : List ℕ)
    → 0 < l.page_size
    → l.page_size < word_size
    → IsValid l.page_size f.content
    → (f' : File) × (write_content l f offset bytes ≡ some f')
      × IsValid l.page_size f'.content
      × (length f'.content ≤ max (length f.content) l.max_pages)
      × (f'.name ≡ f.name)
      × (f'.attributes ≡ f.attributes)
unfolding write_content
write_content-IsValid l f offset bytes p w v =
    let (c, ran, kept) =
      write_loop-Kept (suc (length bytes)) l f.content bytes offset p w v (omega arith) in
    (record f { content = c }, rw ran, kept.valid, kept.count, refl, refl)

-- In a file with valid pages, of a size that is positive and a usize, where the limit leaves room
-- for the pages that a write touches and the range of the write ends within a usize: the write
-- succeeds, and reading its range afterwards gives back the written bytes, whatever the file held
-- before.
pub read-write_content :
    (l : Limits) (f : File) (offset : ℕ) (bytes : List ℕ)
    → 0 < l.page_size
    → l.page_size < word_size
    → IsValid l.page_size f.content
    → offset + length bytes < word_size
    → length f.content + pages_spanned l.page_size offset (length bytes) ≤ l.max_pages
    → (f' : File) × (write_content l f offset bytes ≡ some f')
      × (read l.page_size f' offset (length bytes) ≡ some bytes)
unfolding write_content
read-write_content l f offset bytes p w v o room =
    let (c, ran, wrote) =
      write_loop-Wrote (suc (length bytes)) l f.content bytes offset p w v o (omega arith) room in
    let f' : File = record f { content = c } in
    (
      f',
      rw ran,
      read-known_run l.page_size f' offset (length bytes) p w wrote.valid o
          ∙ ap some (known_run_list (byte_at l.page_size c) offset bytes wrote.inside),
    )
