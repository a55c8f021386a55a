-- ===== src/Client/Pages/Gap.antt =====
-- `FilePage` of client/src/fs_model/file.rs keeps one range of valid bytes for a page: what lies
-- between two writes is taken for valid too.
use remote_file_system.Prelude.{
  ℕ, zero, suc, ◌+◌, ◌≤◌, ◌<◌, ◌≡◌, refl, some, List, [], ◌∷◌, length, get_elem?, replicate,
  word_size, arith, get_elem?-overwrite, length-overwrite, length-replicate, drop-get_elem?,
  overwrite,
}
use remote_file_system.Client.Pages.{FilePage, new_page, write_page, read_page}
use remote_file_system.Client.Pages.Bytes.{IsValidPage}
use remote_file_system.Client.Pages.Page.{
  written, write_page-written, new_page-IsValidPage, written-IsValidPage,
}

get_elem?-replicate : (n i : ℕ) → i < n → get_elem? {A = ℕ} (replicate n 0) i ≡ some 0
get_elem?-replicate zero i h = absurd (omega arith)
get_elem?-replicate (suc n) zero h = refl
get_elem?-replicate (suc n) (suc i) h = get_elem?-replicate n i (omega arith)

-- Two writes into a new page, one after the other with a gap between them and both inside the page,
-- make every byte of the gap readable, as a zero.
pub read_page_gap :
    (ps : ℕ) (first second : List ℕ) (i j k : ℕ) (p q : FilePage)
    → ps < word_size
    → i + length first ≤ k
    → k < j
    → j + length second ≤ ps
    → write_page ps (new_page ps) first i ≡ some p
    → write_page ps p second j ≡ some q
    → read_page ps q k 1 ≡ some (0 ∷ [])
unfolding read_page written new_page
read_page_gap ps first second i j k p q w a b c wrote_p wrote_q = ground (
  arith,
  write_page-written ps (new_page ps) first i (new_page-IsValidPage ps) w (omega arith),
  write_page-written ps p1 second j v1 w c,
  get_elem?-overwrite {A = ℕ} (replicate ps 0) i first k,
  get_elem?-overwrite {A = ℕ} (overwrite (replicate ps 0) i first) j second k,
  length-overwrite {A = ℕ} (replicate ps 0) i first,
  length-replicate {A = ℕ} ps 0,
  get_elem?-replicate ps k (omega arith),
  drop-get_elem? k p2.content 0,
)
  where
    p1 : FilePage
    p1 = written (new_page ps) first i

    p2 : FilePage
    p2 = written p1 second j

    v1 : IsValidPage ps p1
    v1 = written-IsValidPage first i (new_page-IsValidPage ps) (omega arith)
