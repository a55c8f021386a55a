-- ===== src/Examples/Pages.antt =====
-- `File` of client/src/fs_model/file.rs on small inputs.
use remote_file_system.Prelude.{◌≡◌, refl, ◌≤◌, max, length, ◌∷◌, [], none, some, arith, ℕ_discrete}
use remote_file_system.Client.Pages
use remote_file_system.Client.Pages.{Limits, FilePage, File}
use remote_file_system.Client.Pages.Bytes.{IsValid, byte_at, known_run}
use remote_file_system.Client.Pages.Read
use remote_file_system.Client.Pages.RoundTrip
use remote_file_system.Client.Pages.Gap

abbrev small : Limits
small = record { page_size = 4; max_pages = 3 }

abbrev page : FilePage
page = record { content = 5 ∷ 6 ∷ 7 ∷ 0 ∷ []; valid_up_to = 3; valid_from = 1 }

-- One page, the second, is there.
abbrev cached : File
cached = record { name = 110 ∷ []; attributes = none; content = (1, page) ∷ [] }

cached-IsValid : IsValid 4 cached.content
cached-IsValid = (record { storage = refl; up_to = omega arith }, tt)

read-known_run_example : Pages.read 4 cached 5 10 ≡ some (known_run (byte_at 4 cached.content) 5 10)
read-known_run_example =
    Read.read-known_run 4 cached 5 10 (omega arith) (omega arith) cached-IsValid (omega arith)

read_two : Pages.read 4 cached 5 10 ≡ some (6 ∷ 7 ∷ [])
unfolding Pages.read Pages.read_loop Pages.read_page ℕ_discrete
read_two = refl

write_content-IsValid_example :
    (f : File) × (Pages.write_content small cached 2 (1 ∷ 2 ∷ 3 ∷ []) ≡ some f)
    × IsValid 4 f.content
    × (length f.content ≤ max 1 3)
    × (f.name ≡ cached.name)
    × (f.attributes ≡ cached.attributes)
write_content-IsValid_example =
    RoundTrip.write_content-IsValid small cached 2 (1 ∷ 2 ∷ 3 ∷ []) (omega arith) (omega arith)
      cached-IsValid

read-write_content_example :
    (f : File) × (Pages.write_content small cached 2 (1 ∷ 2 ∷ 3 ∷ []) ≡ some f)
    × (Pages.read 4 f 2 3 ≡ some (1 ∷ 2 ∷ 3 ∷ []))
read-write_content_example =
    RoundTrip.read-write_content small cached 2 (1 ∷ 2 ∷ 3 ∷ []) (omega arith) (omega arith)
      cached-IsValid (omega arith) (omega arith)

abbrev tight : Limits
tight = record { page_size = 4; max_pages = 1 }

abbrev first_write : FilePage
first_write = record { content = 8 ∷ 0 ∷ 0 ∷ 0 ∷ []; valid_up_to = 1; valid_from = 0 }

abbrev second_write : FilePage
second_write = record { content = 8 ∷ 0 ∷ 0 ∷ 9 ∷ []; valid_up_to = 4; valid_from = 0 }

read_page_gap_example : Pages.read_page 4 second_write 2 1 ≡ some (0 ∷ [])
unfolding Pages.write_page Pages.new_page
read_page_gap_example =
    Gap.read_page_gap 4 (8 ∷ []) (9 ∷ []) 0 3 2 first_write second_write (omega arith) (omega arith)
      (omega arith) (omega arith) refl refl
