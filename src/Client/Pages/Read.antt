-- ===== src/Client/Pages/Read.antt =====
-- `FilePage::read` and `File::read` of client/src/fs_model/file.rs against the bytes of the pages.
use remote_file_system.Prelude.{
  ℕ, zero, suc, ◌+◌, ◌-◌, ◌/◌, ◌%◌, ◌≤◌, ◌<◌, min, ◌≡◌, refl, sym, Option, none, some, List, [],
  ◌++◌, length, take, drop, ltb, ℕ_discrete, if◌then◌else◌, arith, in_page, add_usize_small,
  add_usize, ap, get_elem?_in, drop-get_elem?, word_size, Option-cases, inl, inr, append_assoc,
  append-nil,
}
use remote_file_system.Prelude.Assoc.{lookup, All-lookup}
use remote_file_system.Client.Pages.{FilePage, Content, File, read_page, read_loop, read}
use remote_file_system.Client.Pages.Bytes.{
  page_byte, byte_in, byte_at, known_run, IsValidPage, IsValid, known_run_cong, known_run_split,
  length-known_run, known_run-none,
}
use mathlib.Core.Option
use native.Mathlib.Decide.{dec_lt}

known_run_slice :
    (p : FilePage) (j n : ℕ)
    → p.valid_from ≤ j
    → p.valid_up_to ≤ length p.content
    → known_run (page_byte p) j n ≡ take (min (j + n) p.valid_up_to - j) (drop j p.content)
unfolding known_run
known_run_slice p j zero h k =
    ap (λ m. take m (drop j p.content))
      (let e : 0 ≡ min (j + 0) p.valid_up_to - j = omega arith in e)
known_run_slice p j (suc n) h k = elim (dec_lt j p.valid_up_to) [
  | yes lt ↦
      let (b, here) = get_elem?_in p.content j (omega arith) in
      let count : min (j + suc n) p.valid_up_to - j ≡ suc (min (suc j + n) p.valid_up_to - suc j) =
        omega arith in
      ground (
        arith,
        here,
        count,
        drop-get_elem? j p.content b here,
        known_run_slice p (suc j) n (omega arith) k,
      )
  | no ge ↦ let count : min (j + suc n) p.valid_up_to - j ≡ 0 = omega arith in ground (arith, count)
]

-- The bytes that a page gives are those that it holds.
read_page-known_run :
    (ps : ℕ) (p : FilePage) (j n : ℕ)
    → IsValidPage ps p
    → ps < word_size
    → j + n ≤ ps
    → Option.get_or (read_page ps p j n) [] ≡ known_run (page_byte p) j n
unfolding read_page
read_page-known_run ps p j n v h k =
    ground (arith, known_run-none (page_byte p) j n, known_run_slice p j n, take_of_min)
  where
    take_of_min :
        take (min (min (j + n) ps) p.valid_up_to - j) (drop j p.content)
        ≡ take (min (j + n) p.valid_up_to - j) (drop j p.content)
    take_of_min = ap (λ m. take m (drop j p.content)) (omega arith)

known_run_page :
    (ps : ℕ) (c : Content) (offset n : ℕ)
    → offset % ps + n ≤ ps
    → known_run (byte_at ps c) offset n
      ≡ known_run (byte_in (lookup ℕ_discrete (offset / ps) c)) (offset % ps) n
unfolding byte_at
known_run_page ps c offset n h =
    known_run_cong (byte_at ps c) (byte_in (lookup ℕ_discrete (offset / ps) c)) offset (offset % ps)
      n (λ k p. let (same, next) = in_page ps offset k (omega arith) in rw (same, next))

-- What the loop of `read` collects in one page, or nothing where the page is missing.
collected : ℕ → Content → ℕ → ℕ → List ℕ
collected ps c offset n = elim (lookup ℕ_discrete (offset / ps) c) [
  | none ↦ []
  | some p ↦ Option.get_or (read_page ps p (offset % ps) n) []
]

collected-known_run :
    (ps : ℕ) (c : Content) (offset n : ℕ)
    → IsValid ps c
    → ps < word_size
    → offset % ps + n ≤ ps
    → collected ps c offset n ≡ known_run (byte_at ps c) offset n
unfolding collected
collected-known_run ps c offset n v h k = elim (Option-cases (lookup ℕ_discrete (offset / ps) c)) [
  | inl e ↦
      ground (
        arith,
        e,
        known_run_page ps c offset n k,
        known_run-none (byte_in none) (offset % ps) n refl,
      )
  | inr (p, e) ↦ ground (
    arith,
    e,
    known_run_page ps c offset n k,
    read_page-known_run ps p (offset % ps) n
        (All-lookup ℕ_discrete (IsValidPage ps) (offset / ps) c v e) h k,
  )
]

read_loop_done :
    (fuel ps : ℕ) (c : Content) (buffer : List ℕ) (offset : ℕ)
    → read_loop (suc fuel) ps c buffer 0 offset ≡ some (buffer ++ known_run (byte_at ps c) offset 0)
unfolding read_loop known_run
read_loop_done fuel ps c buffer offset = ap some (sym (append-nil buffer))

-- The loop, one round.
read_loop_round :
    (fuel ps : ℕ) (c : Content) (buffer : List ℕ) (remaining offset : ℕ)
    → 0 < remaining
    → 0 < ps
    → let n = min remaining (ps - offset % ps) in
      let s = collected ps c offset n in
      read_loop (suc fuel) ps c buffer remaining offset ≡ (
        if ltb (length s) n
        then some (buffer ++ s)
        else read_loop fuel ps c (buffer ++ s) (remaining - length s) (add_usize offset n))
unfolding read_loop collected
read_loop_round fuel ps c buffer remaining offset h k = ground (arith, append-nil buffer, part_pos)
  where
    part_pos : 0 < min remaining (ps - offset % ps)
    part_pos = grind arith

-- The loop collects the bytes of the pages, and fuel above the number of bytes asked for suffices.
read_loop-known_run :
    (fuel ps : ℕ) (c : Content) (buffer : List ℕ) (remaining offset : ℕ)
    → 0 < ps
    → ps < word_size
    → IsValid ps c
    → offset + remaining < word_size
    → remaining < fuel
    → read_loop fuel ps c buffer remaining offset
      ≡ some (buffer ++ known_run (byte_at ps c) offset remaining)
read_loop-known_run zero ps c buffer remaining offset p w v o h = absurd (omega arith)
read_loop-known_run (suc fuel) ps c buffer zero offset p w v o h =
    read_loop_done fuel ps c buffer offset
read_loop-known_run (suc fuel) ps c buffer (suc r) offset p w v o h =
    rw (read_loop_round fuel ps c buffer (suc r) offset (omega arith) p, part)
      (ground (
        arith,
        known_run_split bytes offset n (suc r - n),
        whole,
        length-known_run bytes offset n,
        add_usize_small offset n,
        read_loop-known_run fuel ps c (buffer ++ known_run bytes offset n) (suc r - n) (offset + n)
            p w v (omega arith) (omega arith),
        append_assoc buffer (known_run bytes offset n) (known_run bytes (offset + n) (suc r - n)),
      ))
  where
    bytes : ℕ → Option ℕ
    bytes = byte_at ps c

    n : ℕ
    n = min (suc r) (ps - offset % ps)

    pos : 0 < n
    pos = grind arith

    whole : n + (suc r - n) ≡ suc r
    whole = omega arith

    part : collected ps c offset n ≡ known_run (byte_at ps c) offset n
    part = collected-known_run ps c offset n v w (grind arith)

-- A read of a file with valid pages, of a size that is positive and a usize, in a range that ends
-- within a usize, does not panic and returns exactly the bytes that the pages hold from the offset
-- on, up to the first position that is not held.
pub read-known_run :
    (ps : ℕ) (f : File) (offset size : ℕ)
    → 0 < ps
    → ps < word_size
    → IsValid ps f.content
    → offset + size < word_size
    → read ps f offset size ≡ some (known_run (byte_at ps f.content) offset size)
unfolding read
read-known_run ps f offset size p w v o =
    read_loop-known_run (suc size) ps f.content [] size offset p w v o (omega arith)
