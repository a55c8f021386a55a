-- ===== src/Client/Pages/Write.antt =====
-- `File::write_content` of client/src/fs_model/file.rs against the bytes of the pages.
use remote_file_system.Prelude.{
  ℕ, zero, suc, ◌+◌, ◌-◌, ◌/◌, ◌%◌, ◌≤◌, ◌<◌, min, max, ◌≡◌, refl, ap, ◌∙◌, some, List, [], ◌∷◌,
  length, take, drop, get_elem?, add_usize, ◌==◌, if◌then◌else◌, arith, word_size, length-take,
  length-drop, take_of_length-le, get_elem?-take, get_elem?-drop, add_usize_small, in_page,
  next_page, dec_lt, dec_le, drop_of_length-le, ℕ_discrete,
}
use remote_file_system.Prelude.Assoc.{length-insert}
use remote_file_system.Client.Pages.{Limits, Content, write_loop}
use remote_file_system.Client.Pages.Bytes.{byte_at, IsValid}
use remote_file_system.Client.Pages.Page.{
  after_round, write_round-after_round, after_round-IsValid, byte_at-after_round,
  byte_at-after_round_ne,
}

-- How many pages a run of bytes touches.
abbrev pub pages_spanned : ℕ → ℕ → ℕ → ℕ
pages_spanned ps offset n = if n == 0 then 0 else (offset % ps + n - 1) / ps + 1

div_step : (m ps : ℕ) → 0 < ps → (ps + m) / ps ≡ suc (m / ps)
div_step m ps p = grind arith

pages_spanned-next :
    (ps offset n : ℕ)
    → 0 < ps
    → ps - offset % ps < n
    → pages_spanned ps offset n
      ≡ suc (pages_spanned ps (offset + (ps - offset % ps)) (n - (ps - offset % ps)))
pages_spanned-next ps offset n p h =
    let (_, start) = next_page ps offset p in
    let m = n - (ps - offset % ps) - 1 in
    let last : offset % ps + n - 1 ≡ ps + m = grind arith in
    let start' : 0 + (n - (ps - offset % ps)) - 1 ≡ m = omega arith in
    rw (start) (ground (arith, last, start', div_step m ps p))

-- What a write leaves behind.
pub record Wrote (ps : ℕ) (c : Content) (bytes : List ℕ) (offset : ℕ) (c' : Content) : Type 0 where
  pub valid : IsValid ps c'
  pub inside : (k : ℕ) → k < length bytes → byte_at ps c' (offset + k) ≡ get_elem? bytes k
  pub before : (i : ℕ) → i / ps < offset / ps → byte_at ps c' i ≡ byte_at ps c i

-- The bytes that one round writes.
abbrev part : ℕ → ℕ → List ℕ → List ℕ
part ps offset bytes = take (min (length bytes) (ps - offset % ps)) bytes

part_fits :
    (ps offset : ℕ) (bytes : List ℕ) → 0 < ps → offset % ps + length (part ps offset bytes) ≤ ps
part_fits ps offset bytes p =
    let e = length-take (min (length bytes) (ps - offset % ps)) bytes in grind (arith)

write_loop_round :
    (fuel : ℕ) (l : Limits) (c : Content) (x : ℕ) (xs : List ℕ) (offset : ℕ)
    → 0 < l.page_size
    → l.page_size < word_size
    → length c < l.max_pages
    → IsValid l.page_size c
    → let n = min (length (x ∷ xs)) (l.page_size - offset % l.page_size) in
      write_loop (suc fuel) l c (x ∷ xs) offset
      ≡ write_loop fuel l
          (after_round l.page_size c offset (part l.page_size offset (x ∷ xs)))
          (drop n (x ∷ xs))
          (add_usize offset n)
unfolding write_loop
write_loop_round fuel l c x xs offset p w room v =
    let round =
      write_round-after_round l.page_size c offset (part l.page_size offset (x ∷ xs)) v w
        (part_fits l.page_size offset (x ∷ xs) p) in
    ground (arith, round)

-- A round, then a write of the rest where there is one, is the whole write.
Wrote-last :
    (ps : ℕ) (c : Content) (offset : ℕ) (bytes : List ℕ)
    → 0 < ps
    → IsValid ps c
    → length bytes ≤ ps - offset % ps
    → Wrote ps c bytes offset (after_round ps c offset (part ps offset bytes))
Wrote-last ps c offset bytes p v h = record {
  valid = after_round-IsValid ps c offset (part ps offset bytes) v (part_fits ps offset bytes p);
  inside = λ k lt.
      byte_at-after_round ps c offset (part ps offset bytes) k v (part_fits ps offset bytes p)
        (rw whole lt)
      ∙ ap (λ l. get_elem? l k) whole;
  before = λ i lt. byte_at-after_round_ne ps c offset (part ps offset bytes) i (omega arith);
}
  where
    whole : part ps offset bytes ≡ bytes
    whole = take_of_length-le _ bytes (omega arith)

Wrote-step :
    (ps : ℕ) (c : Content) (offset : ℕ) (bytes : List ℕ) (c' : Content)
    → 0 < ps
    → IsValid ps c
    → ps - offset % ps < length bytes
    → Wrote ps
        (after_round ps c offset (part ps offset bytes))
        (drop (ps - offset % ps) bytes)
        (offset + (ps - offset % ps))
        c'
    → Wrote ps c bytes offset c'
Wrote-step ps c offset bytes c' p v h rest = record {
  valid = rest.valid;
  inside = λ k lt. elim (dec_lt k n) [
    | yes first ↦
        rest.before (offset + k)
          (omega (arith, in_page ps offset k (omega arith), next_page ps offset p))
        ∙ byte_at-after_round ps c offset (part ps offset bytes) k v (part_fits ps offset bytes p)
            (omega (arith, length-take (min (length bytes) n) bytes))
        ∙ ground (arith, get_elem?-take (min (length bytes) n) bytes k)
    | no later ↦
        let place : offset + n + (k - n) ≡ offset + k = omega arith in
        let index : n + (k - n) ≡ k = omega arith in
        ground (
          arith,
          place,
          index,
          rest.inside (k - n) (omega (arith, length-drop n bytes)),
          get_elem?-drop n bytes (k - n),
        )
  ];
  before = λ i lt.
      rest.before i (omega (arith, next_page ps offset p))
      ∙ byte_at-after_round_ne ps c offset (part ps offset bytes) i (omega arith);
}
  where
    n : ℕ
    n = ps - offset % ps

write_loop_nil :
    (fuel : ℕ) (l : Limits) (c : Content) (offset : ℕ)
    → write_loop (suc fuel) l c [] offset ≡ some c
unfolding write_loop
write_loop_nil fuel l c offset = refl

-- With room for the pages that it touches, the loop stops by its test and has written every byte.
pub write_loop-Wrote :
    (fuel : ℕ) (l : Limits) (c : Content) (bytes : List ℕ) (offset : ℕ)
    → 0 < l.page_size
    → l.page_size < word_size
    → IsValid l.page_size c
    → offset + length bytes < word_size
    → length bytes < fuel
    → length c + pages_spanned l.page_size offset (length bytes) ≤ l.max_pages
    → (c' : Content) × (write_loop fuel l c bytes offset ≡ some c')
      × Wrote l.page_size c bytes offset c'
write_loop-Wrote zero l c bytes offset p w v o f room = absurd (omega arith)
write_loop-Wrote (suc fuel) l c [] offset p w v o f room = (
  c,
  write_loop_nil fuel l c offset,
  record { valid = v; inside = λ k lt. absurd (omega arith); before = λ i lt. refl },
)
write_loop-Wrote (suc zero) l c (x ∷ xs) offset p w v o f room = absurd (omega arith)
write_loop-Wrote (suc (suc fuel)) l c (x ∷ xs) offset p w v o f room =
    elim (dec_le (length bytes) n) [
      | yes last ↦ (
        c1,
        round
            ∙ rw (drop_of_length-le (min (length bytes) n) bytes (omega arith))
                (write_loop_nil fuel l c1 _),
        Wrote-last ps c offset bytes p v last,
      )
      | no more ↦
          let size = length-drop n bytes in
          let (c', ran, wrote) =
            write_loop-Wrote (suc fuel) l c1 (drop n bytes) (offset + n) p w
              (after_round-IsValid ps c offset (part ps offset bytes) v
                (part_fits ps offset bytes p))
              (omega arith) (grind arith)
              (omega (
                arith,
                added,
                pages_spanned-next ps offset (length bytes) p (omega arith),
                ap (pages_spanned ps (offset + n)) size,
              )) in
          (
            c',
            round ∙ onwards (omega arith) ∙ ran,
            Wrote-step ps c offset bytes c' p v (omega arith) wrote,
          )
    ]
  where
    ps : ℕ
    ps = l.page_size

    bytes : List ℕ
    bytes = x ∷ xs

    n : ℕ
    n = ps - offset % ps

    c1 : Content
    c1 = after_round ps c offset (part ps offset bytes)

    added : length c1 ≤ suc (length c)
    added = length-insert ℕ_discrete (offset / ps) _ c

    cut : n < length bytes → min (length bytes) n ≡ n
    cut more = omega arith

    round :
        write_loop (suc (suc fuel)) l c bytes offset
        ≡ write_loop
            (suc fuel)
            l
            c1
            (drop (min (length bytes) n) bytes)
            (add_usize offset (min (length bytes) n))
    round = write_loop_round (suc fuel) l c x xs offset p w (ground arith) v

    onwards :
        n < length bytes
        → write_loop
            (suc fuel)
            l
            c1
            (drop (min (length bytes) n) bytes)
            (add_usize offset (min (length bytes) n))
          ≡ write_loop (suc fuel) l c1 (drop n bytes) (offset + n)
    onwards more =
        ap (λ k. write_loop (suc fuel) l c1 (drop k bytes) (add_usize offset k)) (cut more)
        ∙ ap (write_loop (suc fuel) l c1 (drop n bytes)) (add_usize_small offset n (omega arith))

-- With or without room, the loop ends with valid pages, and adds none beyond the limit.
pub record Kept (l : Limits) (c : Content) (c' : Content) : Type 0 where
  pub valid : IsValid l.page_size c'
  pub count : length c' ≤ max (length c) l.max_pages

pub write_loop_full :
    (fuel : ℕ) (l : Limits) (c : Content) (bytes : List ℕ) (offset : ℕ)
    → l.max_pages ≤ length c
    → write_loop (suc fuel) l c bytes offset ≡ some c
unfolding write_loop
write_loop_full fuel l c bytes offset full = ground arith

pub write_loop-Kept :
    (fuel : ℕ) (l : Limits) (c : Content) (bytes : List ℕ) (offset : ℕ)
    → 0 < l.page_size
    → l.page_size < word_size
    → IsValid l.page_size c
    → length bytes < fuel
    → (c' : Content) × (write_loop fuel l c bytes offset ≡ some c') × Kept l c c'
write_loop-Kept zero l c bytes offset p w v f = absurd (omega arith)
write_loop-Kept (suc fuel) l c [] offset p w v f =
    (c, write_loop_nil fuel l c offset, record { valid = v; count = omega arith })
write_loop-Kept (suc fuel) l c (x ∷ xs) offset p w v f = elim (dec_lt (length c) l.max_pages) [
  | no full ↦ (
    c,
    write_loop_full fuel l c (x ∷ xs) offset (omega arith),
    record { valid = v; count = omega arith },
  )
  | yes room ↦
      let (c', ran, kept) =
        write_loop-Kept fuel l c1 (drop n (x ∷ xs)) (add_usize offset n) p w
          (after_round-IsValid ps c offset (part ps offset (x ∷ xs)) v
            (part_fits ps offset (x ∷ xs) p))
          (omega (arith, length-drop n (x ∷ xs), pos)) in
      (
        c',
        write_loop_round fuel l c x xs offset p w room v ∙ ran,
        record { valid = kept.valid; count = omega (arith, kept.count, added) },
      )
]
  where
    ps : ℕ
    ps = l.page_size

    n : ℕ
    n = min (length (x ∷ xs)) (ps - offset % ps)

    pos : 0 < n
    pos = grind arith

    c1 : Content
    c1 = after_round ps c offset (part ps offset (x ∷ xs))

    added : length c1 ≤ suc (length c)
    added = length-insert ℕ_discrete (offset / ps) _ c
