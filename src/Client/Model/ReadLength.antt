-- ===== src/Client/Model/ReadLength.antt =====
-- The length of what `read_file` of client/src/fs_model.rs gives, from whichever source.
use remote_file_system.Prelude.{
  ℕ, zero, suc, ◌+◌, ◌-◌, ◌%◌, ◌/◌, ◌≤◌, min, ◌≡◌, Option, some, none, Option-cases, List, [], ◌∷◌,
  ◌++◌, length, take, drop, arith, ltb, ◌==◌, length-take, length-append, Bool-cases, inl, inr,
  false, ℕ_discrete, add_usize, if◌then◌else◌,
}
use remote_file_system.Prelude.Assoc.{lookup}
use remote_file_system.Paths.{FilePath}
use remote_file_system.Client.Action.{ok, outcome-cases, Action, pure, attempt, ◌>>=◌, ◌>>◌}
use remote_file_system.Client.Network.{RemoteStorage}
use remote_file_system.Client.Pages
use remote_file_system.Client.Pages.{FilePage, Content, File, read_page, read_loop}
use remote_file_system.Client.ReadBuffer
use remote_file_system.Client.ReadBuffer.{ReadBuffer}
use remote_file_system.Client.Items.{CacheItem, file, sym_link, directory}
use remote_file_system.Client.Model.{State, ask, path_to_string, cache_try, cache_get}
use remote_file_system.Client.Cache.{cache_write_file}
use remote_file_system.Client.Model.Data.{
  read_capacity, fill_buffer, is_empty, cached_bytes, buffered_bytes, read_remote, read_buffered,
  read_file, get_attributes, is_past_end,
}

length-read_page :
    (ps : ℕ) (p : FilePage) (j n : ℕ) (s : List ℕ) → read_page ps p j n ≡ some s → length s ≤ n
unfolding read_page
length-read_page ps p j n s h =
    ground (arith, length-take (min (min (add_usize j n) ps) p.valid_up_to - j) (drop j p.content))

length-read_loop :
    (fuel ps : ℕ) (c : Content) (buffer : List ℕ) (n offset : ℕ) (r : List ℕ)
    → read_loop fuel ps c buffer n offset ≡ some r
    → length r ≤ length buffer + n
unfolding read_loop
length-read_loop zero ps c buffer n offset r h = ground arith
length-read_loop (suc fuel) ps c buffer n offset r h =
    elim (Option-cases (lookup ℕ_discrete (offset / ps) c)) [
      | inl e ↦ ground (arith, e)
      | inr (p, e) ↦ elim (Option-cases (read_page ps p (offset % ps) (min n (ps - offset % ps)))) [
        | inl f ↦ ground (arith, e, f)
        | inr (s, f) ↦
            let short = length-read_page ps p (offset % ps) (min n (ps - offset % ps)) s f in
            let joined = length-append buffer s in
            elim (Bool-cases (n == 0)) [
              | inl z ↦ ground (arith, e, f, z)
              | inr z ↦ elim (Bool-cases (ps == 0)) [
                | inl y ↦ ground (arith, e, f, z, y)
                | inr y ↦ elim (Bool-cases (ltb (length s) (min n (ps - offset % ps)))) [
                  | inl x ↦ ground (arith, e, f, z, y, x)
                  | inr x ↦
                      let rest =
                        length-read_loop fuel ps c (buffer ++ s) (n - length s)
                          (add_usize offset (min n (ps - offset % ps))) r
                          (ground (arith, e, f, z, y, x)) in
                      omega (arith, rest, joined, short)
                ]
              ]
            ]
      ]
    ]

length-buffered :
    (b : ReadBuffer) (now : ℕ) (path : FilePath) (offset n : ℕ)
    → length (ReadBuffer.read b now path offset n) ≤ n
unfolding ReadBuffer.read
length-buffered b now path offset n = ground (
  arith,
  length-take (min (add_usize (offset - b.offset) n) b.valid_up_to - (offset - b.offset))
      (drop (offset - b.offset) b.buffer),
)

-- Every result of the action has the property.
record Always {S A : Type 0} (P : A → Type 0) (m : Action S A) : Type 0 where
  holds : (s : S) (a : A) → (m s).0 ≡ ok a → P a

Always-bind :
    {S A B : Type 0} {P : B → Type 0} (Q : A → Type 0) (m : Action S A) {f : A → Action S B}
    → Always Q m
    → ((a : A) → Q a → Always P (f a))
    → Always P (m >>= f)
Always-bind Q m {f = f} first later = record {
  holds = λ s b h. elim (outcome-cases (m s).0) [
    | inl (a, e) ↦ (later a (first.holds s a e)).holds (m s).1 b (ground (arith, e, h))
    | inr (inl (_, e)) ↦ ground (arith, e, h)
    | inr (inr e) ↦ ground (arith, e, h)
  ];
}

Always-then :
    {S A B : Type 0} {P : B → Type 0} (m : Action S A) {f : A → Action S B}
    → ((a : A) → Always P (f a))
    → Always P (m >>= f)
Always-then m {f = f} later =
    Always-bind (λ _. Unit {0}) m {f = f} (record { holds = λ s a h. tt }) (λ a _. later a)

-- At most that many bytes.
abbrev AtMost : ℕ → List ℕ → Type 0
AtMost n bytes = length bytes ≤ n

Always-pure : {S : Type 0} (n : ℕ) (a : List ℕ) → AtMost n a → Always {S = S} (AtMost n) (pure a)
Always-pure n a short = record { holds = λ s b h. ground arith }

module _ (env : RemoteStorage) where
  length-cached :
      (item : Option CacheItem) (offset n : ℕ) → Always (AtMost n) (cached_bytes env item offset n)
  unfolding Pages.read
  length-cached none offset n = Always-pure n [] (omega arith)
  length-cached (some (sym_link l)) offset n = Always-pure n [] (omega arith)
  length-cached (some (directory d)) offset n = Always-pure n [] (omega arith)
  length-cached (some (file f)) offset n = record {
    holds = λ s b h. elim (Option-cases (Pages.read s.limits.page_size f offset n)) [
      | inl e ↦ ground (arith, e, h)
      | inr (r, e) ↦
          ground
            (arith, e, h, length-read_loop (suc n) s.limits.page_size f.content [] n offset r e)
    ];
  }

  abbrev put_bytes : FilePath → ℕ → List ℕ → Action (State env) (Unit {0})
  put_bytes path offset bytes =
      cache_try env (λ l c now. cache_write_file l c now path offset bytes false)

  length-remote :
      (path : FilePath) (offset n : ℕ) → Always (AtMost n) (read_remote env path offset n)
  unfolding read_remote
  length-remote path offset n = Always-then (path_to_string path) (λ p.
      Always-then (read_capacity env) (λ c.
        Always-then (ask env (env.read_file p offset c)) (λ bytes.
          Always-then (fill_buffer env path offset bytes) (λ _.
            Always-then (put_bytes path offset bytes) (λ _.
              Always-pure n (take (min (length bytes) n) bytes)
                (omega (arith, length-take (min (length bytes) n) bytes)))))))

  length-after_buffer :
      (path : FilePath) (offset n : ℕ) (bytes : List ℕ)
      → AtMost n bytes
      → Always (AtMost n) (
          if is_empty bytes
          then read_remote env path offset n
          else (put_bytes path offset bytes >> pure bytes))
  length-after_buffer path offset n [] short = length-remote path offset n
  length-after_buffer path offset n (x ∷ bytes) short =
      Always-then (put_bytes path offset (x ∷ bytes)) (λ _. Always-pure n (x ∷ bytes) short)

  length-read_buffered :
      (path : FilePath) (offset n : ℕ) → Always (AtMost n) (read_buffered env path offset n)
  unfolding read_buffered
  length-read_buffered path offset n =
      Always-bind (AtMost n) (buffered_bytes env path offset n)
        (record {
          holds = λ s b h.
              ground (arith, h, length-buffered s.read_buffer (env.now s.remote) path offset n);
        })
        (length-after_buffer path offset n)

  length-read_file :
      (path : FilePath) (offset n : ℕ) → Always (AtMost n) (read_file env path offset n)
  unfolding read_file
  length-read_file path offset n = Always-then (attempt (get_attributes env path)) (λ attributes.
      elim (Bool-cases (is_past_end env attributes offset)) [
        | inl e ↦ rw e (Always-pure n [] (omega arith))
        | inr e ↦ rw e (
            Always-then (cache_get env path) (λ item.
              Always-bind (AtMost n) (cached_bytes env item offset n) (length-cached item offset n)
                (λ bytes short. elim (Bool-cases (is_empty bytes)) [
                  | inl e ↦ rw e (length-read_buffered path offset n)
                  | inr e ↦ rw e (Always-pure n bytes short)
                ])))
      ])

  -- A read gives at most as many bytes as were asked for, whether they come from the cache, from
  -- the read buffer or from the server.
  pub length-read_file_le :
      (path : FilePath) (offset size : ℕ) (s : State env) (bytes : List ℕ)
      → (read_file env path offset size s).0 ≡ ok bytes
      → length bytes ≤ size
  length-read_file_le path offset size s bytes = (length-read_file path offset size).holds s bytes
