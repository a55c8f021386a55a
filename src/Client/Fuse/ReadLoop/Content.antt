-- ===== src/Client/Fuse/ReadLoop/Content.antt =====
-- What a read of client/src/fuse/unix.rs gives, without a cache, of a file that stays as it is.
use remote_file_system.Prelude.{
  ℕ, zero, suc, ◌+◌, ◌-◌, ◌≤◌, ◌<◌, ◌≡◌, refl, ap, true, Bool-cases, none, some, inl, inr, List, [],
  ◌∷◌, ◌++◌, length, length-append, length-take, length-drop, take, drop, ltb, min, add_usize_small,
  word_size, arith, dec_lt,
}
use remote_file_system.Paths.{FilePath, path_is_utf8}
use remote_file_system.Action.{ok}
use remote_file_system.Client.Action as ModelAction
use remote_file_system.Client.Attributes.{Attributes}
use remote_file_system.Client.Attributes.Modes.{Libc}
use remote_file_system.Client.Network.{RemoteStorage, done}
use remote_file_system.Client.ReadBuffer
use remote_file_system.Client.ReadBuffer.{ReadBuffer}
use remote_file_system.Client.Model.{State, ask, path_to_string, cache_get, cache_try}
use remote_file_system.Client.Model.Data
use remote_file_system.Client.Model.ReadLength.{length-read_file_le}
use mathlib.Core.Option.{bind}
use remote_file_system.Client.Fuse.{path_or_handle}
use remote_file_system.Client.Fuse.Files.{read_loop, read_all, read}
use remote_file_system.Client.Fuse.ReadLoop.Fronts.{
  IsPrefix, drop-drop, append-IsPrefix, whole_front, list-cases, front_of_front,
}
use remote_file_system.Client.Fuse.ReadLoop.Buffer.{
  IsFaithful, fill_capacity, fill_front-IsFaithful,
}

-- A server that, in the states that hold, answers for a path and stays so: it gives the size in the
-- attributes, and a read gives a front of what there is from its offset on, at most what it is asked
-- for, and something where there is something.
pub record Serves (env : RemoteStorage) (path : FilePath) (content : List ℕ)
    (Holds : env.World → Type 0) : Type 0 where
  pub describes :
      (w : env.World)
      → Holds w
      → (a : Attributes) × (w' : env.World) × (env.get_attributes path w ≡ (done a, w'))
        × (a.size ≡ length content)
        × Holds w'
  pub reads :
      (offset n : ℕ) (w : env.World)
      → Holds w
      → 0 < n
      → offset < length content
      → (b : ℕ) × (bs : List ℕ) × (w' : env.World) × (env.read_file path offset n w
          ≡ (done (b ∷ bs), w'))
        × IsPrefix (b ∷ bs) (drop offset content)
        × Holds w'

module _ (env : RemoteStorage) (path : FilePath) (content : List ℕ)
    (Holds : env.World → Type 0) where
  -- A state in which the file can be read: no cache, a read buffer that is faithful, and a server
  -- that holds the file.
  pub record IsReady (s : State env) : Type 0 where
    pub uncached : s.cache ≡ none
    pub buffer : IsFaithful path content s.read_buffer
    pub held : Holds s.remote

module _ (env : RemoteStorage) (path : FilePath) (content : List ℕ) (Holds : env.World → Type 0)
    (server : Serves env path content Holds) where
  described :
      (s : State env) (a : Attributes) (w : env.World)
      → path_is_utf8 path ≡ true
      → s.cache ≡ none
      → env.get_attributes path s.remote ≡ (done a, w)
      → Data.get_attributes env path s ≡ (ModelAction.ok a, record s { remote = w })
  unfolding Data.get_attributes cache_get path_to_string ask cache_try bind
  described s a w u c e = ground (arith, u, c, e)

  fetched :
      (offset n : ℕ) (s : State env) (bytes : List ℕ) (w : env.World)
      → path_is_utf8 path ≡ true
      → s.cache ≡ none
      → env.read_file path offset s.read_buffer.capacity s.remote ≡ (done bytes, w)
      → Data.read_remote env path offset n s ≡ (
        ModelAction.ok (take (min (length bytes) n) bytes),
        record s {
          remote = w;
          read_buffer = ReadBuffer.fill s.read_buffer (env.now w) path offset bytes;
        },
      )
  unfolding Data.read_remote path_to_string ask cache_try
  fetched offset n s bytes w u c e = ground (arith, u, c, e)

  -- What one call of the model's `read_file` has given: a front of what is left of the file, and
  -- something where something is left.
  record Step (offset n : ℕ) (s : State env) : Type 0 where
    given : List ℕ
    after : State env
    runs : Data.read_file env path offset n s ≡ (ModelAction.ok given, after)
    ready : IsReady env path content Holds after
    capacity : after.read_buffer.capacity ≡ s.read_buffer.capacity
    front : IsPrefix given (drop offset content)
    complete : length given ≡ 0 → length content ≤ offset

  -- The parameters are what the question for the attributes has given.
  module _ (offset n : ℕ) (s : State env) (a : Attributes) (w : env.World)
      (u : path_is_utf8 path ≡ true) (r : IsReady env path content Holds s)
      (e : env.get_attributes path s.remote ≡ (done a, w)) (sized : a.size ≡ length content)
      (held : Holds w) where
    past_end : length content ≤ offset → Step offset n s
    unfolding Data.read_file
    past_end h = record {
      given = [];
      after = record s { remote = w };
      runs = ground (arith, described s a w u r.uncached e, sized, h);
      ready = record { uncached = r.uncached; buffer = r.buffer; held = held };
      capacity = refl;
      front = refl;
      complete = λ _. h;
    }

    from_server :
        0 < n
        → offset + s.read_buffer.capacity < word_size
        → offset < length content
        → ReadBuffer.read s.read_buffer (env.now w) path offset n ≡ []
        → Step offset n s
    unfolding Data.read_file Data.read_buffered cache_get
    from_server asked small h nothing =
        let (b, bs, w', e', front, held') =
          server.reads offset s.read_buffer.capacity w held r.buffer.room h in
        let bytes = b ∷ bs in
        let t = record s { remote = w } in
        record {
          given = take (min (length bytes) n) bytes;
          after = record s {
            remote = w';
            read_buffer = ReadBuffer.fill s.read_buffer (env.now w') path offset bytes;
          };
          runs = ground (
            arith,
            described s a w u r.uncached e,
            sized,
            h,
            r.uncached,
            nothing,
            fetched offset n t bytes w' u r.uncached e',
          );
          ready = record {
            uncached = r.uncached;
            buffer =
                fill_front-IsFaithful path content s.read_buffer (env.now w') offset bytes r.buffer
                  small front;
            held = held';
          };
          capacity = fill_capacity s.read_buffer (env.now w') path offset bytes;
          front = front_of_front (min (length bytes) n) bytes (drop offset content) front;
          complete = λ z. ground (arith, z, asked, length-take (min (length bytes) n) bytes);
        }

    from_buffer :
        (b : ℕ) (bs : List ℕ)
        → offset + n < word_size
        → offset < length content
        → ReadBuffer.read s.read_buffer (env.now w) path offset n ≡ b ∷ bs
        → Step offset n s
    unfolding Data.read_file Data.read_buffered cache_get cache_try
    from_buffer b bs small h some_bytes = record {
      given = b ∷ bs;
      after = record s { remote = w };
      runs = ground (arith, described s a w u r.uncached e, sized, h, r.uncached, some_bytes);
      ready = record { uncached = r.uncached; buffer = r.buffer; held = held };
      capacity = refl;
      front = ground (arith, some_bytes, r.buffer.serves (env.now w) offset n small);
      complete = λ z. ground (arith, z);
    }

    step_after :
        (buffered : List ℕ)
        → 0 < n
        → offset + n < word_size
        → offset + s.read_buffer.capacity < word_size
        → ReadBuffer.read s.read_buffer (env.now w) path offset n ≡ buffered
        → Step offset n s
    step_after [] asked small room found = elim (dec_lt offset (length content)) [
      | no h ↦ past_end (omega (arith, h))
      | yes h ↦ from_server asked room h found
    ]
    step_after (b ∷ bs) asked small room found = elim (dec_lt offset (length content)) [
      | no h ↦ past_end (omega (arith, h))
      | yes h ↦ from_buffer b bs small h found
    ]

  step :
      (offset n : ℕ) (s : State env)
      → path_is_utf8 path ≡ true
      → IsReady env path content Holds s
      → 0 < n
      → offset + n < word_size
      → offset + s.read_buffer.capacity < word_size
      → Step offset n s
  step offset n s u r asked small room =
      let (a, w, e, sized, held) = server.describes s.remote r.held in
      step_after offset n s a w u r e sized held
        (ReadBuffer.read s.read_buffer (env.now w) path offset n) asked small room refl

module _ (libc : Libc) (env : RemoteStorage) (path : FilePath) (content : List ℕ)
    (Holds : env.World → Type 0) (server : Serves env path content Holds) where
  loop_gives :
      (fuel offset size : ℕ) (bytes : List ℕ) (s : State env)
      → path_is_utf8 path ≡ true
      → IsReady env path content Holds s
      → size < fuel + length bytes
      → length bytes ≤ size
      → offset + size + s.read_buffer.capacity < word_size
      → IsPrefix bytes (drop offset content)
      → (after : State env) × (read_loop libc env fuel path offset size bytes s
          ≡ (ok (some (take size (drop offset content))), after))
        × IsReady env path content Holds after
  unfolding read_loop
  loop_gives zero offset size bytes s u r enough short small front =
      absurd (omega (arith, enough, short))
  loop_gives (suc fuel) offset size bytes s u r enough short small front =
      elim (Bool-cases (ltb (length bytes) size)) [
        | inr e ↦ (s, ground (arith, e, front, short), r)
        | inl e ↦
            let at = offset + length bytes in
            let left = size - length bytes in
            let st =
              step env path content Holds server at left s u r (ground (arith, e))
                (ground (arith, small, e)) (ground (arith, small, e)) in
            let here = add_usize_small offset (length bytes) (ground (arith, small, e)) in
            let runs = st.runs in
            let sizes = length-append bytes st.given in
            let fits = length-read_file_le env path at left s st.given (ap (λ x. x.0) runs) in
            elim (list-cases st.given) [
              | inl none_left ↦
                  let reached = st.complete (ground (arith, none_left)) in
                  let whole =
                    whole_front size bytes (drop offset content) front
                      (omega (arith, reached, length-drop offset content)) short in
                  (st.after, ground (arith, e, here, none_left, runs, whole), st.ready)
              | inr (b, bs, more) ↦
                  let joined =
                    append-IsPrefix bytes st.given (drop offset content) front
                      (rw (drop-drop (length bytes) offset content) st.front) in
                  let (after, ran, ready) =
                    loop_gives fuel offset size (bytes ++ st.given) st.after u st.ready
                      (ground (arith, enough, sizes, more)) (omega (arith, sizes, fits, short))
                      (rw st.capacity small) joined in
                  (after, ground (arith, e, here, more, runs, ran), ready)
            ]
      ]

  -- Without a cache, on a server that answers for the path and holds the file: a read gives
  -- exactly the bytes of the file from its offset on, at most as many as it is asked for, and leaves
  -- a state in which the next read does the same. The read buffer may hold anything that was
  -- read of the file before; what waits in the write buffer is not looked at. The path is UTF-8, and the offset, the
  -- size and the capacity of the read buffer fit a usize together.
  pub read_gives :
      (fh offset size : ℕ) (s : State env)
      → path_is_utf8 path ≡ true
      → IsReady env path content Holds s
      → offset + size + s.read_buffer.capacity < word_size
      → (after : State env) × (read libc env (some path) fh offset size s
          ≡ (ok (take size (drop offset content)), after))
        × IsReady env path content Holds after
  unfolding read read_all path_or_handle
  read_gives fh offset size s u r small =
      let (after, ran, ready) =
        loop_gives (suc size) offset size [] s u r (omega arith) (omega arith) small refl in
      (after, ground (arith, ran), ready)
