-- ===== src/Client/Model/Session.antt =====
-- A server that keeps what it is sent, and what a session of writes and a flush leaves on it:
-- `write_file` and `flush_write_buffer` of client/src/fs_model.rs against an append-only log.
use remote_file_system.Prelude.{
  ℕ, ◌+◌, ◌<◌, ◌≡◌, refl, sym, List, [], ◌∷◌, ◌++◌, take, word_size, arith, append-nil,
  append_assoc, true, Bool-cases, inl, inr, Option,
}
use remote_file_system.Paths.{FilePath, path_is_utf8}
use remote_file_system.Client.Action.{ok, outcome-cases, Action, pure, ◌>>=◌, ◌>>◌}
use remote_file_system.Client.Attributes.{Attributes}
use remote_file_system.Client.Network.{RemoteStorage, done, reply-cases}
use remote_file_system.Client.WriteBuffer.{get_content, clean}
use remote_file_system.Client.WriteBuffer.Stream.{IsValid}
use remote_file_system.Client.Pages.{Limits}
use remote_file_system.Client.Cache.{Cache, cache_write_file}
use remote_file_system.Client.Model.{State, ask, path_to_string, cache_try}
use remote_file_system.Client.Model.Data.{
  Upload, is_empty, stage, upload, upload_all, write_file, flush_write_buffer,
}
use remote_file_system.Client.Model.Uploads.{
  Cell, cells, all_cells, pending, pending-clean, cells-is_empty, stage_keeps_order, HasRoom,
  stage-HasRoom, stage-capacity,
}

-- What the client relies on: a write that the server reports as done has appended its bytes to
-- what the server was sent.
pub record KeepsWrites (env : RemoteStorage) : Type 0 where
  pub log : env.World → List Cell
  pub appends :
      (path : FilePath) (offset : ℕ) (bytes : List ℕ) (w : env.World) (a : Attributes)
      → (env.write_file path offset bytes w).0 ≡ done a
      → log (env.write_file path offset bytes w).1 ≡ log w ++ cells (path, offset, bytes)

-- No write goes past the largest offset.
unfoldable pub InRange : ℕ → List Upload → Type 0
InRange capacity [] = Unit {0}
InRange capacity ((path, offset, bytes) ∷ us) =
    (offset + capacity < word_size) × InRange capacity us

module _ (env : RemoteStorage) where
  -- The writes of a session, and what the calls report as taken.
  unfoldable pub write_all : List Upload → Action (State env) (List Upload)
  write_all [] = pure []
  write_all ((path, offset, bytes) ∷ us) = do
    n ← write_file env path offset bytes
    rest ← write_all us
    pure ((path, offset, take n bytes) ∷ rest)

  -- A number of writes, then a flush: `fsync` or `release` of the file.
  unfoldable pub session : List Upload → Action (State env) (List Upload)
  session us = do taken ← write_all us; flush_write_buffer env; pure taken

module _ (env : RemoteStorage) (server : KeepsWrites env) where
  abbrev pub sent_to : State env → List Cell
  sent_to s = server.log s.remote

  cache_try_frame :
      (change : Limits → Cache → ℕ → Option Cache) (s : State env)
      → ((cache_try env change s).1.remote ≡ s.remote)
        × ((cache_try env change s).1.write_buffer ≡ s.write_buffer)
  unfolding cache_try
  cache_try_frame change s = ground arith

  upload_lem :
      (u : Upload) (s : State env)
      → (upload env u s).0 ≡ ok tt
      → (sent_to (upload env u s).1 ≡ sent_to s ++ cells u)
        × ((upload env u s).1.write_buffer ≡ s.write_buffer)
  unfolding upload path_to_string ask
  upload_lem (path, offset, bytes) s h = elim (Bool-cases (path_is_utf8 path)) [
    | inl e ↦ elim (reply-cases (env.write_file path offset bytes s.remote).0) [
      | inl (a, r) ↦ ground (
        arith,
        server.appends path offset bytes s.remote a r,
        cache_try_frame (λ l c now. cache_write_file l c now path offset bytes true)
            (record s { remote = (env.write_file path offset bytes s.remote).1 }),
      )
      | inr (f, r) ↦ ground arith
    ]
    | inr e ↦ ground arith
  ]

  upload_all_lem :
      (us : List Upload) (s : State env)
      → (upload_all env us s).0 ≡ ok tt
      → (sent_to (upload_all env us s).1 ≡ sent_to s ++ all_cells us)
        × ((upload_all env us s).1.write_buffer ≡ s.write_buffer)
  unfolding upload_all all_cells
  upload_all_lem [] s h = (sym (append-nil _), refl)
  upload_all_lem (u ∷ us) s h = elim (outcome-cases (upload env u s).0) [
    | inl (a, r) ↦ ground (
      arith,
      r,
      upload_lem u s,
      upload_all_lem us (upload env u s).1,
      append_assoc (sent_to s) (cells u) (all_cells us),
    )
    | inr (inl (e, r)) ↦ ground arith
    | inr (inr r) ↦ ground arith
  ]

  -- The state and the uploads after the part of `write_file` under the lock.
  abbrev staged : FilePath → ℕ → List ℕ → State env → State env
  staged path offset bytes s = record s {
    write_buffer = (stage s.write_buffer path offset bytes).0;
  }

  write_file_inv :
      (path : FilePath) (offset : ℕ) (bytes : List ℕ) (s : State env) (n : ℕ)
      → (write_file env path offset bytes s).0 ≡ ok n
      → let r = stage s.write_buffer path offset bytes in
        let t = upload_all env r.2 (staged path offset bytes s) in
        (t.0 ≡ ok tt) × (r.1 ≡ n) × ((write_file env path offset bytes s).1 ≡ t.1)
  unfolding write_file
  write_file_inv path offset bytes s n h =
      elim (outcome-cases
        (upload_all env (stage s.write_buffer path offset bytes).2
          (staged path offset bytes s)).0) [
            | inl (a, r) ↦ ground arith
            | inr (inl (e, r)) ↦ ground arith
            | inr (inr r) ↦ ground arith
          ]

  -- On a server that appends what it accepts, a `write_file` from a valid buffer that reports
  -- success: what the server was sent, followed by what still waits in the buffer, has grown by
  -- exactly the bytes that the call reports as written, in order and at their places.
  pub write_file_keeps_order :
      (path : FilePath) (offset : ℕ) (bytes : List ℕ) (s : State env) (n : ℕ)
      → IsValid s.write_buffer
      → (write_file env path offset bytes s).0 ≡ ok n
      → let s' = (write_file env path offset bytes s).1 in
        sent_to s' ++ pending s'.write_buffer
        ≡ (sent_to s ++ pending s.write_buffer) ++ cells (path, offset, take n bytes)
  write_file_keeps_order path offset bytes s n v h =
      let (done_all, same, state) = write_file_inv path offset bytes s n h in
      let (logged, kept) = upload_all_lem _ _ done_all in
      rw
        (
          state,
          logged,
          kept,
          append_assoc,
          stage_keeps_order s.write_buffer path offset bytes v,
          same,
        )
        (sym
          (append_assoc (sent_to s) (pending s.write_buffer) (cells (path, offset, take n bytes))))

  -- On a server that appends what it accepts, a flush that reports success has sent what waited in
  -- the buffer, and leaves nothing to wait.
  pub flush_sends_all :
      (s : State env)
      → (flush_write_buffer env s).0 ≡ ok tt
      → let s' = (flush_write_buffer env s).1 in
        (sent_to s' ≡ sent_to s ++ pending s.write_buffer) × (pending s'.write_buffer ≡ [])
  unfolding flush_write_buffer
  flush_sends_all s h = elim (Bool-cases (is_empty (get_content s.write_buffer).2)) [
    | inl e ↦
        rw (e, cells-is_empty (get_content s.write_buffer) e) (sym (append-nil (sent_to s)), refl)
    | inr e ↦
        let (logged, kept) =
          upload_lem (get_content s.write_buffer) (record s { write_buffer = clean s.write_buffer })
            (ground arith) in
        rw e (logged, rw kept (pending-clean s.write_buffer))
  ]

  write_file-buffer :
      (path : FilePath) (offset : ℕ) (bytes : List ℕ) (s : State env) (n : ℕ)
      → (write_file env path offset bytes s).0 ≡ ok n
      → (write_file env path offset bytes s).1.write_buffer
        ≡ (stage s.write_buffer path offset bytes).0
  write_file-buffer path offset bytes s n h =
      let (done_all, same, state) = write_file_inv path offset bytes s n h in
      let (logged, kept) = upload_all_lem _ _ done_all in rw (state, kept) refl

  write_all_lem :
      (us : List Upload) (s : State env) (taken : List Upload)
      → IsValid s.write_buffer
      → HasRoom s.write_buffer
      → InRange s.write_buffer.capacity us
      → (write_all env us s).0 ≡ ok taken
      → let s' = (write_all env us s).1 in
        sent_to s' ++ pending s'.write_buffer
        ≡ (sent_to s ++ pending s.write_buffer) ++ all_cells taken
  unfolding write_all InRange all_cells
  write_all_lem [] s taken v r i h =
      ground (arith, append-nil (sent_to s ++ pending s.write_buffer))
  write_all_lem ((path, offset, bytes) ∷ us) s taken v r i h =
      elim (outcome-cases (write_file env path offset bytes s).0) [
        | inl (n, e) ↦
            elim (outcome-cases (write_all env us (write_file env path offset bytes s).1).0) [
              | inl (rest, f) ↦
                  let buffer = write_file-buffer path offset bytes s n e in
                  let (v', r') = stage-HasRoom s.write_buffer path offset bytes v r i.0 in
                  let later =
                    write_all_lem us (write_file env path offset bytes s).1 rest (rw buffer v')
                      (rw buffer r') (rw (buffer, stage-capacity) i.1) f in
                  ground (
                    arith,
                    e,
                    f,
                    later,
                    write_file_keeps_order path offset bytes s n v e,
                    append_assoc (sent_to s ++ pending s.write_buffer)
                        (cells (path, offset, take n bytes)) (all_cells rest),
                  )
              | inr (inl (_, f)) ↦ ground arith
              | inr (inr f) ↦ ground arith
            ]
        | inr (inl (_, e)) ↦ ground arith
        | inr (inr e) ↦ ground arith
      ]

  -- On a server that appends what it accepts, a session that starts with a valid buffer that has
  -- room and holds nothing, whose writes stay within the offsets of a file, and in which every call
  -- reports success: the server was sent exactly the bytes that the writes report as taken, in
  -- order and at their places, and nothing is left in the buffer.
  pub session_sends_all :
      (us : List Upload) (s : State env) (taken : List Upload)
      → IsValid s.write_buffer
      → HasRoom s.write_buffer
      → pending s.write_buffer ≡ []
      → InRange s.write_buffer.capacity us
      → (session env us s).0 ≡ ok taken
      → let s' = (session env us s).1 in
        (sent_to s' ≡ sent_to s ++ all_cells taken) × (pending s'.write_buffer ≡ [])
  unfolding session
  session_sends_all us s taken v r empty i h = elim (outcome-cases (write_all env us s).0) [
    | inl (t, e) ↦ elim (outcome-cases (flush_write_buffer env (write_all env us s).1).0) [
      | inl (x, f) ↦ ground (
        arith,
        e,
        f,
        write_all_lem us s t v r i e,
        flush_sends_all (write_all env us s).1 f,
        append-nil (sent_to s),
      )
      | inr (inl (_, f)) ↦ ground arith
      | inr (inr f) ↦ ground arith
    ]
    | inr (inl (_, e)) ↦ ground arith
    | inr (inr e) ↦ ground arith
  ]
