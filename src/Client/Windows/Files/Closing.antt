-- ===== src/Client/Windows/Files/Closing.antt =====
-- What the end of a file's use does with bytes that cannot be sent: client/src/fuse/windows.rs.
use remote_file_system.Prelude.{◌≡◌, true, false, [], arith}
use remote_file_system.Paths.{path_is_utf8}
use remote_file_system.Action.{ok}
use remote_file_system.Client.Errors.{NetworkError}
use remote_file_system.Client.Network.{RemoteStorage, failed}
use remote_file_system.Client.WriteBuffer.{get_content}
use remote_file_system.Client.Model.{State}
use remote_file_system.Client.Model.Data.{is_empty}
use remote_file_system.Client.Model.Failures.{flush_failed}
use remote_file_system.Client.Model.Uploads.{pending}
use remote_file_system.Client.Windows.{Winfsp, Handle}
use remote_file_system.Client.Windows.Files.{close}

module _ (win : Winfsp) (env : RemoteStorage) where
  -- Bytes for a path that is UTF-8 which the server refuses are lost without an error when a file is
  -- closed: `close` succeeds, and the bytes are no longer in the buffer.
  pub close_loses_refused :
      (context : Handle) (s : State env) (e : NetworkError)
      → is_empty (get_content s.write_buffer).2 ≡ false
      → path_is_utf8 (get_content s.write_buffer).0 ≡ true
      → (env.write_file
          (get_content s.write_buffer).0
          (get_content s.write_buffer).1
          (get_content s.write_buffer).2
          s.remote).0
        ≡ failed e
      → ((close win env context s).0 ≡ ok tt)
        × (pending (close win env context s).1.write_buffer ≡ [])
  unfolding close
  close_loses_refused context s e some_bytes utf8 refused =
      let (fails, emptied) = flush_failed env s e some_bytes utf8 refused in
      ground (arith, fails, emptied)
