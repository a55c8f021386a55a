-- ===== src/Client/Windows/Times.antt =====
-- The times of client/src/fuse/windows.rs: a FILETIME counts tenths of microseconds from 1601.
use remote_file_system.Prelude.{
  ℕ, ◌+◌, ◌-◌, ◌*◌, ◌/◌, ◌%◌, ◌^◌, ◌≤◌, ◌<◌, ◌≡◌, Option, none, some, ◌==◌, if◌then◌else◌, arith,
}
use remote_file_system.Client.Attributes.{Timestamp}

abbrev pub windows_epoch_diff : ℕ
windows_epoch_diff = 11644473600

-- The seconds are a bit pattern, and both steps wrap around.
unfoldable pub unix_to_filetime : Timestamp → ℕ
unix_to_filetime ts = ((ts.sec + windows_epoch_diff) % 2 ^ 64 * 10000000) % 2 ^ 64

-- A time before 1970 wraps around.
unfoldable pub filetime_to_unix : ℕ → Option Timestamp
filetime_to_unix t =
    let unix_100ns = (t + (2 ^ 64 - windows_epoch_diff * 10000000)) % 2 ^ 64 in
    if t == 0
    then none
    else some (record { sec = unix_100ns / 10000000; nsec = unix_100ns % 10000000 * 100 })

-- A time from 1970 on that a FILETIME can hold comes back from Windows in whole seconds, and a
-- FILETIME from 1970 on comes back from the client without what it has below a second.
pub filetime_to_unix-unix_to_filetime :
    (ts : Timestamp) (t : ℕ)
    → (ts.sec + windows_epoch_diff) * 10000000 < 2 ^ 64
    → windows_epoch_diff * 10000000 ≤ t
    → t < 2 ^ 64
    → (filetime_to_unix (unix_to_filetime ts) ≡ some (record { sec = ts.sec; nsec = 0 }))
      × ((u : Timestamp) × (filetime_to_unix t ≡ some u)
          × (unix_to_filetime u + t % 10000000 ≡ t)
          × (u.nsec ≡ t % 10000000 * 100))
unfolding unix_to_filetime filetime_to_unix
filetime_to_unix-unix_to_filetime ts t fits after held = (
  ground arith,
  (
    record { sec = (t - windows_epoch_diff * 10000000) / 10000000; nsec = t % 10000000 * 100 },
    ground arith,
    omega arith,
    omega arith,
  ),
)
