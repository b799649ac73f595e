-- ===== src/Disk/Fallback/Calls.antt =====
-- What the callers of elgate-core/src/disk/fallback.rs get, by the answers of the system.
use elgate.Prelude.{
  ℕ, ◌≡◌, refl, ap, true, false, Bool, List, [], if◌then◌else◌, truncated, truncated_all, IoError,
  IoResult, io_ok, io_err, Outcome, ok, err, ◌>>=◌,
}
use elgate.Disk.Files.{FileApi}
use elgate.Disk.Fallback.{
  DiskConfig, DiskError, open_failed, seek_failed, read_failed, write_failed, sync_failed,
  send_failed, answer, read_size, perform_read, perform_write, perform_sync, perform, DiskEngine,
  submit, read_file, write_file, sync_file, close_file,
}

-- The first error of three calls, or what is made of the third answer.
abbrev pub first_error :
    {A B : Type 0}
    → (IoError → DiskError)
    → (A → B)
    → IoResult (Unit {0})
    → IoResult (Unit {0})
    → IoResult A
    → Outcome DiskError B
first_error error value (io_err x) s t = err (open_failed x)
first_error error value (io_ok u) (io_err y) t = err (seek_failed y)
first_error error value (io_ok u) (io_ok v) (io_err z) = err (error z)
first_error error value (io_ok u) (io_ok v) (io_ok a) = ok (value a)

read-first_error :
    (r s : IoResult (Unit {0})) (t : IoResult (List ℕ))
    → (answer open_failed r >>= λ u. answer seek_failed s >>= λ v.
        answer read_failed t >>= λ bytes. ok (truncated read_size bytes))
      ≡ first_error read_failed (λ b. b) r s t
read-first_error (io_err x) s t = refl
read-first_error (io_ok u) (io_err y) t = refl
read-first_error (io_ok u) (io_ok v) (io_err z) = refl
read-first_error (io_ok u) (io_ok v) (io_ok bytes) = ap ok (truncated_all read_size bytes)

abbrev no_bytes : Outcome DiskError (List ℕ)
no_bytes = ok []

write-first_error :
    (r s t : IoResult (Unit {0}))
    → ((answer open_failed r >>= λ u.
          answer seek_failed s >>= λ v. answer write_failed t >>= λ w. no_bytes)
        >>= λ _. ok tt)
      ≡ first_error write_failed (λ w. tt) r s t
write-first_error (io_err x) s t = refl
write-first_error (io_ok u) (io_err y) t = refl
write-first_error (io_ok u) (io_ok v) (io_err z) = refl
write-first_error (io_ok u) (io_ok v) (io_ok w) = refl

sync-first_error :
    (r t : IoResult (Unit {0}))
    → ((answer open_failed r >>= λ u. answer sync_failed t >>= λ w. no_bytes) >>= λ _. ok tt)
      ≡ first_error sync_failed (λ w. tt) r (io_ok tt) t
sync-first_error (io_err x) t = refl
sync-first_error (io_ok u) (io_err z) = refl
sync-first_error (io_ok u) (io_ok w) = refl

-- A result of an engine whose worker runs.
abbrev pub if_running : {A : Type 0} → DiskEngine → Outcome DiskError A → Outcome DiskError A
if_running engine r = if engine.running then r else err send_failed

module _ (api : FileApi) (path offset : ℕ) (bytes : List ℕ) where
  -- Each call returns the first error of the calls that it stands for, or their answer.
  abbrev pub IsAnswered : DiskEngine → Type 0
  IsAnswered engine =
      (read_file api engine path offset
        ≡ if_running engine (
            first_error read_failed (λ b. b) (api.open_for_read path) (api.seek path offset)
              (api.read_at path offset 4096)))
      × (write_file api engine path offset bytes
          ≡ if_running engine (
              first_error write_failed (λ u. tt) (api.open_or_create path) (api.seek path offset)
                (api.write_all path offset bytes)))
      × (sync_file api engine path
          ≡ if_running engine (
              first_error sync_failed (λ u. tt) (api.open_for_read path) (io_ok tt)
                (api.sync_all path)))
      × (close_file api engine path ≡ if_running engine (ok tt))

  calls-IsAnswered_in :
      (config : DiskConfig) (on : Bool) → IsAnswered (record { config = config; running = on })
  unfolding read_file write_file sync_file close_file submit perform perform_read perform_write
      perform_sync
  calls-IsAnswered_in config false = (refl, refl, refl, refl)
  calls-IsAnswered_in config true = (
    read-first_error (api.open_for_read path) (api.seek path offset) (api.read_at path offset 4096),
    write-first_error (api.open_or_create path) (api.seek path offset)
        (api.write_all path offset bytes),
    sync-first_error (api.open_for_read path) (api.sync_all path),
    refl,
  )

  -- While the worker runs, each call of the fallback engine returns the first error of the open,
  -- seek and read, write or sync that it stands for, or the bytes of the read and success for the
  -- others, with a read of 4096 bytes whatever the configuration; afterwards every call fails to
  -- send.
  pub calls-IsAnswered : (engine : DiskEngine) → IsAnswered engine
  calls-IsAnswered engine = calls-IsAnswered_in engine.config engine.running
