-- ===== src/Disk/Tests.antt =====
-- The engines for files on concrete answers.
use elgate.Prelude.{true, List, [], ◌∷◌, arith, io_ok, io_err, io_error}
use elgate.Ring.Buffer.{World}
use elgate.Ring.Buffer.Valid.{IsValid}
use elgate.Ring.Samples.{uuid_bytes, quiet, handle, one_entry, first, one_entry-IsValid}
use elgate.Disk.Files.{FileApi}
use elgate.Disk.Fallback
use elgate.Disk.Fallback.Calls.{IsAnswered, calls-IsAnswered}
use elgate.Disk.IoUring
use elgate.Disk.IoUring.{State}
use elgate.Disk.IoUring.Notifications.{FileOp, reads, writes, run, heard_all, run-IsValid}

-- A file that reads as three bytes, on a disk that takes one byte at a time.
abbrev slow_disk : FileApi
slow_disk = record {
  open_for_read = λ path. io_ok tt;
  open_for_write = λ path. io_ok tt;
  open_or_create = λ path. io_ok tt;
  seek = λ path offset. io_ok tt;
  read_at = λ path offset size. io_ok (1 ∷ 2 ∷ 3 ∷ []);
  write_at = λ path offset bytes. io_ok 1;
  write_all = λ path offset bytes. io_ok tt;
  sync_all = λ path. io_err (io_error 5);
}

abbrev worker : Fallback.DiskEngine
worker = record { config = Fallback.default_config; running = true }

calls-IsAnswered_example : IsAnswered slow_disk 40 0 (7 ∷ 8 ∷ []) worker
calls-IsAnswered_example = calls-IsAnswered slow_disk 40 0 (7 ∷ 8 ∷ []) worker

abbrev engine : IoUring.DiskEngine
engine = record {
  config = IoUring.default_config;
  ring_buffer = handle;
  to_string_lossy = λ path. path ∷ [];
}

abbrev with_entry : State
with_entry = record { file_handles = []; ring = one_entry }

abbrev read_then_write : List ((World × FileApi) × FileOp)
read_then_write =
    ((quiet, slow_disk), reads 40 0) ∷ ((quiet, slow_disk), writes 40 0 (7 ∷ 8 ∷ [])) ∷ []

run-IsValid_example :
    IsValid handle
      (heard_all engine read_then_write with_entry (first ∷ []))
      (run engine read_then_write with_entry).ring
run-IsValid_example =
    run-IsValid engine read_then_write (first ∷ []) with_entry one_entry-IsValid (omega arith)
