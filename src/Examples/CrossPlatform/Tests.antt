-- ===== src/Examples/CrossPlatform/Tests.antt =====
-- The benchmarks of elgate-core/examples/cross_platform_benchmark.rs on a ring of three slots, one of
-- them taken, so that most of their notifications are dropped.
use elgate.Prelude.{
  map, ◌%◌, ◌-◌, ℕ, ◌+◌, ◌*◌, ◌≤◌, ◌<◌, ◌≡◌, refl, inl, true, false, List, [], ◌∷◌, ◌==◌,
  if◌then◌else◌, arith, length, take, drop, min, io_ok, ok,
}
use elgate.Ring.Samples.{uuid_bytes, quiet, handle, one_entry, first, one_entry-IsValid}
use elgate.Ring.Slot.{disk_read}
use elgate.Ring.Memory.{RingError}
use elgate.Notify.{notify}
use elgate.Notify.Unread.{IsUnread, kept, notify-IsUnread}
use elgate.Disk.IoUring.{DiskEngine}
use elgate.Net.IoUring.{NetworkEngine, State}
use elgate.Examples.TestFile.{create_test_file, length-create_test_file}
use elgate.Examples.Process.{Answers}
use elgate.Examples.Tells.{NobodyReads}
use elgate.Examples.Loops.{values, sum}
use elgate.Examples.CrossPlatform.{
  NetAnswers, ReadAnswers, WriteAnswers, RandomAnswers, chunk_size, step_count, read_iteration,
  write_iteration, random_iteration, run_network_throughput_benchmark,
}
use elgate.Examples.CrossPlatform.Network.{run_network-totals}
use elgate.Examples.CrossPlatform.Reads.{read_iteration-counts}
use elgate.Examples.CrossPlatform.Writes.{in_time, given_up, write_iteration-counts}
use elgate.Examples.CrossPlatform.Random.{given_in_all, random_iteration-counts}

abbrev test_network : NetworkEngine
test_network = record {
  config = record { queue_depth = 32; buffer_size = 64 * 1024 };
  ring_buffer = handle;
  to_string = λ addr. addr ∷ [];
}

abbrev test_storage : DiskEngine
test_storage = record {
  config = record { queue_depth = 128; buffer_size = 128 * 1024 };
  ring_buffer = handle;
  to_string_lossy = λ path. path ∷ [];
}

abbrev echo : List ℕ
echo = 1 ∷ 2 ∷ []

-- Sockets that echo two bytes, beside a file.
abbrev meets : List ℕ → Answers
meets file = record {
  world = quiet;
  sockets = record {
    accept_on = λ fd. io_ok (9, 90);
    connect_to = λ addr. io_ok 8;
    read_from = λ fd size. io_ok echo;
    write_to = λ fd bytes. io_ok 2;
  };
  files = record {
    open_for_read = λ path. io_ok tt;
    open_for_write = λ path. io_ok tt;
    open_or_create = λ path. io_ok tt;
    seek = λ path offset. io_ok tt;
    read_at = λ path offset size. io_ok (take size (drop offset file));
    write_at = λ path offset bytes. io_ok 7;
    write_all = λ path offset bytes. io_ok tt;
    sync_all = λ path. io_ok tt;
  };
}

abbrev idle : State
idle = record { connections = []; fds = 3 ∷ []; ring = one_entry }

one-IsUnread : IsUnread handle (first ∷ []) one_entry
one-IsUnread = record { place = 0; valid = one_entry-IsValid; stands = inl refl }

nobody_reads : NobodyReads handle idle.ring
nobody_reads = (first ∷ [], one-IsUnread)

notify-IsUnread_example :
    ((notify {E = RingError} handle quiet disk_read (6 ∷ []) one_entry).0 ≡ ok tt)
    × IsUnread handle
        (kept handle 3 disk_read (6 ∷ []) (first ∷ []))
        (notify {E = RingError} handle quiet disk_read (6 ∷ []) one_entry).1
    × ((notify {E = RingError} handle quiet disk_read (6 ∷ []) one_entry).1.header.slot_count ≡ 3)
notify-IsUnread_example =
    notify-IsUnread {E = RingError} handle quiet disk_read (6 ∷ []) (first ∷ []) one_entry
      (λ ms other. refl) one-IsUnread

abbrev net_answers : NetAnswers
net_answers = record {
  bound = io_ok tt;
  local_addr = io_ok 70;
  connecting = meets [];
  writing = λ k. meets [];
  reading = λ k. meets [];
  closing = meets [];
}

run_network-totals_example :
    let totals : ℕ → ℕ × ℕ = λ i. (sum (λ k. 2) 0 80, sum (λ k. length echo) 0 80) in
    let (r, s') = run_network_throughput_benchmark test_network (λ i. net_answers) 2 idle in
    (r ≡ ok (values totals 0 2)) × (s'.connections ≡ []) × NobodyReads handle s'.ring
run_network-totals_example =
    run_network-totals test_network (λ i. net_answers) (λ i k. 2) (λ i k. echo) 2 idle
      (λ i. record {
        addr = 70;
        fd = 8;
        listens = refl;
        named = refl;
        connected = refl;
        takes = λ k. refl;
        gives = λ k. refl;
      })
      (λ i. record {
        connecting = λ ms other. refl;
        writing = λ k ms other. refl;
        reading = λ k ms other. refl;
        closing = λ ms other. refl;
      })
      refl nobody_reads

-- A file of three chunks, whose first read is late.
abbrev file : List ℕ
file = create_test_file 300_000

abbrev read_answers : ReadAnswers
read_answers = record {
  metadata = io_ok (length file);
  whole = meets file;
  whole_late = true;
  chunk = λ k. meets file;
  chunk_late = λ k. false;
}

read_iteration-counts_example :
    let (r, s') = read_iteration test_storage read_answers 1 idle in
    (r ≡ ok (if true then length file else min chunk_size (length file)))
    × NobodyReads handle s'.ring
read_iteration-counts_example =
    read_iteration-counts test_storage read_answers 1 file (λ k. refl)
      (λ k. record { alone = λ ms other. refl; opened = refl; given = refl }) refl idle refl
      (omega (arith, length-create_test_file 300_000))
      (record { alone = λ ms other. refl; opened = refl; given = refl }) nobody_reads

-- Of three writes the second is late.
abbrev write_answers : WriteAnswers
write_answers = record {
  metadata = io_ok 300_000;
  chunk = λ k. meets [];
  chunk_late = λ k. k == 1;
  syncing = meets [];
  sync_late = false;
}

write_iteration-counts_example :
    let n = step_count 300_000 chunk_size in
    let (r, s') = write_iteration test_storage write_answers 2 idle in
    (r ≡ ok (sum (in_time write_answers) 0 n))
    × (300_000 ≤ sum (in_time write_answers) 0 n + sum (given_up write_answers) 0 n)
    × (sum (in_time write_answers) 0 n + sum (given_up write_answers) 0 n < 300_000 + chunk_size)
    × NobodyReads handle s'.ring
write_iteration-counts_example =
    write_iteration-counts test_storage write_answers 2 (λ k. 7)
      (record {
        alone = λ k ms other. refl;
        opened = λ k. refl;
        takes = λ k. refl;
        sync_alone = λ ms other. refl;
        sync_opened = refl;
        synced = refl;
      })
      300_000 idle refl (omega arith) nobody_reads

write_iteration_counts_two : sum (in_time write_answers) 0 (step_count 300_000 chunk_size) ≡ 262_144
write_iteration_counts_two = refl

abbrev no_bytes : List ℕ
no_bytes = []

abbrev random_answers : RandomAnswers
random_answers = record {
  metadata = io_ok 100_000;
  draws = 77 ∷ 500_000 ∷ [];
  read = λ k. meets file;
  unfinished = λ k. k == 1;
  late = false;
}

random_iteration-counts_example :
    let a = record random_answers { metadata = io_ok 300_000 } in
    let offsets = map (λ r. r % (300_000 - chunk_size)) a.draws in
    let (r, s') = random_iteration test_storage a 1 idle in
    (r ≡ ok (if a.late then 0 else given_in_all a 1 (128 * 1024) 0 offsets))
    × NobodyReads handle s'.ring
random_iteration-counts_example =
    random_iteration-counts test_storage 1 (record random_answers { metadata = io_ok 300_000 })
      300_000 idle refl (omega arith) (λ k ms other. refl) nobody_reads
