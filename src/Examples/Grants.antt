-- ===== src/Examples/Grants.antt =====
-- The calls that the measuring programs of elgate-core/examples make on a ring that nobody reads, where
-- the system grants them.
use elgate.Prelude.{ℕ, ◌≡◌, refl, List, [], io_ok, ok}
use elgate.Ring.Slot.{UuidApi}
use elgate.Ring.Buffer.{RingBuffer}
use elgate.Ring.Buffer.Full.{IsAlone}
use elgate.Disk.IoUring.{DiskEngine}
use elgate.Net.Sockets.{Addr}
use elgate.Net.IoUring.{NetworkEngine, State}
use elgate.Examples.Process.{
  tokio_uring, Answers, disk_read_call, disk_write_call, disk_sync_call, net_send_call,
  net_receive_call,
}
use elgate.Examples.Tells.{NobodyReads, NobodyReads-Tells}
use elgate.Examples.Calls.{
  IsLinked, read_file_lem, write_file_lem, sync_file_lem, write_lem, read_lem,
}

-- No stream, and a ring that nobody reads.
abbrev pub IsIdle : RingBuffer → State → Type 0
IsIdle rb s = (s.connections ≡ []) × NobodyReads rb s.ring

-- The system grants a read of the path at any offset, and nobody touches the ring meanwhile.
pub record GrantsRead (buffer_size path : ℕ) (c : Answers) : Type 0 where
  pub alone : IsAlone c.world
  pub opened : c.files.open_for_read path ≡ io_ok tt
  pub bytes : ℕ → List ℕ
  pub given : (offset : ℕ) → c.files.read_at path offset buffer_size ≡ io_ok (bytes offset)

-- The system grants a write of the path at any offset, of as many bytes as it likes, and nobody
-- touches the ring meanwhile.
pub record GrantsWrite (path : ℕ) (bytes : List ℕ) (c : Answers) : Type 0 where
  pub alone : IsAlone c.world
  pub opened : c.files.open_or_create path ≡ io_ok tt
  pub taken : ℕ → ℕ
  pub takes : (offset : ℕ) → c.files.write_at path offset bytes ≡ io_ok (taken offset)

pub record GrantsSync (path : ℕ) (c : Answers) : Type 0 where
  pub alone : IsAlone c.world
  pub opened : c.files.open_for_write path ≡ io_ok tt
  pub synced : c.files.sync_all path ≡ io_ok tt

-- The system grants a write to a socket and a read of it, of any numbers of bytes, and nobody
-- touches the ring meanwhile.
pub record GrantsRoundtrip (buffer_size fd : ℕ) (bytes : List ℕ) (w r : Answers) : Type 0 where
  pub write_alone : IsAlone w.world
  pub taken : ℕ
  pub takes : w.sockets.write_to fd bytes ≡ io_ok taken
  pub read_alone : IsAlone r.world
  pub response : List ℕ
  pub gives : r.sockets.read_from fd buffer_size ≡ io_ok response

module _ ⦃uuid : UuidApi⦄ (engine : DiskEngine) (path : ℕ) where
  pub read_granted :
      (c : Answers) (offset : ℕ) (s : State)
      → (g : GrantsRead engine.config.buffer_size path c) → IsIdle engine.ring_buffer s
      → (s' : State) × (disk_read_call tokio_uring engine c path offset s
          ≡ (ok (g.bytes offset), s'))
        × IsIdle engine.ring_buffer s'
  read_granted c offset s g (none_yet, h) =
      let (m, done, after) =
        read_file_lem engine c (NobodyReads-Tells engine.ring_buffer _ g.alone) s h path offset
          (g.bytes offset) g.opened (g.given offset) in
      (record s { ring = m }, done, (none_yet, after))

  pub write_granted :
      (c : Answers) (offset : ℕ) (bytes : List ℕ) (s : State)
      → GrantsWrite path bytes c
      → IsIdle engine.ring_buffer s
      → (s' : State) × (disk_write_call tokio_uring engine c path offset bytes s ≡ (ok tt, s'))
        × IsIdle engine.ring_buffer s'
  write_granted c offset bytes s g (none_yet, h) =
      let (m, done, after) =
        write_file_lem engine c (NobodyReads-Tells engine.ring_buffer _ g.alone) s h path offset
          (g.taken offset) bytes g.opened (g.takes offset) in
      (record s { ring = m }, done, (none_yet, after))

  pub sync_granted :
      (c : Answers) (s : State)
      → GrantsSync path c
      → IsIdle engine.ring_buffer s
      → (s' : State) × (disk_sync_call tokio_uring engine c path s ≡ (ok tt, s'))
        × IsIdle engine.ring_buffer s'
  sync_granted c s g (none_yet, h) =
      let (m, done, after) =
        sync_file_lem engine c (NobodyReads-Tells engine.ring_buffer _ g.alone) s h path g.opened
          g.synced in
      (record s { ring = m }, done, (none_yet, after))

module _ ⦃uuid : UuidApi⦄ (engine : NetworkEngine) where
  -- The engine's only stream is that of an address.
  abbrev pub IsConnected : Addr → ℕ → State → Type 0
  IsConnected = IsLinked (NobodyReads engine.ring_buffer)

  module _ (addr : Addr) (fd : ℕ) (bytes : List ℕ) (w r : Answers) (s : State)
      (g : GrantsRoundtrip engine.config.buffer_size fd bytes w r)
      (linked : IsConnected addr fd s) where
    pub roundtrip_granted :
        (s1 s2 : State) × (net_send_call tokio_uring engine w fd bytes s ≡ (ok g.taken, s1))
        × (net_receive_call tokio_uring engine r fd s1 ≡ (ok g.response, s2))
        × IsConnected addr fd s2
    roundtrip_granted =
        let rb = engine.ring_buffer in
        let (s1, wrote, linked1) =
          write_lem engine w (NobodyReads-Tells rb _ g.write_alone) s addr fd linked bytes g.taken
            g.takes in
        let (s2, got, linked2) =
          read_lem engine r (NobodyReads-Tells rb _ g.read_alone) s1 addr fd linked1 g.response
            g.gives in
        (s1, s2, wrote, rw got refl, linked2)
