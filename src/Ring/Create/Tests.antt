-- ===== src/Ring/Create/Tests.antt =====
-- A ring for a node of a machine with two nodes.
use elgate.Prelude.{refl, ◌≡◌, true, [], ◌∷◌, none, arith}
use elgate.Arch.CpuInfo.{CpuInfo, numa_node}
use elgate.Ring.Buffer.{RingBufferOptions}
use elgate.Ring.Samples.{uuid_bytes}
use elgate.Ring.Create.{FileIo, create}
use elgate.Ring.Create.Numa.{create_numa_aware, at_node, create_numa_aware-at_node}

abbrev two_nodes : CpuInfo
two_nodes = record {
  logical_cores = 2;
  physical_cores = none;
  numa_nodes = numa_node 0 (0 ∷ []) ∷ numa_node 1 (1 ∷ []) ∷ [];
  numa_available = true;
}

abbrev file_ok : FileIo
file_ok = record { opened = true; resized = true; mapped = true }

abbrev small_options : RingBufferOptions
small_options = record { path = "/dev/shm/ring"; size = 580; slot_size = 128 }

create_numa_aware-at_node_example :
    create_numa_aware two_nodes file_ok small_options 1 900
    ≡ at_node 1 (create file_ok small_options 900)
create_numa_aware-at_node_example =
    create_numa_aware-at_node two_nodes file_ok small_options 1 900 refl (omega arith) (omega arith)
