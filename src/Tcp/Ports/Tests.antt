-- ===== src/Tcp/Ports/Tests.antt =====
-- Ports on an empty table.
use lori_os.Prelude.{ℕ, ◌≡◌, refl, [], Bool, true, false, arith}
use lori_os.HashMap.{empty_map, insert}
use lori_os.HashMap.Entries.{empty_map-IsValid, get-insert, get-empty_map}
use lori_os.Tcp.{Socket, unknown}
use lori_os.Tcp.Ports.{
  same_id, hash_id, Table, Ports, allocate_port, id_of, SocketAddress, ephemeral_start, bind, panic,
  done,
}
use lori_os.Tcp.Ports.Allocate.{
  same_id-IsEquality, IsTable, Registered, Allocation, allocate_port-Allocation,
}
use lori_os.Tcp.Ports.Bind.{IsAddress, at_address, bind_taken, bind-Registered, bind_panics}

abbrev free_ports : Ports
free_ports = record { table = empty_map 2; next_ephemeral = ephemeral_start }

free_ports-IsTable : IsTable free_ports.table
free_ports-IsTable = empty_map-IsValid same_id hash_id same_id-IsEquality 2 (omega arith)

abbrev new_socket : Socket
new_socket = record {
  state = unknown;
  address = 0;
  peer_address = 0;
  port = 0;
  destination_port = 0;
  bound = false;
  sequence_number = 0;
  last_acknowledged = 0;
  remote_sequence_number = 0;
  unacknowledged = [];
  inbound = record { size = 512; pos = 0; buffer = [] };
  blocked = [];
  file_closed = false;
  handle_count = 1;
  woken = [];
  sent = [];
}

abbrev web : SocketAddress
web = record { is_inet = true; is_long = true; ip = 0; port = 80 }

abbrev adapters : ℕ → Bool
adapters ip = false

web-IsAddress : IsAddress adapters web
web-IsAddress = record {
  is_inet = refl;
  is_long = refl;
  known = refl;
  some_port = omega arith;
  not_last = omega arith;
}

allocate_port-Allocation_example :
    Allocation 7
      (id_of new_socket)
      free_ports.table
      (allocate_port 7 (id_of new_socket) free_ports).0
      (allocate_port 7 (id_of new_socket) free_ports).1.table
allocate_port-Allocation_example =
    allocate_port-Allocation 7 (id_of new_socket) free_ports free_ports-IsTable

bind-Registered_test :
    (u : Table) × (bind adapters 7 web new_socket free_ports
      ≡ done
          (record (at_address new_socket web) { bound = true })
          (record free_ports { table = u }))
    × Registered 7 (id_of (at_address new_socket web)) free_ports.table u
bind-Registered_test =
    bind-Registered adapters 7 web new_socket free_ports web-IsAddress refl free_ports-IsTable
      (get-empty_map same_id hash_id same_id-IsEquality 2 (id_of (at_address new_socket web)))

-- The port 80 belongs to socket 9.
abbrev taken_ports : Ports
taken_ports = record free_ports {
  table = insert same_id hash_id (id_of (at_address new_socket web)) 9 (empty_map 2);
}

bind_taken_example :
    bind adapters 7 web new_socket taken_ports
    ≡ done (record (at_address new_socket web) { bound = true }) taken_ports
bind_taken_example = bind_taken adapters 7 web new_socket taken_ports web-IsAddress refl 9 (
    get-insert same_id hash_id same_id-IsEquality (empty_map 2) free_ports-IsTable
      (id_of (at_address new_socket web)) 9 (id_of (at_address new_socket web)))

bind_panics_example : bind adapters 7 (record web { ip = 5 }) new_socket free_ports ≡ panic
bind_panics_example =
    bind_panics adapters 7 (record web { ip = 5 }) new_socket free_ports refl refl refl
