-- ===== src/Tcp/Ports.antt =====
-- The table of the ports in use in Kernel/src/Net/TCP.cpp, and `Bind`, with `IPSocket::Bind` of
-- Kernel/src/Net/IPSocket.cpp. A socket is its number in the table.
pub mod Allocate
pub mod Bind
mod Tests
use lori_os.Prelude.{
  ℕ, zero, suc, ◌+◌, ◌-◌, ◌^◌, List, [], ◌∷◌, Bool, true, false, not, ◌&&◌, ◌||◌, Option, none,
  some, ltb, ◌==◌, if◌then◌else◌,
}
use Prim.Native.Nat.{bit_xor}
use lori_os.HashMap.{HashMap, hash_u, get, find, insert, remove_value}
use lori_os.Tcp.{Socket}

-- `TCPConnectionIdentifier`
pub record ConnectionId : Type 0 where
  pub local_ip : ℕ
  pub remote_ip : ℕ
  pub local_port : ℕ
  pub remote_port : ℕ

abbrev pub same_id : ConnectionId → ConnectionId → Bool
same_id a b =
    a.remote_ip == b.remote_ip
    && (a.local_ip == b.local_ip
        && (a.remote_port == b.remote_port && a.local_port == b.local_port))

unfoldable pub hash_id : ConnectionId → ℕ
unfolding hash_u
hash_id id =
    bit_xor (bit_xor (bit_xor (hash_u id.remote_ip) (hash_u id.local_ip)) (hash_u id.remote_port))
      (hash_u id.local_port)

abbrev pub Table : Type 0
Table = HashMap ConnectionId ℕ

abbrev pub look_up : Table → ConnectionId → Option ℕ
look_up t id = get same_id hash_id t id

-- `INADDR_ANY`
abbrev pub any : ℕ
any = 0

abbrev pub or_else : Option ℕ → Option ℕ → Option ℕ
or_else (some s) o = some s
or_else none o = o

-- `FindSocket`: the connection, then a socket that listens on the port at the address, or at any.
pub find_socket : Table → ConnectionId → Option ℕ
find_socket t id =
    let listening = record id { remote_ip = any; remote_port = any } in
    or_else (look_up t id)
      (or_else (look_up t listening) (look_up t (record listening { local_ip = any })))

pub data PortError : Type 0 where
  einval eaddrinuse : PortError

abbrev pub port_max : ℕ
port_max = 65535

abbrev pub ephemeral_start : ℕ
ephemeral_start = 49152

abbrev pub ephemeral_end : ℕ
ephemeral_end = 65535

pub record Ports : Type 0 where
  pub table : Table
  pub next_ephemeral : ℕ

-- `AcquirePort`; a port of type `uint16_t` is never above `PORT_MAX`.
pub acquire_port : ℕ → ConnectionId → Table → Option PortError × Table
acquire_port sock id t =
    if id.local_port == 0 || ltb port_max id.local_port
    then (some einval, t)
    else if find same_id hash_id t id
    then (some eaddrinuse, t)
    else (none, insert same_id hash_id id sock t)

-- The connection of a socket with another port.
abbrev pub id_at : ConnectionId → ℕ → ConnectionId
id_at id port = record id { local_port = port }

-- The loop of `AllocatePort` over the ephemeral ports from `port` on, `left` of which come before the last.
pub search_port : ℕ → ℕ → ConnectionId → ℕ → Table → ℕ × Table
unfolding acquire_port
search_port zero sock id port t = (port, t)
search_port (suc left) sock id port t =
    let (e, u) = acquire_port sock (id_at id port) t in
    let rest = search_port left sock id (port + 1) u in
    elim e [ none ↦ (port, u) | some error ↦ rest ]

-- `AllocatePort`, 0 if it fails
pub allocate_port : ℕ → ConnectionId → Ports → ℕ × Ports
unfolding search_port acquire_port
allocate_port sock id p =
    let searched = search_port (ephemeral_end - ephemeral_start) sock id ephemeral_start p.table in
    let (e, u) = acquire_port sock (id_at id p.next_ephemeral) p.table in
    if ltb p.next_ephemeral port_max
    then (
      elim e [ none ↦ p.next_ephemeral | some error ↦ 0 ],
      record { table = u; next_ephemeral = p.next_ephemeral + 1 },
    )
    else (searched.0, record p { table = searched.1 })

-- `ReleasePort`
pub release_port : ℕ → Table → Table
release_port sock t = remove_value (λ (a : ℕ) (b : ℕ). a == b) sock t

abbrev pub id_of : Socket → ConnectionId
id_of s = record {
  local_ip = s.address;
  remote_ip = s.peer_address;
  local_port = s.port;
  remote_port = s.destination_port;
}

-- the address that `Bind` is given
pub record SocketAddress : Type 0 where
  pub is_inet : Bool
  pub is_long : Bool
  pub ip : ℕ
  pub port : ℕ

pub data BindError : Type 0 where
  invalid not_available : BindError
  not_acquired : PortError → BindError

-- A port of 0 asks for an ephemeral one.
pub chosen : ℕ → SocketAddress → Socket → Ports → ℕ × Ports
chosen sock addr s p = if addr.port == 0 then allocate_port sock (id_of s) p else (addr.port, p)

abbrev pub bind_error : Option PortError → Option BindError
bind_error none = none
bind_error (some e) = some (not_acquired e)

-- the end of `IPSocket::Bind`, at the chosen port
pub acquired : ℕ → Socket → ℕ × Ports → Option BindError × Socket × Ports
acquired sock s (port, q) =
    let t = record s { port = port } in
    let (e, table) = acquire_port sock (id_of t) q.table in
    (bind_error e, t, record q { table = table })

-- `IPSocket::Bind`; `has_adapter` tells which addresses `FindAdapter` knows.
pub ip_bind : (ℕ → Bool) → ℕ → SocketAddress → Socket → Ports → Option BindError × Socket × Ports
ip_bind has_adapter sock addr s p =
    let at = record s { address = addr.ip } in
    if not addr.is_inet
    then (some invalid, s, p)
    else if not addr.is_long
    then (some invalid, s, p)
    else if not (addr.ip == any) && not (has_adapter addr.ip)
    then (some not_available, s, p)
    else acquired sock at (chosen sock addr at p)

-- What `TCPSocket::Bind` comes to: `assert(port && port < PORT_MAX)` may fail.
pub data Bound : Type 0 where
  panic refused : Bound
  done : Socket → Ports → Bound

-- `TCPSocket::Bind`; an error of `IPSocket::Bind` is only returned if it is -2, which none of them is.
pub is_asserted : Option BindError × Socket × Ports → Bound
is_asserted (e, t, q) =
    if t.port == 0 || not (ltb t.port port_max) then panic else done (record t { bound = true }) q

pub bind : (ℕ → Bool) → ℕ → SocketAddress → Socket → Ports → Bound
unfolding is_asserted
bind has_adapter sock addr s p =
    if s.bound then refused else is_asserted (ip_bind has_adapter sock addr s p)
