-- ===== src/Tcp/Ports/Bind.antt =====
-- `TCPSocket::Bind` of Kernel/src/Net/TCP.cpp.
use lori_os.Prelude.{
  lt→ltb, ℕ, ◌<◌, ◌≡◌, ◌≢◌, ap, ◌∙◌, Bool, true, false, not, ◌&&◌, ◌||◌, Option, none, some, arith,
  ltb, ◌==◌, if◌then◌else◌,
}
use lori_os.HashMap.{find, insert, is_value}
use lori_os.Tcp.{Socket}
use lori_os.Tcp.Ports.{
  ConnectionId, same_id, hash_id, look_up, Table, PortError, eaddrinuse, port_max, any, Ports,
  acquire_port, id_of, SocketAddress, ip_bind, panic, done, bind, chosen, acquired, is_asserted,
}
use lori_os.Tcp.Ports.Allocate.{IsTable, Registered, insert-Registered}

-- An address that `IPSocket::Bind` takes, with a port of its own.
pub record IsAddress (has_adapter : ℕ → Bool) (addr : SocketAddress) : Type 0 where
  pub is_inet : addr.is_inet ≡ true
  pub is_long : addr.is_long ≡ true
  pub known : (not (addr.ip == any) && not (has_adapter addr.ip)) ≡ false
  pub some_port : addr.port ≢ 0
  pub not_last : addr.port < port_max

-- The socket at the address.
abbrev pub at_address : Socket → SocketAddress → Socket
at_address s addr = record s { address = addr.ip; port = addr.port }

acquire_taken :
    (sock : ℕ) (id : ConnectionId) (t : Table) (owner : ℕ)
    → id.local_port ≢ 0
    → id.local_port < port_max
    → look_up t id ≡ some owner
    → acquire_port sock id t ≡ (some eaddrinuse, t)
unfolding acquire_port find
acquire_taken sock id t owner nz small taken =
    let there : is_value (look_up t id) ≡ true = ap is_value taken in ground arith

acquire_free :
    (sock : ℕ) (id : ConnectionId) (t : Table)
    → id.local_port ≢ 0
    → id.local_port < port_max
    → look_up t id ≡ none
    → acquire_port sock id t ≡ (none, insert same_id hash_id id sock t)
unfolding acquire_port find
acquire_free sock id t nz small free =
    let there : is_value (look_up t id) ≡ false = ap is_value free in ground arith

-- The steps of `Bind` for such an address.
bind_ip :
    (has_adapter : ℕ → Bool) (sock : ℕ) (addr : SocketAddress) (s : Socket) (p : Ports)
    → IsAddress has_adapter addr
    → s.bound ≡ false
    → bind has_adapter sock addr s p
      ≡ is_asserted (
          acquired sock
            (record s { address = addr.ip })
            (chosen sock addr (record s { address = addr.ip }) p))
unfolding bind ip_bind
bind_ip has_adapter sock addr s p h new =
    let a = h.is_inet in let b = h.is_long in let c = h.known in ground arith

chosen_own :
    (has_adapter : ℕ → Bool) (sock : ℕ) (addr : SocketAddress) (s : Socket) (p : Ports)
    → IsAddress has_adapter addr
    → chosen sock addr (record s { address = addr.ip }) p ≡ (addr.port, p)
unfolding chosen
chosen_own has_adapter sock addr s p h = let d = h.some_port in ground arith

asserted_at :
    (sock : ℕ) (addr : SocketAddress) (s : Socket) (p : Ports) (e : Option PortError) (u : Table)
    → addr.port ≢ 0
    → addr.port < port_max
    → acquire_port sock (id_of (at_address s addr)) p.table ≡ (e, u)
    → is_asserted (acquired sock (record s { address = addr.ip }) (addr.port, p))
      ≡ done (record (at_address s addr) { bound = true }) (record p { table = u })
unfolding is_asserted acquired
asserted_at sock addr s p e u nz small is =
    passes (addr.port == 0) (ltb addr.port port_max) (ground arith)
      (lt→ltb addr.port port_max small)
      (ap (λ (r : Option PortError × Table). record p { table = r.1 }) is)
  where
    passes :
        {q q' : Ports} (b c : Bool)
        → b ≡ false
        → c ≡ true
        → q ≡ q'
        → (if b || not c then panic else done (record (at_address s addr) { bound = true }) q)
          ≡ done (record (at_address s addr) { bound = true }) q'
    passes {q} {q'} b c f g e =
        rw f (rw g (ap (done (record (at_address s addr) { bound = true })) e))

module _ (has_adapter : ℕ → Bool) (sock : ℕ) (addr : SocketAddress) (s : Socket) (p : Ports)
    (h : IsAddress has_adapter addr) (new : s.bound ≡ false) where
  -- Whatever `AcquirePort` returns, `Bind` succeeds with the table that it leaves.
  bind_with :
      (e : Option PortError) (u : Table)
      → acquire_port sock (id_of (at_address s addr)) p.table ≡ (e, u)
      → bind has_adapter sock addr s p
        ≡ done (record (at_address s addr) { bound = true }) (record p { table = u })
  bind_with e u is =
      bind_ip has_adapter sock addr s p h new
      ∙ ap (λ (r : ℕ × Ports). is_asserted (acquired sock (record s { address = addr.ip }) r))
          (chosen_own has_adapter sock addr s p h)
      ∙ asserted_at sock addr s p e u h.some_port h.not_last is

  -- A port that belongs to another socket is bound all the same: `Bind` returns 0 and marks the socket
  -- bound, while the table still has the other socket at the port.
  pub bind_taken :
      (owner : ℕ)
      → look_up p.table (id_of (at_address s addr)) ≡ some owner
      → bind has_adapter sock addr s p ≡ done (record (at_address s addr) { bound = true }) p
  bind_taken owner taken =
      bind_with (some eaddrinuse) p.table
        (acquire_taken sock (id_of (at_address s addr)) p.table owner h.some_port h.not_last taken)

  -- A port that is free is bound and registered for the socket; no other connection changes.
  pub bind-Registered :
      IsTable p.table
      → look_up p.table (id_of (at_address s addr)) ≡ none
      → (u : Table) × (bind has_adapter sock addr s p
          ≡ done (record (at_address s addr) { bound = true }) (record p { table = u }))
        × Registered sock (id_of (at_address s addr)) p.table u
  bind-Registered v free =
      let id = id_of (at_address s addr) in
      let u = insert same_id hash_id id sock p.table in
      (
        u,
        bind_with none u (acquire_free sock id p.table h.some_port h.not_last free),
        insert-Registered sock id p.table v free,
      )

-- To bind a socket without a port to an address that `IPSocket::Bind` refuses fails the assertion behind it,
-- and the kernel panics: an address of another family, one that is too short, or one that is not INADDR_ANY
-- and that no adapter has.
pub bind_panics :
    (has_adapter : ℕ → Bool) (sock : ℕ) (addr : SocketAddress) (s : Socket) (p : Ports)
    → s.bound ≡ false
    → s.port ≡ 0
    → (addr.is_inet && addr.is_long && (addr.ip == any || has_adapter addr.ip)) ≡ false
    → bind has_adapter sock addr s p ≡ panic
unfolding bind ip_bind is_asserted
bind_panics has_adapter sock addr s p new no_port bad = ground arith
