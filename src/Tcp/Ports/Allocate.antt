-- ===== src/Tcp/Ports/Allocate.antt =====
-- `AcquirePort` and `AllocatePort` of Kernel/src/Net/TCP.cpp.
use lori_os.Prelude.{
  ltb→lt, ℕ, zero, suc, ◌+◌, ◌-◌, ◌≤◌, ◌<◌, ◌≡◌, refl, sym, subst, ◌∙◌, ◌⊎◌, inl, inr, Bool-cases,
  false, ◌||◌, Option, none, some, arith, ltb, ◌==◌,
}
use lori_os.HashMap.{find, insert, is_value}
use lori_os.HashMap.Bucket.{IsEquality}
use lori_os.HashMap.Entries.{IsValid, get-insert, insert-IsValid}
use lori_os.Tcp.Ports.{
  ConnectionId, same_id, hash_id, Table, look_up, PortError, port_max, ephemeral_start,
  ephemeral_end, Ports, acquire_port, id_at, search_port, allocate_port,
}

id_eq :
    (a b : ConnectionId)
    → a.remote_ip ≡ b.remote_ip
    → a.local_ip ≡ b.local_ip
    → a.remote_port ≡ b.remote_port
    → a.local_port ≡ b.local_port
    → a ≡ b
id_eq a b p q r s =
    λ i. record { local_ip = q i; remote_ip = p i; local_port = s i; remote_port = r i }

pub same_id-IsEquality : IsEquality same_id
same_id-IsEquality = record {
  itself = λ a. ground arith;
  equal = λ a b e. id_eq a b (ground arith) (ground arith) (ground arith) (ground arith);
}

-- A table whose buckets are in order.
abbrev pub IsTable : Table → Type 0
IsTable t = IsValid same_id hash_id same_id-IsEquality t

-- The port of `id` was free and now belongs to `sock`; no other connection changed.
pub record Registered (sock : ℕ) (id : ConnectionId) (t u : Table) : Type 0 where
  pub was_free : look_up t id ≡ none
  pub is_owner : look_up u id ≡ some sock
  pub others : (j : ConnectionId) → same_id id j ≡ false → look_up u j ≡ look_up t j
  pub is_table : IsTable u

-- What `AcquirePort` promises, whatever it returns.
pub Acquires : ℕ → ConnectionId → Table → Option PortError × Table → Type 0
Acquires sock id t (none, u) = Registered sock id t u
Acquires sock id t (some e, u) = u ≡ t

is_none : (o : Option ℕ) → is_value o ≡ false → o ≡ none
is_none none h = refl
is_none (some x) h = absurd (cc)

pub insert-Registered :
    (sock : ℕ) (id : ConnectionId) (t : Table)
    → IsTable t
    → look_up t id ≡ none
    → Registered sock id t (insert same_id hash_id id sock t)
insert-Registered sock id t v free =
    let eq = same_id-IsEquality in
    let law = get-insert same_id hash_id eq t v id sock in
    record {
      was_free = free;
      is_owner = law id ∙ (let e = eq.itself id in ground arith);
      others = λ j e. law j ∙ ground arith;
      is_table = insert-IsValid same_id hash_id eq t v id sock;
    }

pub acquire_port-Acquires :
    (sock : ℕ) (id : ConnectionId) (t : Table)
    → IsTable t
    → Acquires sock id t (acquire_port sock id t)
unfolding acquire_port Acquires find
acquire_port-Acquires sock id t v =
    elim (Bool-cases (id.local_port == 0 || ltb port_max id.local_port)) [
      | inl e ↦ rw e refl
      | inr e ↦ elim (Bool-cases (is_value (look_up t id))) [
        | inl f ↦ rw e (rw f refl)
        | inr f ↦ rw e (rw f (insert-Registered sock id t v (is_none (look_up t id) f)))
      ]
    ]

-- What the search over ephemeral ports comes to: no port was free, and the table is as it was, or the
-- first free port is registered.
abbrev pub Searched : ℕ → ConnectionId → ℕ → ℕ → Table → ℕ × Table → Type 0
Searched sock id start end t r =
    ((r.0 ≡ end) × (r.1 ≡ t)) ⊎ ((start ≤ r.0) × (r.0 < end) × Registered sock (id_at id r.0) t r.1)

later :
    (sock : ℕ) (id : ConnectionId) (start end : ℕ) (t : Table) (r : ℕ × Table)
    → Searched sock id (start + 1) end t r
    → Searched sock id start end t r
later sock id start end t r (inl e) = inl e
later sock id start end t r (inr (l, h, reg)) = inr (omega arith, h, reg)

pub search_port-Searched :
    (left sock : ℕ) (id : ConnectionId) (start end : ℕ) (t : Table)
    → IsTable t
    → start + left ≡ end
    → Searched sock id start end t (search_port left sock id start t)
unfolding search_port Acquires
search_port-Searched zero sock id start end t v e = inl (omega arith, refl)
search_port-Searched (suc left) sock id start end t v e =
    try (acquire_port sock (id_at id start) t) (acquire_port-Acquires sock (id_at id start) t v) (
      later sock id start end t _
        (search_port-Searched left sock id (start + 1) end t v (omega arith)))
  where
    try :
        (r : Option PortError × Table)
        → Acquires sock (id_at id start) t r
        → Searched sock id start end t (search_port left sock id (start + 1) t)
        → Searched sock id start end t (elim r.0 [
          | none ↦ (start, r.1)
          | some error ↦ search_port left sock id (start + 1) r.1
        ])
    try (none, u) reg rest = inr (omega arith, omega arith, reg)
    try (some e, u) same rest =
        subst (λ w. Searched sock id start end t (search_port left sock id (start + 1) w))
          (sym same) rest

-- What `AllocatePort` comes to: it fails, or it returns the last port of the range, each with the table as
-- it was, or it returns a port that was free and that now belongs to the socket.
pub data Allocation (sock : ℕ) (id : ConnectionId) (t : Table) (port : ℕ) (u : Table) : Type 0 where
  fails : port ≡ 0 → u ≡ t → Allocation sock id t port u
  not_registered : port ≡ ephemeral_end → u ≡ t → Allocation sock id t port u
  registers :
      port < ephemeral_end → Registered sock (id_at id port) t u → Allocation sock id t port u

from_search :
    (sock : ℕ) (id : ConnectionId) (t : Table) (r : ℕ × Table)
    → Searched sock id ephemeral_start ephemeral_end t r
    → Allocation sock id t r.0 r.1
from_search sock id t r (inl (e, f)) = not_registered e f
from_search sock id t r (inr (l, h, reg)) = registers h reg

from_next :
    (sock : ℕ) (id : ConnectionId) (t : Table) (next : ℕ) (r : Option PortError × Table)
    → next < port_max
    → Acquires sock (id_at id next) t r
    → Allocation sock id t (elim r.0 [ none ↦ next | some error ↦ 0 ]) r.1
unfolding Acquires
from_next sock id t next (none, u) small reg = registers small reg
from_next sock id t next (some e, u) small same = fails refl same

-- `AllocatePort` returns 0 and leaves the table; or it returns 65535, which then is not registered; or it
-- returns a lower port that was free, is registered for the socket, and disturbs no other connection.
pub allocate_port-Allocation :
    (sock : ℕ) (id : ConnectionId) (p : Ports)
    → IsTable p.table
    → let (port, q) = allocate_port sock id p in Allocation sock id p.table port q.table
unfolding allocate_port
allocate_port-Allocation sock id p v = elim (Bool-cases (ltb p.next_ephemeral port_max)) [
  | inl e ↦ rw e (
      from_next sock id p.table p.next_ephemeral _ (ltb→lt p.next_ephemeral port_max e)
        (acquire_port-Acquires sock (id_at id p.next_ephemeral) p.table v))
  | inr e ↦ rw e (
      from_search sock id p.table _ (
        search_port-Searched (ephemeral_end - ephemeral_start) sock id ephemeral_start ephemeral_end
          p.table v (omega arith)))
]
