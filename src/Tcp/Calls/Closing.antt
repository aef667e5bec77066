-- ===== src/Tcp/Calls/Closing.antt =====
-- `Close` of Kernel/src/Net/TCP.cpp for a socket without a connection.
use lori_os.Prelude.{
  ◌⊎◌, ◌∙◌, inl, inr, ℕ, sub32, ◌≡◌, refl, ap, sym, subst, Bool, true, false, some, leb,
  if◌then◌else◌,
}
use lori_os.Kmalloc.{Kmalloc}
use lori_os.Tcp.{State, unknown, listen, Socket}
use lori_os.Tcp.Receive.{Arrival, ignores, on_receive}
use lori_os.Tcp.Receive.Plain.{idle, on_receive_ignored}
use lori_os.Tcp.Calls.{close, closes}

-- A closed socket that no list has and that every segment passes by.
pub record Leaked (s : Socket) (r : Socket × Bool) : Type 0 where
  pub closed : r.0.file_closed ≡ true
  pub port : r.0.port ≡ s.port
  pub listed : r.1 ≡ false
  pub ignored : (k : Kmalloc) (a : Arrival) → on_receive k a r.0 ≡ some (false, r.0)

closes_idle : (s : Socket) (st : State) → (st ≡ unknown) ⊎ (st ≡ listen) → closes st s ≡ (s, false)
unfolding closes
closes_idle s st (inl e) = ap (λ u. closes u s) e
closes_idle s st (inr e) = ap (λ u. closes u s) e

last_handle : (n : ℕ) → n ≡ 1 → leb (sub32 n 1) 0 ≡ true
last_handle n h = ap (λ m. leb (sub32 m 1) 0) h

-- The last `Close`, with one handle left, of a socket that listens, or has no connection, only marks it: it
-- is not put on the list of closed sockets, it keeps its port, and no segment ever deletes it, which would release the port.
pub close-Leaked : (s : Socket) → s.handle_count ≡ 1 → ignores s.state ≡ true → Leaked s (close s)
unfolding close
close-Leaked s last h =
    let t = record s { handle_count = sub32 s.handle_count 1; file_closed = true } in
    let idles : close s ≡ (t, false) =
      ap
        (λ b.
          if b
          then closes s.state t
          else (record s { handle_count = sub32 s.handle_count 1 }, false))
        (last_handle s.handle_count last)
      ∙ closes_idle t s.state (idle s.state h) in
    subst (Leaked s) (sym idles) record {
      closed = refl;
      port = refl;
      listed = refl;
      ignored = λ k a. on_receive_ignored k a t h;
    }
