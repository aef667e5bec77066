-- ===== src/Tcp/Receive/Edges.antt =====
-- The states that `TCPSocket::OnReceive` of Kernel/src/Net/TCP.cpp goes through.
use lori_os.Prelude.{
  ℕ, ◌≡◌, refl, ap, sym, ◌∙◌, Bool, true, false, not, ◌&&◌, ◌||◌, Option, some, ◌==◌, some_eq,
}
use mathlib.Core.Option
use lori_os.Kmalloc.{Kmalloc}
use lori_os.Tcp.{
  State, unknown, listen, syn, syn_ack, established, fin_wait_1, fin_wait_2, close_wait, last_ack,
  time_wait, Header, Socket, acknowledge,
}
use lori_os.Tcp.Receive.{Arrival, After, ignores}

-- The edges of the state diagram of RFC 793 (Figure 6) for a segment that arrives, with their conditions:
-- the SYN or FIN of `s` is acknowledged where the segment acknowledges the number that `s` is at, and a FIN
-- counts in ESTABLISHED where the segment has the number that is expected.
abbrev pub rfc_moves : Header → Socket → State → State → Bool
rfc_moves h s syn established = h.syn_flag && h.ack && h.ack_number == s.sequence_number
rfc_moves h s syn_ack established = h.ack && h.ack_number == s.sequence_number
rfc_moves h s established close_wait = h.fin && h.sequence == s.remote_sequence_number
rfc_moves h s fin_wait_1 fin_wait_2 = h.ack && h.ack_number == s.sequence_number
rfc_moves h s fin_wait_2 time_wait = h.fin
rfc_moves h s last_ack unknown = h.ack && h.ack_number == s.sequence_number
rfc_moves h s st t = false

-- Where the code departs from it. No acknowledgement number is compared in SYN-RECEIVED and FIN-WAIT-1; a
-- FIN with ACK in FIN-WAIT-1 ends in TIME-WAIT whatever it acknowledges; a FIN alone leads to LAST-ACK, in
-- place of CLOSING; and any segment ends CLOSE-WAIT, TIME-WAIT and LAST-ACK.
abbrev pub departs : Header → State → State → Bool
departs h syn_ack established = h.ack
departs h fin_wait_1 time_wait = h.fin && h.ack && not h.syn_flag
departs h fin_wait_1 fin_wait_2 = h.ack && not h.fin && not h.syn_flag
departs h fin_wait_1 last_ack = h.fin && not h.ack && not h.syn_flag
departs h close_wait unknown = true
departs h time_wait unknown = true
departs h last_ack unknown = true
departs h st t = false

abbrev pub same_state : State → State → Bool
same_state unknown unknown = true
same_state listen listen = true
same_state syn syn = true
same_state syn_ack syn_ack = true
same_state established established = true
same_state fin_wait_1 fin_wait_1 = true
same_state fin_wait_2 fin_wait_2 = true
same_state close_wait close_wait = true
same_state last_ack last_ack = true
same_state time_wait time_wait = true
same_state s t = false

-- RST aborts a connection.
abbrev pub aborts : Header → State → State → Bool
aborts h s unknown = h.rst && not (ignores s)
aborts h s t = false

abbrev pub edge : Header → Socket → State → State → Bool
edge h s st t = same_state st t || (rfc_moves h s st t || departs h st t || aborts h st t)

module _ (k : Kmalloc) (a : Arrival) where
  acknowledge-state : (n : ℕ) (s : Socket) → (acknowledge n s).state ≡ s.state
  unfolding acknowledge
  acknowledge-state n s = refl

  moved :
      (s : Socket) (st : State) (q r : After)
      → edge a.header s st q.socket.state ≡ true
      → some q ≡ some r
      → edge a.header s st r.socket.state ≡ true
  moved s st q r h e = ap (λ (p : After). edge a.header s st p.socket.state) (sym (some_eq e)) ∙ h
