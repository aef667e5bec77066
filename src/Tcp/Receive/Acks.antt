-- ===== src/Tcp/Receive/Acks.antt =====
-- What an established connection of Kernel/src/Net/TCP.cpp does about acknowledgements and about FIN.
use lori_os.Prelude.{ℕ, ◌≤◌, ◌≡◌, ap, ◌∙◌, List, [], ◌∷◌, ◌++◌, Bool, true, arith, if◌then◌else◌}
use mathlib.Core.Option
use lori_os.Kmalloc.{Kmalloc}
use lori_os.Tcp.{close_wait, Header, Socket, Segment, Packet, blank}
use lori_os.Tcp.Receive.{Arrival, data_length, take_ack, drop_acknowledged}
use lori_os.Tcp.Receive.Plain.{IsPlain}

-- An acknowledgement removes only the first of the packets that it acknowledges: the others stay in the
-- list, although their numbers are covered too.
pub take_ack_one :
    (h : Header) (s : Socket) (p : Packet) (ps : List Packet)
    → s.unacknowledged ≡ p ∷ ps
    → h.ack ≡ true
    → p.number ≤ h.ack_number
    → (take_ack h s).unacknowledged ≡ ps
unfolding take_ack drop_acknowledged
take_ack_one h s p ps held ack covers =
    let one : drop_acknowledged true h.ack_number (p ∷ ps) ≡ ps =
      first_only h.ack_number p ps covers in
    ap
      (λ (b : Bool).
        (if b
          then record s {
            last_acknowledged = h.ack_number;
            unacknowledged = drop_acknowledged true h.ack_number s.unacknowledged;
          }
          else s).unacknowledged)
      ack
    ∙ ap (drop_acknowledged true h.ack_number) held
    ∙ one
  where
    first_only :
        (n : ℕ) (p : Packet) (ps : List Packet)
        → p.number ≤ n
        → drop_acknowledged true n (p ∷ ps) ≡ ps
    first_only n p ps covers = ground arith

-- A FIN without data, with the number that is expected.
pub record IsFin (s : Socket) (a : Arrival) : Type 0 where
  pub plain : IsPlain s.sequence_number a
  pub fin : a.header.fin ≡ true
  pub expected : a.header.sequence ≡ s.remote_sequence_number
  pub no_data : data_length a ≡ 0

-- What an acknowledgement leaves of the socket.
record Kept (s t : Socket) : Type 0 where
  number : t.remote_sequence_number ≡ s.remote_sequence_number
  header : blank t t.sequence_number ≡ blank s s.sequence_number
  sent : t.sent ≡ s.sent

-- The acknowledgement of a number.
abbrev pub ack_of : Socket → ℕ → Segment
ack_of s number = record {
  header = record (blank s s.sequence_number) { ack_number = number; ack = true };
  payload = [];
}

-- The peer's side is closed, `number` is expected, and it was acknowledged by the one segment that was sent.
pub record Closed (number : ℕ) (sent : List Segment) (s t : Socket) : Type 0 where
  pub state : t.state ≡ close_wait
  pub next : t.remote_sequence_number ≡ number
  pub acked : t.sent ≡ sent ++ (ack_of s number ∷ [])
