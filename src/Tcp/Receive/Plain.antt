-- ===== src/Tcp/Receive/Plain.antt =====
-- The branch for ESTABLISHED of `TCPSocket::OnReceive` of Kernel/src/Net/TCP.cpp for a segment that none of
-- its early returns refuses.
use lori_os.Prelude.{
  ◌⊎◌, ℕ, ◌≤◌, ◌≡◌, ◌≢◌, refl, ap, ◌∙◌, Bool, true, false, not, ◌&&◌, Option, some, arith,
  if◌then◌else◌, inl, inr,
}
use mathlib.Core.Option
use lori_os.Kmalloc.{Kmalloc}
use lori_os.Tcp.{
  State, unknown, listen, syn, syn_ack, established, fin_wait_1, fin_wait_2, close_wait, last_ack,
  time_wait, Header, Socket, acknowledge, unblock_all,
}
use lori_os.Tcp.Receive.{
  Arrival, After, ignores, is_unknown, goes_on, ended, take_ack, unless_refused, on_established,
  on_segment, on_receive,
}

-- A segment without SYN, RST, URG, CWR and NS that acknowledges nothing that was not sent.
pub record IsPlain (sequence_number : ℕ) (a : Arrival) : Type 0 where
  pub syn_flag : a.header.syn_flag ≡ false
  pub rst : a.header.rst ≡ false
  pub urg : a.header.urg ≡ false
  pub cwr : a.header.cwr ≡ false
  pub ns : a.header.ns ≡ false
  pub acks_sent : a.header.ack_number ≤ sequence_number

-- Two sockets that differ only in what data does not depend on.
pub record Same (s t : Socket) : Type 0 where
  pub state : s.state ≡ t.state
  pub sequence_number : s.sequence_number ≡ t.sequence_number
  pub next : s.remote_sequence_number ≡ t.remote_sequence_number
  pub inbound : s.inbound ≡ t.inbound

pub take_ack-Same : (h : Header) (s : Socket) → Same (take_ack h s) s
unfolding take_ack
take_ack-Same h s = record {
  state = ground arith;
  sequence_number = ground arith;
  next = ground arith;
  inbound = ground arith;
}

not_deleted :
    (r : After)
    → is_unknown r.socket.state ≡ false
    → (r.falls_through && r.socket.file_closed && is_unknown r.socket.state) ≡ false
not_deleted r f = ground arith

module _ (k : Kmalloc) (a : Arrival) (s : Socket) (d : IsPlain s.sequence_number a)
    (at : s.state ≡ established) where
  pub refused_other :
      (next : Option After)
      → a.header.sequence ≢ s.remote_sequence_number
      → unless_refused a.header s next ≡ some (record { socket = s; falls_through = false })
  unfolding unless_refused acknowledge
  refused_other next ne =
      let x = d.syn_flag in
      let y = d.rst in let z = d.urg in let u = d.cwr in let v = d.ns in ground arith

  pub passes :
      (next : Option After)
      → a.header.sequence ≡ s.remote_sequence_number
      → unless_refused a.header s next ≡ next
  unfolding unless_refused acknowledge
  passes next e =
      let x = d.syn_flag in
      let y = d.rst in
      let z = d.urg in let u = d.cwr in let v = d.ns in let w = d.acks_sent in ground arith

  pub on_receive_established :
      (r : After)
      → on_established k a s ≡ some r
      → is_unknown r.socket.state ≡ false
      → on_receive k a s ≡ some (false, r.socket)
  unfolding on_receive on_segment unblock_all
  on_receive_established r e f =
      ap
        (λ b.
          if b && not (ignores s.state)
          then some (ended (goes_on (unblock_all (record s { state = unknown }))))
          else Option.map ended (on_segment k a s s.state))
        d.rst
      ∙ ap (λ st. Option.map ended (on_segment k a s st)) at
      ∙ ap (Option.map ended) e
      ∙ ap (λ b. some (b, r.socket)) (not_deleted r f)

no_reset : {A : Type 0} (b : Bool) (x y : A) → (if b && false then x else y) ≡ y
no_reset true x y = refl
no_reset false x y = refl

-- The two states that ignore every segment.
pub idle : (st : State) → ignores st ≡ true → (st ≡ unknown) ⊎ (st ≡ listen)
idle unknown h = inl refl
idle listen h = inr refl
idle syn h = absurd (cc)
idle syn_ack h = absurd (cc)
idle established h = absurd (cc)
idle fin_wait_1 h = absurd (cc)
idle fin_wait_2 h = absurd (cc)
idle close_wait h = absurd (cc)
idle last_ack h = absurd (cc)
idle time_wait h = absurd (cc)

on_segment_idle :
    (k : Kmalloc) (a : Arrival) (s : Socket) (st : State)
    → (st ≡ unknown) ⊎ (st ≡ listen)
    → on_segment k a s st ≡ some (record { socket = s; falls_through = false })
unfolding on_segment
on_segment_idle k a s st (inl e) = ap (on_segment k a s) e
on_segment_idle k a s st (inr e) = ap (on_segment k a s) e

-- A socket that listens or has no connection ignores every segment.
pub on_receive_ignored :
    (k : Kmalloc) (a : Arrival) (s : Socket)
    → ignores s.state ≡ true
    → on_receive k a s ≡ some (false, s)
unfolding on_receive
on_receive_ignored k a s h =
    ap
      (λ b.
        if a.header.rst && not b
        then some (ended (goes_on (unblock_all (record s { state = unknown }))))
        else Option.map ended (on_segment k a s s.state))
      h
    ∙ no_reset a.header.rst (some (ended (goes_on (unblock_all (record s { state = unknown })))))
        (Option.map ended (on_segment k a s s.state))
    ∙ ap (Option.map ended) (on_segment_idle k a s s.state (idle s.state h))
