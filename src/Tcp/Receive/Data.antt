-- ===== src/Tcp/Receive/Data.antt =====
-- The data of a segment, in `TCPSocket::OnReceive` of Kernel/src/Net/TCP.cpp.
use lori_os.Prelude.{
  ℕ, ◌+◌, ◌-◌, ◌^◌, ◌≤◌, ◌<◌, ◌≡◌, ◌≢◌, refl, ap, sym, subst, ◌∙◌, List, [], ◌∷◌, ◌++◌, false, some,
  arith, slice, length, drop, length-take, length-drop, add32, append-nil, ℕ_discrete,
}
use mathlib.Core.Option
use lori_os.Kmalloc.{Kmalloc}
use lori_os.Stream.DataStream.{DataStream, write}
use lori_os.Stream.DataStream.Fifo.{IsValid, contents, write-append, length-contents}
use lori_os.Tcp.{Header, Socket, acknowledge, unblock_all}
use lori_os.Tcp.Receive.{
  Arrival, offset, data_length, take_data, keep_data, wake_readers, flags_behind,
}
use lori_os.Tcp.Receive.Plain.{IsPlain, Same}

-- A data segment of the connection: without FIN, and with the header and the data within what came.
pub record IsData (sequence_number : ℕ) (a : Arrival) : Type 0 where
  pub plain : IsPlain sequence_number a
  pub fin : a.header.fin ≡ false
  pub header_fits : offset a ≤ a.size
  pub small : a.size < 2 ^ 16
  pub in_memory : a.size ≤ length a.memory

unfoldable pub payload : Arrival → List ℕ
payload a = slice (offset a) (a.size - offset a) a.memory

length-payload : (n : ℕ) (a : Arrival) → IsData n a → length (payload a) ≡ a.size - offset a
unfolding payload
length-payload n a d = omega (
  arith,
  d.header_fits,
  d.in_memory,
  length-take (a.size - offset a) (drop (offset a) a.memory),
  length-drop (offset a) a.memory,
)

data_length-payload : (n : ℕ) (a : Arrival) → IsData n a → data_length a ≡ length (payload a)
unfolding data_length
data_length-payload n a d = omega (arith, d.header_fits, d.small, length-payload n a d)

-- The socket after data was taken: the connection goes on, the data stands behind what was there, and
-- the next number is expected.
pub record Took (s : Socket) (a : Arrival) (t : Socket) : Type 0 where
  pub state : t.state ≡ s.state
  pub sequence_number : t.sequence_number ≡ s.sequence_number
  pub next : t.remote_sequence_number ≡ add32 s.remote_sequence_number (length (payload a))
  pub valid : IsValid t.inbound
  pub kept : contents t.inbound ≡ contents s.inbound ++ payload a

no_bytes : (xs : List ℕ) → length xs ≡ 0 → xs ≡ []
no_bytes [] h = refl
no_bytes (x ∷ xs) h = absurd (omega arith)

module _ (k : Kmalloc) (a : Arrival) where
  -- How an empty segment and one with data are taken.
  pub take_none : (s : Socket) → data_length a ≡ 0 → take_data k a s ≡ some s
  unfolding take_data
  take_none s z = ground arith

  take_some :
      (s : Socket) (n : ℕ) (u : DataStream)
      → data_length a ≢ 0
      → write k s.inbound (slice (offset a) (data_length a) a.memory) ≡ some (n, u)
      → take_data k a s ≡ some (keep_data a s (n, u))
  unfolding take_data
  take_some s n u nz w = ground (arith, ap (Option.map (keep_data a s)) w)

  pub take_data-Took :
      (s : Socket)
      → IsData s.sequence_number a
      → IsValid s.inbound
      → a.header.sequence ≡ s.remote_sequence_number
      → s.remote_sequence_number < 2 ^ 32
      → length (contents s.inbound) + length (payload a) < 2 ^ 62
      → (t : Socket) × (take_data k a s ≡ some t) × Took s a t
  unfolding keep_data wake_readers acknowledge payload
  take_data-Took s d v at small room = elim (ℕ_discrete (data_length a) 0) [
    | yes z ↦
        let is_nil = no_bytes (payload a) (sym (data_length-payload s.sequence_number a d) ∙ z) in
        (
          s,
          take_none s z,
          record {
            state = refl;
            sequence_number = refl;
            next = omega (arith, small, ap length is_nil);
            valid = v;
            kept = sym (ap (contents s.inbound ++◌) is_nil ∙ append-nil (contents s.inbound));
          },
        )
    | no nz ↦
        let same : slice (offset a) (data_length a) a.memory ≡ payload a =
          ap (λ n. slice (offset a) n a.memory)
            (data_length-payload s.sequence_number a d ∙ length-payload s.sequence_number a d) in
        let (u, w, held, valid) =
          write-append k s.inbound (payload a) v
            (omega (arith, room, length-contents s.inbound v)) in
        (
          keep_data a s (length (payload a), u),
          take_some s (length (payload a)) u nz (ap (write k s.inbound) same ∙ w),
          record {
            state = refl;
            sequence_number = refl;
            next =
                ap (λ n. add32 n (data_length a)) at
                ∙ ap (add32 s.remote_sequence_number) (data_length-payload s.sequence_number a d);
            valid = valid;
            kept = held;
          },
        )
  ]

pub flags_behind-Same : (h : Header) (t : Socket) → h.fin ≡ false → Same t (flags_behind h t)
unfolding flags_behind unblock_all acknowledge
flags_behind-Same h t no_fin = record {
  state = ground arith;
  sequence_number = ground arith;
  next = ground arith;
  inbound = ground arith;
}

pub Took-Same :
    (s s' : Socket) (a : Arrival) (t t' : Socket)
    → Same s s'
    → Same t t'
    → Took s a t
    → Took s' a t'
Took-Same s s' a t t' p q o = record {
  state = sym q.state ∙ o.state ∙ p.state;
  sequence_number = sym q.sequence_number ∙ o.sequence_number ∙ p.sequence_number;
  next = sym q.next ∙ o.next ∙ ap (λ n. add32 n (length (payload a))) p.next;
  valid = subst IsValid q.inbound o.valid;
  kept = ap contents (sym q.inbound) ∙ o.kept ∙ ap (λ i. contents i ++ payload a) p.inbound;
}
