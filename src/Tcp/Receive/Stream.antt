-- ===== src/Tcp/Receive/Stream.antt =====
-- The data that `TCPSocket::OnReceive` of Kernel/src/Net/TCP.cpp takes from the segments of an established
-- connection, against the bytes of the segments that come in their order.
use lori_os.Prelude.{
  ℕ, ◌+◌, ◌^◌, ◌≤◌, ◌<◌, ◌≡◌, ◌≢◌, refl, ap, sym, subst, ◌∙◌, List, [], ◌∷◌, ◌++◌, Bool, true,
  false, Option, some, arith, if◌then◌else◌, ◌==◌, length, length-append, add32, append-nil,
  append_assoc, ℕ_discrete,
}
use mathlib.Core.Option
use lori_os.Kmalloc.{Kmalloc}
use lori_os.Stream.DataStream.Fifo.{IsValid, contents}
use lori_os.Tcp.{established, Socket}
use lori_os.Tcp.Receive.{
  Arrival, is_unknown, take_ack, flags_behind, behind_data, on_established, on_receive,
}
use lori_os.Tcp.Receive.Plain.{take_ack-Same, refused_other, passes, on_receive_established}
use lori_os.Tcp.Receive.Data.{IsData, payload, Took, take_data-Took, flags_behind-Same, Took-Same}

-- The bytes of the segments that come with the expected number, and the number that is expected then.
unfoldable pub next_number : ℕ → Arrival → ℕ
next_number next a = if a.header.sequence == next then add32 next (length (payload a)) else next

unfoldable pub new_bytes : ℕ → Arrival → List ℕ
new_bytes next a = if a.header.sequence == next then payload a else []

unfoldable pub delivered : ℕ → List Arrival → List ℕ
unfolding next_number new_bytes
delivered next [] = []
delivered next (a ∷ as') = new_bytes next a ++ delivered (next_number next a) as'

unfoldable pub run : Kmalloc → Socket → List Arrival → Option Socket
run k s [] = some s
run k s (a ∷ as') = Option.bind (on_receive k a s) (λ (deleted, t). run k t as')

-- One segment.
record Step (s : Socket) (a : Arrival) (t : Socket) : Type 0 where
  state : t.state ≡ established
  sequence_number : t.sequence_number ≡ s.sequence_number
  next : t.remote_sequence_number ≡ next_number s.remote_sequence_number a
  valid : IsValid t.inbound
  kept : contents t.inbound ≡ contents s.inbound ++ new_bytes s.remote_sequence_number a

module _ (k : Kmalloc) (a : Arrival) (s : Socket) (d : IsData s.sequence_number a)
    (at : s.state ≡ established) where
  ignored_step :
      a.header.sequence ≢ s.remote_sequence_number
      → (t : Socket) × (on_receive k a s ≡ some (false, t)) × (t ≡ s)
  unfolding on_established
  ignored_step ne = (
    s,
    on_receive_established k a s d.plain at (record { socket = s; falls_through = false })
        (refused_other k a s d.plain at _ ne) (ap is_unknown at),
    refl,
  )

  taken_step :
      IsValid s.inbound
      → a.header.sequence ≡ s.remote_sequence_number
      → s.remote_sequence_number < 2 ^ 32
      → length (contents s.inbound) + length (payload a) < 2 ^ 62
      → (t : Socket) × (on_receive k a s ≡ some (false, t)) × Took s a t
  unfolding on_established behind_data
  taken_step v e small room =
      let same = take_ack-Same a.header s in
      let s1 = take_ack a.header s in
      let d1 = subst (λ n. IsData n a) (sym same.sequence_number) d in
      let (u, taken, took) =
        take_data-Took k a s1 d1 (subst IsValid (sym same.inbound) v) (e ∙ sym same.next)
          (subst (λ n. n < 2 ^ 32) (sym same.next) small)
          (subst (λ i. length (contents i) + length (payload a) < 2 ^ 62) (sym same.inbound)
            room) in
      let t = flags_behind a.header u in
      let took' = Took-Same s1 s a u t same (flags_behind-Same a.header u d.fin) took in
      (
        t,
        on_receive_established k a s d.plain at (record { socket = t; falls_through = true })
            (passes k a s d.plain at _ e ∙ ap (Option.map (behind_data a.header)) taken)
            (ap is_unknown (took'.state ∙ at)),
        took',
      )

  step_lem :
      IsValid s.inbound
      → s.remote_sequence_number < 2 ^ 32
      → length (contents s.inbound) + length (payload a) < 2 ^ 62
      → (t : Socket) × (on_receive k a s ≡ some (false, t)) × Step s a t
  unfolding next_number new_bytes
  step_lem v small room = elim (ℕ_discrete a.header.sequence s.remote_sequence_number) [
    | yes e ↦
        let (t, came, o) = taken_step v e small room in
        (
          t,
          came,
          record {
            state = o.state ∙ at;
            sequence_number = o.sequence_number;
            next = o.next ∙ ground arith;
            valid = o.valid;
            kept = o.kept ∙ ap (contents s.inbound ++◌) {x = payload a} (ground arith);
          },
        )
    | no ne ↦
        let (t, came, o) = ignored_step ne in
        (
          t,
          came,
          record {
            state = ap (λ (u : Socket). u.state) o ∙ at;
            sequence_number = ap (λ (u : Socket). u.sequence_number) o;
            next = ap (λ (u : Socket). u.remote_sequence_number) o ∙ ground arith;
            valid = subst (λ (u : Socket). IsValid u.inbound) (sym o) v;
            kept =
                ap (λ (u : Socket). contents u.inbound) o
                ∙ sym (append-nil (contents s.inbound))
                ∙ ap (contents s.inbound ++◌) {x = []} (ground arith);
          },
        )
  ]

next_number-lt : (next : ℕ) (a : Arrival) → next < 2 ^ 32 → next_number next a < 2 ^ 32
unfolding next_number
next_number-lt next a h = ground arith

length-new_bytes : (next : ℕ) (a : Arrival) → length (new_bytes next a) ≤ length (payload a)
unfolding new_bytes
length-new_bytes next a = ground arith

abbrev pub AllData : ℕ → List Arrival → Type 0
AllData n [] = Unit
AllData n (a ∷ as') = IsData n a × AllData n as'

-- the bytes of all segments
abbrev pub total : List Arrival → ℕ
total [] = 0
total (a ∷ as') = length (payload a) + total as'

-- What a connection has taken from data segments that came in any order.
pub record Received (s : Socket) (as' : List Arrival) (t : Socket) : Type 0 where
  pub state : t.state ≡ established
  pub valid : IsValid t.inbound
  pub kept : contents t.inbound ≡ contents s.inbound ++ delivered s.remote_sequence_number as'

-- An established connection takes from data segments, in whatever order, number and repetition they
-- come, exactly the bytes of those that come with the number that is expected, behind the bytes that it
-- held, and stays established.
pub run-Received :
    (k : Kmalloc) (s : Socket) (as' : List Arrival)
    → s.state ≡ established
    → IsValid s.inbound
    → AllData s.sequence_number as'
    → s.remote_sequence_number < 2 ^ 32
    → length (contents s.inbound) + total as' < 2 ^ 62
    → (t : Socket) × (run k s as' ≡ some t) × Received s as' t
unfolding run delivered Option.bind
run-Received k s [] at v d small room =
    (s, refl, record { state = at; valid = v; kept = sym (append-nil (contents s.inbound)) })
run-Received k s (a ∷ as') at v (first, others) small room =
    let (t, came, o) = step_lem k a s first at v small (omega arith) in
    let (u, went, r) =
      run-Received k t as' o.state o.valid
        (subst (λ n. AllData n as') (sym o.sequence_number) others)
        (subst (λ n. n < 2 ^ 32) (sym o.next) (next_number-lt s.remote_sequence_number a small))
        (omega (
          arith,
          ap length o.kept,
          length-append (contents s.inbound) (new_bytes s.remote_sequence_number a),
          length-new_bytes s.remote_sequence_number a,
        )) in
    (
      u,
      ap (λ (o : Option (Bool × Socket)). Option.bind o (λ (deleted, t). run k t as')) came ∙ went,
      record {
        state = r.state;
        valid = r.valid;
        kept =
            r.kept
            ∙ ap (◌++ delivered t.remote_sequence_number as') o.kept
            ∙ append_assoc (contents s.inbound) (new_bytes s.remote_sequence_number a)
                (delivered t.remote_sequence_number as')
            ∙ ap
                (λ n.
                  contents s.inbound ++ (new_bytes s.remote_sequence_number a ++ delivered n as'))
                o.next;
      },
    )
