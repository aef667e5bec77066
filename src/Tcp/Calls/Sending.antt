-- ===== src/Tcp/Calls/Sending.antt =====
-- `SendTo` of Kernel/src/Net/TCP.cpp, and what the peer receives of it.
use lori_os.Prelude.{
  ℕ, zero, suc, ◌+◌, ◌-◌, ◌*◌, ◌^◌, ◌≤◌, ◌<◌, ◌≡◌, refl, ap, sym, subst, ◌∙◌, List, [], ◌∷◌, ◌++◌,
  map, true, false, not, Option, none, some, arith, if◌then◌else◌, ◌==◌, ltb, length, take, slice,
  replicate, length-append, add32, append-nil, append_assoc,
}
use mathlib.Core.Logic.{◌⊎◌, inl, inr}
use lori_os.Kmalloc.{Kmalloc}
use lori_os.Stream.DataStream.Fifo.{IsValid, contents}
use lori_os.Tcp.{established, Segment, Socket}
use lori_os.Tcp.Receive.{Arrival}
use lori_os.Tcp.Receive.Data.{payload}
use lori_os.Tcp.Receive.Stream.{
  run, run-Received, delivered, new_bytes, next_number, AllData, total,
}
use lori_os.Tcp.Calls.{
  Error, enotconn, is_connected, after_network, data_segment, send_to, segment_data, data_header,
  short_length,
}

take_all : {A : Type 0} (xs : List A) (n : ℕ) → length xs ≤ n → take n xs ≡ xs
take_all [] zero h = refl
take_all [] (suc n) h = refl
take_all (x ∷ xs) zero h = absurd (omega arith)
take_all (x ∷ xs) (suc n) h = ap (x ∷◌) (take_all xs n (omega arith))

-- The socket after a segment with `bytes` was sent for the data `buffer`.
abbrev pub after_send : Socket → List ℕ → List ℕ → Socket
after_send s buffer bytes = record s {
  sequence_number = add32 s.sequence_number (length buffer);
  sent = s.sent ++ (record { header = data_header s; payload = bytes } ∷ []);
  unacknowledged =
      s.unacknowledged ++ (record { number = s.sequence_number; payload = buffer } ∷ []);
}

not_ltb : (a b : ℕ) → b ≤ a → ltb a b ≡ false
not_ltb a b h = ground arith

segment_data_short : (buffer : List ℕ) → length buffer ≤ 1580 → segment_data buffer ≡ buffer
unfolding segment_data
segment_data_short buffer short =
    ap (λ b. if b then take 1580 buffer else buffer)
      (not_ltb 1600 (length buffer + 20) (omega arith))

connected : (s : Socket) → s.state ≡ established → is_connected s ≡ true
unfolding is_connected
connected s at = rw at refl

module _ (send_ip : Segment → Option ℕ) (s : Socket) (buffer : List ℕ) (at : s.state ≡ established)
    (small : length buffer < 2 ^ 16) where
  sends :
      send_ip (data_segment s buffer) ≡ none
      → send_to send_ip buffer false s
        ≡ (inr (length (segment_data buffer)), after_send s buffer (segment_data buffer))
  unfolding send_to after_network
  sends up =
      let whole : take (short_length buffer) buffer ≡ buffer =
        take_all buffer (short_length buffer) (omega arith) in
      ap
        (λ b.
          if not b
          then (inl enotconn, s)
          else after_network s (take (short_length buffer) buffer)
              (data_segment s (take (short_length buffer) buffer))
              (send_ip (data_segment s (take (short_length buffer) buffer))))
        (connected s at)
      ∙ ap (λ bs. after_network s bs (data_segment s bs) (send_ip (data_segment s bs))) whole
      ∙ ap (after_network s buffer (data_segment s buffer)) up

  -- Up to 1580 bytes are sent in one segment with the number that is next, which they are counted by.
  pub send_to_all :
      length buffer ≤ 1580
      → send_ip (data_segment s buffer) ≡ none
      → send_to send_ip buffer false s ≡ (inr (length buffer), after_send s buffer buffer)
  send_to_all short up =
      sends up
      ∙ ap (λ bytes. (inr (length bytes), after_send s buffer bytes))
          (segment_data_short buffer short)

-- From one end to the other.

abbrev pub all_bytes : List (List ℕ) → List ℕ
all_bytes [] = []
all_bytes (b ∷ bs) = b ++ all_bytes bs

-- Each of the writes has some bytes, and they fit a segment.
abbrev pub Writes : List (List ℕ) → Type 0
Writes [] = Unit
Writes (b ∷ bs) = (length b ≤ 1580) × Writes bs

-- One write after the other.
pub send_each : (Segment → Option ℕ) → List (List ℕ) → Socket → Socket
send_each send_ip [] s = s
send_each send_ip (b ∷ bs) s = send_each send_ip bs (send_to send_ip b false s).1

-- The segments of the writes.
frames : Socket → List (List ℕ) → List Segment
frames s [] = []
frames s (b ∷ bs) = record { header = data_header s; payload = b } ∷ frames (after_send s b b) bs

send_each-frames :
    (send_ip : Segment → Option ℕ) (bs : List (List ℕ)) (s : Socket)
    → ((g : Segment) → send_ip g ≡ none)
    → s.state ≡ established
    → Writes bs
    → (send_each send_ip bs s).sent ≡ s.sent ++ frames s bs
unfolding send_each frames
send_each-frames send_ip [] s up at w = sym (append-nil s.sent)
send_each-frames send_ip (b ∷ bs) s up at (short, w) =
    let one = send_to_all send_ip s b at (omega arith) short (up (data_segment s b)) in
    ap (λ (r : (Error ⊎ ℕ) × Socket). (send_each send_ip bs r.1).sent) one
    ∙ send_each-frames send_ip bs (after_send s b b) up at w
    ∙ append_assoc s.sent (record { header = data_header s; payload = b } ∷ [])
        (frames (after_send s b b) bs)

-- A segment arrives, with some bytes for its header.
abbrev pub arrival : Segment → Arrival
arrival g = record {
  header = g.header;
  memory = replicate 20 0 ++ g.payload;
  size = 20 + length g.payload;
}

slice_all : (xs : List ℕ) (n : ℕ) → n ≡ length xs → slice 20 n (replicate 20 0 ++ xs) ≡ xs
slice_all xs n e = ap (λ m. take m xs) e ∙ take_all xs (length xs) (omega arith)

payload-arrival : (g : Segment) → g.header.data_offset ≡ 5 → payload (arrival g) ≡ g.payload
unfolding payload
payload-arrival g five =
    ap (λ o. slice (o * 4) (20 + length g.payload - o * 4) (replicate 20 0 ++ g.payload)) five
    ∙ slice_all g.payload (20 + length g.payload - 20) (omega arith)

same_number : (n : ℕ) → (n == n) ≡ true
same_number n = ground arith

frames-delivered :
    (s : Socket) (bs : List (List ℕ))
    → delivered s.sequence_number (map arrival (frames s bs)) ≡ all_bytes bs
unfolding frames delivered next_number new_bytes
frames-delivered s [] = refl
frames-delivered s (b ∷ bs) =
    let g : Segment = record { header = data_header s; payload = b } in
    let further = map arrival (frames (after_send s b b) bs) in
    ap
      (λ t.
        (if t then payload (arrival g) else [])
        ++ delivered
            (if t
              then add32 s.sequence_number (length (payload (arrival g)))
              else s.sequence_number)
            further)
      (same_number s.sequence_number)
    ∙ ap (λ xs. xs ++ delivered (add32 s.sequence_number (length xs)) further)
        (payload-arrival g refl)
    ∙ ap (b ++◌) (frames-delivered (after_send s b b) bs)

frames-AllData :
    (s : Socket) (bs : List (List ℕ)) (n : ℕ)
    → s.remote_sequence_number ≤ n
    → Writes bs
    → AllData n (map arrival (frames s bs))
unfolding frames
frames-AllData s [] n h w = tt
frames-AllData s (b ∷ bs) n h (short, w) = (
  record {
    plain = record {
      syn_flag = refl;
      rst = refl;
      urg = refl;
      cwr = refl;
      ns = refl;
      acks_sent = h;
    };
    fin = refl;
    header_fits = omega arith;
    small = omega arith;
    in_memory = omega arith;
  },
  frames-AllData (after_send s b b) bs n h w,
)

frames-total :
    (s : Socket) (bs : List (List ℕ)) → total (map arrival (frames s bs)) ≡ length (all_bytes bs)
unfolding frames
frames-total s [] = refl
frames-total s (b ∷ bs) =
    let g : Segment = record { header = data_header s; payload = b } in
    omega (
      arith,
      ap length (payload-arrival g refl),
      length-append b (all_bytes bs),
      frames-total (after_send s b b) bs,
    )

-- What one end of a connection writes, in pieces of up to 1580 bytes, the other end reads: if all segments
-- arrive in their order, it holds these bytes, in their order, behind what it held. It holds if the network
-- takes each segment, if the receiver expects the number that the sender is at, and if the sender has
-- acknowledged no more than the receiver sent.
pub send_each-Received :
    (k : Kmalloc) (send_ip : Segment → Option ℕ) (s r : Socket) (bs : List (List ℕ))
    → ((g : Segment) → send_ip g ≡ none)
    → s.state ≡ established
    → s.sent ≡ []
    → Writes bs
    → r.state ≡ established
    → IsValid r.inbound
    → r.remote_sequence_number ≡ s.sequence_number
    → s.sequence_number < 2 ^ 32
    → s.remote_sequence_number ≤ r.sequence_number
    → length (contents r.inbound) + length (all_bytes bs) < 2 ^ 62
    → (t : Socket) × (run k r (map arrival (send_each send_ip bs s).sent) ≡ some t)
      × (contents t.inbound ≡ contents r.inbound ++ all_bytes bs)
send_each-Received k send_ip s r bs up at none_sent w at' v expected small acked room =
    let gs : (send_each send_ip bs s).sent ≡ frames s bs =
      send_each-frames send_ip bs s up at w ∙ ap (◌++ frames s bs) none_sent in
    let (t, ran, got) =
      run-Received k r (map arrival (frames s bs)) at' v
        (frames-AllData s bs r.sequence_number acked w)
        (subst (λ n. n < 2 ^ 32) (sym expected) small) (omega (arith, room, frames-total s bs)) in
    (
      t,
      ap (λ l. run k r (map arrival l)) gs ∙ ran,
      got.kept
          ∙ ap (λ n. contents r.inbound ++ delivered n (map arrival (frames s bs))) expected
          ∙ ap (contents r.inbound ++◌) (frames-delivered s bs),
    )
