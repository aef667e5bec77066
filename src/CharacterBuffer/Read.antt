-- ===== src/CharacterBuffer/Read.antt =====
-- `CharacterBuffer::Read` takes characters from the front.
use lori_os.Prelude.{
  ℕ, zero, suc, ◌+◌, ◌-◌, ◌≤◌, ◌<◌, ◌^◌, ◌≡◌, refl, List, [], ◌∷◌, arith, ◌==◌, length, take, drop,
  slice, copy_to, sub64, sub32, Bool-cases, inl, inr, ap, ◌∙◌, length-copy_to, shift_down,
}
use lori_os.CharacterBuffer.{CharacterBuffer, Taken, read_loop, read}
use lori_os.CharacterBuffer.Cooked.{consume, line_ends}
use lori_os.CharacterBuffer.Write.{IsValid, contents, length-contents}

-- What the loop has done with `cs` when it stops.
record Loop (room lines : ℕ) (cs : List ℕ) (t : Taken) : Type 0 where
  handed : t.out ≡ (consume room cs).out
  left : drop t.passed cs ≡ (consume room cs).rest
  within : t.passed ≤ length cs
  count : t.lines + line_ends (take t.passed cs) ≡ lines

read_loop-Loop :
    (room lines : ℕ) (cs : List ℕ)
    → line_ends cs ≤ lines
    → lines < 2 ^ 32
    → Loop room lines cs (read_loop room lines cs)
unfolding read_loop consume
read_loop-Loop room lines [] h k = record {
  handed = refl;
  left = refl;
  within = omega arith;
  count = omega arith;
}
read_loop-Loop room lines (c ∷ cs) h k = elim (Bool-cases (room == 0)) [
  | inl full ↦ rw full (record {
    handed = rw full refl;
    left = rw full refl;
    within = omega arith;
    count = omega arith;
  })
  | inr more ↦ elim (Bool-cases (c == 0)) [
    | inl nul ↦
        let r = read_loop-Loop room (sub32 lines 1) cs (ground arith) (omega arith) in
        rw (more, nul)
          (record {
            handed = rw (more, nul) r.handed;
            left = rw (more, nul) r.left;
            within = omega (arith, r.within);
            count = ground (arith, r.count);
          })
    | inr char ↦ elim (Bool-cases (c == 10)) [
      | inl newline ↦
          let r = read_loop-Loop (room - 1) (sub32 lines 1) cs (ground arith) (omega arith) in
          rw (more, char, newline)
            (record {
              handed = rw (more, char) (ap (◌∷◌ c) r.handed);
              left = rw (more, char) r.left;
              within = omega (arith, r.within);
              count = ground (arith, r.count);
            })
      | inr plain ↦
          let r = read_loop-Loop (room - 1) lines cs (ground arith) k in
          rw (more, char, plain)
            (record {
              handed = rw (more, char) (ap (◌∷◌ c) r.handed);
              left = rw (more, char) r.left;
              within = omega (arith, r.within);
              count = ground (arith, r.count);
            })
    ]
  ]
]

pub line_ends-split :
    (n : ℕ) (cs : List ℕ) → line_ends cs ≡ line_ends (take n cs) + line_ends (drop n cs)
line_ends-split zero cs = omega arith
line_ends-split (suc n) [] = omega arith
line_ends-split (suc n) (c ∷ cs) = omega (arith, line_ends-split n cs)

consume-zero : (cs : List ℕ) → consume 0 cs ≡ record { out = []; rest = cs }
unfolding consume
consume-zero [] = refl
consume-zero (c ∷ cs) = refl

-- `Read` hands out the oldest characters, at most `count` and without the '\0' among them, and keeps
-- the rest in order; its line count falls by the line ends that it took.
pub read-consume :
    (s : CharacterBuffer) (count : ℕ)
    → IsValid s
    → s.size < 2 ^ 63
    → line_ends (contents s) ≤ s.lines
    → s.lines < 2 ^ 32
    → let (out, t) = read s count in
      let split = consume count (contents s) in
      (out ≡ split.out)
      × (contents t ≡ split.rest)
      × (t.lines + line_ends (contents s) ≡ s.lines + line_ends (contents t))
      × IsValid t
unfolding read
read-consume s count v small ends k = elim (Bool-cases (count == 0)) [
  | inl nothing ↦
      let none_asked : count ≡ 0 = ground arith in
      rw (nothing, none_asked, consume-zero (contents s)) (refl, refl, refl, v)
  | inr some_asked ↦
      let t : Taken = read_loop count s.lines (contents s) in
      let r = read_loop-Loop count s.lines (contents s) ends k in
      let passed : t.passed ≤ s.pos = omega (arith, r.within, length-contents s v) in
      let pos' : sub64 s.pos t.passed ≡ s.pos - t.passed = omega (arith, v.inside) in
      let size' : sub64 s.size t.passed ≡ s.size - t.passed = omega (arith, v.inside) in
      let kept : take (s.pos - t.passed)
            (copy_to 0 (slice t.passed (s.size - t.passed) s.buffer) s.buffer)
          ≡ (consume count (contents s)).rest =
        shift_down t.passed s.pos s.size s.buffer v.inside (omega (arith, v.sized)) ∙ r.left in
      rw (some_asked, pos', size')
        (
          r.handed,
          kept,
          omega (
            arith,
            r.count,
            line_ends-split t.passed (contents s),
            ap line_ends kept,
            ap line_ends r.left,
          ),
          record {
            sized = length-copy_to 0 _ s.buffer ∙ v.sized;
            inside = omega (arith, v.inside);
            limited = omega (arith, v.limited);
            small = v.small;
          },
        )
]
