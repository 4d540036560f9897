-- ===== src/Lzx/BitReader/Prefix.antt =====
-- The reader takes bits off the front of a stream.
use go_wim.Base.{
  ℕ, zero, suc, ◌+◌, ◌-◌, ◌*◌, ◌/◌, ◌%◌, ◌^◌, ◌≤◌, ◌<◌, ◌≡◌, refl, sym, ap, ◌∙◌, true, false, inl,
  inr, List, [], ◌∷◌, ◌++◌, append_assoc, append-nil, arith, ltb, leb, ◌==◌, Bool-cases, ltb→lt,
  ltb-false→le, lt→ltb, length, get_or, length-append, take, drop, take-append_len, drop-append_len,
  u8, u16, IsBytes, bit_or, bit_or_disjoint, pow2-pos,
}
use native.Mathlib.Nat.{mod-lt, mul-lt-mul_of_pos_right, mod-eq_of_lt, pow-le-pow_right}
use go_wim.Lzx.Stream.{
  to_bits, from_bits, words_bits, length-to_bits, from_bits-to_bits, to_bits-add, to_bits_split,
  pow2-add, high_part, low_part,
}
use go_wim.Lzx.BitReader.{BitReader, new_reader, next_word, shl32, feed, take_bits, bits}

-- The reader holds its pending bits at the top of the accumulator, and the stream is those bits and the
-- words behind its position.
pub record IsAt (b : BitReader) (stream : List ℕ) : Type 0 where
  pub held : ℕ
  pub small : held < 2 ^ b.nbits
  pub few : b.nbits ≤ 31
  pub packed : b.acc ≡ held * 2 ^ (32 - b.nbits)
  pub ahead : to_bits b.nbits held ++ words_bits (drop b.pos b.inp) ≡ stream

-- Only the position and the pending bits differ.
pub record Continues (b b' : BitReader) : Type 0 where
  pub same_input : b'.inp ≡ b.inp
  pub same_flag : b'.unaligned ≡ b.unaligned
  pub same_failed : b'.failed ≡ b.failed

pub new_reader-IsAt : (src : List ℕ) → IsAt (new_reader src) (words_bits src)
unfolding new_reader
new_reader-IsAt src = record {
  held = 0;
  small = omega arith;
  few = omega arith;
  packed = refl;
  ahead = refl;
}

-- The front of a stream that begins with held bits, and what is behind it.
held_front :
    (nb i n held : ℕ) (rest stream : List ℕ)
    → nb ≡ i + n
    → held / 2 ^ i < 2 ^ n
    → to_bits nb held ++ rest ≡ stream
    → (from_bits 0 (take n stream) ≡ held / 2 ^ i)
      × (to_bits i (held % 2 ^ i) ++ rest ≡ drop n stream)
held_front nb i n held rest stream sum small ahead =
    let front = to_bits n (held / 2 ^ i) in
    let back = to_bits i (held % 2 ^ i) ++ rest in
    let size : length front ≡ n = length-to_bits n (held / 2 ^ i) in
    let parts : front ++ back ≡ stream =
      sym (append_assoc front (to_bits i (held % 2 ^ i)) rest)
      ∙ rw (← to_bits_split n i held, ← sum) ahead in
    (
      rw (← parts, take-append_len n front back size) (from_bits-to_bits n (held / 2 ^ i) small),
      rw (← parts) (sym (drop-append_len n front back size)),
    )

-- What `take_bits` computes, with the numbers of bits named.
taken_eq :
    (b : BitReader) (n i j value acc : ℕ)
    → i + n + j ≡ 32
    → b.nbits ≡ i + n
    → n ≤ 16
    → b.acc / 2 ^ (i + j) ≡ value
    → value < 2 ^ n
    → shl32 b.acc n ≡ acc
    → take_bits b n ≡ (value, record b { acc = acc; nbits = i })
unfolding take_bits
taken_eq b n i j value acc whole sum narrow high below low =
    let e1 : 32 - n ≡ i + j = omega arith in
    let e2 : u8 (b.nbits + 256 - n) ≡ i = omega arith in
    let wide : 2 ^ n ≤ 2 ^ 16 = pow-le-pow_right {n = 2} (omega arith) narrow in
    let e3 : u16 value ≡ value = omega arith in rw (take_bits, e1, high, e3, low, e2) refl

take_bits-IsAt :
    (b : BitReader) (n : ℕ) (stream : List ℕ)
    → n ≤ b.nbits
    → n ≤ 16
    → IsAt b stream
    → (b' : BitReader) × (take_bits b n ≡ (from_bits 0 (take n stream), b'))
      × IsAt b' (drop n stream)
      × Continues b b'
take_bits-IsAt b n stream have narrow k =
    let i = b.nbits - n in
    let j = 32 - b.nbits in
    let few : b.nbits ≤ 31 = k.few in
    let sum : b.nbits ≡ i + n = omega arith in
    let whole : i + n + j ≡ 32 = omega arith in
    let low = low_part i n j b.acc k.held whole k.packed in
    let (value, below) =
      high_part i n j b.acc k.held (omega (arith, k.small, ap (λ t. 2 ^ t) sum)) k.packed in
    let (front, behind) =
      held_front b.nbits i n k.held (words_bits (drop b.pos b.inp)) stream sum below k.ahead in
    let up : 32 - i ≡ j + n = omega arith in
    (
      record b { acc = k.held % 2 ^ i * 2 ^ (j + n); nbits = i },
      taken_eq b n i j _ _ whole sum narrow value below low ∙ rw front refl,
      record {
        held = k.held % 2 ^ i;
        small = mod-lt k.held (pow2-pos i);
        few = omega arith;
        packed = rw up refl;
        ahead = behind;
      },
      record { same_input = refl; same_flag = refl; same_failed = refl },
    )

drop-get_or :
    (pos : ℕ) (inp : List ℕ)
    → pos < length inp
    → drop pos inp ≡ get_or inp pos 0 ∷ drop (pos + 1) inp
drop-get_or pos [] h = absurd (omega arith)
drop-get_or zero (x ∷ inp) h = refl
drop-get_or (suc pos) (x ∷ inp) h =
    let up : suc pos + 1 ≡ suc (pos + 1) = omega arith in rw up (drop-get_or pos inp (omega arith))

byte_at : (inp : List ℕ) (pos : ℕ) → IsBytes inp → get_or inp pos 0 < 256
byte_at [] pos h = omega arith
byte_at (x ∷ inp) zero (b, h) = b
byte_at (x ∷ inp) (suc pos) (b, h) = byte_at inp pos h

drop_past : (n : ℕ) (inp : List ℕ) → length inp ≤ n → drop n inp ≡ []
drop_past zero [] h = refl
drop_past zero (x ∷ inp) h = absurd (omega arith)
drop_past (suc n) [] h = refl
drop_past (suc n) (x ∷ inp) h = drop_past n inp (omega arith)

-- The next word of a stream that has one.
next_word-eq :
    (inp : List ℕ) (pos : ℕ)
    → pos < length inp
    → words_bits (drop pos inp)
      ≡ to_bits 16 (next_word inp pos).0 ++ words_bits (drop (next_word inp pos).1 inp)
unfolding next_word
next_word-eq inp pos some = elim (Bool-cases (leb (pos + 2) (length inp))) [
  | inl two ↦
      let up : pos + 1 + 1 ≡ pos + 2 = omega arith in
      rw (two, drop-get_or pos inp some, drop-get_or (pos + 1) inp (ground arith), up) refl
  | inr one ↦
      let e : ltb pos (length inp) ≡ true = lt→ltb _ _ some in
      rw
        (
          one,
          e,
          drop-get_or pos inp some,
          drop_past (pos + 1) inp (ground arith),
          drop_past (length inp) inp (omega arith),
        )
        (sym (append-nil (to_bits 16 (get_or inp pos 0))))
]

next_word-lt : (inp : List ℕ) (pos : ℕ) → IsBytes inp → (next_word inp pos).0 < 65536
unfolding next_word
next_word-lt inp pos h = ground (arith, byte_at inp pos h, byte_at inp (pos + 1) h)

-- A word below held bits, in the accumulator.
joined :
    (nb held acc w : ℕ)
    → nb ≤ 15
    → w < 65536
    → acc ≡ held * 2 ^ (32 - nb)
    → bit_or acc (shl32 w (u8 (16 + 256 - nb))) ≡ (held * 65536 + w) * 2 ^ (16 - nb)
joined nb held acc w few small e =
    let m = 16 - nb in
    let shift : u8 (16 + 256 - nb) ≡ m = omega arith in
    let wide : 32 - nb ≡ 16 + m = omega arith in
    let power : 2 ^ (32 - nb) ≡ 65536 * 2 ^ m = rw (wide, pow2-add 16 m) refl in
    let under : w * 2 ^ m < 2 ^ (32 - nb) =
      omega (arith, power, mul-lt-mul_of_pos_right {k = 2 ^ m} small (pow2-pos m)) in
    let low : 32 - nb ≤ 32 = omega arith in
    let inside : 2 ^ (32 - nb) ≤ 2 ^ 32 = pow-le-pow_right {n = 2} (omega arith) low in
    let word : shl32 w m ≡ w * 2 ^ m = mod-eq_of_lt (omega arith) in
    rw (shift, word, e, bit_or_disjoint (32 - nb) held (w * 2 ^ m) under, power) (omega arith)

feed-IsAt :
    (b : BitReader) (stream : List ℕ)
    → b.nbits ≤ 15
    → b.pos < length b.inp
    → IsBytes b.inp
    → IsAt b stream
    → IsAt (feed b) stream × Continues b (feed b) × ((feed b).nbits ≡ b.nbits + 16)
unfolding feed
feed-IsAt b stream few some bytes k =
    let w = (next_word b.inp b.pos).0 in
    let lt : w < 65536 = next_word-lt b.inp b.pos bytes in
    let count : u8 (b.nbits + 16) ≡ b.nbits + 16 = omega arith in
    let left : 32 - (b.nbits + 16) ≡ 16 - b.nbits = omega arith in
    let swap : b.nbits + 16 ≡ 16 + b.nbits = omega arith in
    (
      record {
        held = k.held * 65536 + w;
        small = rw count (omega (arith, k.small, lt, pow2-add b.nbits 16));
        few = rw count (omega arith);
        packed = rw (count, left) (joined b.nbits k.held b.acc w few lt k.packed);
        ahead =
            rw (count, swap, to_bits-add b.nbits 16 k.held w lt)
              (append_assoc (to_bits b.nbits k.held) (to_bits 16 w) _
                ∙ rw (← next_word-eq b.inp b.pos some) k.ahead);
      },
      record { same_input = refl; same_flag = refl; same_failed = refl },
      count,
    )

-- A stream that has more bits than are held has another word.
more_input :
    (b : BitReader) (n : ℕ) (stream : List ℕ)
    → b.nbits < n
    → n ≤ length stream
    → IsAt b stream
    → b.pos < length b.inp
more_input b n stream less enough k = elim (Bool-cases (ltb b.pos (length b.inp))) [
  | inl e ↦ ltb→lt _ _ e
  | inr e ↦
      let none : drop b.pos b.inp ≡ [] = drop_past b.pos b.inp (ltb-false→le _ _ e) in
      let all : to_bits b.nbits k.held ++ [] ≡ stream = rw none at k.ahead in
      absurd (
        omega (
          arith,
          ap length all,
          length-append (to_bits b.nbits k.held) [],
          length-to_bits b.nbits k.held,
        ))
]

pub Continues-trans : (a b c : BitReader) → Continues a b → Continues b c → Continues a c
Continues-trans a b c p q = record {
  same_input = q.same_input ∙ p.same_input;
  same_flag = q.same_flag ∙ p.same_flag;
  same_failed = q.same_failed ∙ p.same_failed;
}

-- Reading n bits of a stream that has as many gives their number, and leaves the rest of the stream.
pub bits-IsAt :
    (b : BitReader) (n : ℕ) (stream : List ℕ)
    → n ≤ 16
    → n ≤ length stream
    → IsBytes b.inp
    → IsAt b stream
    → (b' : BitReader) × (bits b n ≡ (from_bits 0 (take n stream), b'))
      × IsAt b' (drop n stream)
      × Continues b b'
unfolding bits
bits-IsAt b zero stream narrow enough bytes k =
    (b, refl, k, record { same_input = refl; same_flag = refl; same_failed = refl })
bits-IsAt b (suc n) stream narrow enough bytes k = elim (Bool-cases (ltb b.nbits (suc n))) [
  | inr have ↦
      let some : (suc n == 0) ≡ false = ground arith in
      rw (some, have) (take_bits-IsAt b (suc n) stream (ltb-false→le _ _ have) narrow k)
  | inl less ↦
      let lt : b.nbits < suc n = ltb→lt _ _ less in
      let (fed, same, count) =
        feed-IsAt b stream (omega arith) (more_input b (suc n) stream lt enough k) bytes k in
      let (b', e, at', same') =
        take_bits-IsAt (feed b) (suc n) stream (omega (arith, count)) narrow fed in
      let some : (suc n == 0) ≡ false = ground arith in
      rw (some, less) (b', e, at', Continues-trans b (feed b) b' same same')
]
