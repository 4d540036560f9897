-- ===== src/Lzx/BitWriter/Suffix.antt =====
-- The writer puts bits at the end of a stream.
use go_wim.Base.{
  ℕ, zero, suc, ◌+◌, ◌-◌, ◌*◌, ◌/◌, ◌%◌, ◌^◌, ◌≤◌, ◌<◌, ◌≡◌, refl, sym, ap, subst, ◌∙◌, true, false,
  inl, inr, List, [], ◌∷◌, ◌++◌, append_assoc, append-nil, arith, ltb, leb, ◌==◌, Bool-cases,
  leb→le, leb-false→lt, u8, u16, IsBytes, bit_or, bit_and, bit_and_mask, bit_or_disjoint, pow2-pos,
}
use native.Mathlib.Nat.{
  mod-lt, mul-lt-mul_of_pos_right, mod-eq_of_lt, mul-le-mul_right, add_comm, pow-le-pow_right,
}
use go_wim.Lzx.BitReader.{shl32}
use go_wim.Lzx.Stream.{
  to_bits, words_bits, to_bits-add, to_bits_split, pow2-add, high_part, low_part,
}
use go_wim.Lzx.BitWriter.{BitWriter, new_writer, drain, push, write, flush}

-- The writer has put out whole words, and holds fewer than 16 bits at the top of the accumulator; the
-- stream is those words and those bits.
pub record Holds (w : BitWriter) (stream : List ℕ) : Type 0 where
  pub held : ℕ
  pub small : held < 2 ^ w.nbits
  pub few : w.nbits ≤ 15
  pub packed : w.acc ≡ held * 2 ^ (32 - w.nbits)
  pub written : words_bits w.out ++ to_bits w.nbits held ≡ stream
  pub joins : (more : List ℕ) → words_bits (w.out ++ more) ≡ words_bits w.out ++ words_bits more
  pub bytes : IsBytes w.out

pub new_writer-Holds : Holds new_writer []
unfolding new_writer
new_writer-Holds = record {
  held = 0;
  small = omega arith;
  few = omega arith;
  packed = refl;
  written = refl;
  joins = λ more. refl;
  bytes = tt;
}

-- The bits of a field below the held ones.
pushed :
    (nb n held acc v : ℕ)
    → nb ≤ 15
    → n ≤ 16
    → acc ≡ held * 2 ^ (32 - nb)
    → bit_or acc (shl32 (bit_and v (2 ^ n - 1)) (u8 (32 + 512 - nb - n)))
      ≡ (held * 2 ^ n + v % 2 ^ n) * 2 ^ (32 - (nb + n))
pushed nb n held acc v few narrow e =
    let j = 32 - (nb + n) in
    let m = v % 2 ^ n in
    let shift : u8 (32 + 512 - nb - n) ≡ j = omega arith in
    let wide : 32 - nb ≡ n + j = omega arith in
    let power : 2 ^ (32 - nb) ≡ 2 ^ n * 2 ^ j = rw (wide, pow2-add n j) refl in
    let under : m * 2 ^ j < 2 ^ (32 - nb) =
      omega
        (arith, power, mul-lt-mul_of_pos_right {k = 2 ^ j} (mod-lt v (pow2-pos n)) (pow2-pos j)) in
    let low : 32 - nb ≤ 32 = omega arith in
    let inside : 2 ^ (32 - nb) ≤ 2 ^ 32 = pow-le-pow_right {n = 2} (omega arith) low in
    let field : shl32 m j ≡ m * 2 ^ j = mod-eq_of_lt (omega arith) in
    rw (bit_and_mask n v, shift, field, e, bit_or_disjoint (32 - nb) held (m * 2 ^ j) under, power)
      (omega arith)

-- One word put out, where there are 16 bits.
word-bits : (x : ℕ) → x < 65536 → words_bits (u8 (u16 x) ∷ u8 (u16 x / 2 ^ 8) ∷ []) ≡ to_bits 16 x
word-bits x small =
    let e : u8 (u16 x) + 256 * u8 (u16 x / 2 ^ 8) ≡ x = omega arith in
    append-nil (to_bits 16 (u8 (u16 x) + 256 * u8 (u16 x / 2 ^ 8))) ∙ ap (to_bits 16) e

-- The words of an output that a word was added to.
abbrev Joins : List ℕ → Type 0
Joins out = (more : List ℕ) → words_bits (out ++ more) ≡ words_bits out ++ words_bits more

word-Joins :
    (out : List ℕ) (lo hi : ℕ)
    → Joins out
    → (words_bits (out ++ (lo ∷ hi ∷ [])) ≡ words_bits out ++ to_bits 16 (lo + 256 * hi))
      × Joins (out ++ (lo ∷ hi ∷ []))
word-Joins out lo hi joins =
    let word : words_bits (out ++ (lo ∷ hi ∷ [])) ≡ words_bits out ++ to_bits 16 (lo + 256 * hi) =
      joins (lo ∷ hi ∷ [])
      ∙ ap (λ t. words_bits out ++ t) (append-nil (to_bits 16 (lo + 256 * hi))) in
    (
      word,
      λ more.
          ap words_bits (append_assoc out (lo ∷ hi ∷ []) more)
          ∙ joins (lo ∷ hi ∷ more)
          ∙ rw word
              (sym (append_assoc (words_bits out) (to_bits 16 (lo + 256 * hi)) (words_bits more))),
    )

IsBytes-snoc :
    (out : List ℕ) (a b : ℕ) → IsBytes out → a < 256 → b < 256 → IsBytes (out ++ (a ∷ b ∷ []))
IsBytes-snoc [] a b h p q = (p, (q, tt))
IsBytes-snoc (x ∷ out) a b (h, hs) p q = (h, IsBytes-snoc out a b hs p q)

drain_small : (fuel : ℕ) (w : BitWriter) → w.nbits ≤ 15 → drain fuel w ≡ w
unfolding drain
drain_small zero w few = refl
drain_small (suc fuel) w few = let e : leb 16 w.nbits ≡ false = ground arith in rw e refl

-- The numbers of a round of `drain`.
drain_numbers :
    (i j acc held : ℕ)
    → i + 16 + j ≡ 32
    → held < 2 ^ (i + 16)
    → acc ≡ held * 2 ^ j
    → (acc / 2 ^ 16 ≡ held / 2 ^ i)
      × (held / 2 ^ i < 65536)
      × (shl32 acc 16 ≡ held % 2 ^ i * 2 ^ (32 - i))
drain_numbers i j acc held whole small e =
    let (value, below) = high_part i 16 j acc held small e in
    let sum : i + j ≡ 16 = omega arith in
    let up : j + 16 ≡ 32 - i = omega arith in
    (rw sum at value, below, low_part i 16 j acc held whole e ∙ rw up refl)

drain_word :
    (w : BitWriter) (held : ℕ) (stream : List ℕ)
    → held < 2 ^ w.nbits
    → w.nbits ≤ 31
    → w.acc ≡ held * 2 ^ (32 - w.nbits)
    → words_bits w.out ++ to_bits w.nbits held ≡ stream
    → Joins w.out
    → IsBytes w.out
    → leb 16 w.nbits ≡ true
    → Holds (drain 16 w) stream
unfolding drain
drain_word w held stream small few packed written joins bytes full =
    let i = w.nbits - 16 in
    let many : 16 ≤ w.nbits = leb→le _ _ full in
    let sum : w.nbits ≡ i + 16 = omega arith in
    let power : 2 ^ w.nbits ≡ 2 ^ (i + 16) = ap (λ t. 2 ^ t) sum in
    let (value, below, low) =
      drain_numbers i (32 - w.nbits) w.acc held (omega arith) (omega (arith, small, power))
        packed in
    let x = held / 2 ^ i in
    let (word, joins') = word-Joins w.out (u8 (u16 x)) (u8 (u16 x / 2 ^ 8)) joins in
    let number : u8 (u16 x) + 256 * u8 (u16 x / 2 ^ 8) ≡ x = omega arith in
    let swap : w.nbits ≡ 16 + i = omega arith in
    rw
      (
        full,
        value,
        low,
        drain_small 15
            (record {
              out = w.out ++ (u8 (u16 x) ∷ u8 (u16 x / 2 ^ 8) ∷ []);
              acc = held % 2 ^ i * 2 ^ (32 - i);
              nbits = i;
            })
            (omega arith),
      )
      (record {
        held = held % 2 ^ i;
        small = mod-lt held (pow2-pos i);
        few = omega arith;
        packed = refl;
        written =
            rw (word, number)
              (append_assoc (words_bits w.out) (to_bits 16 x) (to_bits i (held % 2 ^ i))
                ∙ rw (← to_bits_split 16 i held, ← sum) written);
        joins = joins';
        bytes = IsBytes-snoc w.out _ _ bytes (omega arith) (omega arith);
      })

drain-Holds :
    (w : BitWriter) (held : ℕ) (stream : List ℕ)
    → held < 2 ^ w.nbits
    → w.nbits ≤ 31
    → w.acc ≡ held * 2 ^ (32 - w.nbits)
    → words_bits w.out ++ to_bits w.nbits held ≡ stream
    → Joins w.out
    → IsBytes w.out
    → Holds (drain 16 w) stream
drain-Holds w held stream small few packed written joins bytes =
    elim (Bool-cases (leb 16 w.nbits)) [
      | inr less ↦
          let lt : w.nbits < 16 = leb-false→lt _ _ less in
          rw (drain_small 16 w (omega arith)) (record {
            held = held;
            small = small;
            few = omega arith;
            packed = packed;
            written = written;
            joins = joins;
            bytes = bytes;
          })
      | inl full ↦ drain_word w held stream small few packed written joins bytes full
    ]

pushed_small : (nb n held m : ℕ) → held < 2 ^ nb → m < 2 ^ n → held * 2 ^ n + m < 2 ^ (nb + n)
pushed_small nb n held m small field =
    omega (arith, pow2-add nb n, mul-le-mul_right {m = held + 1} {n = 2 ^ nb} (2 ^ n) (omega arith))

pub write-Holds :
    (w : BitWriter) (v n : ℕ) (stream : List ℕ)
    → n ≤ 16
    → Holds w stream
    → Holds (write w v n) (stream ++ to_bits n (v % 2 ^ n))
unfolding write push
write-Holds w v n stream narrow k = elim (Bool-cases (n == 0)) [
  | inl none ↦
      let e : n ≡ 0 = ground arith in rw (none, e) (subst (Holds w) (sym (append-nil stream)) k)
  | inr some ↦
      let few : w.nbits ≤ 15 = k.few in
      let count : u8 (w.nbits + n) ≡ w.nbits + n = omega arith in
      let field : v % 2 ^ n < 2 ^ n = mod-lt v (pow2-pos n) in
      let bits = to_bits-add w.nbits n k.held (v % 2 ^ n) field in
      let swap : n + w.nbits ≡ w.nbits + n = omega arith in
      rw (some, count, pushed w.nbits n k.held w.acc v k.few narrow k.packed)
        (drain-Holds
          (record {
            out = w.out;
            acc = (k.held * 2 ^ n + v % 2 ^ n) * 2 ^ (32 - (w.nbits + n));
            nbits = w.nbits + n;
          })
          (k.held * 2 ^ n + v % 2 ^ n) (stream ++ to_bits n (v % 2 ^ n))
          (pushed_small w.nbits n k.held (v % 2 ^ n) k.small field) (omega arith) refl
          (rw (← swap, bits)
            (sym (append_assoc (words_bits w.out) (to_bits w.nbits k.held) (to_bits n (v % 2 ^ n)))
              ∙ rw k.written refl))
          k.joins k.bytes)
]

word_value :
    (acc held wide m : ℕ) → wide ≡ m + 16 → acc ≡ held * 2 ^ wide → acc / 2 ^ 16 ≡ held * 2 ^ m
word_value acc held wide m e f =
    let p : held * 2 ^ wide ≡ held * 2 ^ m * 65536 = rw (e, pow2-add m 16) (omega arith) in
    omega (arith, f, p)

padded : (nb m held : ℕ) → m + nb ≡ 16 → to_bits 16 (held * 2 ^ m) ≡ to_bits nb held ++ to_bits m 0
padded nb m held whole =
    let none : held * 2 ^ m + 0 ≡ held * 2 ^ m = omega arith in
    let bits = to_bits-add nb m held 0 (pow2-pos m) in rw (whole, none) at bits

-- The rest of the last word is zeros.
pub flush-words :
    (w : BitWriter) (stream : List ℕ)
    → Holds w stream
    → (pad : List ℕ) × (words_bits (flush w).out ≡ stream ++ pad) × IsBytes (flush w).out
unfolding flush
flush-words w stream k = elim (Bool-cases (ltb 0 w.nbits)) [
  | inr none ↦
      let zero_bits : w.nbits ≡ 0 = ground arith in
      rw none (
        [],
        (rw (zero_bits, append-nil (words_bits w.out)) at k.written) ∙ sym (append-nil stream),
        k.bytes,
      )
  | inl some ↦
      let m = 16 - w.nbits in
      let few : w.nbits ≤ 15 = k.few in
      let wide : 32 - w.nbits ≡ m + 16 = omega arith in
      let x = k.held * 2 ^ m in
      let whole : m + w.nbits ≡ 16 = omega arith in
      let power : 2 ^ w.nbits * 2 ^ m ≡ 65536 =
        sym (pow2-add w.nbits m) ∙ rw (add_comm w.nbits m, whole) refl in
      let below : x < 65536 =
        omega (arith, power, mul-lt-mul_of_pos_right {k = 2 ^ m} k.small (pow2-pos m)) in
      let word : w.acc / 2 ^ 16 ≡ x = word_value w.acc k.held (32 - w.nbits) m wide k.packed in
      let number : u8 (u16 x) + 256 * u8 (u16 x / 2 ^ 8) ≡ x = omega arith in
      let bits : to_bits 16 x ≡ to_bits w.nbits k.held ++ to_bits m 0 =
        padded w.nbits m k.held whole in
      rw (some, word)
        (
          to_bits m 0,
          (word-Joins w.out (u8 (u16 x)) (u8 (u16 x / 2 ^ 8)) k.joins).0
              ∙ ap (λ t. words_bits w.out ++ t) (ap (to_bits 16) number ∙ bits)
              ∙ sym (append_assoc (words_bits w.out) (to_bits w.nbits k.held) (to_bits m 0))
              ∙ ap (λ t. t ++ to_bits m 0) k.written,
          IsBytes-snoc w.out _ _ k.bytes (omega arith) (omega arith),
        )
]
