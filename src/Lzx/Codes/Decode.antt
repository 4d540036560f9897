-- ===== src/Lzx/Codes/Decode.antt =====
-- A canonical code read by `sym`.
use go_wim.Base.{
  ℕ, zero, suc, ◌+◌, ◌-◌, ◌*◌, ◌/◌, ◌%◌, ◌^◌, ◌≤◌, ◌<◌, ◌≡◌, refl, subst, ap, ◌∙◌, true, false, inl,
  inr, List, ◌∷◌, ◌++◌, arith, ltb, leb, ◌==◌, Bool-cases, length, get_or, bit_or, bit_or_disjoint,
  pow2-pos, le→ltb-false, lt→ltb, IsBytes, Result, ok, at, at-eq,
}
use native.Mathlib.Nat.{
  pow-suc, mul-le-mul_right, zero-add, div-add-mod', mod-lt, div-lt_iff_lt-mul,
}
use go_wim.Lzx.Stream.{to_bits, to_bits_split}
use go_wim.Lzx.BitReader.{BitReader, bits}
use go_wim.Lzx.BitReader.Prefix.{IsAt, Continues, Continues-trans, bits-IsAt}
use go_wim.Lzx.Huffman.{Huffman, sym_loop, symbol_at, sym}
use go_wim.Lzx.Huffman.Counts.{occurs, shorter, shorter-suc, shorter-one, shorter-le-length}
use go_wim.Lzx.Codes.First.{
  first_of, IsComplete, first_of-le, first_of-ge, rank, rank-lt, code_of, All-at,
}
use go_wim.Lzx.Codes.Table.{Decodes}

-- The first of m + 1 bits, and what is behind it.
first_bit : (m v : ℕ) → v < 2 ^ suc m → to_bits (suc m) v ≡ (v / 2 ^ m) ∷ to_bits m (v % 2 ^ m)
first_bit m v small =
    let sum : suc m ≡ m + 1 = omega arith in
    let low : v / 2 ^ m < 2 =
      (div-lt_iff_lt-mul (pow2-pos m)).1 (omega (arith, small, pow-suc 2 m)) in
    let bit : v / 2 ^ m % 2 ≡ v / 2 ^ m = omega (arith, low) in
    ap (λ n. to_bits n v) sum ∙ to_bits_split 1 m v ∙ ap (λ d. d ∷ to_bits m (v % 2 ^ m)) bit

-- One bit of a code in the stream.
next_bit :
    (b : BitReader) (m v : ℕ) (rest : List ℕ)
    → v < 2 ^ suc m
    → IsBytes b.inp
    → IsAt b (to_bits (suc m) v ++ rest)
    → (b' : BitReader) × (bits b 1 ≡ (v / 2 ^ m, b'))
      × IsAt b' (to_bits m (v % 2 ^ m) ++ rest)
      × Continues b b'
next_bit b m v rest small bytes k =
    let e = ap (λ bs. bs ++ rest) (first_bit m v small) in
    let (b', read, k', c) =
      bits-IsAt b 1 ((v / 2 ^ m) ∷ (to_bits m (v % 2 ^ m) ++ rest)) (omega arith) (omega arith)
        bytes (subst (λ bs. IsAt b bs) e k) in
    (b', read ∙ ap (λ d. (d, b')) (zero-add (v / 2 ^ m)), k', c)

-- A code that lies behind those of length l has a prefix of l bits behind them too.
behind : (a p v k : ℕ) → a * k ≤ p * k + v → v < k → a ≤ p
behind a p v k le small = elim (Bool-cases (leb a p)) [
  | inl holds ↦ ground arith
  | inr fails ↦
      let over : p + 1 ≤ a = ground arith in
      absurd (omega (arith, le, small, mul-le-mul_right k over))
]

add_digit : (p q r k v c : ℕ) → q * k + r ≡ v → p * (k * 2) + v ≡ c → (p * 2 + q) * k + r ≡ c
add_digit p q r k v c e f = omega (arith, e, f)

next_prefix : (p v m c : ℕ) → p * 2 ^ suc m + v ≡ c → (p * 2 + v / 2 ^ m) * 2 ^ m + v % 2 ^ m ≡ c
next_prefix p v m c e =
    add_digit p (v / 2 ^ m) (v % 2 ^ m) (2 ^ m) v c (div-add-mod' v (2 ^ m))
      (subst (λ t. p * t + v ≡ c) (pow-suc 2 m) e)

-- The last bit of the code of s: the symbol is there.
module _ (lens : List ℕ) (h : Huffman) (d : Decodes lens h) (k : IsComplete lens) (s : ℕ)
    (coded_s : s < length lens) (some : 1 ≤ get_or lens s 0) where
  abbrev len : ℕ
  len = get_or lens s 0

  len-le : len ≤ 16
  len-le = All-at s lens k.limits

  slot : (l : ℕ) → l ≤ 16 → at h.count l ≡ ok (occurs l lens)
  slot l l16 = at-eq h.count l 0 (omega (arith, d.count_size)) ∙ ap ok (d.counts l)

  found : symbol_at h (shorter len lens) (code_of lens s) (first_of lens len) ≡ ok s
  unfolding symbol_at
  found =
      let le : leb (first_of lens len) (shorter len lens + code_of lens s) ≡ true = ground arith in
      let index : shorter len lens + code_of lens s - first_of lens len
          ≡ shorter len lens + rank len s lens =
        omega arith in
      let low : shorter len lens + rank len s lens < length h.symbol = omega (
        arith,
        d.symbol_size,
        k.few,
        rank-lt s lens coded_s,
        shorter-suc len lens some,
        shorter-le-length (len + 1) lens,
      ) in
      rw (le, index, at-eq h.symbol (shorter len lens + rank len s lens) 0 low)
        (ap ok (d.symbols s coded_s some))

  sym_loop-hit :
      (rounds p : ℕ) (b b' : BitReader)
      → bits b 1 ≡ (code_of lens s % 2, b')
      → p ≡ code_of lens s / 2
      → sym_loop (suc rounds) len b h (p * 2) (first_of lens len) (shorter len lens) ≡ ok (s, b')
  unfolding sym_loop
  sym_loop-hit rounds p b b' read prefix =
      let code : bit_or (p * 2) (code_of lens s % 2) ≡ code_of lens s =
        bit_or_disjoint 1 p (code_of lens s % 2) (omega arith) ∙ omega (arith, prefix) in
      let hit : ltb (code_of lens s) (first_of lens len + occurs len lens) ≡ true =
        lt→ltb _ _ (omega (arith, rank-lt s lens coded_s)) in
      rw (read, slot len len-le, code, hit, found) refl

  -- A bit before the last one: no code of this length fits.
  sym_loop-miss :
      (rounds l m p v : ℕ) (b b' : BitReader) (r : Result (ℕ × BitReader))
      → l + suc m ≡ len
      → 1 ≤ l
      → v < 2 ^ suc (suc m)
      → p * 2 ^ suc (suc m) + v ≡ code_of lens s
      → bits b 1 ≡ (v / 2 ^ suc m, b')
      → sym_loop rounds
          (suc l)
          b'
          h
          ((p * 2 + v / 2 ^ suc m) * 2)
          (first_of lens (suc l))
          (shorter (suc l) lens)
        ≡ r
      → sym_loop (suc rounds) l b h (p * 2) (first_of lens l) (shorter l lens) ≡ r
  unfolding sym_loop
  sym_loop-miss rounds l m p v b b' r sum l1 small value read e =
      let bit : v / 2 ^ suc m < 2 =
        (div-lt_iff_lt-mul (pow2-pos (suc m))).1 (omega (arith, small, pow-suc 2 (suc m))) in
      let code : bit_or (p * 2) (v / 2 ^ suc m) ≡ p * 2 + v / 2 ^ suc m =
        bit_or_disjoint 1 p (v / 2 ^ suc m) bit in
      let later : (first_of lens l + occurs l lens) * 2 ^ suc m ≤ first_of lens len =
        subst (λ n. (first_of lens l + occurs l lens) * 2 ^ suc m ≤ first_of lens n) sum
          (first_of-ge lens l m l1) in
      let low : first_of lens l + occurs l lens ≤ p * 2 + v / 2 ^ suc m =
        behind (first_of lens l + occurs l lens) (p * 2 + v / 2 ^ suc m) (v % 2 ^ suc m) (2 ^ suc m)
          (omega (arith, later, next_prefix p v (suc m) (code_of lens s) value))
          (mod-lt v (pow2-pos (suc m))) in
      let up : l + 1 ≡ suc l = omega arith in
      let first : (first_of lens l + occurs l lens) * 2 ≡ first_of lens (suc l) = ground arith in
      let index : shorter l lens + occurs l lens ≡ shorter (suc l) lens =
        subst (λ n. shorter l lens + occurs l lens ≡ shorter n lens) up
          (omega (arith, shorter-suc l lens l1)) in
      rw
        (
          read,
          slot l (omega (arith, len-le)),
          code,
          le→ltb-false (p * 2 + v / 2 ^ suc m) (first_of lens l + occurs l lens) low,
          up,
          first,
          index,
        )
        e

  -- From the prefix p of l - 1 bits on, with the bits of v left.
  sym_loop-code :
      (m rounds l p v : ℕ) (b : BitReader) (rest : List ℕ)
      → l + m ≡ len
      → 1 ≤ l
      → m < rounds
      → v < 2 ^ suc m
      → p * 2 ^ suc m + v ≡ code_of lens s
      → IsBytes b.inp
      → IsAt b (to_bits (suc m) v ++ rest)
      → (b' : BitReader) × (sym_loop rounds l b h (p * 2) (first_of lens l) (shorter l lens)
          ≡ ok (s, b'))
        × IsAt b' rest
        × Continues b b'
  sym_loop-code m zero l p v b rest sum l1 more small value bytes at_code = absurd (omega arith)
  sym_loop-code zero (suc rounds) l p v b rest sum l1 more small value bytes at_code =
      let (b', read, k', c) = next_bit b 0 v rest small bytes at_code in
      let same : len ≡ l = omega (arith, sum) in
      let bit : v / 2 ^ 0 ≡ code_of lens s % 2 = omega (arith, value, small) in
      let hit =
        sym_loop-hit rounds p b b' (read ∙ ap (λ d. (d, b')) bit) (omega (arith, value, small)) in
      (
        b',
        subst
            (λ n.
              sym_loop (suc rounds) n b h (p * 2) (first_of lens n) (shorter n lens) ≡ ok (s, b'))
            same hit,
        k',
        c,
      )
  sym_loop-code (suc m) (suc rounds) l p v b rest sum l1 more small value bytes at_code =
      let (b', read, k', c) = next_bit b (suc m) v rest small bytes at_code in
      let (b'', e, k'', c') =
        sym_loop-code m rounds (suc l) (p * 2 + v / 2 ^ suc m) (v % 2 ^ suc m) b' rest
          (omega (arith, sum)) (omega arith) (omega arith) (mod-lt v (pow2-pos (suc m)))
          (next_prefix p v (suc m) (code_of lens s) value) (rw c.same_input bytes) k' in
      (
        b'',
        sym_loop-miss rounds l m p v b b' (ok (s, b'')) sum l1 small value read e,
        k'',
        Continues-trans b b' b'' c c',
      )

-- The loop's first round has no code yet.
sym_of_loop :
    (lens : List ℕ) (h : Huffman) (s : ℕ) (b : BitReader) (rest : List ℕ)
    → 1 ≤ h.max_bits
    → (b' : BitReader) × (sym_loop h.max_bits 1 b h (0 * 2) (first_of lens 1) (shorter 1 lens)
        ≡ ok (s, b'))
      × IsAt b' rest
      × Continues b b'
    → (b' : BitReader) × (sym b h ≡ ok (s, b')) × IsAt b' rest × Continues b b'
unfolding sym
sym_of_loop lens h s b rest deep (b', e, k, c) =
    let filled : (h.max_bits == 0) ≡ false = ground arith in
    (
      b',
      rw filled (subst (λ n. sym_loop h.max_bits 1 b h 0 0 n ≡ ok (s, b')) (shorter-one lens) e),
      k,
      c,
    )

-- `sym` on the code of a symbol of positive length, in a table that decodes the lengths of a complete
-- code: it returns the symbol and a reader behind the code, with the same input and flags.
pub sym-code :
    (lens : List ℕ) (h : Huffman) (s : ℕ) (b : BitReader) (rest : List ℕ)
    → IsComplete lens
    → Decodes lens h
    → s < length lens
    → 1 ≤ get_or lens s 0
    → IsBytes b.inp
    → IsAt b (to_bits (get_or lens s 0) (code_of lens s) ++ rest)
    → (b' : BitReader) × (sym b h ≡ ok (s, b')) × IsAt b' rest × Continues b b'
sym-code lens h s b rest k d in_range some bytes at_code =
    let len = get_or lens s 0 in
    let m = len - 1 in
    let up : len ≡ suc m = omega (arith, some) in
    let small : code_of lens s < 2 ^ suc m =
      subst (λ n. code_of lens s < 2 ^ n) up
        (omega
          (arith, first_of-le lens len k some (All-at s lens k.limits), rank-lt s lens in_range)) in
    sym_of_loop lens h s b rest (omega (arith, d.deep s, some)) (
      sym_loop-code lens h d k s in_range some m h.max_bits 1 0 (code_of lens s) b rest
        (omega (arith, some)) (omega arith) (omega (arith, d.deep s, some)) small (omega arith)
        bytes (subst (λ n. IsAt b (to_bits n (code_of lens s) ++ rest)) up at_code))
