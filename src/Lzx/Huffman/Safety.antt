-- ===== src/Lzx/Huffman/Safety.antt =====
-- Building a table and decoding a symbol index nothing out of range, whatever the code lengths and
-- the bits are.
use go_wim.Base.{
  ok, ℕ, zero, suc, ◌+◌, ◌-◌, ◌*◌, ◌≤◌, ◌<◌, ◌≡◌, refl, sym as sym_path, ◌∙◌, List, [], ◌∷◌, arith,
  ltb, ◌==◌, if◌then◌else◌, length, set, get_or, replicate, get_or-set, get_or-replicate,
  length-set, All, u16, bit_or, Finishes, value, error, Finishes-bind, Finishes-guard, Finishes-map,
  lzx_corrupt, le→leb, le-bit_or, Finishes-if, at-eq, put-eq, ltb-false→le, ltb→lt,
}
use go_wim.Lzx.BitReader.{BitReader, bits}
use go_wim.Lzx.Huffman.{
  Huffman, new_huffman, count_lens, code_space, symbol_offsets, fill_symbols, build_symbols, build,
  symbol_at, sym_loop, sym,
}
use go_wim.Lzx.Huffman.Counts.{occurs, shorter, shorter-suc, shorter-one, shorter-le-length}

-- The counts of an array are those of the code lengths `lens`.
abbrev pub Counts : List ℕ → List ℕ → Type 0
Counts count lens = (l : ℕ) → get_or count l 0 ≡ occurs l lens

-- A table that `build` may leave: `lens` are the code lengths that it was built from.
pub record IsTable (h : Huffman) : Type 0 where
  pub lens : List ℕ
  pub few : length lens ≤ 496
  pub counts : Counts h.count lens
  pub count_size : length h.count ≡ 17
  pub symbol_size : length h.symbol ≡ 496
  pub depth : h.max_bits ≤ 16

-- What `count_lens` leaves of an array that it began with.
pub record Counted (lens count : List ℕ) (r : List ℕ × ℕ) : Type 0 where
  pub size : length r.0 ≡ 17
  pub depth : r.1 ≤ 16
  pub limits : All (λ l. l ≤ 16) lens
  pub counts : (l : ℕ) → get_or r.0 l 0 ≡ get_or count l 0 + occurs l lens

-- Counting one length keeps the others.
count_step :
    (l j : ℕ) (lens count : List ℕ)
    → l < length count
    → get_or count l 0 + length (l ∷ lens) ≤ 496
    → get_or (set count l (u16 (get_or count l 0 + 1))) j 0 + occurs j lens
      ≡ get_or count j 0 + occurs j (l ∷ lens)
count_step l j lens count slot room =
    ground (arith, get_or-set count l j (u16 (get_or count l 0 + 1)) 0 slot)

count_step-le :
    (l j : ℕ) (lens count : List ℕ)
    → l < length count
    → ((j : ℕ) → get_or count j 0 + length (l ∷ lens) ≤ 496)
    → get_or (set count l (u16 (get_or count l 0 + 1))) j 0 + length lens ≤ 496
count_step-le l j lens count slot room =
    ground (arith, room j, room l, get_or-set count l j (u16 (get_or count l 0 + 1)) 0 slot)

count_lens-Counted :
    (lens count : List ℕ) (longest : ℕ)
    → length count ≡ 17
    → longest ≤ 16
    → ((l : ℕ) → get_or count l 0 + length lens ≤ 496)
    → Finishes (Counted lens count) (count_lens lens count longest)
unfolding count_lens
count_lens-Counted [] count longest hc hm room =
    value (record { size = hc; depth = hm; limits = tt; counts = λ l. omega arith })
count_lens-Counted (l ∷ lens) count longest hc hm room =
    Finishes-if (ltb 16 l) (λ e. error)
      λ fits.
        let l_fits : l ≤ 16 = ltb-false→le 16 l fits in
        let slot : l < length count = omega arith in
        rw (at-eq count l 0 slot) (
          Finishes-map
            (λ r k. record {
              size = k.size;
              depth = k.depth;
              limits = (l_fits, k.limits);
              counts = λ j. k.counts j ∙ count_step l j lens count slot (room l);
            })
            (count_lens-Counted lens (set count l (u16 (get_or count l 0 + 1)))
              (if ltb longest l then l else longest) (length-set count l _ ∙ hc) (ground arith)
              (λ j. count_step-le l j lens count slot room)))

code_space-Finishes :
    (rounds l : ℕ) (count : List ℕ) (left : ℕ)
    → l + rounds ≤ length count
    → Finishes (λ r. Unit) (code_space rounds l count left)
unfolding code_space
code_space-Finishes zero l count left h = value tt
code_space-Finishes (suc rounds) l count left h = rw (at-eq count l 0 (omega arith)) (
    Finishes-if (ltb (2 * left) (get_or count l 0)) (λ e. error)
      (λ e. code_space-Finishes rounds (l + 1) count _ (omega arith)))

-- Up to length l the offsets are where the symbols of each length begin.
abbrev pub Offsets : ℕ → List ℕ → List ℕ → Type 0
Offsets l lens offs =
    (length offs ≡ 18) × ((j : ℕ) → 1 ≤ j → j ≤ l → get_or offs j 0 ≡ shorter j lens)

Offsets-step :
    (l j : ℕ) (lens count offs : List ℕ)
    → 1 ≤ l
    → l ≤ 16
    → length lens ≤ 496
    → Counts count lens
    → Offsets l lens offs
    → 1 ≤ j
    → j ≤ l + 1
    → get_or (set offs (l + 1) (u16 (get_or offs l 0 + get_or count l 0))) j 0 ≡ shorter j lens
Offsets-step l j lens count offs h1 h16 few hc (size, ho) j1 jl = ground (
  arith,
  get_or-set offs (l + 1) j (u16 (get_or offs l 0 + get_or count l 0)) 0 (omega arith),
  ho l,
  ho j,
  hc l,
  shorter-suc l lens,
  shorter-le-length (l + 1) lens,
)

pub symbol_offsets-Offsets :
    (rounds l : ℕ) (lens count offs : List ℕ)
    → 1 ≤ l
    → l + rounds ≤ 16
    → length lens ≤ 496
    → length count ≡ 17
    → Counts count lens
    → Offsets l lens offs
    → (r : List ℕ) × (symbol_offsets rounds l count offs ≡ ok r) × Offsets (l + rounds) lens r
unfolding symbol_offsets
symbol_offsets-Offsets zero l lens count offs h1 h16 few size hc (osize, starts) =
    (offs, refl, (osize, λ j j1 jl. starts j j1 (omega arith)))
symbol_offsets-Offsets (suc rounds) l lens count offs h1 h16 few size hc (osize, starts) =
    let offs' = set offs (l + 1) (u16 (get_or offs l 0 + get_or count l 0)) in
    let (r, e, (rsize, rstarts)) =
      symbol_offsets-Offsets rounds (l + 1) lens count offs' (omega arith) (omega arith) few size hc
        (
          length-set offs (l + 1) _ ∙ osize,
          λ j. Offsets-step l j lens count offs h1 (omega arith) few hc (osize, starts),
        ) in
    (
      r,
      rw
          (
            at-eq offs l 0 (omega arith),
            at-eq count l 0 (omega arith),
            put-eq offs (l + 1) (u16 (get_or offs l 0 + get_or count l 0)) (omega arith),
          )
          e,
      (rsize, λ j j1 jl. rstarts j j1 (omega arith)),
    )

-- The places still to be filled lie inside the symbol array.
abbrev pub Places : List ℕ → List ℕ → Type 0
Places lens offs = (l : ℕ) → 1 ≤ l → l ≤ 16 → get_or offs l 0 + occurs l lens ≤ 496

pub Places-step :
    (l j : ℕ) (lens offs : List ℕ)
    → length offs ≡ 18
    → 1 ≤ l
    → l ≤ 16
    → Places (l ∷ lens) offs
    → 1 ≤ j
    → j ≤ 16
    → get_or (set offs l (u16 (get_or offs l 0 + 1))) j 0 + occurs j lens ≤ 496
Places-step l j lens offs size h1 h16 room j1 j16 =
    ground (arith, get_or-set offs l j (u16 (get_or offs l 0 + 1)) 0 (omega arith), room l, room j)

fill_symbols-Finishes :
    (lens : List ℕ) (i : ℕ) (offs symbol : List ℕ)
    → length offs ≡ 18
    → length symbol ≡ 496
    → All (λ l. l ≤ 16) lens
    → Places lens offs
    → Finishes (λ r. length r ≡ 496) (fill_symbols lens i offs symbol)
unfolding fill_symbols
fill_symbols-Finishes [] i offs symbol ho hs hl room = value hs
fill_symbols-Finishes (zero ∷ lens) i offs symbol ho hs (h, hl) room =
    fill_symbols-Finishes lens (i + 1) offs symbol ho hs hl
      (λ l l1 l16. ground (arith, room l l1 l16))
fill_symbols-Finishes (suc l ∷ lens) i offs symbol ho hs (h, hl) room =
    rw
      (
        at-eq offs (suc l) 0 (omega arith),
        put-eq symbol (get_or offs (suc l) 0) (u16 i)
            (ground (arith, room (suc l) (omega arith) h)),
      )
      (fill_symbols-Finishes lens (i + 1) (set offs (suc l) (u16 (get_or offs (suc l) 0 + 1)))
        (set symbol (get_or offs (suc l) 0) (u16 i)) (length-set offs (suc l) _ ∙ ho)
        (length-set symbol _ _ ∙ hs) hl
        (λ j. Places-step (suc l) j lens offs ho (omega arith) h room))

zero_counts : (n l : ℕ) → get_or {A = ℕ} (replicate n 0) l 0 ≡ 0
zero_counts n l = get_or-replicate n l 0

pub new_huffman-IsTable : IsTable new_huffman
unfolding new_huffman
new_huffman-IsTable = record {
  lens = [];
  few = omega arith;
  counts = λ l. zero_counts 17 l;
  count_size = refl;
  symbol_size = refl;
  depth = omega arith;
}

pub start-Offsets : (lens : List ℕ) → Offsets 1 lens (replicate 18 0)
start-Offsets lens = (refl, λ j j1 jl. ground (arith, zero_counts 18 j, one j))
  where
    one : (j : ℕ) → 1 ≤ j → j ≤ 1 → shorter j lens ≡ 0
    one j j1 jl = let e : j ≡ 1 = omega arith in rw e (shorter-one lens)

pub start-Places :
    (lens offs : List ℕ) → length lens ≤ 496 → Offsets 16 lens offs → Places lens offs
start-Places lens offs few ho l l1 l16 =
    omega (arith, ho.1 l l1 l16, shorter-suc l lens l1, shorter-le-length (l + 1) lens)

build_symbols-IsTable :
    (h : Huffman) (lens count : List ℕ) (longest : ℕ)
    → length h.symbol ≡ 496
    → length lens ≤ 496
    → longest ≤ 16
    → length count ≡ 17
    → All (λ l. l ≤ 16) lens
    → Counts count lens
    → Finishes IsTable (build_symbols h lens count longest)
unfolding build_symbols
build_symbols-IsTable h lens count longest hs few deep size limits hc =
    Finishes-bind (code_space-Finishes 16 1 count 1 (omega arith)) λ left _.
      Finishes-guard (left == 0) lzx_corrupt λ _.
        let (offs, e, ho) =
          symbol_offsets-Offsets 15 1 lens count (replicate 18 0) (omega arith) (omega arith) few
            size hc (start-Offsets lens) in
        rw e (
          Finishes-bind
            (fill_symbols-Finishes lens 0 offs h.symbol ho.0 hs limits
              (start-Places lens offs few ho))
            λ symbol filled. value (record {
              lens = lens;
              few = few;
              counts = hc;
              count_size = size;
              symbol_size = filled;
              depth = deep;
            }))

-- For at most 496 code lengths of any value, and a symbol array of 496 places, `build` ends without a
-- panic: with an error, or with a table, whose counts are those of at most 496 code lengths and whose
-- longest code has at most 16 bits.
pub build-IsTable :
    (h : Huffman) (lens : List ℕ)
    → length h.symbol ≡ 496
    → length lens ≤ 496
    → Finishes IsTable (build h lens)
unfolding build
build-IsTable h lens hs few =
    Finishes-bind
      (count_lens-Counted lens (replicate 17 0) 0 refl (omega arith)
        (λ l. omega (arith, zero_counts 17 l, few)))
      λ (count, longest) k.
        let hc : Counts count lens = λ l. omega (arith, k.counts l, zero_counts 17 l) in
        Finishes-if (longest == 0)
          (λ _. value (record {
            lens = lens;
            few = few;
            counts = hc;
            count_size = k.size;
            symbol_size = hs;
            depth = omega arith;
          }))
          (λ _. build_symbols-IsTable h lens count longest hs few k.depth k.size k.limits hc)

symbol_at-Finishes :
    (h : Huffman) (index code first : ℕ)
    → first ≤ index + code
    → index + code < first + length h.symbol
    → Finishes (λ s. Unit) (symbol_at h index code first)
unfolding symbol_at
symbol_at-Finishes h index code first lo hi =
    rw (le→leb first (index + code) lo, at-eq h.symbol (index + code - first) 0 (omega arith))
      (value tt)

sym_loop-Finishes :
    (rounds l : ℕ) (b : BitReader) (h : Huffman) (code first index : ℕ)
    → (t : IsTable h) → 1 ≤ l
    → l + rounds ≤ 17
    → first ≤ code
    → index ≡ shorter l t.lens
    → Finishes (λ s. Unit) (sym_loop rounds l b h code first index)
unfolding sym_loop
sym_loop-Finishes zero l b h code first index t l1 lr le hi = value tt
sym_loop-Finishes (suc rounds) l b h code first index t l1 lr le hi =
    let (v, b') = bits b 1 in
    let up : code ≤ bit_or code v = le-bit_or code v in
    let next : shorter (l + 1) t.lens ≡ shorter l t.lens + occurs l t.lens =
      shorter-suc l t.lens l1 in
    let top : shorter (l + 1) t.lens ≤ 496 =
      omega (arith, shorter-le-length (l + 1) t.lens, t.few) in
    rw (at-eq h.count l 0 (omega (arith, t.count_size))) (
      Finishes-if (ltb (bit_or code v) (first + get_or h.count l 0))
        (λ hit.
          Finishes-bind
            (symbol_at-Finishes h index (bit_or code v) first (omega arith)
              (omega (arith, ltb→lt _ _ hit, t.counts l, t.symbol_size)))
            (λ s _. value tt))
        (λ miss.
          sym_loop-Finishes rounds (l + 1) b' h (bit_or code v * 2)
            ((first + get_or h.count l 0) * 2) (index + get_or h.count l 0) t (omega arith)
            (omega arith) (omega (arith, ltb-false→le _ _ miss)) (omega (arith, t.counts l))))

-- With a table of the kind that `build` leaves, decoding a symbol from any bits ends and indexes nothing
-- out of range.
pub sym-Finishes : (b : BitReader) (h : Huffman) → IsTable h → Finishes (λ s. Unit) (sym b h)
unfolding sym
sym-Finishes b h t =
    Finishes-if (h.max_bits == 0) (λ _. value tt)
      (λ _.
        sym_loop-Finishes h.max_bits 1 b h 0 0 0 t (omega arith) (omega (arith, t.depth))
          (omega arith) (sym_path (shorter-one t.lens)))
