-- ===== src/Lzx/Codes/Table.antt =====
-- The table that `build` makes of the lengths of a complete code.
use go_wim.Base.{
  ℕ, zero, suc, ◌+◌, ◌-◌, ◌*◌, ◌^◌, ◌≤◌, ◌<◌, ◌≡◌, refl, sym, ap, ◌∙◌, false, List, [], ◌∷◌, arith,
  ltb, ◌==◌, if◌then◌else◌, length, get_or, set, replicate, u16, All, length-set, get_or-set,
  get_or-replicate, le→ltb-false, ok, at-eq, put-eq,
}
use native.Mathlib.Nat.{pow-suc}
use go_wim.Lzx.Huffman.{Huffman, count_lens, code_space, fill_symbols, build_symbols, build}
use go_wim.Lzx.Huffman.Counts.{occurs, shorter, shorter-suc}
use go_wim.Lzx.Huffman.Safety.{
  Places, Places-step, Offsets, start-Offsets, start-Places, symbol_offsets-Offsets,
}
use go_wim.Lzx.Codes.First.{coded, first_of, IsComplete, first_of-le, rank, All-at}

-- The table decodes the canonical codes of the lengths.
pub record Decodes (lens : List ℕ) (h : Huffman) : Type 0 where
  pub count_size : length h.count ≡ 17
  pub counts : (l : ℕ) → get_or h.count l 0 ≡ occurs l lens
  pub symbol_size : length h.symbol ≡ 496
  pub symbols :
      (s : ℕ)
      → s < length lens
      → 1 ≤ get_or lens s 0
      → get_or h.symbol (shorter (get_or lens s 0) lens + rank (get_or lens s 0) s lens) 0 ≡ s
  pub deep : (s : ℕ) → get_or lens s 0 ≤ h.max_bits
  pub depth : h.max_bits ≤ 16

-- What the first loop returns.
record Counted (lens count : List ℕ) (longest : ℕ) (r : List ℕ × ℕ) : Type 0 where
  size : length r.0 ≡ 17
  counts : (l : ℕ) → get_or r.0 l 0 ≡ get_or count l 0 + occurs l lens
  over : longest ≤ r.1
  deep : (s : ℕ) → get_or lens s 0 ≤ r.1
  depth : r.1 ≤ 16

deep_cons :
    (l : ℕ) (lens : List ℕ) (top : ℕ)
    → l ≤ top
    → ((s : ℕ) → get_or lens s 0 ≤ top)
    → (s : ℕ) → get_or (l ∷ lens) s 0 ≤ top
deep_cons l lens top h hs zero = h
deep_cons l lens top h hs (suc s) = hs s

count_lens-eq :
    (lens count : List ℕ) (longest : ℕ)
    → length count ≡ 17
    → longest ≤ 16
    → All (λ l. l ≤ 16) lens
    → ((l : ℕ) → get_or count l 0 + length lens ≤ 496)
    → (r : List ℕ × ℕ) × (count_lens lens count longest ≡ ok r) × Counted lens count longest r
unfolding count_lens
count_lens-eq [] count longest size low limits room = (
  (count, longest),
  refl,
  record {
    size = size;
    counts = λ l. omega arith;
    over = omega arith;
    deep = λ s. omega arith;
    depth = low;
  },
)
count_lens-eq (l ∷ lens) count longest size low (h, hs) room =
    let v = u16 (get_or count l 0 + 1) in
    let slot : l < length count = omega arith in
    let (r, e, k) =
      count_lens-eq lens (set count l v) (if ltb longest l then l else longest)
        (length-set count l v ∙ size) (ground arith) hs
        (λ j. ground (arith, get_or-set count l j v 0 slot, room j, room l)) in
    (
      r,
      rw (le→ltb-false 16 l h, at-eq count l 0 slot) e,
      record {
        size = k.size;
        counts = λ j. ground (arith, k.counts j, get_or-set count l j v 0 slot, room l);
        over = ground (arith, k.over);
        deep = deep_cons l lens r.1 (ground (arith, k.over)) k.deep;
        depth = k.depth;
      },
    )

left_none :
    (lens : List ℕ) (left : ℕ)
    → IsComplete lens
    → left + first_of lens 16 + coded 16 lens ≡ 65536
    → left ≡ 0
left_none lens left k space = omega (arith, k.full, space)

-- What is left of the code space behind length l is what the codes do not use.
code_space-eq :
    (rounds l : ℕ) (lens count : List ℕ) (left : ℕ)
    → l + rounds ≡ 16
    → IsComplete lens
    → length count ≡ 17
    → ((j : ℕ) → get_or count j 0 ≡ occurs j lens)
    → left + first_of lens l + coded l lens ≡ 2 ^ l
    → code_space rounds (suc l) count left ≡ ok 0
unfolding code_space
code_space-eq zero l lens count left sum k size counts space =
    let same : l ≡ 16 = omega arith in ap ok (left_none lens left k (rw same at space))
code_space-eq (suc rounds) l lens count left sum k size counts space =
    let up : suc l + 1 ≡ suc (suc l) = omega arith in
    let small = first_of-le lens (suc l) k (omega arith) (omega arith) in
    let fits : occurs (suc l) lens ≤ 2 * left = omega (arith, small, space, pow-suc 2 l) in
    rw
      (
        at-eq count (suc l) 0 (omega arith),
        counts (suc l),
        le→ltb-false (2 * left) (occurs (suc l) lens) fits,
        up,
      )
      (code_space-eq rounds (suc l) lens count (2 * left - occurs (suc l) lens) (omega arith) k size
        counts (ground (arith, space, pow-suc 2 l)))

-- The places of the lengths follow one another.
abbrev InOrder : List ℕ → List ℕ → Type 0
InOrder lens offs =
    (l m : ℕ) → 1 ≤ l → l < m → m ≤ 16 → get_or offs l 0 + occurs l lens ≤ get_or offs m 0

-- A place that is none of them.
abbrev IsFree : ℕ → List ℕ → List ℕ → Type 0
IsFree p lens offs =
    (l : ℕ) → 1 ≤ l → l ≤ 16 → get_or offs l 0 ≤ p → get_or offs l 0 + occurs l lens ≤ p

-- What the last loop leaves of the symbols, for lengths from symbol i on.
record IsFilled (i : ℕ) (lens offs symbol r : List ℕ) : Type 0 where
  size : length r ≡ 496
  placed :
      (s : ℕ)
      → s < length lens
      → 1 ≤ get_or lens s 0
      → get_or r (get_or offs (get_or lens s 0) 0 + rank (get_or lens s 0) s lens) 0 ≡ i + s
  kept : (p : ℕ) → IsFree p lens offs → get_or r p 0 ≡ get_or symbol p 0

IsFilled-zero :
    (i : ℕ) (lens offs symbol r : List ℕ)
    → IsFilled (i + 1) lens offs symbol r
    → IsFilled i (zero ∷ lens) offs symbol r
IsFilled-zero i lens offs symbol r k = record {
  size = k.size;
  placed = at_symbol;
  kept = λ p free. k.kept p (λ l l1 l16 le. ground (arith, free l l1 l16 le));
}
  where
    at_symbol :
        (s : ℕ)
        → s < length (zero ∷ lens)
        → 1 ≤ get_or (zero ∷ lens) s 0
        → get_or r
            (get_or offs (get_or (zero ∷ lens) s 0) 0
              + rank (get_or (zero ∷ lens) s 0) s (zero ∷ lens))
            0
          ≡ i + s
    at_symbol zero h some = absurd (omega arith)
    at_symbol (suc s) h some =
        let skip : rank (get_or lens s 0) (suc s) (zero ∷ lens) ≡ rank (get_or lens s 0) s lens =
          ground arith in
        rw skip (omega (arith, k.placed s (omega arith) some))

-- The symbol i at the first place of its length.
module _ (l i : ℕ) (lens offs symbol : List ℕ) where
  abbrev here : ℕ
  here = get_or offs (suc l) 0

  abbrev offs_behind : List ℕ
  offs_behind = set offs (suc l) (u16 (here + 1))

  here-IsFree :
      length offs ≡ 18
      → suc l ≤ 16
      → here < 496
      → InOrder (suc l ∷ lens) offs
      → IsFree here lens offs_behind
  here-IsFree size l16 small order m m1 m16 le = ground (
    arith,
    order m (suc l) m1,
    order (suc l) m (omega arith),
    get_or-set offs (suc l) m (u16 (here + 1)) 0 (omega arith),
  )

  IsFree-behind :
      (p : ℕ)
      → length offs ≡ 18
      → suc l ≤ 16
      → here < 496
      → IsFree p (suc l ∷ lens) offs
      → IsFree p lens offs_behind
  IsFree-behind p size l16 small free m m1 m16 le =
      ground (arith, free m m1 m16, get_or-set offs (suc l) m (u16 (here + 1)) 0 (omega arith))

  order_behind :
      length offs ≡ 18
      → suc l ≤ 16
      → here < 496
      → InOrder (suc l ∷ lens) offs
      → InOrder lens offs_behind
  order_behind size l16 small order a b a1 lt b16 = ground (
    arith,
    order a b a1 lt b16,
    get_or-set offs (suc l) a (u16 (here + 1)) 0 (omega arith),
    get_or-set offs (suc l) b (u16 (here + 1)) 0 (omega arith),
  )

  IsFilled-suc :
      (r : List ℕ)
      → length offs ≡ 18
      → suc l ≤ 16
      → here < 496
      → i < 496
      → length symbol ≡ 496
      → InOrder (suc l ∷ lens) offs
      → IsFilled (i + 1) lens offs_behind (set symbol here (u16 i)) r
      → IsFilled i (suc l ∷ lens) offs symbol r
  IsFilled-suc r size l16 small few ssize order k = record {
    size = k.size;
    placed = at_symbol;
    kept = unchanged;
  }
    where
      at_symbol :
          (s : ℕ)
          → s < length (suc l ∷ lens)
          → 1 ≤ get_or (suc l ∷ lens) s 0
          → get_or r
              (get_or offs (get_or (suc l ∷ lens) s 0) 0
                + rank (get_or (suc l ∷ lens) s 0) s (suc l ∷ lens))
              0
            ≡ i + s
      at_symbol zero h some =
          let place : here + 0 ≡ here = omega arith in
          rw
            (
              place,
              k.kept here (here-IsFree size l16 small order),
              get_or-set symbol here here (u16 i) 0 (omega arith),
            )
            (ground arith)
      at_symbol (suc s) h some =
          let m = get_or lens s 0 in
          let place : get_or offs m 0 + rank m (suc s) (suc l ∷ lens)
              ≡ get_or offs_behind m 0 + rank m s lens =
            ground (arith, get_or-set offs (suc l) m (u16 (here + 1)) 0 (omega arith)) in
          rw place (omega (arith, k.placed s (omega arith) some))

      unchanged : (p : ℕ) → IsFree p (suc l ∷ lens) offs → get_or r p 0 ≡ get_or symbol p 0
      unchanged p free =
          k.kept p (IsFree-behind p size l16 small free)
          ∙ ground (
            arith,
            get_or-set symbol here p (u16 i) 0 (omega arith),
            free (suc l) (omega arith) l16,
          )

fill_symbols-eq :
    (lens : List ℕ) (i : ℕ) (offs symbol : List ℕ)
    → length offs ≡ 18
    → length symbol ≡ 496
    → i + length lens ≤ 496
    → All (λ l. l ≤ 16) lens
    → Places lens offs
    → InOrder lens offs
    → (r : List ℕ) × (fill_symbols lens i offs symbol ≡ ok r) × IsFilled i lens offs symbol r
unfolding fill_symbols
fill_symbols-eq [] i offs symbol size ssize few limits room order = (
  symbol,
  refl,
  record { size = ssize; placed = λ s h. absurd (omega arith); kept = λ p free. refl },
)
fill_symbols-eq (zero ∷ lens) i offs symbol size ssize few (h, hs) room order =
    let (r, e, k) =
      fill_symbols-eq lens (i + 1) offs symbol size ssize (omega arith) hs
        (λ l l1 l16. ground (arith, room l l1 l16))
        (λ l m l1 lt m16. ground (arith, order l m l1 lt m16)) in
    (r, e, IsFilled-zero i lens offs symbol r k)
fill_symbols-eq (suc l ∷ lens) i offs symbol size ssize few (h, hs) room order =
    let place = get_or offs (suc l) 0 in
    let small : place < 496 = ground (arith, room (suc l) (omega arith) h) in
    let offs' = set offs (suc l) (u16 (place + 1)) in
    let (r, e, k) =
      fill_symbols-eq lens (i + 1) offs' (set symbol place (u16 i))
        (length-set offs (suc l) _ ∙ size) (length-set symbol _ _ ∙ ssize) (omega arith) hs
        (λ j. Places-step (suc l) j lens offs size (omega arith) h room)
        (order_behind l i lens offs symbol size h small order) in
    (
      r,
      rw (at-eq offs (suc l) 0 (omega arith), put-eq symbol place (u16 i) (omega arith)) e,
      IsFilled-suc l i lens offs symbol r size h small (omega arith) ssize order k,
    )

shorter_mono : (l m : ℕ) (lens : List ℕ) → l ≤ m → shorter l lens ≤ shorter m lens
shorter_mono l m [] h = omega arith
shorter_mono l m (v ∷ lens) h = ground (arith, shorter_mono l m lens h)

start-InOrder : (lens offs : List ℕ) → Offsets 16 lens offs → InOrder lens offs
start-InOrder lens offs (size, starts) l m l1 lt m16 = omega (
  arith,
  starts l l1 (omega arith),
  starts m (omega arith) m16,
  shorter-suc l lens l1,
  shorter_mono (l + 1) m lens (omega arith),
)

none_of : (l : ℕ) (lens : List ℕ) → 1 ≤ l → ((s : ℕ) → get_or lens s 0 ≤ 0) → occurs l lens ≡ 0
none_of l [] l1 flat = omega arith
none_of l (v ∷ lens) l1 flat = ground (arith, flat zero, none_of l lens l1 (λ s. flat (suc s)))

first_of-flat : (lens : List ℕ) (l : ℕ) → ((s : ℕ) → get_or lens s 0 ≤ 0) → first_of lens l ≡ 0
first_of-flat lens zero flat = refl
first_of-flat lens (suc zero) flat = refl
first_of-flat lens (suc (suc l)) flat =
    grind (arith, first_of-flat lens (suc l) flat, none_of (suc l) lens (omega arith) flat)

-- A complete code has a symbol.
some_code :
    (lens : List ℕ) (longest : ℕ)
    → IsComplete lens
    → ((s : ℕ) → get_or lens s 0 ≤ longest)
    → (longest == 0) ≡ false
some_code lens zero k deep =
    absurd (omega (arith, k.full, first_of-flat lens 16 deep, none_of 16 lens (omega arith) deep))
some_code lens (suc longest) k deep = ground arith

symbol_placed :
    (s : ℕ) (lens offs symbol : List ℕ)
    → get_or offs (get_or lens s 0) 0 ≡ shorter (get_or lens s 0) lens
    → get_or symbol (get_or offs (get_or lens s 0) 0 + rank (get_or lens s 0) s lens) 0 ≡ 0 + s
    → get_or symbol (shorter (get_or lens s 0) lens + rank (get_or lens s 0) s lens) 0 ≡ s
symbol_placed s lens offs symbol start e =
    ap (λ p. get_or symbol (p + rank (get_or lens s 0) s lens) 0) (sym start) ∙ e ∙ omega arith

-- `build` accepts the lengths of a complete code, and its table decodes their canonical codes.
pub build-Decodes :
    (h : Huffman) (lens : List ℕ)
    → length h.symbol ≡ 496
    → IsComplete lens
    → (t : Huffman) × (build h lens ≡ ok t) × Decodes lens t
unfolding build build_symbols
build-Decodes h lens ssize k =
    let zeros : (j : ℕ) → get_or {A = ℕ} (replicate 17 0) j 0 ≡ 0 = λ j. get_or-replicate 17 j 0 in
    let ((count, longest), e1, c) =
      count_lens-eq lens (replicate 17 0) 0 refl (omega arith) k.limits
        (λ l. omega (arith, zeros l, k.few)) in
    let counts : (l : ℕ) → get_or count l 0 ≡ occurs l lens =
      λ l. omega (arith, c.counts l, zeros l) in
    let e2 = code_space-eq 16 0 lens count 1 refl k c.size counts refl in
    let (offs, e3, o) =
      symbol_offsets-Offsets 15 1 lens count (replicate 18 0) (omega arith) (omega arith) k.few
        c.size counts (start-Offsets lens) in
    let (symbol, e4, f) =
      fill_symbols-eq lens 0 offs h.symbol o.0 ssize (omega (arith, k.few)) k.limits
        (start-Places lens offs k.few o) (start-InOrder lens offs o) in
    (
      record { max_bits = longest; count = count; symbol = symbol },
      rw (e1, some_code lens longest k c.deep, e2, e3, e4) refl,
      record {
        count_size = c.size;
        counts = counts;
        symbol_size = f.size;
        symbols = λ s h some.
            symbol_placed s lens offs symbol
              (o.1 (get_or lens s 0) some (omega (arith, All-at s lens k.limits)))
              (f.placed s h some);
        deep = c.deep;
        depth = c.depth;
      },
    )
