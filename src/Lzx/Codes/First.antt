-- ===== src/Lzx/Codes/First.antt =====
-- Where the codes of each length begin, and what canonicalCodes returns.
use go_wim.Base.{
  ℕ, zero, suc, ◌+◌, ◌-◌, ◌*◌, ◌^◌, ◌≤◌, ◌<◌, ◌≡◌, refl, ap, ◌∙◌, inl, inr, List, [], ◌∷◌, arith,
  ◌==◌, Bool-cases, if◌then◌else◌, length, get_or, set, take, replicate, u32, All, length-set,
  get_or-set, get_or-replicate, ok, at-eq, put-eq,
}
use native.Mathlib.Nat.{pow-suc, pow-le-pow_right}
use go_wim.Lzx.Huffman.Counts.{occurs}
use go_wim.Lzx.Codes.{count_codes, next_codes, take_codes, canonical_codes}

-- The symbols that have a code of length l.
abbrev pub coded : ℕ → List ℕ → ℕ
coded l lens = if l == 0 then 0 else occurs l lens

-- The first code of length l.
abbrev pub first_of : List ℕ → ℕ → ℕ
first_of lens zero = 0
first_of lens (suc l) = 2 * (first_of lens l + coded l lens)

-- Every length is at most 16, and the codes of all lengths use up the code space.
pub record IsComplete (lens : List ℕ) : Type 0 where
  pub few : length lens ≤ 496
  pub limits : All (λ l. l ≤ 16) lens
  pub full : first_of lens 16 + occurs 16 lens ≡ 65536

-- How many of the symbols before s have the length l.
abbrev pub rank : ℕ → ℕ → List ℕ → ℕ
rank l s lens = occurs l (take s lens)

-- The code of symbol s.
abbrev pub code_of : List ℕ → ℕ → ℕ
code_of lens s = first_of lens (get_or lens s 0) + rank (get_or lens s 0) s lens

pub rank-lt :
    (s : ℕ) (lens : List ℕ)
    → s < length lens
    → rank (get_or lens s 0) s lens < occurs (get_or lens s 0) lens
rank-lt s [] h = absurd (omega arith)
rank-lt zero (l ∷ lens) h = ground arith
rank-lt (suc s) (l ∷ lens) h = ground (arith, rank-lt s lens)

-- With a complete code no length is over-subscribed.
below_full :
    (m l : ℕ) (lens : List ℕ)
    → l + m ≡ 16
    → 1 ≤ l
    → first_of lens 16 + occurs 16 lens ≡ 65536
    → first_of lens l + occurs l lens ≤ 2 ^ l
below_full zero l lens e l1 full = let same : l ≡ 16 = omega arith in rw same (omega (arith, full))
below_full (suc m) l lens e l1 full =
    ground (arith, below_full m (suc l) lens (omega arith) (omega arith) full, pow-suc 2 l)

pub first_of-le :
    (lens : List ℕ) (l : ℕ)
    → IsComplete lens
    → 1 ≤ l
    → l ≤ 16
    → first_of lens l + occurs l lens ≤ 2 ^ l
first_of-le lens l k l1 l16 = below_full (16 - l) l lens (omega arith) l1 k.full

-- The codes of a length come behind those of a shorter one, with bits added.
pub first_of-ge :
    (lens : List ℕ) (l m : ℕ)
    → 1 ≤ l
    → (first_of lens l + occurs l lens) * 2 ^ suc m ≤ first_of lens (l + suc m)
first_of-ge lens l zero l1 = let up : l + 1 ≡ suc l = omega arith in rw up (ground arith)
first_of-ge lens l (suc m) l1 =
    let up : l + suc (suc m) ≡ suc (l + suc m) = omega arith in
    rw (up, pow-suc 2 (suc m)) (omega (arith, first_of-ge lens l m l1))

-- What the first loop leaves of the counts that it began with.
record Counted (lens count r : List ℕ) : Type 0 where
  size : length r ≡ 18
  counts : (j : ℕ) → get_or r j 0 ≡ get_or count j 0 + occurs j lens

count_codes-Counted :
    (lens count : List ℕ)
    → length count ≡ 18
    → All (λ l. l ≤ 16) lens
    → ((j : ℕ) → get_or count j 0 + length lens ≤ 496)
    → (r : List ℕ) × (count_codes lens count ≡ ok r) × Counted lens count r
unfolding count_codes
count_codes-Counted [] count size limits room =
    (count, refl, record { size = size; counts = λ j. omega arith })
count_codes-Counted (l ∷ lens) count size (h, hs) room =
    let v = u32 (get_or count l 0 + 1) in
    let slot : l < length count = omega arith in
    let (r, e, k) =
      count_codes-Counted lens (set count l v) (length-set count l v ∙ size) hs
        (λ j. ground (arith, get_or-set count l j v 0 slot, room j, room l)) in
    (
      r,
      rw (at-eq count l 0 slot, put-eq count l v slot) e,
      record {
        size = k.size;
        counts = λ j. ground (arith, k.counts j, get_or-set count l j v 0 slot, room l);
      },
    )

-- The first codes up to length l.
abbrev Firsts : ℕ → List ℕ → List ℕ → Type 0
Firsts l lens next =
    (length next ≡ 18) × ((j : ℕ) → 1 ≤ j → j ≤ l → get_or next j 0 ≡ first_of lens j)

set_first :
    (l j : ℕ) (lens next : List ℕ)
    → suc l < length next
    → (j ≤ l → get_or next j 0 ≡ first_of lens j)
    → j ≤ suc l
    → get_or (set next (suc l) (first_of lens (suc l))) j 0 ≡ first_of lens j
set_first l j lens next slot old jl = elim (Bool-cases (suc l == j)) [
  | inl same ↦
      let e : j ≡ suc l = ground arith in
      rw (e, get_or-set next (suc l) (suc l) (first_of lens (suc l)) 0 slot) (ground arith)
  | inr other ↦
      rw (get_or-set next (suc l) j (first_of lens (suc l)) 0 slot, other) (old (ground arith))
]

-- One round, with the value that it stores.
next_round :
    (rounds l : ℕ) (lens count next r : List ℕ)
    → suc l ≤ 16
    → IsComplete lens
    → length count ≡ 18
    → ((j : ℕ) → get_or count j 0 ≡ coded j lens)
    → suc l < length next
    → next_codes rounds
        (suc (suc l))
        (first_of lens (suc l))
        count
        (set next (suc l) (first_of lens (suc l)))
      ≡ ok r
    → next_codes (suc rounds) (suc l) (first_of lens l) count next ≡ ok r
unfolding next_codes
next_round rounds l lens count next r l16 k size counts slot e =
    let back : suc l - 1 ≡ l = omega arith in
    let up : suc l + 1 ≡ suc (suc l) = omega arith in
    let small = first_of-le lens (suc l) k (omega arith) l16 in
    let wide : 2 ^ suc l ≤ 2 ^ 16 =
      pow-le-pow_right {n = 2} (omega arith) {i = suc l} {j = 16} l16 in
    let code : u32 (u32 (first_of lens l + coded l lens) * 2) ≡ first_of lens (suc l) =
      omega (arith, small, wide) in
    rw
      (
        back,
        at-eq count l 0 (omega arith),
        counts l,
        code,
        put-eq next (suc l) (first_of lens (suc l)) slot,
        up,
      )
      e

next_codes-Firsts :
    (rounds l : ℕ) (lens count next : List ℕ)
    → l + rounds ≡ 16
    → IsComplete lens
    → length count ≡ 18
    → ((j : ℕ) → get_or count j 0 ≡ coded j lens)
    → Firsts l lens next
    → (r : List ℕ) × (next_codes rounds (suc l) (first_of lens l) count next ≡ ok r)
      × Firsts 16 lens r
unfolding next_codes
next_codes-Firsts zero l lens count next sum k size counts (nsize, firsts) =
    (next, refl, (nsize, λ j j1 j16. firsts j j1 (omega arith)))
next_codes-Firsts (suc rounds) l lens count next sum k size counts (nsize, firsts) =
    let slot : suc l < length next = omega arith in
    let (r, e, f) =
      next_codes-Firsts rounds (suc l) lens count (set next (suc l) (first_of lens (suc l)))
        (omega arith) k size counts
        (
          length-set next (suc l) _ ∙ nsize,
          λ j j1 jl. set_first l j lens next slot (firsts j j1) jl,
        ) in
    (r, next_round rounds l lens count next r (omega arith) k size counts slot e, f)

-- What the last loop returns for each symbol that has a code.
record Taken (lens next codes : List ℕ) : Type 0 where
  size : length codes ≡ length lens
  codes_at :
      (s : ℕ)
      → s < length lens
      → 1 ≤ get_or lens s 0
      → get_or codes s 0 ≡ get_or next (get_or lens s 0) 0 + rank (get_or lens s 0) s lens

Taken-zero :
    (lens next codes : List ℕ) → Taken lens next codes → Taken (zero ∷ lens) next (0 ∷ codes)
Taken-zero lens next codes k = record { size = omega (arith, k.size); codes_at = at_symbol }
  where
    at_symbol :
        (s : ℕ)
        → s < length (zero ∷ lens)
        → 1 ≤ get_or (zero ∷ lens) s 0
        → get_or (0 ∷ codes) s 0
          ≡ get_or next (get_or (zero ∷ lens) s 0) 0
            + rank (get_or (zero ∷ lens) s 0) s (zero ∷ lens)
    at_symbol zero h some = absurd (omega arith)
    at_symbol (suc s) h some = ground (arith, k.codes_at s (omega arith) some)

Taken-suc :
    (l : ℕ) (lens next codes : List ℕ)
    → suc l < length next
    → get_or next (suc l) 0 < 65536
    → Taken lens (set next (suc l) (u32 (get_or next (suc l) 0 + 1))) codes
    → Taken (suc l ∷ lens) next (get_or next (suc l) 0 ∷ codes)
Taken-suc l lens next codes slot small k = record {
  size = omega (arith, k.size);
  codes_at = at_symbol;
}
  where
    at_symbol :
        (s : ℕ)
        → s < length (suc l ∷ lens)
        → 1 ≤ get_or (suc l ∷ lens) s 0
        → get_or (get_or next (suc l) 0 ∷ codes) s 0
          ≡ get_or next (get_or (suc l ∷ lens) s 0) 0
            + rank (get_or (suc l ∷ lens) s 0) s (suc l ∷ lens)
    at_symbol zero h some = omega arith
    at_symbol (suc s) h some = ground (
      arith,
      k.codes_at s (omega arith) some,
      get_or-set next (suc l) (get_or lens s 0) (u32 (get_or next (suc l) 0 + 1)) 0 slot,
    )

take_codes-Taken :
    (lens next : List ℕ)
    → length next ≡ 18
    → All (λ l. l ≤ 16) lens
    → ((j : ℕ) → 1 ≤ j → j ≤ 16 → get_or next j 0 + occurs j lens ≤ 65536)
    → (codes : List ℕ) × (take_codes lens next ≡ ok codes) × Taken lens next codes
unfolding take_codes
take_codes-Taken [] next size limits room =
    ([], refl, record { size = refl; codes_at = λ s h. absurd (omega arith) })
take_codes-Taken (zero ∷ lens) next size (h, hs) room =
    let (codes, e, k) =
      take_codes-Taken lens next size hs (λ j j1 j16. ground (arith, room j j1 j16)) in
    (0 ∷ codes, rw e refl, Taken-zero lens next codes k)
take_codes-Taken (suc l ∷ lens) next size (h, hs) room =
    let v = u32 (get_or next (suc l) 0 + 1) in
    let slot : suc l < length next = omega arith in
    let (codes, e, k) =
      take_codes-Taken lens (set next (suc l) v) (length-set next (suc l) v ∙ size) hs (λ j j1 j16.
        ground (arith, room j j1 j16, room (suc l), get_or-set next (suc l) j v 0 slot)) in
    (
      get_or next (suc l) 0 ∷ codes,
      rw (at-eq next (suc l) 0 slot, put-eq next (suc l) v slot, e) refl,
      Taken-suc l lens next codes slot (ground (arith, room (suc l) (omega arith) h)) k,
    )

codes_room :
    (lens next : List ℕ) (j : ℕ)
    → IsComplete lens
    → Firsts 16 lens next
    → 1 ≤ j
    → j ≤ 16
    → get_or next j 0 + occurs j lens ≤ 65536
codes_room lens next j k f j1 j16 =
    let wide : 2 ^ j ≤ 2 ^ 16 = pow-le-pow_right {n = 2} (omega arith) {i = j} {j = 16} j16 in
    omega (arith, f.1 j j1 j16, first_of-le lens j k j1 j16, wide)

pub All-at : (s : ℕ) (lens : List ℕ) → All (λ l. l ≤ 16) lens → get_or lens s 0 ≤ 16
All-at s [] h = omega arith
All-at zero (l ∷ lens) (h, hs) = h
All-at (suc s) (l ∷ lens) (h, hs) = All-at s lens hs

-- For code lengths that use up the code space, canonicalCodes returns a code for every symbol, and a
-- symbol of positive length gets the first code of its length plus its rank among the symbols of
-- that length.
pub canonical_codes-eq :
    (lens : List ℕ)
    → IsComplete lens
    → (codes : List ℕ) × (canonical_codes lens ≡ ok codes)
      × (length codes ≡ length lens)
      × ((s : ℕ) → s < length lens → 1 ≤ get_or lens s 0 → get_or codes s 0 ≡ code_of lens s)
unfolding canonical_codes
canonical_codes-eq lens k =
    let zeros : (j : ℕ) → get_or {A = ℕ} (replicate 18 0) j 0 ≡ 0 = λ j. get_or-replicate 18 j 0 in
    let (count, e1, c) =
      count_codes-Counted lens (replicate 18 0) refl k.limits
        (λ j. omega (arith, zeros j, k.few)) in
    let (next, e2, f) =
      next_codes-Firsts 16 0 lens (set count 0 0) (replicate 18 0) refl k
        (length-set count 0 0 ∙ c.size)
        (λ j. ground (arith, c.counts j, zeros j, get_or-set count 0 j 0 0 (omega (arith, c.size))))
        (refl, λ j j1 jl. absurd (omega arith)) in
    let (codes, e3, t) =
      take_codes-Taken lens next f.0 k.limits (λ j j1 j16. codes_room lens next j k f j1 j16) in
    (
      codes,
      rw (e1, put-eq count 0 0 (omega (arith, c.size)), e2) e3,
      t.size,
      λ s h some.
          t.codes_at s h some
          ∙ ap (λ v. v + rank (get_or lens s 0) s lens)
              (f.1 (get_or lens s 0) some (All-at s lens k.limits)),
    )
