-- ===== src/Lzx/Frequencies/Counted.antt =====
-- The frequencies are the numbers of the symbols that the tokens emit.
use go_wim.Base.{
  ℕ, suc, ◌+◌, ◌-◌, ◌^◌, ◌≤◌, ◌<◌, ◌≡◌, refl, ◌∙◌, List, [], ◌∷◌, ◌++◌, Option, none, some, arith,
  inl, inr, Bool-cases, leb, if◌then◌else◌, length, get_or, set, replicate, length-set, get_or-set,
  get_or-replicate, u32, bit_and, bit_and_mask, All, ok, at-eq, put-eq,
}
use go_wim.Lzx.Consts.{footer_bits}
use go_wim.Lzx.Huffman.Counts.{occurs, occurs-le-length}
use go_wim.Lzx.Tokens.{Token}
use go_wim.Lzx.Frequencies.{
  Coded, literal, matched, Frequencies, count_up, count_len, count_aligned, count_token,
  count_tokens, count_frequencies,
}

-- The main symbols of tokens.
abbrev pub main_symbols : List Coded → List ℕ
main_symbols [] = []
main_symbols (literal s ∷ tokens) = s ∷ main_symbols tokens
main_symbols (matched t ∷ tokens) = t.sym ∷ main_symbols tokens

-- One more of a symbol, and at most one more of each.
record IsCounted (size : ℕ) (freq : List ℕ) (symbols : List ℕ) (r : List ℕ) : Type 0 where
  whole : length r ≡ size
  counts : (s : ℕ) → get_or r s 0 ≡ get_or freq s 0 + occurs s symbols

count_up-eq :
    (size s : ℕ) (freq : List ℕ)
    → length freq ≡ size
    → s < size
    → get_or freq s 0 < 2 ^ 32 - 1
    → (r : List ℕ) × (count_up freq s ≡ ok r) × IsCounted size freq (s ∷ []) r
unfolding count_up
count_up-eq size s freq whole h small =
    let v = u32 (get_or freq s 0 + 1) in
    (
      set freq s v,
      rw (at-eq freq s 0 (omega (arith, whole)), put-eq freq s v (omega (arith, whole))) refl,
      record {
        whole = length-set freq s v ∙ whole;
        counts = λ j. ground (arith, get_or-set freq s j v 0 (omega (arith, whole)));
      },
    )

-- The length symbols and the aligned symbols of tokens.
abbrev pub len_symbol : Option ℕ → List ℕ
len_symbol none = []
len_symbol (some s) = s ∷ []

abbrev pub len_symbols : List Coded → List ℕ
len_symbols [] = []
len_symbols (literal s ∷ tokens) = len_symbols tokens
len_symbols (matched t ∷ tokens) = len_symbol t.len_sym ++ len_symbols tokens

abbrev pub aligned_symbol : Token → List ℕ
aligned_symbol t =
    if leb 3 t.slot
    then (if leb 3 (get_or footer_bits t.slot 0) then bit_and t.extra 7 ∷ [] else [])
    else []

abbrev pub aligned_symbols : List Coded → List ℕ
aligned_symbols [] = []
aligned_symbols (literal s ∷ tokens) = aligned_symbols tokens
aligned_symbols (matched t ∷ tokens) = aligned_symbol t ++ aligned_symbols tokens

-- A token whose symbols are in their alphabets.
abbrev pub InAlphabets : Coded → Type 0
InAlphabets (literal s) = s < 496
InAlphabets (matched t) = (t.sym < 496) × All (λ s. s < 249) (len_symbol t.len_sym) × (t.slot < 31)

occurs-append : (l : ℕ) (xs ys : List ℕ) → occurs l (xs ++ ys) ≡ occurs l xs + occurs l ys
occurs-append l [] ys = omega arith
occurs-append l (x ∷ xs) ys = ground (arith, occurs-append l xs ys)

IsCounted-none : (size : ℕ) (freq : List ℕ) → length freq ≡ size → IsCounted size freq [] freq
IsCounted-none size freq whole = record { whole = whole; counts = λ s. omega arith }

IsCounted-append :
    (size : ℕ) (freq xs ys a b : List ℕ)
    → IsCounted size freq xs a
    → IsCounted size a ys b
    → IsCounted size freq (xs ++ ys) b
IsCounted-append size freq xs ys a b p q = record {
  whole = q.whole;
  counts = λ s. omega (arith, p.counts s, q.counts s, occurs-append s xs ys);
}

-- Room for n more of every symbol.
abbrev Room : ℕ → List ℕ → Type 0
Room n freq = (s : ℕ) → get_or freq s 0 + n < 2 ^ 32

count_len-eq :
    (n : ℕ) (freq : List ℕ) (l : Option ℕ)
    → length freq ≡ 249
    → All (λ s. s < 249) (len_symbol l)
    → Room (suc n) freq
    → (r : List ℕ) × (count_len freq l ≡ ok r) × IsCounted 249 freq (len_symbol l) r
unfolding count_len
count_len-eq n freq none whole small room = (freq, refl, IsCounted-none 249 freq whole)
count_len-eq n freq (some s) whole (small, rest) room =
    count_up-eq 249 s freq whole small (omega (arith, room s))

count_aligned-eq :
    (n : ℕ) (freq : List ℕ) (t : Token)
    → length freq ≡ 8
    → t.slot < 31
    → Room (suc n) freq
    → (r : List ℕ) × (count_aligned freq t ≡ ok r) × IsCounted 8 freq (aligned_symbol t) r
unfolding count_aligned
count_aligned-eq n freq t whole slot room = elim (Bool-cases (leb 3 t.slot)) [
  | inr e ↦ (freq, rw e refl, rw e (IsCounted-none 8 freq whole))
  | inl e ↦ elim (Bool-cases (leb 3 (get_or footer_bits t.slot 0))) [
    | inr e' ↦ (
      freq,
      rw (e, at-eq footer_bits t.slot 0 slot, e') refl,
      rw (e, e') (IsCounted-none 8 freq whole),
    )
    | inl e' ↦
        let (r, up, k) =
          count_up-eq 8 (bit_and t.extra 7) freq whole (omega (arith, bit_and_mask 3 t.extra))
            (omega (arith, room (bit_and t.extra 7))) in
        (r, rw (e, at-eq footer_bits t.slot 0 slot, e') up, rw (e, e') k)
  ]
]

-- The three counts of a Compressor after some tokens.
record AreCounted (f : Frequencies) (tokens : List Coded) (r : Frequencies) : Type 0 where
  main : IsCounted 496 f.main_freq (main_symbols tokens) r.main_freq
  len : IsCounted 249 f.len_freq (len_symbols tokens) r.len_freq
  aligned : IsCounted 8 f.aligned_freq (aligned_symbols tokens) r.aligned_freq

-- The counts are as long as the alphabets, and have room for n more tokens.
record HasRoom (n : ℕ) (f : Frequencies) : Type 0 where
  main_size : length f.main_freq ≡ 496
  len_size : length f.len_freq ≡ 249
  aligned_size : length f.aligned_freq ≡ 8
  main_room : Room n f.main_freq
  len_room : Room n f.len_freq
  aligned_room : Room n f.aligned_freq

Room-less :
    (n size : ℕ) (freq symbols r : List ℕ)
    → IsCounted size freq symbols r
    → length symbols ≤ 1
    → Room (suc n) freq
    → Room n r
Room-less n size freq symbols r k one room s =
    omega (arith, k.counts s, room s, occurs-le-length s symbols)

len_symbol_one : (l : Option ℕ) → length (len_symbol l) ≤ 1
len_symbol_one none = omega arith
len_symbol_one (some s) = omega arith

aligned_symbol_one : (t : Token) → length (aligned_symbol t) ≤ 1
aligned_symbol_one t = ground arith

count_token-eq :
    (n : ℕ) (f : Frequencies) (t : Coded)
    → HasRoom (suc n) f
    → InAlphabets t
    → (r : Frequencies) × (count_token f t ≡ ok r)
      × HasRoom n r
      × ((tokens : List Coded) (r' : Frequencies)
          → AreCounted r tokens r'
          → AreCounted f (t ∷ tokens) r')
unfolding count_token
count_token-eq n f (literal s) k small =
    let (main, e, c) =
      count_up-eq 496 s f.main_freq k.main_size small (omega (arith, k.main_room s)) in
    (
      record f { main_freq = main },
      rw e refl,
      record {
        main_size = c.whole;
        len_size = k.len_size;
        aligned_size = k.aligned_size;
        main_room = Room-less n 496 f.main_freq (s ∷ []) main c (omega arith) k.main_room;
        len_room = λ j. omega (arith, k.len_room j);
        aligned_room = λ j. omega (arith, k.aligned_room j);
      },
      λ tokens r' a. record {
        main =
            IsCounted-append 496 f.main_freq (s ∷ []) (main_symbols tokens) main r'.main_freq c
              a.main;
        len = a.len;
        aligned = a.aligned;
      },
    )
count_token-eq n f (matched t) k (small, lens_small, slot) =
    let (main, e, c) =
      count_up-eq 496 t.sym f.main_freq k.main_size small (omega (arith, k.main_room t.sym)) in
    let (lens, e', c') = count_len-eq n f.len_freq t.len_sym k.len_size lens_small k.len_room in
    let (aligned, e'', c'') =
      count_aligned-eq n f.aligned_freq t k.aligned_size slot k.aligned_room in
    (
      record { main_freq = main; len_freq = lens; aligned_freq = aligned },
      rw (e, e', e'') refl,
      record {
        main_size = c.whole;
        len_size = c'.whole;
        aligned_size = c''.whole;
        main_room = Room-less n 496 f.main_freq (t.sym ∷ []) main c (omega arith) k.main_room;
        len_room =
            Room-less n 249 f.len_freq (len_symbol t.len_sym) lens c' (len_symbol_one t.len_sym)
              k.len_room;
        aligned_room =
            Room-less n 8 f.aligned_freq (aligned_symbol t) aligned c'' (aligned_symbol_one t)
              k.aligned_room;
      },
      λ tokens r' a. record {
        main =
            IsCounted-append 496 f.main_freq (t.sym ∷ []) (main_symbols tokens) main r'.main_freq c
              a.main;
        len =
            IsCounted-append 249 f.len_freq (len_symbol t.len_sym) (len_symbols tokens) lens
              r'.len_freq c' a.len;
        aligned =
            IsCounted-append 8 f.aligned_freq (aligned_symbol t) (aligned_symbols tokens) aligned
              r'.aligned_freq c'' a.aligned;
      },
    )

count_tokens-eq :
    (tokens : List Coded) (f : Frequencies)
    → HasRoom (length tokens) f
    → All InAlphabets tokens
    → (r : Frequencies) × (count_tokens tokens f ≡ ok r) × AreCounted f tokens r
unfolding count_tokens
count_tokens-eq [] f k known = (
  f,
  refl,
  record {
    main = IsCounted-none 496 f.main_freq k.main_size;
    len = IsCounted-none 249 f.len_freq k.len_size;
    aligned = IsCounted-none 8 f.aligned_freq k.aligned_size;
  },
)
count_tokens-eq (t ∷ tokens) f k (h, hs) =
    let (f', e, k', lift) = count_token-eq (length tokens) f t k h in
    let (r, es, a) = count_tokens-eq tokens f' k' hs in (r, rw (e, es) refl, lift tokens r a)

-- For fewer than 2^32 tokens whose symbols are in their alphabets, countFrequencies succeeds, and the
-- frequency of each main, length and aligned symbol is how often the tokens emit it.
pub count_frequencies-eq :
    (tokens : List Coded)
    → length tokens < 2 ^ 32
    → All InAlphabets tokens
    → (r : Frequencies) × (count_frequencies tokens ≡ ok r)
      × ((s : ℕ) → get_or r.main_freq s 0 ≡ occurs s (main_symbols tokens))
      × ((s : ℕ) → get_or r.len_freq s 0 ≡ occurs s (len_symbols tokens))
      × ((s : ℕ) → get_or r.aligned_freq s 0 ≡ occurs s (aligned_symbols tokens))
unfolding count_frequencies
count_frequencies-eq tokens few known =
    let z : (n s : ℕ) → get_or {A = ℕ} (replicate n 0) s 0 ≡ 0 = λ n s. get_or-replicate n s 0 in
    let (r, e, a) =
      count_tokens-eq tokens
        (record {
          main_freq = replicate 496 0;
          len_freq = replicate 249 0;
          aligned_freq = replicate 8 0;
        })
        (record {
          main_size = refl;
          len_size = refl;
          aligned_size = refl;
          main_room = λ s. omega (arith, z 496 s);
          len_room = λ s. omega (arith, z 249 s);
          aligned_room = λ s. omega (arith, z 8 s);
        })
        known in
    (
      r,
      e,
      λ s. omega (arith, a.main.counts s, z 496 s),
      λ s. omega (arith, a.len.counts s, z 249 s),
      λ s. omega (arith, a.aligned.counts s, z 8 s),
    )
