-- ===== src/Lzx/Tokens/Mirror.antt =====
-- lzx/encode.go: what the parts of a token that matchToken makes stand for.
use go_wim.Base.{
  ℕ, zero, suc, ◌+◌, ◌-◌, ◌/◌, ◌%◌, ◌^◌, ◌≤◌, ◌<◌, ◌≡◌, refl, Bool, true, ◌&&◌, List, [], ◌∷◌,
  Option, none, some, inl, inr, arith, ltb, leb, ◌==◌, Bool-cases, get_or, u32, Result, ok, at-eq,
  leb→le, ==_iff, sym, ap, ltb→lt, ltb-false→le,
}
use go_wim.Lzx.Consts.{min_match, base_position, footer_bits}
use go_wim.Lzx.Decode.{promote, shift_in}
use go_wim.Lzx.Tokens.{
  Token, slot_loop, position_slot, find_recent, reuse, push_recent, length_token, fresh_token,
  match_token,
}

abbrev pub base_of : ℕ → ℕ
base_of slot = get_or base_position slot 0

abbrev pub width_of : ℕ → ℕ
width_of slot = get_or footer_bits slot 0

-- The length that the low part of a main symbol and a length symbol stand for.
abbrev pub IsLength : ℕ → Option ℕ → ℕ → Type 0
IsLength low none len = (low < 7) × (low + min_match ≡ len)
IsLength low (some x) len = (low ≡ 7) × (x < 249) × (low + x + min_match ≡ len)

-- The symbols stand for the slot and the length, as `match_length` takes them apart.
pub record IsCoded (len : ℕ) (t : Token) : Type 0 where
  pub above : 256 ≤ t.sym
  pub below : t.slot < 30 → t.sym < 496
  pub slot : (t.sym - 256) / 8 ≡ t.slot
  pub length : IsLength ((t.sym - 256) % 8) t.len_sym len

-- The offset and the recent offsets that the decoder derives: a slot below 3 promotes a recent one, and
-- any other is one of the 30 slots, its extra bits fit the slot's width and lead to the offset.
pub record IsMirrored (offset : ℕ) (recent : List ℕ) (slot extra : ℕ) (recent' : List ℕ)
    : Type 0 where
  pub in_range : slot < 30
  pub unused : slot < 3 → extra ≡ 0
  pub reused : slot < 3 → promote recent slot ≡ ok (offset, recent')
  pub fits : 3 ≤ slot → extra < 2 ^ width_of slot
  pub sum : 3 ≤ slot → u32 (base_of slot + extra + 2 ^ 32 - min_match) ≡ offset
  pub shifted : 3 ≤ slot → shift_in recent offset ≡ ok recent'

length_token-slot : (len slot extra : ℕ) → (length_token len slot extra).slot ≡ slot
unfolding length_token
length_token-slot len slot extra = elim (Bool-cases (leb 7 (len - 2))) [
  | inl e ↦ rw e refl
  | inr e ↦ rw e refl
]

length_token-extra : (len slot extra : ℕ) → (length_token len slot extra).extra ≡ extra
unfolding length_token
length_token-extra len slot extra = elim (Bool-cases (leb 7 (len - 2))) [
  | inl e ↦ rw e refl
  | inr e ↦ rw e refl
]

length_token-IsCoded :
    (len slot extra : ℕ) → 2 ≤ len → len ≤ 257 → IsCoded len (length_token len slot extra)
unfolding length_token
length_token-IsCoded len slot extra low high = elim (Bool-cases (leb 7 (len - 2))) [
  | inl long ↦ rw long (record {
    above = omega arith;
    below = λ h. omega arith;
    slot = omega arith;
    length = (omega arith, ground arith, ground arith);
  })
  | inr short ↦ rw short (record {
    above = omega arith;
    below = λ h. ground arith;
    slot = ground arith;
    length = (ground arith, ground arith);
  })
]

-- A test that holds for all numbers below n.
abbrev holds_below : ℕ → (ℕ → Bool) → Bool
holds_below zero p = true
holds_below (suc n) p = p n && holds_below n p

from_below : (n : ℕ) (p : ℕ → Bool) (k : ℕ) → k < n → holds_below n p ≡ true → p k ≡ true
from_below zero p k lt e = absurd (omega arith)
from_below (suc n) p k lt e = ground (arith, from_below n p k)

wide_enough : holds_below 30 (λ s. leb (base_of (suc s) - base_of s) (2 ^ width_of s)) ≡ true
wide_enough = refl

slot_width : (s : ℕ) → s < 30 → base_of (suc s) - base_of s ≤ 2 ^ width_of s
slot_width s h =
    leb→le _ _
      (from_below 30 (λ s. leb (base_of (suc s) - base_of s) (2 ^ width_of s)) s h wide_enough)

-- Where the loop stops: at a slot whose base is not above, under one whose base is.
abbrev Stops : ℕ → ℕ → ℕ → Type 0
Stops from adjusted s =
    (s ≤ from) × (base_of s ≤ adjusted) × (s < from → adjusted < base_of (suc s))

step_up :
    (from adjusted s : ℕ)
    → s ≤ from
    → (s < from → adjusted < base_of (suc s))
    → adjusted < base_of (suc from)
    → s < suc from
    → adjusted < base_of (suc s)
step_up from adjusted s le next here lt = elim (Bool-cases (s == from)) [
  | inl e ↦ let same : from ≡ s = ground arith in rw same at here
  | inr e ↦ next (ground arith)
]

top_slot : (adjusted s : ℕ) → s ≤ 30 → 30 ≤ s → adjusted < 32768 → base_of s ≤ adjusted → ⊥
top_slot adjusted s le ge high base =
    let same : s ≡ 30 = omega arith in absurd (omega (arith, rw same at base))

-- A slot below 3 holds only its own base.
slot_bounds :
    (adjusted s : ℕ)
    → 3 ≤ adjusted
    → adjusted < 32768
    → s ≤ 30
    → base_of s ≤ adjusted
    → (s < 30 → adjusted < base_of (suc s))
    → (3 ≤ s) × (s < 30) × (base_of s ≤ adjusted) × (adjusted - base_of s < 2 ^ width_of s)
slot_bounds adjusted zero low high le base next = absurd (omega (arith, next (omega arith)))
slot_bounds adjusted (suc zero) low high le base next = absurd (omega (arith, next (omega arith)))
slot_bounds adjusted (suc (suc zero)) low high le base next =
    absurd (omega (arith, next (omega arith)))
slot_bounds adjusted (suc (suc (suc s))) low high le base next =
    elim (Bool-cases (ltb (suc (suc (suc s))) 30)) [
      | inl lt ↦
          let lt' = ltb→lt _ _ lt in
          (omega arith, lt', base, omega (arith, next lt', slot_width (suc (suc (suc s))) lt'))
      | inr ge ↦ absurd (top_slot adjusted (suc (suc (suc s))) le (ltb-false→le _ _ ge) high base)
    ]

slot_loop-Stops : (from adjusted : ℕ) → Stops from adjusted (slot_loop from adjusted)
unfolding slot_loop
slot_loop-Stops zero adjusted = (omega arith, omega arith, λ h. absurd (omega arith))
slot_loop-Stops (suc from) adjusted = elim (Bool-cases (ltb adjusted (base_of (suc from)))) [
  | inl high ↦
      let (le, base, next) = slot_loop-Stops from adjusted in
      rw high (
        omega arith,
        base,
        step_up from adjusted (slot_loop from adjusted) le next (ltb→lt _ _ high),
      )
  | inr low ↦ rw low (omega arith, ltb-false→le _ _ low, λ h. absurd (omega arith))
]

-- Every offset that a match in a window can have falls into one of the 30 slots behind the recent ones.
position_slot-IsSlot :
    (adjusted : ℕ)
    → 3 ≤ adjusted
    → adjusted < 32768
    → (3 ≤ position_slot adjusted)
      × (position_slot adjusted < 30)
      × (base_of (position_slot adjusted) ≤ adjusted)
      × (adjusted - base_of (position_slot adjusted) < 2 ^ width_of (position_slot adjusted))
unfolding position_slot
position_slot-IsSlot adjusted low high =
    let (le, base, next) = slot_loop-Stops 30 adjusted in
    slot_bounds adjusted (slot_loop 30 adjusted) low high le base next

-- A token of a slot and its bits, from what the slot and the bits mirror.
abbrev pub TokenResult : ℕ → ℕ → List ℕ → Result (Token × List ℕ) → Type 0
TokenResult len offset recent result =
    (t : Token) × (recent' : List ℕ) × (result ≡ ok (t, recent'))
    × IsCoded len t
    × IsMirrored offset recent t.slot t.extra recent'

token_result :
    (len offset slot extra : ℕ) (recent recent' : List ℕ)
    → 2 ≤ len
    → len ≤ 257
    → IsMirrored offset recent slot extra recent'
    → TokenResult len offset recent (ok (length_token len slot extra, recent'))
token_result len offset slot extra recent recent' low high m = (
  length_token len slot extra,
  recent',
  refl,
  length_token-IsCoded len slot extra low high,
  rw (length_token-slot len slot extra, length_token-extra len slot extra) m,
)

-- A recent offset that is found at a slot below 3.
reused-IsMirrored :
    (offset slot : ℕ) (recent recent' : List ℕ)
    → slot < 3
    → promote recent slot ≡ ok (offset, recent')
    → IsMirrored offset recent slot 0 recent'
reused-IsMirrored offset slot recent recent' lt e = record {
  in_range = omega arith;
  unused = λ h. refl;
  reused = λ h. e;
  fits = λ h. absurd (omega arith);
  sum = λ h. absurd (omega arith);
  shifted = λ h. absurd (omega arith);
}

fresh-IsMirrored :
    (offset r0 r1 r2 slot base : ℕ)
    → offset ≤ 32765
    → 3 ≤ slot
    → slot < 30
    → base ≡ base_of slot
    → base ≤ offset + 2
    → offset + 2 - base < 2 ^ width_of slot
    → IsMirrored offset
        (r0 ∷ r1 ∷ r2 ∷ [])
        slot
        (u32 (u32 (offset + 2) + 2 ^ 32 - base))
        (offset ∷ r0 ∷ r1 ∷ [])
unfolding shift_in
fresh-IsMirrored offset r0 r1 r2 slot base far low high same le fits =
    let bits : u32 (u32 (offset + 2) + 2 ^ 32 - base) ≡ offset + 2 - base = omega arith in
    rw bits (record {
      in_range = high;
      unused = λ h. absurd (omega arith);
      reused = λ h. absurd (omega arith);
      fits = λ h. fits;
      sum = λ h. rw (sym same) (omega arith);
      shifted = λ h. refl;
    })

swap_fits : (a b c w : ℕ) → a ≡ b → a - c < w → b - c < w
swap_fits a b c w same h = omega arith

fresh_result :
    (len offset r0 r1 r2 : ℕ)
    → 2 ≤ len
    → len ≤ 257
    → 1 ≤ offset
    → offset ≤ 32765
    → TokenResult len offset (r0 ∷ r1 ∷ r2 ∷ []) (fresh_token len offset (r0 ∷ r1 ∷ r2 ∷ []))
unfolding fresh_token push_recent
fresh_result len offset r0 r1 r2 low high pos far =
    let adjusted : u32 (offset + 2) ≡ offset + 2 = omega arith in
    let (above, below, base, fits) =
      position_slot-IsSlot (u32 (offset + 2)) (omega arith) (omega arith) in
    rw (at-eq base_position (position_slot (u32 (offset + 2))) 0 (omega arith)) (
      token_result len offset (position_slot (u32 (offset + 2))) _ (r0 ∷ r1 ∷ r2 ∷ [])
        (offset ∷ r0 ∷ r1 ∷ []) low high
        (fresh-IsMirrored offset r0 r1 r2 (position_slot (u32 (offset + 2))) _ far above below refl
          (omega arith) (swap_fits _ _ _ _ adjusted fits)))

found-eq :
    (len offset slot : ℕ) (recent recent' : List ℕ)
    → find_recent recent offset 0 ≡ some slot
    → reuse recent slot offset ≡ ok recent'
    → match_token len offset recent ≡ ok (length_token len slot 0, recent')
unfolding match_token
found-eq len offset slot recent recent' e f = rw (match_token, e, f) refl

not_found-eq :
    (len offset : ℕ) (recent : List ℕ)
    → find_recent recent offset 0 ≡ none
    → match_token len offset recent ≡ fresh_token len offset recent
unfolding match_token
not_found-eq len offset recent e = rw (match_token, e) refl

reused_result :
    (len offset slot : ℕ) (recent recent' : List ℕ)
    → 2 ≤ len
    → len ≤ 257
    → slot < 3
    → find_recent recent offset 0 ≡ some slot
    → reuse recent slot offset ≡ ok recent'
    → promote recent slot ≡ ok (offset, recent')
    → TokenResult len offset recent (match_token len offset recent)
reused_result len offset slot recent recent' low high lt e f g =
    rw (found-eq len offset slot recent recent' e f) (
      token_result len offset slot 0 recent recent' low high
        (reused-IsMirrored offset slot recent recent' lt g))

-- The parts of the token that matchToken gives, and what they mirror.
pub match_token-IsMirrored :
    (len offset r0 r1 r2 : ℕ)
    → 2 ≤ len
    → len ≤ 257
    → 1 ≤ offset
    → offset ≤ 32765
    → TokenResult len offset (r0 ∷ r1 ∷ r2 ∷ []) (match_token len offset (r0 ∷ r1 ∷ r2 ∷ []))
unfolding find_recent reuse promote
match_token-IsMirrored len offset r0 r1 r2 low high pos far = elim (Bool-cases (r0 == offset)) [
  | inl e0 ↦
      reused_result len offset 0 _ (offset ∷ r1 ∷ r2 ∷ []) low high (omega arith) (rw e0 refl) refl
        (ap (λ x. ok (x, x ∷ r1 ∷ r2 ∷ [])) ((==_iff _ _).0 e0))
  | inr n0 ↦ elim (Bool-cases (r1 == offset)) [
    | inl e1 ↦
        reused_result len offset 1 _ (offset ∷ r0 ∷ r2 ∷ []) low high (omega arith)
          (rw (n0, e1) refl) refl (ap (λ x. ok (x, x ∷ r0 ∷ r2 ∷ [])) ((==_iff _ _).0 e1))
    | inr n1 ↦ elim (Bool-cases (r2 == offset)) [
      | inl e2 ↦
          reused_result len offset 2 _ (offset ∷ r1 ∷ r0 ∷ []) low high (omega arith)
            (rw (n0, n1, e2) refl) refl (ap (λ x. ok (x, x ∷ r1 ∷ r0 ∷ [])) ((==_iff _ _).0 e2))
      | inr n2 ↦
          rw (not_found-eq len offset (r0 ∷ r1 ∷ r2 ∷ []) (rw (n0, n1, n2) refl))
            (fresh_result len offset r0 r1 r2 low high pos far)
    ]
  ]
]
