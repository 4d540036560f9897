-- ===== src/Lzx/Tokens.antt =====
-- lzx/encode.go: a match as the symbols and offset bits that code it.
pub mod Mirror
pub mod Decoded
use go_wim.Base.{
  ℕ, zero, suc, ◌+◌, ◌-◌, ◌*◌, ◌^◌, List, [], ◌∷◌, Option, none, some, ltb, leb, ◌==◌,
  if◌then◌else◌, get_or, u32, Result, ok, ◌>>=◌, at, put,
}
use go_wim.Lzx.Consts.{min_match, base_position}

-- `token`, of a match: -1 is `none`.
pub record Token : Type 0 where
  pub sym : ℕ
  pub len_sym : Option ℕ
  pub slot : ℕ
  pub extra : ℕ

-- The loop of `positionSlot` from a slot down; the base of slot 0 is 0, so it stops there.
unfoldable pub slot_loop : ℕ → ℕ → ℕ
slot_loop zero adjusted = zero
slot_loop (suc slot) adjusted =
    let lower = slot_loop slot adjusted in
    if ltb adjusted (get_or base_position (suc slot) 0) then lower else suc slot

-- `positionSlot`
unfoldable pub position_slot : ℕ → ℕ
unfolding slot_loop
position_slot adjusted = slot_loop 30 adjusted

-- The first of the recent offsets that is the offset.
pub find_recent : List ℕ → ℕ → ℕ → Option ℕ
find_recent [] offset i = none
find_recent (r ∷ rs) offset i = if r == offset then some i else find_recent rs offset (i + 1)

-- `recent[slot] = recent[0]; recent[0] = offset`
pub reuse : List ℕ → ℕ → ℕ → Result (List ℕ)
reuse recent slot offset = do
  front ← at recent 0
  recent1 ← put recent slot front
  put recent1 0 offset

-- `recent[2] = recent[1]; recent[1] = recent[0]; recent[0] = offset`
pub push_recent : List ℕ → ℕ → Result (List ℕ)
push_recent recent offset = do
  r1 ← at recent 1
  recent1 ← put recent 2 r1
  r0 ← at recent1 0
  recent2 ← put recent1 1 r0
  put recent2 0 offset

-- The symbols of a length of 2 at least, at a slot.
unfoldable pub length_token : ℕ → ℕ → ℕ → Token
length_token len slot extra =
    if leb 7 (len - min_match)
    then record {
      sym = 256 + slot * 8 + 7;
      len_sym = some (len - min_match - 7);
      slot = slot;
      extra = extra;
    }
    else record {
      sym = 256 + slot * 8 + (len - min_match);
      len_sym = none;
      slot = slot;
      extra = extra;
    }

-- A match at an offset that is none of the recent ones.
pub fresh_token : ℕ → ℕ → List ℕ → Result (Token × List ℕ)
unfolding position_slot push_recent length_token
fresh_token len offset recent = do
  let adjusted = u32 (offset + min_match)
  base ← at base_position (position_slot adjusted)
  recent' ← push_recent recent offset
  ok (length_token len (position_slot adjusted) (u32 (adjusted + 2 ^ 32 - base)), recent')

-- `matchToken`: the token and the recent offsets.
unfoldable pub match_token : ℕ → ℕ → List ℕ → Result (Token × List ℕ)
unfolding fresh_token find_recent reuse length_token
match_token len offset recent = elim (find_recent recent offset 0) [
  | some slot ↦ reuse recent slot offset >>= λ recent'. ok (length_token len slot 0, recent')
  | none ↦ fresh_token len offset recent
]
