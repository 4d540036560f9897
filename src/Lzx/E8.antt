-- ===== src/Lzx/E8.antt =====
-- lzx/encode.go and lzx/decode.go: encodeE8 and decodeE8, the x86 CALL translation of a chunk.
pub mod Value
pub mod RoundTrip
use go_wim.Base.{
  ℕ, zero, suc, ◌+◌, ◌-◌, ◌*◌, ◌/◌, ◌%◌, ◌^◌, ◌≤◌, ◌<◌, ◌≡◌, refl, Bool, true, false, List, [], ◌∷◌,
  ◌++◌, arith, ltb, leb, ◌==◌, ◌&&◌, if◌then◌else◌, length, take, drop, u32, from_le, to_le,
}
use go_wim.Lzx.Consts.{e8_file_size, e8_min_length}

-- An int32 is kept as its bit pattern, a uint32; `biased v` orders patterns as the int32s they
-- stand for, so `x < y` over int32 is `biased x < biased y`.
abbrev pub biased : ℕ → ℕ
biased v = u32 (v + 2 ^ 31)

-- `-x`, `x + y` and `x - y` over int32, which wrap.
abbrev pub neg32 : ℕ → ℕ
neg32 x = u32 (2 ^ 32 - x)

abbrev pub add32 : ℕ → ℕ → ℕ
add32 x y = u32 (x + y)

abbrev pub sub32 : ℕ → ℕ → ℕ
sub32 x y = u32 (x + 2 ^ 32 - y)

abbrev pub lt32 : ℕ → ℕ → Bool
lt32 x y = ltb (biased x) (biased y)

abbrev pub le32 : ℕ → ℕ → Bool
le32 x y = leb (biased x) (biased y)

-- The switch of `encodeE8` on the word x at `pos`: the word that is left there.
pub encode_call : ℕ → ℕ → ℕ
encode_call pos x =
    if le32 (neg32 pos) x && lt32 x (sub32 e8_file_size pos)
    then add32 x pos
    else if le32 (sub32 e8_file_size pos) x && lt32 x e8_file_size
    then sub32 x e8_file_size
    else x

-- The body of `decodeE8`'s loop on the word v at `pos`.
pub decode_call : ℕ → ℕ → ℕ
decode_call pos v =
    if le32 (neg32 pos) v && lt32 v e8_file_size
    then (if le32 0 v then sub32 v pos else add32 v e8_file_size)
    else v

-- The loop of both on `b[i:]`, which starts with the opcode at i. At an E8 byte with more than
-- nine bytes behind it the next four are rewritten, and the loop goes on behind them.
pub translate : (ℕ → ℕ → ℕ) → ℕ → List ℕ → List ℕ
translate call i (op ∷ b0 ∷ b1 ∷ b2 ∷ b3 ∷ rest) =
    let word = to_le 4 (call i (from_le (b0 ∷ b1 ∷ b2 ∷ b3 ∷ []))) in
    let behind = translate call (i + 5) rest in
    let next = translate call (i + 1) (b0 ∷ b1 ∷ b2 ∷ b3 ∷ rest) in
    if ltb e8_min_length (5 + length rest)
    then (if op == 0xe8 then op ∷ (word ++ behind) else op ∷ next)
    else op ∷ b0 ∷ b1 ∷ b2 ∷ b3 ∷ rest
translate call i bs = bs

unfoldable pub encode_e8 : List ℕ → List ℕ
unfolding translate encode_call
encode_e8 b = if ltb (length b) e8_min_length then b else translate encode_call 0 b

unfoldable pub decode_e8 : List ℕ → List ℕ
unfolding translate decode_call
decode_e8 b = if ltb (length b) e8_min_length then b else translate decode_call 0 b
