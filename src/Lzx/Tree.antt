-- ===== src/Lzx/Tree.antt =====
-- lzx/decode.go: readTree, the code lengths of one tree as deltas through a pre-tree.
pub mod Safety
use go_wim.Base.{
  ℕ, zero, suc, ◌+◌, ◌-◌, ◌%◌, ◌≡◌, refl, Bool, true, false, not, List, [], ◌∷◌, ltb, leb, ◌==◌,
  ◌||◌, if◌then◌else◌, length, overwrite, replicate, u8, Result, ok, err, hang, lzx_corrupt, ◌>>=◌,
  ◌>>◌, guard, at, put,
}
use go_wim.Lzx.Consts.{pretree_count}
use go_wim.Lzx.BitReader.{BitReader, bits}
use go_wim.Lzx.Huffman.{Huffman, new_huffman, build, sym}

-- n bytes of k bits each.
pub read_fields : ℕ → ℕ → BitReader → List ℕ × BitReader
read_fields zero k b = ([], b)
read_fields (suc n) k b =
    let (v, b') = bits b k in let (vs, b'') = read_fields n k b' in (u8 v ∷ vs, b'')

-- `sym`, and the check of the failure flag that follows each call.
unfoldable pub checked_sym : BitReader → Huffman → Result (ℕ × BitReader)
checked_sym b h = do (c, b') ← sym b h; guard (not b'.failed) lzx_corrupt; ok (c, b')

abbrev pub delta_len : ℕ → ℕ → ℕ
delta_len l c = u8 ((l + 17 - c) % 17)

-- The lengths, the index and the reader after one pre-tree symbol.
abbrev pub TreeState : Type 0
TreeState = List ℕ × ℕ × BitReader

one_delta : List ℕ → ℕ → ℕ → BitReader → Result TreeState
one_delta lens i c b = do l ← at lens i; lens' ← put lens i (delta_len l c); ok (lens', i + 1, b)

zero_run : List ℕ → ℕ → ℕ × BitReader → ℕ → Result TreeState
zero_run lens i (v, b) least = do
  guard (leb (i + (v + least)) (length lens)) lzx_corrupt
  ok (overwrite lens i (replicate (v + least) 0), i + (v + least), b)

same_run : Huffman → List ℕ → ℕ → ℕ × BitReader → Result TreeState
same_run pt lens i (v, b) = do
  guard (leb (i + (v + 4)) (length lens)) lzx_corrupt
  (c, b') ← checked_sym b pt
  guard (leb c 16) lzx_corrupt
  l ← at lens i
  ok (overwrite lens i (replicate (v + 4) (delta_len l c)), i + (v + 4), b')

-- The switch on the symbol.
pub apply_sym : Huffman → List ℕ → ℕ → ℕ → BitReader → Result TreeState
unfolding one_delta zero_run same_run
apply_sym pt lens i c b =
    if leb c 16
    then one_delta lens i c b
    else if c == 17
    then zero_run lens i (bits b 4) 4
    else if c == 18
    then zero_run lens i (bits b 5) 20
    else if c == 19
    then same_run pt lens i (bits b 1)
    else err lzx_corrupt

-- The loop over i; every round moves i on, so `length lens` rounds are enough.
pub tree_loop : ℕ → Huffman → List ℕ → ℕ → BitReader → Result (List ℕ × BitReader)
unfolding checked_sym apply_sym
tree_loop zero pt lens i b = if ltb i (length lens) then hang else ok (lens, b)
tree_loop (suc fuel) pt lens i b =
    let round = checked_sym b pt >>= λ (c, b1).
    apply_sym pt lens i c b1 >>= λ (lens', i', b2). tree_loop fuel pt lens' i' b2 in
    if ltb i (length lens) then round else ok (lens, b)

pub read_tree : BitReader → List ℕ → Result (List ℕ × BitReader)
unfolding read_fields tree_loop
read_tree b lens =
    let (pretree_lens, b') = read_fields pretree_count 4 b in
    build new_huffman pretree_lens >>= λ pt. tree_loop (length lens) pt lens 0 b'
