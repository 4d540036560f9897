-- ===== src/Lzx/Huffman.antt =====
-- lzx/decode.go: the canonical Huffman table, its build from code lengths and the symbol decode.
pub mod Counts
pub mod Safety
use go_wim.Base.{
  ℕ, zero, suc, ◌+◌, ◌-◌, ◌*◌, ◌≤◌, ◌<◌, ◌≡◌, refl, Bool, true, false, List, [], ◌∷◌, arith, ltb,
  leb, ◌==◌, if◌then◌else◌, length, set, replicate, u16, bit_or, Result, ok, err, panic,
  lzx_corrupt, ◌>>=◌, ◌>>◌, guard, at, put,
}
use go_wim.Lzx.Consts.{max_tree_path, main_code_count}
use go_wim.Lzx.BitReader.{BitReader, bits, fail_reader}

pub record Huffman : Type 0 where
  pub max_bits : ℕ
  pub count : List ℕ
  pub symbol : List ℕ

-- The zero value of the struct.
unfoldable pub new_huffman : Huffman
new_huffman = record {
  max_bits = 0;
  count = replicate (max_tree_path + 1) 0;
  symbol = replicate main_code_count 0;
}

-- The first loop of `build`: the number of symbols at each length, and the longest length.
unfoldable pub count_lens : List ℕ → List ℕ → ℕ → Result (List ℕ × ℕ)
count_lens [] count longest = ok (count, longest)
count_lens (l ∷ lens) count longest = if ltb max_tree_path l then err lzx_corrupt else do
  n ← at count l
  count_lens lens (set count l (u16 (n + 1))) (if ltb longest l then l else longest)

-- The second loop, from length l on: the code space left over. The error is over-subscription.
unfoldable pub code_space : ℕ → ℕ → List ℕ → ℕ → Result ℕ
code_space zero l count left = ok left
code_space (suc rounds) l count left = do
  n ← at count l
  if ltb (2 * left) n then err lzx_corrupt else code_space rounds (l + 1) count (2 * left - n)

-- The third loop: where the symbols of each length begin.
unfoldable pub symbol_offsets : ℕ → ℕ → List ℕ → List ℕ → Result (List ℕ)
symbol_offsets zero l count offs = ok offs
symbol_offsets (suc rounds) l count offs = do
  o ← at offs l
  n ← at count l
  offs' ← put offs (l + 1) (u16 (o + n))
  symbol_offsets rounds (l + 1) count offs'

-- The last loop: the symbols from i on, each put at the next place of its length.
unfoldable pub fill_symbols : List ℕ → ℕ → List ℕ → List ℕ → Result (List ℕ)
fill_symbols [] i offs symbol = ok symbol
fill_symbols (zero ∷ lens) i offs symbol = fill_symbols lens (i + 1) offs symbol
fill_symbols (suc l ∷ lens) i offs symbol = do
  o ← at offs (suc l)
  symbol' ← put symbol o (u16 i)
  fill_symbols lens (i + 1) (set offs (suc l) (u16 (o + 1))) symbol'

-- The part of `build` behind its early return.
unfoldable pub build_symbols : Huffman → List ℕ → List ℕ → ℕ → Result Huffman
unfolding code_space symbol_offsets fill_symbols
build_symbols h lens count longest = do
  left ← code_space max_tree_path 1 count 1
  guard (left == 0) lzx_corrupt
  offs ← symbol_offsets (max_tree_path - 1) 1 count (replicate (max_tree_path + 2) 0)
  symbol ← fill_symbols lens 0 offs h.symbol
  ok (record { max_bits = longest; count = count; symbol = symbol })

unfoldable pub build : Huffman → List ℕ → Result Huffman
unfolding count_lens build_symbols
build h lens = do
  (count, longest) ← count_lens lens (replicate (max_tree_path + 1) 0) 0
  if longest == 0
      then ok (record h { max_bits = 0; count = count })
      else build_symbols h lens count longest

-- `int(h.symbol[index+code-first])`, with the index an int.
unfoldable pub symbol_at : Huffman → ℕ → ℕ → ℕ → Result ℕ
symbol_at h index code first =
    if leb first (index + code) then at h.symbol (index + code - first) else panic

-- The loop of `sym` at length l. The test is `code-first < cnt` over ints.
unfoldable pub sym_loop : ℕ → ℕ → BitReader → Huffman → ℕ → ℕ → ℕ → Result (ℕ × BitReader)
unfolding symbol_at
sym_loop zero l b h code first index = ok (0, fail_reader b)
sym_loop (suc rounds) l b h code first index =
    let (v, b') = bits b 1 in
    let code' = bit_or code v in
    at h.count l >>= λ cnt.
    let rest = sym_loop rounds (l + 1) b' h (code' * 2) ((first + cnt) * 2) (index + cnt) in
    if ltb code' (first + cnt) then (symbol_at h index code' first >>= λ s. ok (s, b')) else rest

-- `sym`: the symbol and the reader, whose failure flag is set if there is none.
unfoldable pub sym : BitReader → Huffman → Result (ℕ × BitReader)
unfolding sym_loop
sym b h = if h.max_bits == 0 then ok (0, fail_reader b) else sym_loop h.max_bits 1 b h 0 0 0
