-- ===== src/Lzx/Codes.antt =====
-- lzx/huffman.go: the canonical codes of code lengths.
pub mod First
pub mod Table
pub mod Decode
pub mod RoundTrip
use go_wim.Base.{
  ℕ, zero, suc, ◌+◌, ◌-◌, ◌*◌, List, [], ◌∷◌, ◌++◌, replicate, set, u32, Result, ok, ◌>>=◌, at, put,
}
use go_wim.Lzx.Consts.{max_tree_path}

-- The first loop: how often each length occurs.
pub count_codes : List ℕ → List ℕ → Result (List ℕ)
count_codes [] count = ok count
count_codes (l ∷ lens) count = do
  n ← at count l
  count' ← put count l (u32 (n + 1))
  count_codes lens count'

-- The second loop, from length l on: the first code of each length.
pub next_codes : ℕ → ℕ → ℕ → List ℕ → List ℕ → Result (List ℕ)
next_codes zero l code count next = ok next
next_codes (suc rounds) l code count next = do
  n ← at count (l - 1)
  let code' = u32 (u32 (code + n) * 2)
  next' ← put next l code'
  next_codes rounds (l + 1) code' count next'

-- The last loop: the code of each symbol, the next of its length.
pub take_codes : List ℕ → List ℕ → Result (List ℕ)
take_codes [] next = ok []
take_codes (zero ∷ lens) next = take_codes lens next >>= λ codes. ok (0 ∷ codes)
take_codes (suc l ∷ lens) next = do
  code ← at next (suc l)
  next' ← put next (suc l) (u32 (code + 1))
  codes ← take_codes lens next'
  ok (code ∷ codes)

-- `canonicalCodes`
pub canonical_codes : List ℕ → Result (List ℕ)
unfolding count_codes next_codes take_codes
canonical_codes lens = do
  count ← count_codes lens (replicate (max_tree_path + 2) 0)
  count' ← put count 0 0
  next ← next_codes max_tree_path 1 0 count' (replicate (max_tree_path + 2) 0)
  take_codes lens next
