-- ===== src/Lzx/Tree/Safety.antt =====
-- Reading a tree ends, keeps the number of code lengths, and indexes nothing out of range.
use go_wim.Base.{
  ℕ, zero, suc, ◌+◌, ◌≤◌, ◌<◌, ◌≡◌, refl, ◌∙◌, not, List, arith, ltb, leb, ◌==◌, length, get_or,
  length-overwrite, length-set, Finishes, value, error, Finishes-bind, Finishes-guard, Finishes-map,
  Finishes-if, at-eq, put-eq, ltb→lt, lzx_corrupt,
}
use go_wim.Lzx.BitReader.{BitReader, bits}
use go_wim.Lzx.Huffman.{Huffman, new_huffman}
use go_wim.Lzx.Huffman.Safety.{IsTable, new_huffman-IsTable, sym-Finishes, build-IsTable}
use go_wim.Lzx.Tree.{
  TreeState, read_fields, checked_sym, delta_len, one_delta, zero_run, same_run, apply_sym,
  tree_loop, read_tree,
}

pub length-read_fields : (n k : ℕ) (b : BitReader) → length (read_fields n k b).0 ≡ n
unfolding read_fields
length-read_fields zero k b = refl
length-read_fields (suc n) k b = omega (arith, length-read_fields n k (bits b k).1)

pub checked_sym-Finishes :
    (b : BitReader) (h : Huffman) → IsTable h → Finishes (λ s. Unit) (checked_sym b h)
unfolding checked_sym
checked_sym-Finishes b h t =
    Finishes-bind (sym-Finishes b h t)
      λ (c, b') _. Finishes-guard (not b'.failed) lzx_corrupt λ _. value tt

-- A round keeps the number of lengths and moves the index on.
abbrev Forward : List ℕ → ℕ → TreeState → Type 0
Forward lens i (lens', i', b') = (length lens' ≡ length lens) × (i < i')

one_delta-Forward :
    (lens : List ℕ) (i c : ℕ) (b : BitReader)
    → i < length lens
    → Finishes (Forward lens i) (one_delta lens i c b)
unfolding one_delta
one_delta-Forward lens i c b h =
    rw (at-eq lens i 0 h, put-eq lens i (delta_len (get_or lens i 0) c) h)
      (value (length-set lens i _, omega arith))

zero_run-Forward :
    (lens : List ℕ) (i v : ℕ) (b : BitReader) (least : ℕ)
    → 0 < least
    → Finishes (Forward lens i) (zero_run lens i (v, b) least)
unfolding zero_run
zero_run-Forward lens i v b least h =
    Finishes-guard (leb (i + (v + least)) (length lens)) lzx_corrupt
      λ _. value (length-overwrite lens i _, omega arith)

same_run-Forward :
    (pt : Huffman) (lens : List ℕ) (i v : ℕ) (b : BitReader)
    → IsTable pt
    → i < length lens
    → Finishes (Forward lens i) (same_run pt lens i (v, b))
unfolding same_run
same_run-Forward pt lens i v b t h =
    Finishes-guard (leb (i + (v + 4)) (length lens)) lzx_corrupt λ _.
      Finishes-bind (checked_sym-Finishes b pt t) λ (c, b') _.
        Finishes-guard (leb c 16) lzx_corrupt
          λ _. rw (at-eq lens i 0 h) (value (length-overwrite lens i _, omega arith))

apply_sym-Forward :
    (pt : Huffman) (lens : List ℕ) (i c : ℕ) (b : BitReader)
    → IsTable pt
    → i < length lens
    → Finishes (Forward lens i) (apply_sym pt lens i c b)
unfolding apply_sym
apply_sym-Forward pt lens i c b t h =
    Finishes-if (leb c 16) (λ _. one_delta-Forward lens i c b h)
      λ _.
        Finishes-if (c == 17) (λ _. zero_run-Forward lens i _ _ 4 (omega arith))
          λ _.
            Finishes-if (c == 18) (λ _. zero_run-Forward lens i _ _ 20 (omega arith))
              λ _. Finishes-if (c == 19) (λ _. same_run-Forward pt lens i _ _ t h) (λ _. error)

abbrev SameLength : List ℕ → List ℕ × BitReader → Type 0
SameLength lens (lens', b') = length lens' ≡ length lens

tree_loop-Finishes :
    (fuel : ℕ) (pt : Huffman) (lens : List ℕ) (i : ℕ) (b : BitReader)
    → IsTable pt
    → length lens ≤ i + fuel
    → Finishes (SameLength lens) (tree_loop fuel pt lens i b)
unfolding tree_loop
tree_loop-Finishes zero pt lens i b t h =
    Finishes-if (ltb i (length lens)) (λ e. absurd (omega (arith, ltb→lt i (length lens) e)))
      (λ _. value refl)
tree_loop-Finishes (suc fuel) pt lens i b t h =
    Finishes-if (ltb i (length lens))
      (λ more. Finishes-bind (checked_sym-Finishes b pt t) λ (c, b1) _.
        Finishes-bind (apply_sym-Forward pt lens i c b1 t (ltb→lt i (length lens) more))
          λ (lens', i', b2) (same, up).
            Finishes-map (λ r e. e ∙ same) (tree_loop-Finishes fuel pt lens' i' b2 t (omega arith)))
      (λ _. value refl)

pub read_tree-Finishes :
    (b : BitReader) (lens : List ℕ)
    → Finishes (λ (r : List ℕ × BitReader). length r.0 ≡ length lens) (read_tree b lens)
unfolding read_tree
read_tree-Finishes b lens =
    Finishes-bind
      (build-IsTable new_huffman (read_fields 20 4 b).0 new_huffman-IsTable.symbol_size
        (omega (arith, length-read_fields 20 4 b)))
      λ pt t. tree_loop-Finishes (length lens) pt lens 0 (read_fields 20 4 b).1 t (omega arith)
