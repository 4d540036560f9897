-- ===== src/Lzx/Decode/Trees.antt =====
-- What the decoder keeps of its arrays, through the trees and the header of a block.
use go_wim.Base.{
  ℕ, ◌+◌, ◌≤◌, ◌≡◌, refl, ◌∙◌, Bool, not, ◌||◌, List, ◌++◌, arith, ltb, leb, ◌==◌, if◌then◌else◌,
  length, take, drop, length-append, length-take, length-drop, Finishes, value, error,
  Finishes-bind, Finishes-guard, Finishes-if, slice-eq, leb→le, lzx_corrupt, u8,
}
use go_wim.Lzx.Consts.{window_size, blk_verbatim, blk_aligned, blk_uncompressed}
use go_wim.Lzx.BitReader.{BitReader, bits}
use go_wim.Lzx.Huffman.Safety.{IsTable, new_huffman-IsTable, build-IsTable}
use go_wim.Lzx.Tree.{read_fields}
use go_wim.Lzx.Tree.Safety.{length-read_fields, read_tree-Finishes}
use go_wim.Lzx.Decode.{
  Decoder, new_decoder, read_aligned_tree, read_main_trees, read_length_tree, read_trees, realign,
  read_size, read_recent, read_block_header,
}

-- What every step of the decoder keeps of its arrays.
pub record IsDecoder (d : Decoder) : Type 0 where
  pub main_size : length d.main_lens ≡ 496
  pub len_size : length d.len_lens ≡ 249
  pub main : IsTable d.main
  pub length_tree : IsTable d.length_tree
  pub aligned : IsTable d.aligned
  pub recent : length d.recent ≡ 3

pub new_decoder-IsDecoder : (src : List ℕ) → IsDecoder (new_decoder src)
unfolding new_decoder
new_decoder-IsDecoder src = record {
  main_size = refl;
  len_size = refl;
  main = new_huffman-IsTable;
  length_tree = new_huffman-IsTable;
  aligned = new_huffman-IsTable;
  recent = refl;
}

read_aligned_tree-IsDecoder : (d : Decoder) → IsDecoder d → Finishes IsDecoder (read_aligned_tree d)
unfolding read_aligned_tree
read_aligned_tree-IsDecoder d k =
    Finishes-bind
      (build-IsTable d.aligned (read_fields 8 3 d.b).0 k.aligned.symbol_size
        (omega (arith, length-read_fields 8 3 d.b)))
      λ h t. value (record {
        main_size = k.main_size;
        len_size = k.len_size;
        main = k.main;
        length_tree = k.length_tree;
        aligned = t;
        recent = k.recent;
      })

halves :
    (lens : List ℕ)
    → length lens ≡ 496
    → (length (take 256 lens) ≡ 256) × (length (drop 256 lens) ≡ 240)
halves lens h = omega (arith, length-take 256 lens, length-drop 256 lens)

read_main_trees-IsDecoder : (d : Decoder) → IsDecoder d → Finishes IsDecoder (read_main_trees d)
unfolding read_main_trees
read_main_trees-IsDecoder d k =
    let (lo_size, hi_size) = halves d.main_lens k.main_size in
    Finishes-bind (read_tree-Finishes d.b (take 256 d.main_lens)) λ (lo, b1) elo.
      Finishes-bind (read_tree-Finishes b1 (drop 256 d.main_lens)) λ (hi, b2) ehi.
        let size : length (lo ++ hi) ≡ 496 = omega (arith, length-append lo hi) in
        Finishes-bind (build-IsTable d.main (lo ++ hi) k.main.symbol_size (omega arith)) λ h t.
          value (record {
            main_size = size;
            len_size = k.len_size;
            main = t;
            length_tree = k.length_tree;
            aligned = k.aligned;
            recent = k.recent;
          })

read_length_tree-IsDecoder : (d : Decoder) → IsDecoder d → Finishes IsDecoder (read_length_tree d)
unfolding read_length_tree
read_length_tree-IsDecoder d k = Finishes-bind (read_tree-Finishes d.b d.len_lens) λ (lens, b1) e.
    let size : length lens ≡ 249 = e ∙ k.len_size in
    Finishes-bind (build-IsTable d.length_tree lens k.length_tree.symbol_size (omega arith)) λ h t.
      value (record {
        main_size = k.main_size;
        len_size = size;
        main = k.main;
        length_tree = t;
        aligned = k.aligned;
        recent = k.recent;
      })

pub read_trees-IsDecoder :
    (d : Decoder) (read_aligned : Bool)
    → IsDecoder d
    → Finishes IsDecoder (read_trees d read_aligned)
unfolding read_trees
read_trees-IsDecoder d read_aligned k =
    Finishes-bind (Finishes-if read_aligned (λ _. read_aligned_tree-IsDecoder d k) (λ _. value k))
      λ d1 k1.
        Finishes-bind (read_main_trees-IsDecoder d1 k1) λ d2 k2. read_length_tree-IsDecoder d2 k2

-- Another bit reader or other offsets change nothing of this.
pub with_reader : (d : Decoder) (b : BitReader) → IsDecoder d → IsDecoder (record d { b = b })
with_reader d b k = record {
  main_size = k.main_size;
  len_size = k.len_size;
  main = k.main;
  length_tree = k.length_tree;
  aligned = k.aligned;
  recent = k.recent;
}

pub with_recent :
    (d : Decoder) (b : BitReader) (recent : List ℕ)
    → IsDecoder d
    → length recent ≡ 3
    → IsDecoder (record d { b = b; recent = recent })
with_recent d b recent k h = record {
  main_size = k.main_size;
  len_size = k.len_size;
  main = k.main;
  length_tree = k.length_tree;
  aligned = k.aligned;
  recent = h;
}

read_recent-IsDecoder : (d : Decoder) → IsDecoder d → Finishes IsDecoder (read_recent d)
unfolding read_recent
read_recent-IsDecoder d k =
    let b1 = (bits d.b (if d.b.nbits == 0 then 16 else d.b.nbits)).1 in
    Finishes-guard (leb (b1.pos + 12) (length b1.inp)) lzx_corrupt λ fits.
      let room : b1.pos + 12 ≤ length b1.inp = leb→le _ _ fits in
      rw
        (
          slice-eq b1.inp b1.pos 2 (omega arith),
          slice-eq b1.inp (b1.pos + 4) 2 (omega arith),
          slice-eq b1.inp (b1.pos + 8) 2 (omega arith),
        )
        (value (with_recent d _ _ k refl))

read_size-Finishes : (b : BitReader) → Finishes (λ s. Unit) (read_size b)
unfolding read_size
read_size-Finishes b =
    let size = (bits (bits b 1).1 16).0 in
    Finishes-if (not ((bits b 1).0 == 0)) (λ _. value tt)
      λ _. Finishes-if (ltb window_size size) (λ _. error) (λ _. value tt)

pub read_block_header-IsDecoder :
    (d : Decoder)
    → IsDecoder d
    → Finishes (λ (r : ℕ × ℕ × Decoder). IsDecoder r.2) (read_block_header d)
unfolding read_block_header
read_block_header-IsDecoder d k =
    let r = bits (realign d.b) 3 in
    let type = u8 r.0 in
    Finishes-bind (read_size-Finishes r.1) λ (size, b2) _.
      Finishes-if (type == blk_verbatim || type == blk_aligned) (λ _. value (with_reader d b2 k))
        λ _.
          Finishes-if (type == blk_uncompressed)
            (λ _.
              Finishes-bind (read_recent-IsDecoder (record d { b = b2 }) (with_reader d b2 k))
                λ d3 k3. value k3)
            (λ _. error)
