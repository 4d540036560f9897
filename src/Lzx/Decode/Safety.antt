-- ===== src/Lzx/Decode/Safety.antt =====
-- The decoder ends on every input, fills exactly the buffer that it was given, and indexes nothing
-- out of range.
use go_wim.Base.{
  ℕ, zero, suc, ◌+◌, ◌≤◌, ◌≡◌, refl, ◌∙◌, Bool, List, arith, ltb, leb, ◌==◌, length,
  length-overwrite, Finishes, value, error, Finishes-bind, Finishes-guard, Finishes-map,
  Finishes-if, slice-eq, ltb→lt, leb→le, lzx_corrupt,
}
use go_wim.Lzx.Consts.{blk_uncompressed, blk_aligned, window_size}
use go_wim.Lzx.E8.RoundTrip.{length-decode_e8}
use go_wim.Lzx.Decode.Trees.{
  IsDecoder, new_decoder-IsDecoder, read_trees-IsDecoder, with_reader, read_block_header-IsDecoder,
}
use go_wim.Lzx.Decode.Matches.{decode_round-IsRound}
use go_wim.Lzx.Decode.{
  Decoder, new_decoder, read_compressed, read_uncompressed, read_block, block_loop, decompress,
}

abbrev Filled : List ℕ → Decoder × List ℕ → Type 0
Filled window (d, w) = IsDecoder d × (length w ≡ length window)

read_compressed-Filled :
    (fuel : ℕ) (d : Decoder) (window : List ℕ) (i end : ℕ) (use_aligned : Bool)
    → IsDecoder d
    → end ≤ i + fuel
    → end ≤ length window
    → Finishes (Filled window) (read_compressed fuel d window i end use_aligned)
unfolding read_compressed
read_compressed-Filled zero d window i end use_aligned k enough he =
    Finishes-if (ltb i end) (λ e. absurd (omega (arith, ltb→lt i end e))) (λ _. value (k, refl))
read_compressed-Filled (suc fuel) d window i end use_aligned k enough he =
    Finishes-if (ltb i end)
      (λ more.
        Finishes-bind (decode_round-IsRound d window i end use_aligned k (ltb→lt i end more) he)
          λ (d', w', i') r.
            Finishes-map (λ p q. (q.0, q.1 ∙ r.size))
              (read_compressed-Filled fuel d' w' i' end use_aligned r.decoder
                (omega (arith, r.forward)) (omega (arith, r.size))))
      (λ _. value (k, refl))

-- What a block leaves.
abbrev Produced : List ℕ → ℕ × Decoder × List ℕ → Type 0
Produced window (n, d, w) = IsDecoder d × (length w ≡ length window)

read_uncompressed-Produced :
    (d : Decoder) (window : List ℕ) (start size : ℕ)
    → IsDecoder d
    → Finishes (Produced window) (read_uncompressed d window start size)
unfolding read_uncompressed
read_uncompressed-Produced d window start size k =
    Finishes-guard (leb (d.b.pos + size) (length d.b.inp)) lzx_corrupt λ fits.
      rw (slice-eq d.b.inp d.b.pos size (leb→le _ _ fits))
        (value (with_reader d _ k, length-overwrite window start _))

read_block-Produced :
    (d : Decoder) (window : List ℕ) (start : ℕ)
    → IsDecoder d
    → Finishes (Produced window) (read_block d window start)
unfolding read_block
read_block-Produced d window start k =
    Finishes-bind (read_block_header-IsDecoder d k) λ (type, size, d1) k1.
      Finishes-guard (leb (start + size) (length window)) lzx_corrupt λ fits.
        Finishes-if (type == blk_uncompressed)
          (λ _. read_uncompressed-Produced d1 window start size k1)
          (λ _. Finishes-bind (read_trees-IsDecoder d1 (type == blk_aligned) k1) λ d2 k2.
            Finishes-bind
              (read_compressed-Filled size d2 window start (start + size) (type == blk_aligned) k2
                (omega arith) (leb→le _ _ fits))
              λ (d3, w) filled. value filled)

block_loop-Finishes :
    (fuel : ℕ) (d : Decoder) (dst : List ℕ) (n : ℕ)
    → IsDecoder d
    → length dst ≤ n + fuel
    → Finishes (λ out. length out ≡ length dst) (block_loop fuel d dst n)
unfolding block_loop
block_loop-Finishes zero d dst n k enough =
    Finishes-if (ltb n (length dst)) (λ e. absurd (omega (arith, ltb→lt n (length dst) e)))
      (λ _. value refl)
block_loop-Finishes (suc fuel) d dst n k enough =
    Finishes-if (ltb n (length dst))
      (λ _. Finishes-bind (read_block-Produced d dst n k) λ (produced, d', dst') (k', same).
        Finishes-guard (ltb 0 produced) lzx_corrupt λ some.
          Finishes-map (λ out e. e ∙ same)
            (block_loop-Finishes fuel d' dst' (n + produced) k'
              (omega (arith, ltb→lt 0 produced some))))
      (λ _. value refl)

-- On every buffer and every input `Decompress` returns: with a buffer of the same length or with an
-- error. It never indexes out of range, and its loops end.
pub decompress-Finishes :
    (dst src : List ℕ) → Finishes (λ out. length out ≡ length dst) (decompress dst src)
unfolding decompress
decompress-Finishes dst src =
    Finishes-if (length dst == 0) (λ _. value refl)
      λ _.
        Finishes-if (ltb window_size (length dst)) (λ _. error)
          λ _.
            Finishes-bind
              (block_loop-Finishes (length dst) (new_decoder src) dst 0 (new_decoder-IsDecoder src)
                (omega arith))
              λ out e. value (length-decode_e8 out ∙ e)
