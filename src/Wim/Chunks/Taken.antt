-- ===== src/Wim/Chunks/Taken.antt =====
-- Resources compressed by chunks, as the reader finds and takes their chunks.
use go_wim.Base.{
  ℕ, suc, ◌+◌, ◌-◌, ◌≤◌, ◌<◌, ◌≡◌, refl, sym, ap, subst, List, [], ◌∷◌, some, arith, length,
  get_elem?, ok,
}
use go_wim.Lzx.Consts.{window_size}
use go_wim.Lzx.Compress.{Coder, compress}
use go_wim.Lzx.Compress.Sizes.{IsNarrow}
use go_wim.Wim.ResHdr.{ResHdr}
use go_wim.Wim.Resource.{
  ReaderAt, ChunkCache, chunk_count, chunk_usize, max_resource_size, read_chunk_table, use_stored,
}
use go_wim.Wim.Chunks.{chunk_src}
use go_wim.Wim.Chunks.Layout.{marks}
use go_wim.Wim.Chunks.Stored.{taken_as, length-encode_chunks}
use go_wim.Wim.Chunks.Reading.{IsWritten, offsets, read_chunk_table-eq, taken-chunk}

length-marks : (a : ℕ) (es : List (List ℕ)) → length (marks a es) ≡ suc (length es)
unfolding marks
length-marks a [] = refl
length-marks a (e ∷ es) = ap suc (length-marks (a + length e) es)

-- The reader's table leads it to chunk i, which it takes as Compress left it.
abbrev pub TakesChunk : Coder → ℕ → List ℕ → ReaderAt → ResHdr → ℕ → ℕ → ChunkCache → Type 0
TakesChunk coder chunk bytes r res count i cache =
    (offs : List ℕ) × (read_chunk_table r chunk res ≡ ok offs)
    × (length offs ≡ count + 1)
    × (start : ℕ) × (stop : ℕ) × (get_elem? offs i ≡ some start)
    × (get_elem? offs (suc i) ≡ some stop)
    × (use_stored i (stop - start) (chunk_usize chunk res count i) (r (stop - start) start) cache
        ≡ taken_as i (chunk_src bytes chunk i) cache
            (compress coder chunk (chunk_src bytes chunk i)))

module _ (coder : Coder) (chunk : ℕ) (bytes : List ℕ) (r : ReaderAt) (res : ResHdr)
    (good : IsNarrow coder) (k : IsWritten coder chunk bytes r res) (positive : 0 < chunk)
    (narrow : chunk ≤ window_size) (used : 0 < length bytes)
    (few : length bytes ≤ max_resource_size) where
  takes_chunk :
      (m i : ℕ) (cache : ChunkCache)
      → chunk_count chunk (length bytes) ≡ suc m
      → i ≤ m
      → TakesChunk coder chunk bytes r res (suc m) i cache
  takes_chunk m i cache count h =
      let (start, stop, starts, stops, taken) =
        taken-chunk coder good chunk bytes m count r res k positive narrow used few i cache h in
      (
        offsets coder good chunk bytes m count r res k positive narrow used few,
        read_chunk_table-eq coder good chunk bytes m count r res k positive narrow used few,
        omega (arith, length-marks _ _, length-encode_chunks coder chunk bytes good m 1),
        start,
        stop,
        starts,
        stops,
        taken,
      )

  -- What compressResource makes of bytes (one at least, and no more than resource.go reads), stored in a file
  -- under a header that says so, for any block that the compressor codes with fields of at most 16
  -- bits, and a chunk size no larger than the window: readChunkTable accepts the table, with one
  -- offset more than there are chunks, and at the offsets of each chunk the reader takes the
  -- chunk's own bytes where Compress declined them, and else gives the bytes that Compress
  -- returned to the decoder, with the size of the chunk.
  pub use_stored-compress_resource :
      (i : ℕ) (cache : ChunkCache)
      → i < chunk_count chunk (length bytes)
      → TakesChunk coder chunk bytes r res (chunk_count chunk (length bytes)) i cache
  use_stored-compress_resource i cache lt =
      let m = chunk_count chunk (length bytes) - 1 in
      let count : chunk_count chunk (length bytes) ≡ suc m = omega (arith, lt) in
      subst (λ n. TakesChunk coder chunk bytes r res n i cache) (sym count)
        (takes_chunk m i cache count (omega (arith, lt)))
