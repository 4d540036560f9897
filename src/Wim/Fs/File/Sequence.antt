-- ===== src/Wim/Fs/File/Sequence.antt =====
-- Reading a file from a position in pieces.
use go_wim.Base.{
  ℕ, zero, suc, ◌+◌, ◌≤◌, ◌<◌, ◌≡◌, refl, Bool, true, ◌||◌, inl, inr, List, [], ◌++◌, Option, none,
  some, arith, ltb, leb, if◌then◌else◌, Bool-cases, length, take, drop, take_all,
  take-append-drop-take, length-take, length-drop, drop-drop, Error, eof, Result, ok, ◌>>=◌,
}
use go_wim.Wim.ResHdr.{ResHdr, has_flag, flag_compressed}
use go_wim.Wim.Resource.{ReaderAt, ChunkCache, read_chunk_table}
use go_wim.Wim.Resource.Read.{IsStored, CacheHolds}
use go_wim.Wim.Resource.Slice.{contents, length-contents}
use go_wim.Wim.Resource.Access.{read_resource_at-Serves}
use go_wim.Wim.Fs.File.{WimFile, file_read_at, file_read}

-- One read and what follows it.
abbrev pub and_then :
    List ℕ × Option Error × WimFile
    → (WimFile → Result (List ℕ × Option Error))
    → Result (List ℕ × Option Error)
and_then (out, none, f) k = k f >>= λ (rest, e). ok (out ++ rest, e)
and_then (out, some x, f) k = ok (out, some x)

-- What a caller has after that many calls of Read with a buffer of len bytes, up to the first error.
pub reads : ℕ → ReaderAt → ℕ → ℕ → WimFile → Result (List ℕ × Option Error)
reads zero r chunk len f = ok ([], none)
reads (suc calls) r chunk len f =
    file_read r chunk f len >>= λ step. and_then step (λ f'. reads calls r chunk len f')

abbrev pub file_at : ResHdr → ℕ → ChunkCache → WimFile
file_at res off cache = record { res = some res; off = off; cache = cache }

module _ (r : ReaderAt) (chunk : ℕ) (res : ResHdr) (offs : List ℕ) (nchunks : ℕ)
    (chunks : ℕ → List ℕ) (k : IsStored r chunk res offs nchunks chunks)
    (table : read_chunk_table r chunk res ≡ ok offs) where
  abbrev whole : List ℕ
  whole = contents r chunk res offs nchunks chunks k

  abbrev at_end : ℕ → ℕ → Bool
  at_end len off = leb res.uncompressed off || ltb res.uncompressed (off + len)

  file_read-eq :
      (len off : ℕ) (cache : ChunkCache)
      → has_flag res.flags flag_compressed ≡ true
      → CacheHolds chunks cache
      → (cache' : ChunkCache) × (file_read r chunk (file_at res off cache) len
          ≡ ok (
            take len (drop off whole),
            (if at_end len off then some eof else none),
            file_at res (off + length (take len (drop off whole))) cache',
          ))
        × CacheHolds chunks cache'
  unfolding file_read file_read_at
  file_read-eq len off cache coded holds =
      let (c, e, h) =
        read_resource_at-Serves r chunk res offs nchunks chunks k table len off cache coded holds in
      (c, rw (file_read, file_read_at, e) refl, h)

  rest_whole : (len off : ℕ) → at_end len off ≡ true → take len (drop off whole) ≡ drop off whole
  rest_whole len off e =
      take_all len (drop off whole) (
        ground (arith, length-drop off whole, length-contents r chunk res offs nchunks chunks k, e))

  -- Calls of Read with a buffer of len bytes, len positive, on a compressed resource whose chunks are
  -- stored, from any position with a cache that holds nothing or the bytes of the chunk it names, at
  -- least one more of them than bytes are left, return up to the first error the bytes from the
  -- position on, each once and in order, and that error is io.EOF.
  pub reads-contents :
      (calls len off : ℕ) (cache : ChunkCache)
      → 0 < len
      → res.uncompressed ≤ off + calls
      → has_flag res.flags flag_compressed ≡ true
      → CacheHolds chunks cache
      → reads (suc calls) r chunk len (file_at res off cache) ≡ ok (drop off whole, some eof)
  unfolding reads
  reads-contents zero len off cache pos enough coded holds =
      let (c, e, h) = file_read-eq len off cache coded holds in
      let end : at_end len off ≡ true = ground arith in rw (e, end, rest_whole len off end) refl
  reads-contents (suc calls) len off cache pos enough coded holds =
      let (c, e, h) = file_read-eq len off cache coded holds in
      elim (Bool-cases (at_end len off)) [
        | inl end ↦ rw (e, end, rest_whole len off end) refl
        | inr more ↦
            let size = length-contents r chunk res offs nchunks chunks k in
            let next : res.uncompressed ≤ off + length (take len (drop off whole)) + calls =
              ground (arith, length-take len (drop off whole), length-drop off whole, size) in
            rw
              (
                e,
                more,
                reads-contents calls len (off + length (take len (drop off whole))) c pos next coded
                    h,
                ← drop-drop (length (take len (drop off whole))) off whole,
                take-append-drop-take len (drop off whole),
              )
              refl
      ]
