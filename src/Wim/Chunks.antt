-- ===== src/Wim/Chunks.antt =====
-- writer.go: a resource as a chunked compressed one.
pub mod Layout
pub mod Stored
pub mod Reading
pub mod Taken
use go_wim.Base.{
  ℕ, zero, suc, ◌+◌, ◌-◌, ◌*◌, List, [], ◌∷◌, ◌++◌, Bool, Option, none, some, ltb, if◌then◌else◌,
  length, take, drop, replicate, overwrite, to_le,
}
use go_wim.Lzx.Compress.{Coder, compress}
use go_wim.Wim.Resource.{chunk_count, entry_size}

-- `bytes[i*chunk : end]`
abbrev pub chunk_src : List ℕ → ℕ → ℕ → List ℕ
chunk_src bytes chunk i =
    let end = if ltb (length bytes) ((i + 1) * chunk) then length bytes else (i + 1) * chunk in
    take (end - i * chunk) (drop (i * chunk) bytes)

module _ (coder : Coder) (chunk : ℕ) where
  -- `encodeChunk`
  unfoldable pub encode_chunk : List ℕ → ℕ → List ℕ
  encode_chunk bytes i = elim (compress coder chunk (chunk_src bytes chunk i)) [
    | none ↦ chunk_src bytes chunk i
    | some coded ↦ coded
  ]

  -- `encodeChunks` for one worker, from chunk i on.
  unfoldable pub encode_chunks : List ℕ → ℕ → ℕ → List (List ℕ)
  unfolding encode_chunk
  encode_chunks bytes zero i = []
  encode_chunks bytes (suc n) i = encode_chunk bytes i ∷ encode_chunks bytes n (i + 1)

-- The loop of `compressResource` from chunk i on: the table, and the chunks one behind the other.
unfoldable pub place_chunks : ℕ → List (List ℕ) → ℕ → List ℕ → List ℕ → List ℕ × List ℕ
place_chunks entry [] i table chunks = (table, chunks)
place_chunks entry (e ∷ encoded) i table chunks =
    place_chunks entry encoded (i + 1)
      (if ltb 0 i then overwrite table ((i - 1) * entry) (to_le entry (length chunks)) else table)
      (chunks ++ e)

-- `compressResource`, with a chunk size that is positive and bytes that is not empty.
unfoldable pub compress_resource : Coder → ℕ → List ℕ → List ℕ × Bool
unfolding encode_chunks place_chunks
compress_resource coder chunk bytes =
    let nchunks = chunk_count chunk (length bytes) in
    let entry = entry_size (length bytes) in
    let (table, chunks) =
      place_chunks entry (encode_chunks coder chunk bytes nchunks 0) 0
        (replicate ((nchunks - 1) * entry) 0) [] in
    (table ++ chunks, ltb (length (table ++ chunks)) (length bytes))
