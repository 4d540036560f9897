-- ===== src/Wim/Resource/Read.antt =====
-- Loading one chunk: its contents come from the cache or from the file alike.
use go_wim.Base.{
  ℕ, zero, suc, ◌-◌, ◌<◌, ◌≡◌, refl, ap, true, List, [], ◌++◌, none, some, inl, inr, arith, ◌==◌,
  if◌then◌else◌, length, replicate, take_all, ok, ok-injective, Bool-cases,
}
use go_wim.Lzx.Decode.{decompress}
use go_wim.Wim.ResHdr.{ResHdr}
use go_wim.Wim.Resource.{
  ReaderAt, ChunkCache, new_chunk_cache, chunk_count, holds_chunk, decode_chunk, use_stored,
  load_chunk, chunk_usize,
}
use go_wim.Wim.Resource.Table.{IsTableOf}

-- The contents of m chunks from chunk k on.
abbrev pub chunks_from : (ℕ → List ℕ) → ℕ → ℕ → List ℕ
chunks_from chunks k zero = []
chunks_from chunks k (suc m) = chunks k ++ chunks_from chunks (suc k) m

-- The cache holds nothing, or the decoded bytes of the chunk that it names.
abbrev pub CacheHolds : (ℕ → List ℕ) → ChunkCache → Type 0
CacheHolds chunks c = (k : ℕ) → c.idx ≡ some k → c.bytes ≡ chunks k

pub new_chunk_cache-CacheHolds : (chunks : ℕ → List ℕ) → CacheHolds chunks new_chunk_cache
unfolding new_chunk_cache
new_chunk_cache-CacheHolds chunks k e = cc

-- Chunk k is stored at [start, stop) and stands for `bytes`: raw where the sizes agree, and else
-- decoded.
abbrev pub StoresChunk : ReaderAt → ℕ → ℕ → ℕ → List ℕ → Type 0
StoresChunk r start csize usize bytes =
    (stored : List ℕ) × (r csize start ≡ (stored, none))
    × ((if csize == usize then ok stored else decompress (replicate usize 0) stored) ≡ ok bytes)

decode_chunk-eq :
    (k usize : ℕ) (stored bytes : List ℕ) (cache : ChunkCache)
    → decompress (replicate usize 0) stored ≡ ok bytes
    → decode_chunk k usize stored cache ≡ ok (bytes, none, record { idx = some k; bytes = bytes })
unfolding decode_chunk
decode_chunk-eq k usize stored bytes cache e = rw (e, decode_chunk)

use_stored-eq :
    (r : ReaderAt) (chunks : ℕ → List ℕ) (start k csize usize : ℕ) (cache : ChunkCache)
    → StoresChunk r start csize usize (chunks k)
    → CacheHolds chunks cache
    → (cache' : ChunkCache) × (use_stored k csize usize (r csize start) cache
        ≡ ok (chunks k, none, cache'))
      × CacheHolds chunks cache'
unfolding use_stored
use_stored-eq r chunks start k csize usize cache (stored, read, decoded) holds =
    elim (Bool-cases (csize == usize)) [
      | inl raw ↦ (
        cache,
        rw (read, raw) (ap (λ t. ok (t, none, cache)) (ok-injective (rw raw at decoded))),
        holds,
      )
      | inr coded ↦ (
        record { idx = some k; bytes = chunks k },
        rw (read, coded) (decode_chunk-eq k usize stored (chunks k) cache (rw coded at decoded)),
        λ j e. cc,
      )
    ]

holds_chunk-eq : (c : ChunkCache) (k : ℕ) → holds_chunk c k ≡ true → c.idx ≡ some k
unfolding holds_chunk
holds_chunk-eq c k e = ground arith

-- Loading chunk k gives its contents, from the cache or from the file, and leaves a cache that holds.
pub load_chunk-eq :
    (r : ReaderAt) (chunks : ℕ → List ℕ) (start k csize usize : ℕ) (cache : ChunkCache)
    → StoresChunk r start csize usize (chunks k)
    → length (chunks k) ≡ usize
    → CacheHolds chunks cache
    → (cache' : ChunkCache) × (load_chunk r start k csize usize cache ≡ ok (chunks k, none, cache'))
      × CacheHolds chunks cache'
unfolding load_chunk
load_chunk-eq r chunks start k csize usize cache stores size holds =
    elim (Bool-cases (holds_chunk cache k)) [
      | inl hit ↦ (
        cache,
        rw (hit, holds k (holds_chunk-eq cache k hit), take_all usize (chunks k) (omega arith))
            refl,
        holds,
      )
      | inr miss ↦ rw miss (use_stored-eq r chunks start k csize usize cache stores holds)
    ]

-- What the resource is: an accepted table, and for each chunk its contents, of the right size.
pub record IsStored (r : ReaderAt) (chunk : ℕ) (res : ResHdr) (offs : List ℕ) (nchunks : ℕ)
    (chunks : ℕ → List ℕ) : Type 0 where
  pub positive : 0 < chunk
  pub count : nchunks ≡ chunk_count chunk res.uncompressed
  pub used : 0 < res.uncompressed
  pub table : IsTableOf chunk res nchunks offs
  pub sizes : (k : ℕ) → k < nchunks → length (chunks k) ≡ chunk_usize chunk res nchunks k
  pub stores :
      (k : ℕ) (lt : k < nchunks)
      → StoresChunk r
          (table.spans k lt).start
          ((table.spans k lt).stop - (table.spans k lt).start)
          (chunk_usize chunk res nchunks k)
          (chunks k)
