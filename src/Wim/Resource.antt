-- ===== src/Wim/Resource.antt =====
-- resource.go: how the stored bytes of a resource are found and read.
pub mod Table
pub mod Read
pub mod Slice
pub mod Access
use go_wim.Base.{
  ℕ, zero, suc, ◌+◌, ◌-◌, ◌*◌, ◌/◌, ◌%◌, ◌^◌, ◌≤◌, ◌≡◌, Bool, true, false, not, ◌||◌, ◌&&◌, List,
  [], ◌∷◌, ◌++◌, Option, none, some, ltb, leb, ◌==◌, if◌then◌else◌, length, take, drop, replicate,
  u64, Error, Result, ok, err, panic, hang, corrupt, eof, wrapped, ◌>>=◌, ◌>>◌, guard, at, slice,
  le_at,
}
use go_wim.Wim.ResHdr.{ResHdr, has_flag, flag_compressed}
use go_wim.Lzx.Decode.{decompress}

abbrev pub max_resource_size : ℕ
max_resource_size = 64 * 2 ^ 30

-- What a call of `ReadAt` leaves: the bytes that it read, and its error.
abbrev pub Read : Type 0
Read = List ℕ × Option Error

-- The `io.ReaderAt` that a Reader was opened over: `read_at n off` reads n bytes at off.
abbrev pub ReaderAt : Type 0
ReaderAt = ℕ → ℕ → Read

-- `bytes.Reader.ReadAt`, the reader behind `OpenBytes`.
unfoldable pub bytes_reader : List ℕ → ReaderAt
bytes_reader w n off =
    if leb (length w) off
    then ([], some eof)
    else if ltb (length w) (off + n)
    then (drop off w, some eof)
    else (take n (drop off w), none)

-- `if _, err := r.ReadAt(buf, off); err != nil { return fmt.Errorf("…: %w", err) }`
unfoldable pub read_full : Read → Result (List ℕ)
read_full (bytes, none) = ok bytes
read_full (bytes, some e) = err (wrapped e)

-- `errors.Is(err, io.EOF)`
pub is_eof : Error → Bool
is_eof eof = true
is_eof (wrapped e) = is_eof e
is_eof e = false

-- `plausibleSize`, for a WIM of the given chunk size.
unfoldable pub plausible_size : ℕ → ResHdr → Result (Unit {0})
plausible_size chunk_size res =
    if ltb max_resource_size res.uncompressed
    then err corrupt
    else if not (has_flag res.flags flag_compressed)
    then guard (res.size == res.uncompressed) corrupt
    else if chunk_size == 0
    then err corrupt
    else guard (leb res.uncompressed (u64 ((res.size / 4 + 1) * chunk_size))) corrupt

-- `int((res.uncompressed + chunk - 1) / chunk)`
abbrev pub chunk_count : ℕ → ℕ → ℕ
chunk_count chunk uncompressed = (uncompressed + chunk - 1) / chunk

-- The width of a table entry.
abbrev pub entry_size : ℕ → ℕ
entry_size uncompressed = if ltb 0xffffffff uncompressed then 8 else 4

-- n entries of the table from byte pos on, each as an offset in the WIM.
unfoldable pub table_offsets : ℕ → ℕ → List ℕ → ℕ → ℕ → Result (List ℕ)
table_offsets zero entry tbl pos base = ok []
table_offsets (suc n) entry tbl pos base = do
  v ← le_at entry tbl pos
  rest ← table_offsets n entry tbl (pos + entry) base
  ok (u64 (base + v) ∷ rest)

-- The last loop: every chunk lies inside the resource, in order, and is no longer than a chunk.
unfoldable pub check_offsets : ℕ → ℕ → ℕ → List ℕ → Result (Unit {0})
check_offsets base end chunk (a ∷ b ∷ rest) = do
  guard (not (ltb a base || ltb b a || ltb end b)) corrupt
  guard (leb (b - a) chunk) corrupt
  check_offsets base end chunk (b ∷ rest)
check_offsets base end chunk offs = ok tt

-- The table behind its size checks, with `tbl_bytes` bytes of entries.
unfoldable pub load_table : ReaderAt → ℕ → ResHdr → ℕ → ℕ → Result (List ℕ)
unfolding table_offsets check_offsets
load_table r chunk res nchunks tbl_bytes = do
  guard (leb tbl_bytes res.size) corrupt
  tbl ← read_full (r tbl_bytes res.offset)
  let base = u64 (res.offset + tbl_bytes)
  let end = u64 (res.offset + res.size)
  starts ← table_offsets (nchunks - 1) (entry_size res.uncompressed) tbl 0 base
  check_offsets base end chunk (base ∷ (starts ++ (end ∷ [])))
  ok (base ∷ (starts ++ (end ∷ [])))

-- `readChunkTable`
unfoldable pub read_chunk_table : ReaderAt → ℕ → ResHdr → Result (List ℕ)
unfolding load_table plausible_size
read_chunk_table r chunk_size res = do
  plausible_size chunk_size res
  let nchunks = chunk_count chunk_size res.uncompressed
  if nchunks == 0
      then ok (res.offset ∷ u64 (res.offset + res.size) ∷ [])
      else load_table r chunk_size res nchunks ((nchunks - 1) * entry_size res.uncompressed)

-- `chunkCache` without its scratch: the index and the bytes of the chunk decoded last.
pub record ChunkCache : Type 0 where
  pub idx : Option ℕ
  pub bytes : List ℕ

pub new_chunk_cache : ChunkCache
new_chunk_cache = record { idx = none; bytes = [] }

-- `cache.idx == k`
pub holds_chunk : ChunkCache → ℕ → Bool
holds_chunk c k = elim (c.idx) [ none ↦ false | some i ↦ i == k ]

-- What a read that stops leaves: the bytes produced so far, the error if any, and the cache.
abbrev pub Progress : Type 0
Progress = List ℕ × Option Error × ChunkCache

-- `lzx.Decompress(dbuf[:usize], stored)`, and the cache behind it: no error leaves the chunk there.
pub decode_chunk : ℕ → ℕ → List ℕ → ChunkCache → Result Progress
decode_chunk k usize stored cache = elim (decompress (replicate usize 0) stored) [
  | ok decoded ↦ ok (decoded, none, record { idx = some k; bytes = decoded })
  | err e ↦ ok ([], some (wrapped e), record cache { idx = none })
  | panic ↦ panic
  | hang ↦ hang
]

-- The stored bytes of a chunk that the cache does not hold: raw if they are as many as the chunk's.
unfoldable pub use_stored : ℕ → ℕ → ℕ → Read → ChunkCache → Result Progress
unfolding decode_chunk
use_stored k csize usize (stored, some e) cache = ok ([], some (wrapped e), cache)
use_stored k csize usize (stored, none) cache =
    if csize == usize then ok (stored, none, cache) else decode_chunk k usize stored cache

-- The switch in the loop of `readChunkedAt`: the bytes of chunk k, or the error that ends the read.
pub load_chunk : ReaderAt → ℕ → ℕ → ℕ → ℕ → ChunkCache → Result Progress
unfolding holds_chunk use_stored
load_chunk r start k csize usize cache =
    if holds_chunk cache k
    then ok (take usize cache.bytes, none, cache)
    else use_stored k csize usize (r csize start) cache

-- `usize`: a whole chunk, or what is left for the last.
unfoldable pub chunk_usize : ℕ → ResHdr → ℕ → ℕ → ℕ
chunk_usize chunk res nchunks k =
    if k == nchunks - 1 then res.uncompressed - (nchunks - 1) * chunk else chunk

-- `data[from:]` of chunk k, for a read that begins at `off`.
pub wanted_part : ℕ → ℕ → ℕ → List ℕ → Result (List ℕ)
wanted_part chunk off k bytes =
    let from = if ltb (k * chunk) off then off - k * chunk else 0 in
    if leb from (length bytes) then ok (drop from bytes) else panic

-- One round of the loop of `readChunkedAt`, on chunk k: `out` is what has been copied to p so far.
-- An error ends the loop.
module _ (r : ReaderAt) (chunk : ℕ) (res : ResHdr) (offs : List ℕ) (nchunks off want : ℕ) where
  pub copy_chunk : ℕ → List ℕ → Progress → Result Progress
  unfolding wanted_part
  copy_chunk k out (bytes, some e, cache) = ok (out, some e, cache)
  copy_chunk k out (bytes, none, cache) = do
    part ← wanted_part chunk off k bytes
    ok (out ++ take (want - length out) part, none, cache)

  pub chunk_round : ℕ → List ℕ → ChunkCache → Result Progress
  unfolding load_chunk chunk_usize copy_chunk
  chunk_round k out cache =
      let usize = chunk_usize chunk res nchunks k in
      at offs k >>= λ start. at offs (k + 1) >>= λ stop.
      if usize == 0 || ltb chunk usize || ltb chunk (stop - start)
      then ok (out, some corrupt, cache)
      else (load_chunk r start k (stop - start) usize cache >>= λ p. copy_chunk k out p)

  -- The loop from chunk k on, with as many rounds as there are chunks left.
  pub chunk_loop : ℕ → ℕ → List ℕ → ChunkCache → Result Progress
  unfolding chunk_round
  chunk_loop zero k out cache = ok (out, none, cache)
  chunk_loop (suc rounds) k out cache =
      let round = chunk_round k out cache >>= λ (out', e, cache'). elim e [
        | none ↦ chunk_loop rounds (k + 1) out' cache'
        | some x ↦ ok (out', some x, cache')
      ] in
      if ltb k nchunks && ltb (length out) want then round else ok (out, none, cache)

-- The check behind the loop: fewer bytes than were asked for are an error.
pub all_produced : ℕ → Progress → Progress
all_produced want (out, some e, cache) = (out, some e, cache)
all_produced want (out, none, cache) =
    if ltb (length out) want then (out, some corrupt, cache) else (out, none, cache)

-- An error as the error of a read that produced nothing.
unfoldable pub no_bytes : Result Progress → ChunkCache → Result Progress
no_bytes (ok p) cache = ok p
no_bytes (err e) cache = ok ([], some e, cache)
no_bytes panic cache = panic
no_bytes hang cache = hang

-- `readChunkedAt`. A call without a cache is one with an empty cache that is dropped.
pub read_chunked_at : ReaderAt → ℕ → ResHdr → ℕ → ℕ → ChunkCache → Result Progress
unfolding chunk_loop all_produced no_bytes
read_chunked_at r chunk_size res want off cache =
    no_bytes
      (read_chunk_table r chunk_size res >>= λ offs.
        let nchunks = length offs - 1 in
        chunk_loop r chunk_size res offs nchunks off want (nchunks - off / chunk_size)
          (off / chunk_size) [] cache
        >>= λ p. ok (all_produced want p))
      cache

-- An EOF that comes with a full read is no failure.
pub full_read : ℕ → Read → Read
unfolding is_eof
full_read want (bytes, none) = (bytes, none)
full_read want (bytes, some e) =
    (bytes, (if is_eof e && length bytes == want then none else some e))

-- `readStoredAt`
pub read_stored_at : ReaderAt → ResHdr → ℕ → ℕ → Read
unfolding full_read
read_stored_at r res want off =
    if not (res.size == res.uncompressed)
    then ([], some corrupt)
    else full_read want (r want (res.offset + off))

-- A short read reports EOF, unless another error came first.
pub short_read : Bool → Progress → Progress
short_read short (out, some e, cache) = (out, some e, cache)
short_read short (out, none, cache) = (out, (if short then some eof else none), cache)

pub read_part : ReaderAt → ℕ → ResHdr → ℕ → ℕ → ChunkCache → Result Progress
unfolding read_stored_at read_chunked_at
read_part r chunk_size res want off cache =
    if not (has_flag res.flags flag_compressed)
    then (let (out, e) = read_stored_at r res want off in ok (out, e, cache))
    else read_chunked_at r chunk_size res want off cache

-- `readResourceAt` for a buffer of `len` bytes at an offset that is not negative.
unfoldable pub read_resource_at : ReaderAt → ℕ → ResHdr → ℕ → ℕ → ChunkCache → Result Progress
unfolding read_part short_read no_bytes
read_resource_at r chunk_size res len off cache =
    no_bytes
      (plausible_size chunk_size res
        >> (let short = ltb res.uncompressed (off + len) in
            let want = if short then res.uncompressed - off else len in
            if leb res.uncompressed off
            then ok ([], some eof, cache)
            else if want == 0
            then ok ([], none, cache)
            else (read_part r chunk_size res want off cache >>= λ p. ok (short_read short p))))
      cache

-- What `readResource` makes of a read into a zeroed buffer of n bytes: EOF itself is no failure.
unfoldable pub whole_buffer : ℕ → Progress → Result (List ℕ)
whole_buffer n (out, none, cache) = ok out
whole_buffer n (out, some eof, cache) = ok (out ++ replicate (n - length out) 0)
whole_buffer n (out, some e, cache) = err e

-- `readResource`, over a WIM of `size` bytes: the whole contents.
unfoldable pub read_resource : ReaderAt → ℕ → ℕ → ResHdr → Result (List ℕ)
unfolding read_resource_at whole_buffer
read_resource r size chunk_size res =
    plausible_size chunk_size res
    >> (guard (not (ltb size res.offset || ltb (size - res.offset) res.size)) corrupt
        >> (if res.uncompressed == 0
            then ok []
            else (read_resource_at r chunk_size res res.uncompressed 0 new_chunk_cache >>= λ p.
                whole_buffer res.uncompressed p)))
