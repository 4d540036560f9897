-- ===== src/Wim/Fs/File.antt =====
-- fs.go: an open file and its sequence of reads.
pub mod Sequence
use go_wim.Base.{
  ℕ, zero, suc, ◌+◌, List, [], ◌∷◌, ◌++◌, Option, none, some, ◌==◌, if◌then◌else◌, length, Error,
  eof, Result, ok, ◌>>=◌,
}
use go_wim.Wim.ResHdr.{ResHdr}
use go_wim.Wim.Resource.{ReaderAt, Progress, ChunkCache, read_resource_at}

-- `wimFile`: the resource if the file has data, the position, and the cache.
pub record WimFile : Type 0 where
  pub res : Option ResHdr
  pub off : ℕ
  pub cache : ChunkCache

-- `ReadAt` of `len` bytes.
pub file_read_at : ReaderAt → ℕ → WimFile → ℕ → ℕ → Result Progress
file_read_at r chunk_size f len off = elim f.res [
  | none ↦ ok ([], (if len == 0 then none else some eof), f.cache)
  | some res ↦ read_resource_at r chunk_size res len off f.cache
]

-- `Read`: the bytes, the error, and the file at its new position.
pub file_read : ReaderAt → ℕ → WimFile → ℕ → Result (List ℕ × Option Error × WimFile)
unfolding file_read_at
file_read r chunk_size f len = file_read_at r chunk_size f len f.off >>= λ (out, e, cache).
    ok (out, e, record f { off = f.off + length out; cache = cache })
