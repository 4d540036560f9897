-- ===== src/Wim/Writer.antt =====
-- writer.go: the Writer, what it has written so far and the calls that build a WIM. `int` has 64 bits.
pub mod Header
pub mod Steps
pub mod Run
pub mod Index
pub mod Failure
mod Tests
use go_wim.Base.{
  ℕ, zero, suc, ◌+◌, ◌-◌, ◌*◌, ◌^◌, Bool, true, false, not, ◌||◌, ◌&&◌, List, [], ◌∷◌, ◌++◌, Option,
  none, some, ltb, leb, ◌==◌, if◌then◌else◌, length, get_elem?, replicate, set, u32, u64, bit_and,
  bit_or, Error, Result, ok, err, panic, hang, other, wrapped, no_security, bad_chunk_size,
}
use go_wim.Lzx.Consts.{window_size}
pub use go_wim.Wim.Info.{ℤ, pos, negsuc, Version, WindowsInfo, ImageInfo}
use go_wim.Wim.Names.{name_eq}
use go_wim.Wim.ResHdr.{ResHdr, has_flag, flag_metadata, flag_compressed}
use go_wim.Wim.Header.{header_size, default_chunk_size}
use go_wim.Wim.Encode.{BlobEntry, encode_blob_table}
use go_wim.Wim.Chunks.{compress_resource}
use go_wim.Lzx.Compress.{Coder}

-- `Compression`
pub data Compression : Type 0 where
  compress_lzx compress_none : Compression

-- `Options`, less what only the capture reads. `has_security` is `Security != nil`.
pub record Options : Type 0 where
  pub compression : Compression
  pub chunk_size : ℤ
  pub has_security : Bool
  pub guid : List ℕ

unfoldable pub is_lzx : Compression → Bool
is_lzx compress_lzx = true
is_lzx compress_none = false

-- `Options.chunk`
unfoldable pub chunk : Options → ℤ
chunk opts = elim (opts.chunk_size) [
  | pos n ↦ if n == 0 then pos default_chunk_size else pos n
  | negsuc n ↦ negsuc n
]

-- `n <= 0 || n > lzx.WindowSize || n&(n-1) != 0`
unfoldable pub bad_chunk : ℤ → Bool
bad_chunk (negsuc n) = true
bad_chunk (pos n) = n == 0 || ltb window_size n || not (bit_and n (n - 1) == 0)

-- The chunk size as the number that it is behind that check.
unfoldable pub chunk_nat : ℤ → ℕ
chunk_nat (pos n) = n
chunk_nat (negsuc n) = 0

pub record ImageEntry : Type 0 where
  pub info : ImageInfo
  pub res : ResHdr
  pub hash : List ℕ
  pub dir_count : ℕ
  pub file_count : ℕ
  pub total_bytes : ℕ
  pub created : ℕ
  pub modified : ℕ

-- `capturedBlob`, less the size that the write pass does not read.
pub record CapturedBlob : Type 0 where
  pub path : List ℕ
  pub hash : List ℕ
  pub refs : ℕ

-- `captured`, with what `encodeMetadata` returns for it in place of the tree and the descriptors.
pub record Captured : Type 0 where
  pub blobs : List CapturedBlob
  pub metadata : Result (List ℕ)
  pub dir_count : ℕ
  pub file_count : ℕ
  pub total_bytes : ℕ
  pub created : ℕ
  pub modified : ℕ

-- What the Writer calls: `dst.Write`, `io.Copy` to dst from a reader of bytes, `dst.Seek(0, SeekStart)`,
-- and the blocks that the compressor codes, SHA-1 and `buildXML`. A write leaves the destination, the count of bytes written and
-- the error.
pub record Calls (D : Type 0) : Type 0 where
  pub write : D → List ℕ → D × ℕ × Option Error
  pub copy : D → List ℕ → D × ℕ × Option Error
  pub seek_start : D → D × Option Error
  pub coder : Coder
  pub sha1 : List ℕ → List ℕ
  pub build_xml : List ImageEntry → ℕ → List ℕ

-- `Writer`, without its options and its compressors.
pub record Writer (D : Type 0) : Type 0 where
  pub dst : D
  pub at_byte : ℕ
  pub started : Bool
  pub closed : Bool
  pub failed : Option Error
  pub blobs : List BlobEntry
  pub by_hash : List (List ℕ × ℕ)
  pub images : List ImageEntry

-- `NewWriter`
unfoldable pub new_writer : {D : Type 0} → D → Writer D
new_writer dst = record {
  dst = dst;
  at_byte = 0;
  started = false;
  closed = false;
  failed = none;
  blobs = [];
  by_hash = [];
  images = [];
}

-- `w.byHash[hash]`
unfoldable pub find_hash : List (List ℕ × ℕ) → List ℕ → Option ℕ
find_hash [] hash = none
find_hash ((h, j) ∷ rest) hash = if name_eq h hash then some j else find_hash rest hash

-- A call on the Writer, and what runs behind one that returns no error.
abbrev pub Act : Type 0 → Type 0 → Type 0
Act D A = Writer D → Result A × Writer D

abbrev pub after : {D A B : Type 0} → Result A × Writer D → (A → Act D B) → Result B × Writer D
after (ok a, w) next = next a w
after (err e, w) next = (err e, w)
after (panic, w) next = (panic, w)
after (hang, w) next = (hang, w)

infixl 5 ◌>>=◌ ◌>>◌
abbrev pub ◌>>=◌ : {D A B : Type 0} → Act D A → (A → Act D B) → Act D B
act >>= next = λ w. after (act w) next

abbrev pub ◌>>◌ : {D B : Type 0} → Act D (Unit {0}) → Act D B → Act D B
act >> next = act >>= λ passed. next

abbrev pub pure : {D A : Type 0} → Result A → Act D A
pure r = λ w. (r, w)

-- What a call of the destination returns: its error, or a value.
unfoldable pub settle : {D A : Type 0} → Option Error → A → Act D A
settle none a w = (ok a, w)
settle (some e) a w = (err e, w)

-- `fmt.Errorf("…: %w", err)`
unfoldable pub wrap_result : {A : Type 0} → Result A → Result A
wrap_result (ok a) = ok a
wrap_result (err e) = err (wrapped e)
wrap_result panic = panic
wrap_result hang = hang

unfoldable pub wrap : {D A : Type 0} → Act D A → Act D A
unfolding wrap_result
wrap act w = let (r, w') = act w in (wrap_result r, w')

-- The failure that sticks: the first one.
unfoldable pub stick : {D : Type 0} → Option Error → Error → Writer D → Writer D
stick none e w = record w { failed = some e }
stick (some old) e w = w

-- `fail`, on what a call returned.
unfoldable pub fail : {D A : Type 0} → Result A × Writer D → Result A × Writer D
unfolding stick
fail (ok a, w) = (ok a, w)
fail (err e, w) = (err e, stick w.failed e w)
fail (panic, w) = (panic, w)
fail (hang, w) = (hang, w)

-- `if w.err != nil { return w.err }`
unfoldable pub unless_failed : {D A : Type 0} → Option Error → Act D A → Act D A
unless_failed none act w = act w
unless_failed (some e) act w = (err e, w)
