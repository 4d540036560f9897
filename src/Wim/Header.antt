-- ===== src/Wim/Header.antt =====
-- reader.go: the header and the blob table, what a Reader keeps of them, and the choice of an image.
-- `int` has 64 bits.
pub mod Safety
use go_wim.Base.{
  ℕ, zero, suc, ◌+◌, ◌-◌, ◌*◌, ◌/◌, ◌%◌, ◌^◌, ◌≤◌, ◌≡◌, Bool, true, false, not, ◌||◌, ◌&&◌, List,
  [], ◌∷◌, ◌++◌, Option, none, some, ltb, leb, ◌==◌, if◌then◌else◌, length, take, drop, bit_and,
  Error, Result, ok, err, not_wim, unsupported, corrupt, other, ◌>>=◌, ◌>>◌, guard, at, slice,
  le_at,
}
use go_wim.Lzx.Consts.{window_size}
use go_wim.Wim.Names.{name_eq}
use go_wim.Wim.Info.{ImageInfo}
use go_wim.Wim.Dentry.{no_hash, BlobIndex}
use go_wim.Wim.ResHdr.{
  ResHdr, read_res_hdr, has_flag, flag_metadata, flag_compressed, blob_entry_size, blob_hash_offset,
  res_hdr_size,
}
use go_wim.Wim.Resource.{ReaderAt, read_full}

-- `headerSize`
abbrev pub header_size : ℕ
header_size = 208

-- `wimVersion`
abbrev pub wim_version : ℕ
wim_version = 0x10d00

-- `DefaultChunkSize`
abbrev pub default_chunk_size : ℕ
default_chunk_size = 32768

-- `wimMagic`
abbrev pub wim_magic : List ℕ
wim_magic = 77 ∷ 83 ∷ 87 ∷ 73 ∷ 77 ∷ 0 ∷ 0 ∷ 0 ∷ []

-- What a Reader holds. `infos` is empty until the XML is read.
pub record Reader : Type 0 where
  pub size : ℕ
  pub chunk_size : ℕ
  pub image_count : ℕ
  pub boot_index : ℕ
  pub boot_meta : ResHdr
  pub blob_table : ResHdr
  pub xml_res : ResHdr
  pub by_hash : List (List ℕ × ResHdr)
  pub metas : List ResHdr
  pub infos : List ImageInfo

-- `rd.byHash[hash]`
unfoldable pub hash_lookup : List (List ℕ × ResHdr) → BlobIndex
hash_lookup [] hash = none
hash_lookup ((h, res) ∷ rest) hash = if name_eq h hash then some res else hash_lookup rest hash

-- The chunk size that the header's flags and its chunk size field stand for; 0 without a codec.
unfoldable pub read_chunk_size : ℕ → ℕ → Result ℕ
read_chunk_size flags field =
    if not (has_flag flags 0x2)
    then ok 0
    else if has_flag flags 0x20000
    then err unsupported
    else if has_flag flags 0x80000
    then err unsupported
    else if not (has_flag flags 0x40000)
    then err corrupt
    else let chunk = (if field == 0 then default_chunk_size else field) in
      if chunk == 0 || ltb window_size chunk || not (bit_and chunk (chunk - 1) == 0)
      then err unsupported
      else ok chunk

-- The fields behind the version.
unfoldable pub header_fields : ℕ → List ℕ → Result Reader
unfolding read_chunk_size
header_fields size b = do
  part ← le_at 2 b 40
  total ← le_at 2 b 42
  guard (part == 1 && total == 1) unsupported
  flags ← le_at 4 b 16
  field ← le_at 4 b 20
  chunk ← read_chunk_size flags field
  count ← le_at 4 b 44
  boot ← le_at 4 b 120
  meta ← read_res_hdr b 96
  table ← read_res_hdr b 48
  xml ← read_res_hdr b 72
  ok (record {
    size = size;
    chunk_size = chunk;
    image_count = count;
    boot_index = boot;
    boot_meta = meta;
    blob_table = table;
    xml_res = xml;
    by_hash = [];
    metas = [];
    infos = [];
  })

-- `readHeader`: the Reader before its blob table is read.
unfoldable pub read_header : ReaderAt → ℕ → Result Reader
unfolding header_fields
read_header r size = do
  guard (leb header_size size) not_wim
  b ← read_full (r header_size 0)
  magic ← slice b 0 8
  guard (name_eq magic wim_magic) not_wim
  n ← le_at 4 b 8
  guard (n == header_size) unsupported
  v ← le_at 4 b 12
  guard (v == wim_version) unsupported
  header_fields size b

-- `res.offset > size || res.size > size - res.offset`
unfoldable pub outside : ℕ → ResHdr → Bool
outside size res = ltb size res.offset || ltb (size - res.offset) res.size

-- A hash is indexed once, and the hash of nothing is not.
unfoldable pub add_hash : Reader → List ℕ → ResHdr → Reader
unfolding hash_lookup
add_hash rd hash res = if name_eq hash no_hash then rd else elim (hash_lookup rd.by_hash hash) [
  | none ↦ record rd { by_hash = (hash, res) ∷ rd.by_hash }
  | some old ↦ rd
]

-- An entry that is not refused: a metadata resource with references, one without, or a stream.
unfoldable pub file_entry : Reader → ResHdr → ℕ → List ℕ → Reader
unfolding add_hash
file_entry rd res refs hash =
    if has_flag res.flags flag_metadata
    then (if refs == 0 then rd else record rd { metas = rd.metas ++ (res ∷ []) })
    else add_hash rd hash res

-- The body of the loop, for the entry at byte o of the table.
unfoldable pub read_entry_at : Reader → List ℕ → ℕ → Result Reader
unfolding file_entry outside
read_entry_at rd tbl o = do
  res ← read_res_hdr tbl o
  guard (not (has_flag res.flags 0x10)) unsupported
  guard (not (has_flag res.flags 0x08)) unsupported
  guard (not (outside rd.size res)) corrupt
  refs ← le_at 4 tbl (o + res_hdr_size + 2)
  hash ← slice tbl (o + blob_hash_offset) 20
  ok (file_entry rd res refs hash)

-- The loop over n entries from byte o on.
unfoldable pub blob_entries : ℕ → Reader → List ℕ → ℕ → Result Reader
unfolding read_entry_at
blob_entries zero rd tbl o = ok rd
blob_entries (suc n) rd tbl o = do
  rd' ← read_entry_at rd tbl o
  blob_entries n rd' tbl (o + blob_entry_size)

-- `readBlobTable`
unfoldable pub read_blob_table : ReaderAt → Reader → Result Reader
unfolding blob_entries outside
read_blob_table r rd = do
  guard (not (has_flag rd.blob_table.flags flag_compressed)) unsupported
  guard (not (outside rd.size rd.blob_table)) corrupt
  guard (rd.blob_table.size % blob_entry_size == 0) corrupt
  guard (not (rd.blob_table.size / blob_entry_size == 0)) corrupt
  tbl ← read_full (r (rd.blob_table.size / blob_entry_size * blob_entry_size) rd.blob_table.offset)
  rd' ← blob_entries (rd.blob_table.size / blob_entry_size) rd tbl 0
  guard (length rd'.metas == rd'.image_count) corrupt
  guard (leb rd'.boot_index rd'.image_count) corrupt
  ok rd'

-- The part of `Open` before the XML.
unfoldable pub open_tables : ReaderAt → ℕ → Result Reader
open_tables r size = do rd ← read_header r size; read_blob_table r rd

-- An Image: its index, what the XML says of it, and its metadata resource.
abbrev pub Image : Type 0
Image = ℕ × ImageInfo × ResHdr

-- `Image(i)`, without the memo of images.
unfoldable pub image : Reader → ℕ → Result Image
image rd i =
    if ltb i 1 || ltb (length rd.metas) i
    then err other
    else (at rd.infos (i - 1) >>= λ info. at rd.metas (i - 1) >>= λ meta. ok (i, info, meta))

-- `Boot`
unfoldable pub boot : Reader → Result Image
unfolding image
boot rd =
    if rd.boot_index == 0
    then (if length rd.metas == 1 then image rd 1 else err other)
    else (at rd.metas (rd.boot_index - 1) >>= λ meta.
        if not (rd.boot_meta.offset == 0) && not (rd.boot_meta.offset == meta.offset)
        then err corrupt
        else image rd rd.boot_index)
