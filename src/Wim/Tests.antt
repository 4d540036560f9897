-- ===== src/Wim/Tests.antt =====
-- Concrete inputs for the theorems about the WIM format.
use go_wim.Base.{
  ℕ, zero, suc, ◌+◌, ltb, leb, take, drop, ◌-◌, ◌%◌, ◌≤◌, ◌<◌, ◌≡◌, refl, true, false, List, [],
  ◌∷◌, none, some, arith, length, replicate, ok, eof, ◌++◌, to_le, Finishes, inr,
}
use go_wim.Wim.ResHdr.{ResHdr, read_res_hdr, write_res_hdr, align8}
use go_wim.Wim.ResHdr.RoundTrip.{Fits, read_res_hdr-write_res_hdr, align8_least}
use go_wim.Wim.Resource.{
  bytes_reader, read_full, chunk_usize, read_chunk_table, read_resource, read_resource_at,
  ChunkCache, new_chunk_cache,
}
use go_wim.Wim.Resource.Table.{IsSpan, IsTableOf, read_chunk_table-IsTableOf}
use go_wim.Wim.Resource.Read.{IsStored, CacheHolds, StoresChunk, new_chunk_cache-CacheHolds}
use go_wim.Wim.Resource.Slice.{contents}
use go_wim.Wim.Resource.Access.{read_resource_at-Serves}
use go_wim.Wim.Chunks.{compress_resource, encode_chunk, encode_chunks, place_chunks}
use go_wim.Lzx.Compress.{Coder, compress, emit_block}
use go_wim.Lzx.BitWriter.{write, push, drain, flush, new_writer}
use go_wim.Lzx.E8.{encode_e8}
use go_wim.Wim.Chunks.Reading.{IsWritten}
use go_wim.Wim.Chunks.Taken.{TakesChunk, use_stored-compress_resource}
use go_wim.Wim.Dentry.{Dentry, Dentries, node, nil, cons, is_dir, parse_metadata}
use go_wim.Wim.Dentry.Tree.{IsTree, IsComponent, Ordered}
use go_wim.Wim.Dentry.Safety.{IsImage, parse_metadata-IsImage}
use go_wim.Wim.Names.{name_lt, name_eq, contains_byte}
use go_wim.Wim.Fs.{find_child, lookup, valid_components}
use go_wim.Wim.Fs.Search.{find_child-eq-scan}
use go_wim.Wim.Fs.Lookup.{lookup-eq-follow}
use go_wim.Wim.Fs.File.Sequence.{reads, file_at, reads-contents}
use go_wim.Wim.Fs.Listing.{pieces, pieces-drop}
use go_wim.Wim.Header.{Reader, open_tables, boot}
use go_wim.Wim.Header.Safety.{IsIndexed, bytes_reader-IsFull, open_tables-IsIndexed}
use go_wim.Wim.Info.{pos}
use go_wim.Wim.Header.{
  wim_magic, read_header, read_blob_table, blob_entries, read_entry_at, file_entry, header_fields,
  read_chunk_size, outside,
}
use go_wim.Wim.Resource.{whole_buffer, plausible_size}
use go_wim.Wim.Open.{
  XmlImage, XmlParser, open_wim, read_xml, decode_xml_text, index_images, name_images, mark_boot,
  image_number, image_info,
}
use go_wim.Wim.Open.Safety.{IsOpened, IsImageOf, booted_index, index_images-IsOpened, boot-Finishes}

-- A resource of two raw chunks, of four bytes and of two, behind their table.
abbrev two_chunks : List ℕ
two_chunks = 4 ∷ 0 ∷ 0 ∷ 0 ∷ 1 ∷ 2 ∷ 3 ∷ 4 ∷ 5 ∷ 6 ∷ []

abbrev two_chunks_hdr : ResHdr
two_chunks_hdr = record { size = 10; flags = 4; offset = 0; uncompressed = 6 }

abbrev chunk_of : ℕ → List ℕ
chunk_of zero = 1 ∷ 2 ∷ 3 ∷ 4 ∷ []
chunk_of (suc k) = 5 ∷ 6 ∷ []

abbrev offsets : List ℕ
offsets = 4 ∷ 8 ∷ 10 ∷ []

table_read : read_chunk_table (bytes_reader two_chunks) 4 two_chunks_hdr ≡ ok offsets
unfolding read_chunk_table bytes_reader read_full
table_read = refl

read_chunk_table-IsTableOf_example : IsTableOf 4 two_chunks_hdr 2 offsets
read_chunk_table-IsTableOf_example =
    read_chunk_table-IsTableOf (bytes_reader two_chunks) 4 two_chunks_hdr offsets (omega arith)
      table_read

abbrev spans : (k : ℕ) → k < 2 → IsSpan 4 10 4 offsets k
spans zero h = record {
  start = 4;
  stop = 8;
  starts = refl;
  stops = refl;
  above = omega arith;
  ordered = omega arith;
  below = omega arith;
  short = omega arith;
}
spans (suc zero) h = record {
  start = 8;
  stop = 10;
  starts = refl;
  stops = refl;
  above = omega arith;
  ordered = omega arith;
  below = omega arith;
  short = omega arith;
}
spans (suc (suc k)) h = absurd (omega arith)

two_sizes : (k : ℕ) → k < 2 → length (chunk_of k) ≡ chunk_usize 4 two_chunks_hdr 2 k
unfolding chunk_usize
two_sizes zero h = refl
two_sizes (suc zero) h = refl
two_sizes (suc (suc k)) h = absurd (omega arith)

two_stores :
    (k : ℕ) (h : k < 2)
    → StoresChunk
        (bytes_reader two_chunks)
        (spans k h).start
        ((spans k h).stop - (spans k h).start)
        (chunk_usize 4 two_chunks_hdr 2 k)
        (chunk_of k)
unfolding chunk_usize bytes_reader
two_stores zero h = (1 ∷ 2 ∷ 3 ∷ 4 ∷ [], refl, refl)
two_stores (suc zero) h = (5 ∷ 6 ∷ [], refl, refl)
two_stores (suc (suc k)) h = absurd (omega arith)

abbrev two_stored : IsStored (bytes_reader two_chunks) 4 two_chunks_hdr offsets 2 chunk_of
two_stored = record {
  positive = omega arith;
  count = refl;
  used = omega arith;
  table = record { size = refl; first = refl; spans = spans };
  sizes = two_sizes;
  stores = two_stores;
}

-- A read across the border of the chunks.
read_resource_at-Serves_example :
    (cache : ChunkCache) × (read_resource_at
        (bytes_reader two_chunks)
        4
        two_chunks_hdr
        4
        3
        new_chunk_cache
      ≡ ok (4 ∷ 5 ∷ 6 ∷ [], some eof, cache))
    × CacheHolds chunk_of cache
unfolding contents
read_resource_at-Serves_example =
    read_resource_at-Serves (bytes_reader two_chunks) 4 two_chunks_hdr offsets 2 chunk_of two_stored
      table_read 4 3 new_chunk_cache refl (new_chunk_cache-CacheHolds chunk_of)

reads-contents_example :
    reads 6 (bytes_reader two_chunks) 4 3 (file_at two_chunks_hdr 1 new_chunk_cache)
    ≡ ok (2 ∷ 3 ∷ 4 ∷ 5 ∷ 6 ∷ [], some eof)
unfolding contents
reads-contents_example =
    reads-contents (bytes_reader two_chunks) 4 two_chunks_hdr offsets 2 chunk_of two_stored
      table_read 5 3 1 new_chunk_cache (omega arith) (omega arith) refl
      (new_chunk_cache-CacheHolds chunk_of)

-- A security table alone: the tree behind it runs past the metadata.
abbrev no_tree : List ℕ
no_tree = 8 ∷ 0 ∷ 0 ∷ 0 ∷ 0 ∷ 0 ∷ 0 ∷ 0 ∷ []

parse_metadata-IsImage_example : Finishes IsImage (parse_metadata (λ hash. none) no_tree)
parse_metadata-IsImage_example = parse_metadata-IsImage (λ hash. none) no_tree

abbrev small_hdr-Fits : Fits two_chunks_hdr
small_hdr-Fits = record {
  size = omega arith;
  flags = omega arith;
  offset = omega arith;
  uncompressed = omega arith;
}

read_res_hdr-write_res_hdr_example :
    read_res_hdr (write_res_hdr (replicate 30 7) 5 two_chunks_hdr) 5 ≡ ok two_chunks_hdr
read_res_hdr-write_res_hdr_example =
    read_res_hdr-write_res_hdr (replicate 30 7) 5 two_chunks_hdr small_hdr-Fits (omega arith)

align8_least_example : (align8 13 % 8 ≡ 0) × (13 ≤ align8 13) × (align8 13 ≤ 24)
align8_least_example = align8_least 13 24 (omega arith) (omega arith) refl

abbrev leaf : ℕ → ℕ → Dentry
leaf name attributes =
    node
      (record {
        name = name ∷ [];
        attributes = attributes;
        written = 0;
        size = 0;
        hash = [];
        res = none;
        missing = false;
      })
      nil

-- The files a, b and c.
abbrev listing : Dentries
listing = cons (leaf 97 0) (cons (leaf 98 0) (cons (leaf 99 0) nil))

abbrev root : Dentry
root =
    node
      (record {
        name = [];
        attributes = 0x10;
        written = 0;
        size = 0;
        hash = [];
        res = none;
        missing = false;
      })
      listing

listing-Ordered : Ordered listing
unfolding name_lt
listing-Ordered = (refl, (refl, (tt, tt)))

find_child-eq-scan_example : find_child listing (98 ∷ []) ≡ some (leaf 98 0)
unfolding name_eq
find_child-eq-scan_example = find_child-eq-scan listing (98 ∷ []) listing-Ordered

letter-IsComponent : (b : ℕ) → 97 ≤ b → IsComponent (b ∷ [])
unfolding name_eq contains_byte
letter-IsComponent b h = record {
  not_empty = refl;
  not_dot = ground arith;
  not_dots = ground arith;
  no_slash = ground arith;
}

root-IsTree : IsTree root
unfolding IsTree
root-IsTree = (
  listing-Ordered,
  (
    letter-IsComponent 97 (omega arith),
    (tt, tt),
    (
      letter-IsComponent 98 (omega arith),
      (tt, tt),
      (letter-IsComponent 99 (omega arith), (tt, tt), tt),
    ),
  ),
)

lookup-eq-follow_example : lookup (λ name. true) root (98 ∷ []) ≡ ok (leaf 98 0)
unfolding name_eq valid_components is_dir contains_byte
lookup-eq-follow_example = lookup-eq-follow (λ name. true) root (98 ∷ []) root-IsTree

-- Three entries by pieces of two.
abbrev three_files : List Dentry
three_files = leaf 97 0 ∷ leaf 98 0 ∷ leaf 99 0 ∷ []

pieces-drop_example : pieces 4 three_files 0 2 ≡ (three_files, some eof)
pieces-drop_example = pieces-drop 3 three_files 0 2 (omega arith) (omega arith)

open_tables-IsIndexed_example : Finishes (IsIndexed 8) (open_tables (bytes_reader no_tree) 8)
open_tables-IsIndexed_example =
    open_tables-IsIndexed (bytes_reader no_tree) 8 (bytes_reader-IsFull no_tree)

-- A WIM of 1000 bytes with one image, which it boots.
abbrev one_image : Reader
one_image = record {
  size = 1000;
  chunk_size = 32768;
  image_count = 1;
  boot_index = 1;
  boot_meta = two_chunks_hdr;
  blob_table = two_chunks_hdr;
  xml_res = two_chunks_hdr;
  by_hash = [];
  metas = two_chunks_hdr ∷ [];
  infos = [];
}

one_image-IsIndexed : IsIndexed 1000 one_image
one_image-IsIndexed = record {
  loaded = record {
    sized = refl;
    chunked = inr (omega arith, omega arith, refl);
    metas_inside = (omega arith, tt);
    streams_inside = tt;
  };
  counted = refl;
  booted = omega arith;
}

-- What an XML says of the only image.
abbrev one_xml_image : XmlImage
one_xml_image = record { index = pos 1; name = 98 ∷ []; description = []; windows = none }

abbrev one_xml : XmlParser
one_xml doc = ok (one_xml_image ∷ [])

index_images-IsOpened_example :
    Finishes (IsOpened 1000) (index_images one_image (one_xml_image ∷ []))
index_images-IsOpened_example =
    index_images-IsOpened 1000 one_image (one_xml_image ∷ []) one_image-IsIndexed

abbrev res_bytes : ResHdr → List ℕ
res_bytes h = to_le 7 h.size ++ (h.flags ∷ []) ++ to_le 8 h.offset ++ to_le 8 h.uncompressed

abbrev table_res : ResHdr
table_res = record { size = 50; flags = 0; offset = 208; uncompressed = 50 }

abbrev xml_text : ResHdr
xml_text = record { size = 2; flags = 0; offset = 258; uncompressed = 2 }

abbrev meta_res : ResHdr
meta_res = record { size = 0; flags = 2; offset = 0; uncompressed = 0 }

-- A whole WIM without a codec: the header, a blob table of one image, and an XML of a byte order mark.
abbrev small_wim : List ℕ
small_wim =
    wim_magic
    ++ to_le 4 208
    ++ to_le 4 0x10d00
    ++ replicate 24 0
    ++ to_le 2 1
    ++ to_le 2 1
    ++ to_le 4 1
    ++ res_bytes table_res
    ++ res_bytes xml_text
    ++ replicate 112 0
    ++ res_bytes meta_res
    ++ to_le 2 1
    ++ to_le 4 1
    ++ replicate 20 0
    ++ (0xff ∷ 0xfe ∷ [])

-- What Open makes of it.
abbrev small_reader : Reader
small_reader = record {
  size = 260;
  chunk_size = 0;
  image_count = 1;
  boot_index = 0;
  boot_meta = record { size = 0; flags = 0; offset = 0; uncompressed = 0 };
  blob_table = table_res;
  xml_res = xml_text;
  by_hash = [];
  metas = meta_res ∷ [];
  infos = record { name = 98 ∷ []; description = []; boot = false; windows = none } ∷ [];
}

small_wim-opens : open_wim one_xml (bytes_reader small_wim) 260 ≡ ok small_reader
unfolding open_wim open_tables read_header read_blob_table blob_entries read_entry_at file_entry
    header_fields read_chunk_size bytes_reader read_full name_eq outside read_xml decode_xml_text
    index_images name_images mark_boot image_number image_info read_resource whole_buffer
    read_resource_at read_res_hdr plausible_size
small_wim-opens = refl

boot-Finishes_example :
    Finishes (IsImageOf 260 small_reader (booted_index small_reader)) (boot small_reader)
boot-Finishes_example =
    boot-Finishes one_xml (bytes_reader small_wim) 260 small_reader (bytes_reader-IsFull small_wim)
      small_wim-opens

-- Blocks without trees and tokens.
abbrev bare_blocks : Coder
bare_blocks bytes = record { use_aligned = false; fields = [] }

-- By chunks of eight: the first is coded, in four bytes, and the second is declined.
abbrev twelve_bytes : List ℕ
twelve_bytes = replicate 8 7 ++ (1 ∷ 2 ∷ 3 ∷ 4 ∷ [])

abbrev coded_and_raw : List ℕ
coded_and_raw = 4 ∷ 0 ∷ 0 ∷ 0 ∷ 0x00 ∷ 0x20 ∷ 0x00 ∷ 0x80 ∷ 1 ∷ 2 ∷ 3 ∷ 4 ∷ []

abbrev coded_and_raw_hdr : ResHdr
coded_and_raw_hdr = record { size = 12; flags = 4; offset = 0; uncompressed = 12 }

coded_and_raw-eq : (compress_resource bare_blocks 8 twelve_bytes).0 ≡ coded_and_raw
unfolding compress_resource encode_chunk encode_chunks place_chunks compress emit_block encode_e8
    write push drain flush new_writer
coded_and_raw-eq = refl

coded_and_raw_serves :
    (off n : ℕ)
    → off < 12
    → off + n ≤ 12
    → bytes_reader coded_and_raw n (0 + off)
      ≡ (take n (drop off (compress_resource bare_blocks 8 twelve_bytes).0), none)
unfolding bytes_reader
coded_and_raw_serves off n h room =
    let start : 0 + off ≡ off = omega arith in
    let within : leb 12 off ≡ false = ground arith in
    let long : ltb 12 (off + n) ≡ false = ground arith in
    rw (start, within, long, coded_and_raw-eq) refl

coded_and_raw-IsWritten :
    IsWritten bare_blocks 8 twelve_bytes (bytes_reader coded_and_raw) coded_and_raw_hdr
coded_and_raw-IsWritten = record {
  size = rw coded_and_raw-eq refl;
  uncompressed = refl;
  coded = refl;
  fits = omega arith;
  serves = coded_and_raw_serves;
}

use_stored-compress_resource_example :
    TakesChunk bare_blocks 8 twelve_bytes
      (bytes_reader coded_and_raw)
      coded_and_raw_hdr
      2
      0
      new_chunk_cache
use_stored-compress_resource_example =
    use_stored-compress_resource bare_blocks 8 twelve_bytes (bytes_reader coded_and_raw)
      coded_and_raw_hdr (λ bytes. tt) coded_and_raw-IsWritten (omega arith) (omega arith)
      (omega arith) (omega arith) 0 new_chunk_cache (omega arith)
