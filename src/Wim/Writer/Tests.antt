-- ===== src/Wim/Writer/Tests.antt =====
-- Concrete inputs for the theorems about the Writer and the tables that it writes.
use go_wim.Base.{
  ◌-◌, ℕ, ◌+◌, ◌≡◌, refl, true, false, List, [], ◌∷◌, ◌++◌, Option, none, some, arith, length,
  replicate, take, drop, Error, io, other, ok, err,
}
use go_wim.Wim.Names.{name_eq}
use go_wim.Wim.ResHdr.{ResHdr, write_res_hdr}
use go_wim.Wim.ResHdr.RoundTrip.{Fits}
use go_wim.Wim.Resource.{bytes_reader}
use go_wim.Wim.Header.{Reader, outside, read_header, blob_entries}
use go_wim.Wim.Encode.{BlobEntry, encode_blob_table}
use go_wim.Wim.Encode.BlobTable.{IsEntryOf, blob_entries-encode_blob_table}
use go_wim.Wim.Encode.Filed.{IsFiled}
use go_wim.Wim.ResHdr.{align8}
use go_wim.Wim.Dentry.{tree_offset}
use go_wim.Wim.Encode.{encode_security_table, security_total, descriptors_size}
use go_wim.Wim.Encode.Security.{security_bytes, tree_offset-encode_security_table}
use go_wim.Wim.Writer.{
  compress_lzx, pos, Options, ImageInfo, ImageEntry, Captured, Calls, Writer, new_writer, chunk,
  bad_chunk, settle, wrap, wrap_result, fail, unless_failed,
}
use go_wim.Wim.Writer.Header.{guid, header}
use go_wim.Wim.Writer.Header.Bytes.{boot_of}
use go_wim.Wim.Writer.Header.RoundTrip.{header_reader, read_header-header}
use go_wim.Wim.Writer.Steps.{
  start, seek_start, write_header, write_stored, put_bytes, write_image, close, seal, sort_entries,
  image_blobs,
}
use go_wim.Wim.Writer.Run.{Call, adding, closing, run}
use go_wim.Wim.Writer.Index.{IsIndex, run-IsIndex}
use go_wim.Wim.Writer.Failure.{run-write_image_error, run-close}

abbrev one_res : ResHdr
one_res = record { size = 3; flags = 2; offset = 208; uncompressed = 3 }

one_res-Fits : Fits one_res
one_res-Fits = record {
  size = omega arith;
  flags = omega arith;
  offset = omega arith;
  uncompressed = omega arith;
}

abbrev one_entry : BlobEntry
one_entry = record { res = one_res; hash = replicate 20 7; refs = 1 }

-- A Reader of a file of 1000 bytes.
abbrev empty_reader : Reader
empty_reader = record {
  size = 1000;
  chunk_size = 0;
  image_count = 1;
  boot_index = 0;
  boot_meta = one_res;
  blob_table = one_res;
  xml_res = one_res;
  by_hash = [];
  metas = [];
  infos = [];
}

one_entry-IsEntryOf : IsEntryOf 1000 one_entry
unfolding outside
one_entry-IsEntryOf = record {
  hash_size = refl;
  fits = one_res-Fits;
  few_refs = omega arith;
  no_solid = refl;
  no_spanned = refl;
  inside = refl;
}

-- An entry of a stream.
abbrev stream_entry : BlobEntry
stream_entry = record one_entry {
  res = record { size = 3; flags = 0; offset = 300; uncompressed = 3 };
}

stream_entry-IsEntryOf : IsEntryOf 1000 stream_entry
unfolding outside
stream_entry-IsEntryOf = record {
  hash_size = refl;
  fits = record {
    size = omega arith;
    flags = omega arith;
    offset = omega arith;
    uncompressed = omega arith;
  };
  few_refs = omega arith;
  no_solid = refl;
  no_spanned = refl;
  inside = refl;
}

blob_entries-encode_blob_table_example :
    (rd' : Reader) × (blob_entries 2 empty_reader
        (encode_blob_table (one_entry ∷ stream_entry ∷ []))
        0
      ≡ ok rd')
    × IsFiled empty_reader (one_entry ∷ stream_entry ∷ []) rd'
blob_entries-encode_blob_table_example =
    blob_entries-encode_blob_table empty_reader (one_entry ∷ stream_entry ∷ [])
      (one_entry-IsEntryOf, (stream_entry-IsEntryOf, tt))

abbrev lzx_options : Options
lzx_options = record {
  compression = compress_lzx;
  chunk_size = pos 32768;
  has_security = true;
  guid = replicate 16 9;
}

-- A file in memory: its bytes and the position.
abbrev MemoryFile : Type 0
MemoryFile = List ℕ × ℕ

abbrev memory_write : MemoryFile → List ℕ → MemoryFile × ℕ × Option Error
memory_write (c, p) bs =
    ((take p c ++ (bs ++ drop (p + length bs) c), p + length bs), length bs, none)

abbrev memory_calls : Calls MemoryFile
memory_calls = record {
  write = memory_write;
  copy = memory_write;
  seek_start = λ (c, p). ((c, 0), none);
  coder = λ bytes. record { use_aligned = false; fields = [] };
  sha1 = λ bs. take 20 (bs ++ replicate 20 0);
  build_xml = λ images n. 60 ∷ 62 ∷ [];
}

-- A destination that refuses every write.
abbrev broken_calls : Calls MemoryFile
broken_calls = record memory_calls { write = λ d bs. (d, 0, some (io 5)) }

abbrev plain_info : ImageInfo
plain_info = record { name = 65 ∷ []; description = []; boot = false; windows = none }

-- A capture of one stream, and its metadata.
abbrev one_capture : Captured
one_capture = record {
  blobs = record { path = 97 ∷ []; hash = 1 ∷ 2 ∷ replicate 18 0; refs = 1 } ∷ [];
  metadata = ok (4 ∷ 5 ∷ 6 ∷ []);
  dir_count = 1;
  file_count = 1;
  total_bytes = 2;
  created = 0;
  modified = 0;
}

abbrev add_one : Call
add_one = adding (λ i. none) (λ path. ok (1 ∷ 2 ∷ [])) plain_info (ok one_capture)

run-IsIndex_example :
    IsIndex (run memory_calls lzx_options (add_one ∷ add_one ∷ closing ∷ []) (new_writer ([], 0))).1
run-IsIndex_example =
    run-IsIndex memory_calls lzx_options (add_one ∷ add_one ∷ closing ∷ []) ([], 0)

-- Its start fails, and with it the first call.
run-write_image_error_example :
    run broken_calls lzx_options (add_one ∷ closing ∷ add_one ∷ []) (new_writer ([], 0)) ≡ (
      err (io 5) ∷ err (io 5) ∷ err (io 5) ∷ [],
      record (write_image broken_calls lzx_options
          (λ i. none)
          (λ path. ok (1 ∷ 2 ∷ []))
          plain_info
          one_capture
          (new_writer ([], 0))).1 { failed = some (io 5) },
    )
unfolding new_writer chunk bad_chunk write_image start seek_start write_header settle
run-write_image_error_example =
    run-write_image_error broken_calls lzx_options (λ i. none) (λ path. ok (1 ∷ 2 ∷ [])) plain_info
      one_capture (closing ∷ add_one ∷ []) (new_writer ([], 0))
      (write_image broken_calls lzx_options (λ i. none) (λ path. ok (1 ∷ 2 ∷ [])) plain_info
        one_capture (new_writer ([], 0))).1
      (io 5) refl refl refl refl refl refl

abbrev one_image : ImageEntry
one_image = record {
  info = record plain_info { boot = true };
  res = one_res;
  hash = replicate 20 3;
  dir_count = 1;
  file_count = 0;
  total_bytes = 0;
  created = 0;
  modified = 0;
}

-- A Writer with an image and its metadata.
abbrev filled : Writer MemoryFile
filled = record {
  dst = (replicate 211 0, 211);
  at_byte = 211;
  started = true;
  closed = false;
  failed = none;
  blobs = [];
  by_hash = [];
  images = one_image ∷ [];
}

run-close_example :
    run memory_calls lzx_options (closing ∷ closing ∷ add_one ∷ []) filled
    ≡ (ok tt ∷ err other ∷ err other ∷ [], (close memory_calls lzx_options filled).1)
unfolding close seal sort_entries image_blobs write_stored put_bytes seek_start write_header settle
    wrap wrap_result fail unless_failed encode_blob_table write_res_hdr
run-close_example =
    run-close memory_calls lzx_options (closing ∷ add_one ∷ []) filled
      (close memory_calls lzx_options filled).1 refl

abbrev file_of_header : List ℕ
file_of_header =
    header memory_calls.sha1 lzx_options [] (one_image ∷ []) one_res one_res ++ (1 ∷ 2 ∷ [])

guid_whole : length (guid memory_calls.sha1 lzx_options [] (one_image ∷ [])) ≡ 16
unfolding guid name_eq
guid_whole = refl

read_header-header_example :
    read_header (bytes_reader file_of_header) (length file_of_header)
    ≡ ok (
        header_reader memory_calls.sha1 lzx_options []
          (one_image ∷ [])
          one_res
          one_res
          guid_whole
          (length file_of_header))
unfolding chunk bad_chunk boot_of
read_header-header_example =
    read_header-header memory_calls.sha1 lzx_options [] (one_image ∷ []) one_res one_res guid_whole
      (1 ∷ 2 ∷ []) refl one_res-Fits one_res-Fits (one_res-Fits, omega arith) (omega arith)

-- Two descriptors, of three bytes and of five.
abbrev two_descriptors : List (List ℕ)
two_descriptors = (1 ∷ 2 ∷ 3 ∷ []) ∷ (4 ∷ 5 ∷ 6 ∷ 7 ∷ 8 ∷ []) ∷ []

tree_offset-encode_security_table_example :
    (encode_security_table two_descriptors
      ≡ security_bytes two_descriptors
        ++ replicate (align8 (security_total two_descriptors) - security_total two_descriptors) 0)
    × (tree_offset (encode_security_table two_descriptors ++ (1 ∷ 2 ∷ []))
        ≡ ok (length (encode_security_table two_descriptors)))
unfolding security_total descriptors_size
tree_offset-encode_security_table_example =
    tree_offset-encode_security_table two_descriptors (1 ∷ 2 ∷ []) (omega arith)
