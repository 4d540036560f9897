-- ===== src/Wim/Writer/Header/RoundTrip.antt =====
-- The header as it is written and as `readHeader` reads it.
use go_wim.Base.{
  ℕ, zero, suc, ltb-false→le, ◌+◌, ◌-◌, ◌^◌, ◌≤◌, ◌<◌, ◌≡◌, refl, sym, ap, ◌∙◌, true, false, not,
  ◌||◌, List, [], ◌++◌, append_assoc, Option, none, some, arith, if◌then◌else◌, ltb, leb, ◌==◌,
  length, length-append, replicate, length-overwrite, drop-overwrite, drop-drop, take, drop,
  take-append_len, drop-append_len, u32, to_le, from_le-to_le, bit_and, bit_or, ok, le_at, slice,
}
use go_wim.Lzx.Consts.{window_size}
use go_wim.Wim.Names.{name_eq}
use go_wim.Wim.ResHdr.{ResHdr, read_res_hdr}
use go_wim.Wim.ResHdr.RoundTrip.{Fits}
use go_wim.Wim.Resource.{bytes_reader, read_full}
use go_wim.Wim.Header.{Reader, read_chunk_size, header_fields, read_header, wim_magic}
use go_wim.Wim.Encode.{BlobEntry}
use go_wim.Wim.Encode.BlobTable.{field_at, res_hdr_at}
use go_wim.Wim.Writer.{
  ℤ, Compression, compress_lzx, compress_none, Options, is_lzx, chunk, bad_chunk, pos, negsuc,
  ImageEntry,
}
use go_wim.Wim.Writer.Header.{guid, header_flags, header_chunk, header, int_u32}
use go_wim.Wim.Writer.Header.Bytes.{boot_of, front_bytes, back_bytes, boot_bytes, header-bytes}

no_res : ResHdr
no_res = record { size = 0; flags = 0; offset = 0; uncompressed = 0 }

-- The boot fields that a reader finds.
pub boot_index_of : Option (ResHdr × ℕ) → ℕ
boot_index_of none = 0
boot_index_of (some (res, i)) = i

pub boot_meta_of : Option (ResHdr × ℕ) → ResHdr
unfolding no_res
boot_meta_of none = no_res
boot_meta_of (some (res, i)) = res

-- The chunk size that the options ask for: none without a codec, and 32768 where they leave it open.
pub declared_chunk : Compression → ℤ → ℕ
declared_chunk compress_none z = 0
declared_chunk compress_lzx (pos zero) = 32768
declared_chunk compress_lzx (pos (suc n)) = suc n
declared_chunk compress_lzx (negsuc n) = 0

-- A boot image whose resource and index fit.
abbrev pub BootFits : Option (ResHdr × ℕ) → Type 0
BootFits none = Unit
BootFits (some (res, i)) = Fits res × (i < 2 ^ 32)

le_field :
    (w j o v : ℕ) (b bytes rest : List ℕ)
    → drop o b ≡ bytes
    → drop j bytes ≡ to_le w v ++ rest
    → length (to_le w v) ≡ w
    → v < 256 ^ w
    → o + j + w ≤ length b
    → le_at w b (o + j) ≡ ok v
le_field w j o v b bytes rest at_o at_j size small room =
    let part : slice b (o + j) w ≡ ok (to_le w v) =
      field_at w j o b bytes (to_le w v) rest at_o at_j size room in
    rw part (ap ok (from_le-to_le w v small))

-- The codec that the flags stand for, and its chunk size.
chunk_field :
    (c : Compression) (z : ℤ)
    → bad_chunk z ≡ false
    → read_chunk_size
        (if is_lzx c then bit_or 0x80 (bit_or 0x2 0x40000) else 0x80)
        (if is_lzx c then int_u32 z else 0)
      ≡ ok (if is_lzx c then int_u32 z else 0)
unfolding read_chunk_size is_lzx bad_chunk int_u32
chunk_field compress_none z good = refl
chunk_field compress_lzx (negsuc n) good = cc
chunk_field compress_lzx (pos n) good =
    let small : u32 n ≡ n = ground arith in
    let some_bytes : (n == 0) ≡ false = ground arith in
    let test : (n == 0 || ltb window_size n || not (bit_and n (n - 1) == 0)) ≡ false = good in
    rw (small, some_bytes) (rw test refl)

read_chunk_size-eq :
    (opts : Options)
    → bad_chunk (chunk opts) ≡ false
    → read_chunk_size (header_flags opts) (header_chunk opts) ≡ ok (header_chunk opts)
unfolding header_flags header_chunk
read_chunk_size-eq opts good = chunk_field opts.compression (chunk opts) good

header_chunk-by_options :
    (opts : Options) (c : Compression) (z : ℤ)
    → opts.compression ≡ c
    → opts.chunk_size ≡ z
    → bad_chunk (chunk opts) ≡ false
    → header_chunk opts ≡ declared_chunk c z
unfolding header_chunk is_lzx chunk bad_chunk int_u32 declared_chunk
header_chunk-by_options opts compress_none z e f good = rw e refl
header_chunk-by_options opts compress_lzx (pos zero) e f good = rw (e, f) refl
header_chunk-by_options opts compress_lzx (pos (suc n)) e f good =
    let some_bytes : (suc n == 0) ≡ false = ground arith in
    let good' = rw (f, some_bytes) at good in
    let small : ltb window_size (suc n) ≡ false = ground arith in
    let whole : u32 (suc n) ≡ suc n = omega (arith, ltb-false→le _ _ small) in
    rw (e, f, some_bytes) whole
header_chunk-by_options opts compress_lzx (negsuc n) e f good = cc (rw f at good)

-- The chunk size in the header is the one of the options.
header_chunk-eq :
    (opts : Options)
    → bad_chunk (chunk opts) ≡ false
    → header_chunk opts ≡ declared_chunk opts.compression opts.chunk_size
header_chunk-eq opts good =
    header_chunk-by_options opts opts.compression opts.chunk_size refl refl good

header_flags-lt : (opts : Options) → header_flags opts < 256 ^ 4
unfolding header_flags is_lzx
header_flags-lt opts = ground arith

int_u32-lt : (z : ℤ) → int_u32 z < 256 ^ 4
unfolding int_u32
int_u32-lt (pos n) = omega arith
int_u32-lt (negsuc n) = omega arith

header_chunk-lt : (opts : Options) → header_chunk opts < 256 ^ 4
unfolding header_chunk
header_chunk-lt opts = ground (arith, int_u32-lt (chunk opts))

boot_fields :
    (boot : Option (ResHdr × ℕ)) (b rest : List ℕ)
    → BootFits boot
    → length b ≡ 208
    → drop 96 b ≡ boot_bytes boot ++ drop (96 + length (boot_bytes boot)) (replicate 208 0)
    → (le_at 4 b 120 ≡ ok (boot_index_of boot)) × (read_res_hdr b 96 ≡ ok (boot_meta_of boot))
unfolding boot_index_of boot_meta_of no_res
boot_fields none b rest fits size at96 = (
  le_field 4 24 96 0 b (replicate 112 0) (replicate 84 0) at96 refl refl (omega arith)
      (omega arith),
  res_hdr_at b (replicate 88 0) 96 no_res
      (record {
        size = omega arith;
        flags = omega arith;
        offset = omega arith;
        uncompressed = omega arith;
      })
      (omega arith) at96,
)
boot_fields (some (res, i)) b rest (fits, small) size at96 = (
  le_field 4 24 96 i b (boot_bytes (some (res, i)) ++ replicate 84 0) (replicate 84 0) at96 refl
      refl small (omega arith),
  res_hdr_at b (to_le 4 i ++ replicate 84 0) 96 res fits (omega arith) at96,
)

module _ (sha1 : List ℕ → List ℕ) (opts : Options) (blobs : List BlobEntry)
    (images : List ImageEntry) (tbl xml : ResHdr)
    (id_size : length (guid sha1 opts blobs images) ≡ 16) where
  abbrev pub written : List ℕ
  written = header sha1 opts blobs images tbl xml

  abbrev pub boot_image : Option (ResHdr × ℕ)
  boot_image = boot_of images 0

  -- What `readHeader` finds in it, in a file of the given size.
  abbrev pub header_reader : ℕ → Reader
  header_reader size = record {
    size = size;
    chunk_size = declared_chunk opts.compression opts.chunk_size;
    image_count = length images;
    boot_index = boot_index_of boot_image;
    boot_meta = boot_meta_of boot_image;
    blob_table = tbl;
    xml_res = xml;
    by_hash = [];
    metas = [];
    infos = [];
  }

  abbrev padding : List ℕ
  padding = drop (96 + length (boot_bytes boot_image)) (replicate 208 0)

  written-size : length written ≡ 208
  written-size =
      ap length (header-bytes sha1 opts blobs images tbl xml id_size)
      ∙ length-overwrite {A = ℕ} (replicate 208 0) 0 (
          front_bytes opts
          ++ (guid sha1 opts blobs images
              ++ (back_bytes (length images) tbl xml ++ boot_bytes boot_image)))

  boot-short : (o : Option (ResHdr × ℕ)) → length (boot_bytes o) ≤ 28
  boot-short none = omega arith
  boot-short (some (res, i)) = omega arith

  from_front :
      written
      ≡ front_bytes opts
        ++ (guid sha1 opts blobs images
            ++ (back_bytes (length images) tbl xml ++ (boot_bytes boot_image ++ padding)))
  from_front =
      let id = guid sha1 opts blobs images in
      let back = back_bytes (length images) tbl xml in
      let vs = front_bytes opts ++ (id ++ (back ++ boot_bytes boot_image)) in
      let size : 0 + length vs ≡ 96 + length (boot_bytes boot_image) = omega (
        arith,
        length-append id (back ++ boot_bytes boot_image),
        length-append back (boot_bytes boot_image),
        id_size,
      ) in
      header-bytes sha1 opts blobs images tbl xml id_size
      ∙ drop-overwrite (replicate 208 0) 0 vs (omega (arith, size, boot-short boot_image))
      ∙ ap (λ n. vs ++ drop n (replicate 208 0)) size
      ∙ ap (λ t. front_bytes opts ++ t)
          (append_assoc id (back ++ boot_bytes boot_image) padding
            ∙ ap (λ t. id ++ t) (append_assoc back (boot_bytes boot_image) padding))

  from_back :
      drop 40 written ≡ back_bytes (length images) tbl xml ++ (boot_bytes boot_image ++ padding)
  from_back =
      sym (drop-drop 16 24 written)
      ∙ ap (λ t. drop 16 (drop 24 t)) from_front
      ∙ drop-append_len 16 (guid sha1 opts blobs images) _ id_size

  from_boot : drop 96 written ≡ boot_bytes boot_image ++ padding
  from_boot = sym (drop-drop 56 40 written) ∙ ap (drop 56) from_back

  header_fields-header :
      (size : ℕ)
      → bad_chunk (chunk opts) ≡ false
      → Fits tbl
      → Fits xml
      → BootFits boot_image
      → length images < 2 ^ 32
      → header_fields size written ≡ ok (header_reader size)
  unfolding header_fields
  header_fields-header size good ft fx fb few =
      let part =
        le_field 2 0 40 1 written _ _ from_back refl refl (omega arith)
          (omega (arith, written-size)) in
      let total =
        le_field 2 2 40 1 written _ _ from_back refl refl (omega arith)
          (omega (arith, written-size)) in
      let count =
        le_field 4 4 40 (length images) written _ _ from_back refl refl few
          (omega (arith, written-size)) in
      let t =
        res_hdr_at written _ 48 tbl ft (omega (arith, written-size))
          (sym (drop-drop 8 40 written) ∙ ap (drop 8) from_back) in
      let x =
        res_hdr_at written _ 72 xml fx (omega (arith, written-size))
          (sym (drop-drop 32 40 written) ∙ ap (drop 32) from_back) in
      let flags =
        le_field 4 16 0 (header_flags opts) written _ _ from_front refl refl (header_flags-lt opts)
          (omega (arith, written-size)) in
      let field =
        le_field 4 20 0 (header_chunk opts) written _ _ from_front refl refl (header_chunk-lt opts)
          (omega (arith, written-size)) in
      let (index, meta) = boot_fields boot_image written [] fb written-size from_boot in
      rw
        (
          part,
          total,
          flags,
          field,
          read_chunk_size-eq opts good,
          header_chunk-eq opts good,
          count,
          index,
          meta,
          t,
          x,
        )
        refl

  -- A file that begins with the header of a Writer: `readHeader` accepts it, and finds in it the chunk
  -- size that the options ask for (none without a codec, 32768 for 0, and else the option itself),
  -- the count of images, the boot image, and the resources of the blob table and of the XML that the
  -- header was made from. The chunk size is one that AddImage accepts, the values fit their fields.
  pub read_header-header :
      (rest : List ℕ)
      → bad_chunk (chunk opts) ≡ false
      → Fits tbl
      → Fits xml
      → BootFits boot_image
      → length images < 2 ^ 32
      → read_header (bytes_reader (written ++ rest)) (length (written ++ rest))
        ≡ ok (header_reader (length (written ++ rest)))
  unfolding read_header bytes_reader read_full name_eq
  read_header-header rest good ft fx fb few =
      let whole : length (written ++ rest) ≡ 208 + length rest =
        omega (arith, length-append written rest, written-size) in
      let enough : leb 208 (length (written ++ rest)) ≡ true = ground arith in
      let not_past : leb (length (written ++ rest)) 0 ≡ false = ground arith in
      let not_short : ltb (length (written ++ rest)) (0 + 208) ≡ false = ground arith in
      let front : take 208 (drop 0 (written ++ rest)) ≡ written =
        take-append_len 208 written rest written-size in
      let magic =
        field_at 8 0 0 written _ wim_magic _ from_front refl refl (omega (arith, written-size)) in
      let size =
        le_field 4 8 0 208 written _ _ from_front refl refl (omega arith)
          (omega (arith, written-size)) in
      let version =
        le_field 4 12 0 0x10d00 written _ _ from_front refl refl (omega arith)
          (omega (arith, written-size)) in
      rw (enough, not_past, not_short, front, magic, size, version)
        (header_fields-header (length (written ++ rest)) good ft fx fb few)
