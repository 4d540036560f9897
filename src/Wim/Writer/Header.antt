-- ===== src/Wim/Writer/Header.antt =====
-- writer.go: the header and the GUID in it.
pub mod Bytes
pub mod RoundTrip
use go_wim.Base.{
  ℕ, zero, suc, ◌+◌, ◌-◌, ◌%◌, ◌^◌, Bool, true, false, List, [], ◌∷◌, ◌++◌, ◌==◌, if◌then◌else◌,
  length, take, replicate, overwrite, u32, bit_or, to_le,
}
use go_wim.Wim.Names.{name_eq}
use go_wim.Wim.ResHdr.{ResHdr, write_res_hdr}
use go_wim.Wim.Header.{header_size, wim_version, wim_magic}
use go_wim.Wim.Encode.{BlobEntry}
use go_wim.Wim.Writer.{ℤ, pos, negsuc, Options, is_lzx, chunk, ImageEntry, Writer}

-- `uint32(n)`
unfoldable pub int_u32 : ℤ → ℕ
int_u32 (pos n) = u32 n
int_u32 (negsuc n) = 2 ^ 32 - 1 - u32 n

-- What `guid` hashes: the hashes of the streams and of the images.
pub all_hashes : List BlobEntry → List ImageEntry → List ℕ
all_hashes [] [] = []
all_hashes [] (im ∷ images) = im.hash ++ all_hashes [] images
all_hashes (b ∷ blobs) images = b.hash ++ all_hashes blobs images

-- `guid`
unfoldable pub guid : (List ℕ → List ℕ) → Options → List BlobEntry → List ImageEntry → List ℕ
unfolding all_hashes
guid sha1 opts blobs images =
    if name_eq opts.guid (replicate 16 0)
    then take 16 (sha1 (all_hashes blobs images))
    else opts.guid

-- The loop over the images, for images from index i on: the first bootable one is named.
unfoldable pub put_boot : List ImageEntry → ℕ → List ℕ → List ℕ
put_boot [] i b = b
put_boot (im ∷ images) i b =
    if im.info.boot
    then overwrite (write_res_hdr b 96 im.res) 120 (to_le 4 (u32 (i + 1)))
    else put_boot images (i + 1) b

-- The flags and the chunk size of a header.
unfoldable pub header_flags : Options → ℕ
header_flags opts = if is_lzx opts.compression then bit_or 0x80 (bit_or 0x2 0x40000) else 0x80

unfoldable pub header_chunk : Options → ℕ
header_chunk opts = if is_lzx opts.compression then int_u32 (chunk opts) else 0

-- `header`
unfoldable pub header :
    (List ℕ → List ℕ) → Options → List BlobEntry → List ImageEntry → ResHdr → ResHdr → List ℕ
unfolding guid put_boot header_flags header_chunk
header sha1 opts blobs images tbl xml =
    let b = overwrite (replicate header_size 0) 0 wim_magic in
    let b = overwrite b 8 (to_le 4 header_size) in
    let b = overwrite b 12 (to_le 4 wim_version) in
    let b = overwrite b 16 (to_le 4 (header_flags opts)) in
    let b = overwrite b 20 (to_le 4 (header_chunk opts)) in
    let b = overwrite b 24 (guid sha1 opts blobs images) in
    let b = overwrite b 40 (to_le 2 1) in
    let b = overwrite b 42 (to_le 2 1) in
    let b = overwrite b 44 (to_le 4 (length images)) in
    let b = write_res_hdr b 48 tbl in let b = write_res_hdr b 72 xml in put_boot images 0 b
