-- ===== src/Wim/Writer/Steps.antt =====
-- writer.go: what the Writer's calls do to the destination and to its tables.
use go_wim.Base.{
  ℕ, ◌+◌, Bool, true, false, not, ◌||◌, ◌&&◌, List, [], ◌∷◌, ◌++◌, Option, none, some, leb, ◌==◌,
  if◌then◌else◌, length, get_elem?, replicate, set, u32, u64, bit_or, Error, Result, ok, err, panic,
  other, no_security, bad_chunk_size,
}
use go_wim.Wim.Names.{name_eq}
use go_wim.Wim.ResHdr.{ResHdr, has_flag, flag_metadata, flag_compressed}
use go_wim.Wim.Header.{header_size}
use go_wim.Wim.Encode.{BlobEntry, encode_blob_table}
use go_wim.Wim.Chunks.{compress_resource}
use go_wim.Lzx.Compress.{Coder}
use go_wim.Wim.Writer.{
  Options, is_lzx, chunk, bad_chunk, chunk_nat, ImageInfo, ImageEntry, CapturedBlob, Captured,
  Calls, find_hash, Act, after, ◌>>=◌, ◌>>◌, pure, settle, wrap, fail, unless_failed,
}
use go_wim.Wim.Writer.Header.{header}

-- What `writeResource` stores, and with which flags.
unfoldable pub resource_body : Coder → Options → List ℕ → ℕ → List ℕ × ℕ
resource_body coder opts bytes flags =
    let (coded, smaller) = compress_resource coder (chunk_nat (chunk opts)) bytes in
    if is_lzx opts.compression
      && not (length bytes == 0)
      && (smaller || has_flag flags flag_metadata)
    then (coded, bit_or flags flag_compressed)
    else (bytes, flags)

-- The entries by their offsets: `sort.Slice` as an insertion sort. Two offsets are equal only behind a
-- resource of no bytes.
unfoldable pub insert_entry : BlobEntry → List BlobEntry → List BlobEntry
insert_entry e [] = e ∷ []
insert_entry e (x ∷ xs) =
    if leb e.res.offset x.res.offset then e ∷ x ∷ xs else x ∷ insert_entry e xs

unfoldable pub sort_entries : List BlobEntry → List BlobEntry
unfolding insert_entry
sort_entries [] = []
sort_entries (e ∷ entries) = insert_entry e (sort_entries entries)

unfoldable pub image_blobs : List ImageEntry → List BlobEntry
image_blobs [] = []
image_blobs (im ∷ images) = record { res = im.res; hash = im.hash; refs = 1 } ∷ image_blobs images

unfoldable pub any_boot : List ImageEntry → Bool
any_boot [] = false
any_boot (im ∷ images) = im.info.boot || any_boot images

-- `w.blobs[j].refs += refs`, on what stands at index j.
unfoldable pub add_refs : {D : Type 0} → ℕ → ℕ → Option BlobEntry → Act D (Unit {0})
add_refs j refs none w = (panic, w)
add_refs j refs (some b) w =
    (ok tt, record w { blobs = set w.blobs j (record b { refs = u32 (b.refs + refs) }) })

module _ {D : Type 0} (calls : Calls D) (opts : Options) where
  -- One call that writes, and the position behind it.
  unfoldable pub put_bytes : (D → List ℕ → D × ℕ × Option Error) → List ℕ → Act D ℕ
  unfolding settle
  put_bytes out bytes w =
      let (dst, n, e) = out w.dst bytes in
      let w' = record w { dst = dst; at_byte = u64 (w.at_byte + n) } in settle e n w'

  -- `w.dst.Seek(0, io.SeekStart)`
  unfoldable pub seek_start : Act D (Unit {0})
  unfolding settle
  seek_start w = let (dst, e) = calls.seek_start w.dst in settle e tt (record w { dst = dst })

  -- A write of the header, which leaves the position alone.
  unfoldable pub write_header : List ℕ → Act D (Unit {0})
  unfolding settle
  write_header bytes w =
      let (dst, n, e) = calls.write w.dst bytes in settle e tt (record w { dst = dst })

  -- `start`
  unfoldable pub start : Act D (Unit {0})
  unfolding seek_start write_header
  start w =
      if w.started
      then (ok tt, w)
      else (seek_start
            >> (write_header (replicate header_size 0)
                >> (λ w'. (ok tt, record w' { at_byte = header_size; started = true }))))
          w

  -- `writeStored` of all of `bytes`
  unfoldable pub write_stored : List ℕ → ℕ → Act D ResHdr
  unfolding put_bytes
  write_stored bytes flags w =
      (put_bytes calls.copy bytes >>= λ n. pure (
          if n == length bytes
          then ok (record { size = n; flags = flags; offset = w.at_byte; uncompressed = n })
          else err other))
        w

  -- `writeResource`
  unfoldable pub write_resource : List ℕ → ℕ → Act D ResHdr
  unfolding resource_body put_bytes
  write_resource bytes flags w =
      let (body, flags') = resource_body calls.coder opts bytes flags in
      (put_bytes calls.write body >>= λ n. pure (
          ok (record {
            size = length body;
            flags = flags';
            offset = w.at_byte;
            uncompressed = length bytes;
          })))
        w

  -- A stream that is not stored yet.
  unfoldable pub store_blob : CapturedBlob → List ℕ → Act D (Unit {0})
  unfolding write_resource
  store_blob b bytes =
      if not (name_eq (calls.sha1 bytes) b.hash)
      then pure (err other)
      else (wrap (write_resource bytes 0) >>= λ res. λ w. (
        ok tt,
        record w {
          by_hash = (b.hash, length w.blobs) ∷ w.by_hash;
          blobs = w.blobs ++ (record { res = res; hash = b.hash; refs = b.refs } ∷ []);
        },
      ))

  -- A stream that is stored already is referenced again, and one that is not is read and stored.
  unfoldable pub place_blob : Result (List ℕ) → CapturedBlob → Option ℕ → Act D (Unit {0})
  unfolding add_refs store_blob
  place_blob file b none w = after (file, w) (store_blob b)
  place_blob file b (some j) w = add_refs j b.refs (get_elem? w.blobs j) w

  -- The body of the loop of `addImage`: what the context reports, and what reading the file gives.
  unfoldable pub add_blob : Option Error → Result (List ℕ) → CapturedBlob → Act D (Unit {0})
  unfolding place_blob
  add_blob (some e) file b w = (err e, w)
  add_blob none file b w = place_blob file b (find_hash w.by_hash b.hash) w

  -- The loop from stream i on. `ctx i` is what the context reports at its turn.
  unfoldable pub add_blobs :
      (ℕ → Option Error) → (List ℕ → Result (List ℕ)) → ℕ → List CapturedBlob → Act D (Unit {0})
  unfolding add_blob
  add_blobs ctx read_file i [] w = (ok tt, w)
  add_blobs ctx read_file i (b ∷ blobs) w =
      after (add_blob (ctx i) (read_file b.path) b w)
        (λ passed. add_blobs ctx read_file (i + 1) blobs)

  -- `addImage`
  unfoldable pub write_image :
      (ℕ → Option Error) → (List ℕ → Result (List ℕ)) → ImageInfo → Captured → Act D (Unit {0})
  unfolding start add_blobs write_resource
  write_image ctx read_file info c =
      start
      >> (add_blobs ctx read_file 0 c.blobs
          >> (pure c.metadata >>= λ meta.
              (wrap (write_resource meta flag_metadata) >>= λ res. λ w. (
                ok tt,
                record w {
                  images =
                      w.images
                      ++ (record {
                        info = info;
                        res = res;
                        hash = calls.sha1 meta;
                        dir_count = c.dir_count;
                        file_count = c.file_count;
                        total_bytes = c.total_bytes;
                        created = c.created;
                        modified = c.modified;
                      }
                          ∷ []);
                },
              ))))

  -- `AddImage`, where `captured` is what `capture` returns.
  unfoldable pub add_image :
      (ℕ → Option Error)
      → (List ℕ → Result (List ℕ))
      → ImageInfo
      → Result Captured
      → Act D (Unit {0})
  unfolding write_image any_boot fail unless_failed
  add_image ctx read_file info captured w =
      unless_failed w.failed
        (λ w.
          if w.closed
          then (err other, w)
          else if not opts.has_security
          then (err no_security, w)
          else if bad_chunk (chunk opts)
          then (err bad_chunk_size, w)
          else if info.boot && any_boot w.images
          then (err other, w)
          else after (captured, w) (λ c w'. fail (write_image ctx read_file info c w')))
        w

  -- The part of `Close` behind its checks.
  unfoldable pub seal : Act D (Unit {0})
  unfolding sort_entries image_blobs write_stored seek_start write_header
  seal w =
      (wrap (write_stored (encode_blob_table (sort_entries (w.blobs ++ image_blobs w.images))) 0)
          >>= λ tbl. λ w1.
            (wrap (write_stored (calls.build_xml w1.images w1.at_byte) 0) >>= λ xml.
            (seek_start
              >> (λ w2. write_header (header calls.sha1 opts w2.blobs w2.images tbl xml) w2)))
              w1)
        w

  -- `Close`
  unfoldable pub close : Act D (Unit {0})
  unfolding seal fail unless_failed
  close w =
      unless_failed w.failed
        (λ w.
          if w.closed
          then (err other, w)
          else if length w.images == 0
          then (err other, w)
          else fail (seal (record w { closed = true })))
        w
