-- ===== src/Wim/Encode/BlobTable.antt =====
-- The blob table as it is written and as `readBlobTable` reads it.
use go_wim.Base.{
  ℕ, ◌+◌, ◌*◌, ◌^◌, ◌≤◌, ◌<◌, ◌≡◌, refl, sym, subst, ap, ◌∙◌, false, List, [], ◌∷◌, ◌++◌,
  append-nil, append_assoc, arith, length, length-append, length-replicate, replicate, take, drop,
  drop-drop, take-append_len, drop-append_len, overwrite, overwrite-append, overwrite_nil,
  overwrite_all, overwrite_same, All, to_le, from_le, from_le-to_le, ok, slice, slice-eq,
}
use go_wim.Wim.ResHdr.{ResHdr, read_res_hdr, has_flag}
use go_wim.Wim.ResHdr.RoundTrip.{Fits, hdr_bytes, write_res_hdr-bytes, read_res_hdr-write_res_hdr}
use go_wim.Wim.Header.{Reader, file_entry, add_hash, read_entry_at, blob_entries, outside}
use go_wim.Wim.Encode.Filed.{file_all, IsFiled, file_all-IsFiled}
use go_wim.Wim.Encode.{BlobEntry, put_blob_entry, put_blob_entries, encode_blob_table}

-- The bytes of an entry and of a table.
abbrev pub entry_bytes : BlobEntry → List ℕ
entry_bytes e = hdr_bytes e.res ++ (to_le 2 1 ++ (to_le 4 e.refs ++ e.hash))

abbrev pub table_bytes : List BlobEntry → List ℕ
table_bytes [] = []
table_bytes (e ∷ entries) = entry_bytes e ++ table_bytes entries

put_blob_entry-bytes :
    (buf : List ℕ) (o : ℕ) (e : BlobEntry)
    → put_blob_entry buf o e ≡ overwrite buf o (entry_bytes e)
unfolding put_blob_entry
put_blob_entry-bytes buf o e =
    let h = hdr_bytes e.res in
    ap
      (λ b.
        overwrite (overwrite (overwrite b (o + 24) (to_le 2 1)) (o + 26) (to_le 4 e.refs)) (o + 30)
          e.hash)
      (write_res_hdr-bytes buf o e.res)
    ∙ ap (λ b. overwrite (overwrite b (o + 26) (to_le 4 e.refs)) (o + 30) e.hash)
        (overwrite-append buf o h (to_le 2 1))
    ∙ ap (λ b. overwrite b (o + 30) e.hash)
        (overwrite-append buf o (h ++ to_le 2 1) (to_le 4 e.refs))
    ∙ overwrite-append buf o (h ++ (to_le 2 1 ++ to_le 4 e.refs)) e.hash

put_blob_entries-bytes :
    (entries : List BlobEntry) (i : ℕ) (buf front : List ℕ)
    → All (λ e. length e.hash ≡ 20) entries
    → length front ≡ i * 50
    → put_blob_entries entries i (overwrite buf 0 front)
      ≡ overwrite buf 0 (front ++ table_bytes entries)
unfolding put_blob_entries
put_blob_entries-bytes [] i buf front hashes size = ap (overwrite buf 0) (sym (append-nil front))
put_blob_entries-bytes (e ∷ entries) i buf front (h, hs) size =
    let place : i * 50 ≡ 0 + length front = omega (arith, size) in
    ap (put_blob_entries entries (i + 1)) (
      put_blob_entry-bytes (overwrite buf 0 front) (i * 50) e
      ∙ ap (λ n. overwrite (overwrite buf 0 front) n (entry_bytes e)) place
      ∙ overwrite-append buf 0 front (entry_bytes e))
    ∙ put_blob_entries-bytes entries (i + 1) buf (front ++ entry_bytes e) hs
        (omega (arith, length-append front (entry_bytes e), size, h))
    ∙ ap (overwrite buf 0) (append_assoc front (entry_bytes e) (table_bytes entries))

length-table_bytes :
    (entries : List BlobEntry)
    → All (λ e. length e.hash ≡ 20) entries
    → length (table_bytes entries) ≡ length entries * 50
length-table_bytes [] hashes = refl
length-table_bytes (e ∷ entries) (h, hs) =
    omega
      (arith, length-append (entry_bytes e) (table_bytes entries), length-table_bytes entries hs, h)

-- The table is its entries, one behind the other.
encode_blob_table-bytes :
    (entries : List BlobEntry)
    → All (λ e. length e.hash ≡ 20) entries
    → encode_blob_table entries ≡ table_bytes entries
unfolding encode_blob_table
encode_blob_table-bytes entries hashes =
    let buf : List ℕ = replicate (length entries * 50) 0 in
    ap (put_blob_entries entries 0) (sym (overwrite_nil buf))
    ∙ put_blob_entries-bytes entries 0 buf [] hashes refl
    ∙ overwrite_all buf (table_bytes entries)
        (length-table_bytes entries hashes ∙ sym (length-replicate (length entries * 50) 0))

-- An entry that the reader does not refuse.
pub record IsEntryOf (size : ℕ) (e : BlobEntry) : Type 0 where
  pub hash_size : length e.hash ≡ 20
  pub fits : Fits e.res
  pub few_refs : e.refs < 2 ^ 32
  pub no_solid : has_flag e.res.flags 0x10 ≡ false
  pub no_spanned : has_flag e.res.flags 0x08 ≡ false
  pub inside : outside size e.res ≡ false

-- A field of what stands at byte o.
pub field_at :
    (w j o : ℕ) (tbl bytes field rest : List ℕ)
    → drop o tbl ≡ bytes
    → drop j bytes ≡ field ++ rest
    → length field ≡ w
    → o + j + w ≤ length tbl
    → slice tbl (o + j) w ≡ ok field
field_at w j o tbl bytes field rest at_o at_j size room =
    slice-eq tbl (o + j) w room
    ∙ ap (λ t. ok (take w t)) (sym (drop-drop j o tbl) ∙ ap (drop j) at_o ∙ at_j)
    ∙ ap ok (take-append_len w field rest size)

pub res_hdr_at :
    (tbl rest : List ℕ) (o : ℕ) (h : ResHdr)
    → Fits h
    → o + 24 ≤ length tbl
    → drop o tbl ≡ hdr_bytes h ++ rest
    → read_res_hdr tbl o ≡ ok h
res_hdr_at tbl rest o h f room e =
    ap (λ t. read_res_hdr t o)
      (sym (write_res_hdr-bytes tbl o h ∙ overwrite_same tbl o (hdr_bytes h) rest e))
    ∙ read_res_hdr-write_res_hdr tbl o h f room

read_entry_at-eq :
    (rd : Reader) (tbl rest : List ℕ) (o : ℕ) (e : BlobEntry)
    → IsEntryOf rd.size e
    → o + 50 ≤ length tbl
    → drop o tbl ≡ entry_bytes e ++ rest
    → read_entry_at rd tbl o ≡ ok (file_entry rd e.res e.refs e.hash)
unfolding read_entry_at
read_entry_at-eq rd tbl rest o e k room at_o =
    let up : o + 24 + 2 ≡ o + 26 = omega arith in
    let refs =
      field_at 4 26 o tbl (entry_bytes e ++ rest) (to_le 4 e.refs) (e.hash ++ rest) at_o refl refl
        (omega arith) in
    let hash =
      field_at 20 30 o tbl (entry_bytes e ++ rest) e.hash rest at_o refl k.hash_size
        (omega arith) in
    let res =
      res_hdr_at tbl (to_le 2 1 ++ ((to_le 4 e.refs ++ e.hash) ++ rest)) o e.res k.fits
        (omega arith) (at_o ∙ refl) in
    let whole : from_le (to_le 4 e.refs) ≡ e.refs = from_le-to_le 4 e.refs k.few_refs in
    rw (res, k.no_solid, k.no_spanned, k.inside, up, refs, hash, whole) refl

file_entry-size :
    (rd : Reader) (res : ResHdr) (refs : ℕ) (hash : List ℕ)
    → (file_entry rd res refs hash).size ≡ rd.size
unfolding file_entry add_hash
file_entry-size rd res refs hash = ground arith

blob_entries-eq :
    (entries : List BlobEntry) (rd : Reader) (tbl rest : List ℕ) (o : ℕ)
    → All (IsEntryOf rd.size) entries
    → o + length entries * 50 ≤ length tbl
    → drop o tbl ≡ table_bytes entries ++ rest
    → blob_entries (length entries) rd tbl o ≡ ok (file_all rd entries)
unfolding blob_entries file_all
blob_entries-eq [] rd tbl rest o known room at_o = refl
blob_entries-eq (e ∷ entries) rd tbl rest o (k, ks) room at_o =
    let tail = table_bytes entries ++ rest in
    let front = at_o ∙ append_assoc (entry_bytes e) (table_bytes entries) rest in
    rw (read_entry_at-eq rd tbl tail o e k (omega arith) front) (
      blob_entries-eq entries (file_entry rd e.res e.refs e.hash) tbl rest (o + 50)
        (subst (λ n. All (IsEntryOf n) entries) (sym (file_entry-size rd e.res e.refs e.hash)) ks)
        (omega arith)
        (sym (drop-drop 50 o tbl)
          ∙ ap (drop 50) front
          ∙ drop-append_len 50 (entry_bytes e) tail (omega (arith, k.hash_size))))

hashes_of :
    (size : ℕ) (entries : List BlobEntry)
    → All (IsEntryOf size) entries
    → All (λ e. length e.hash ≡ 20) entries
hashes_of size [] known = tt
hashes_of size (e ∷ entries) (k, ks) = (k.hash_size, hashes_of size entries ks)

-- The blob table of entries whose values fit their fields, whose resources lie in the file and are
-- neither solid nor spanned: the reader's loop accepts every entry. It keeps the metadata resources that
-- have references, in order; a hash that was not known finds the resource of the first entry of a
-- stream with that hash, where it is not the hash of nothing; the rest of the Reader is as it was.
pub blob_entries-encode_blob_table :
    (rd : Reader) (entries : List BlobEntry)
    → All (IsEntryOf rd.size) entries
    → (rd' : Reader) × (blob_entries (length entries) rd (encode_blob_table entries) 0 ≡ ok rd')
      × IsFiled rd entries rd'
blob_entries-encode_blob_table rd entries known =
    let hashes = hashes_of rd.size entries known in
    let bytes = encode_blob_table-bytes entries hashes in
    (
      file_all rd entries,
      ap (λ t. blob_entries (length entries) rd t 0) bytes
          ∙ blob_entries-eq entries rd (table_bytes entries) [] 0 known
              (omega (arith, length-table_bytes entries hashes))
              (sym (append-nil (table_bytes entries))),
      file_all-IsFiled rd entries,
    )
