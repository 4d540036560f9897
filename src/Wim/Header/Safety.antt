-- ===== src/Wim/Header/Safety.antt =====
-- Reading the header and the blob table of any file, and choosing an image of it.
use go_wim.Base.{
  ℕ, zero, suc, ◌+◌, ◌-◌, ◌*◌, ◌/◌, ◌%◌, ◌≤◌, ◌<◌, ◌≡◌, refl, subst, true, not, ◌||◌, ◌&&◌, ◌⊎◌,
  inl, inr, List, [], ◌∷◌, ◌++◌, Option, none, some, arith, ltb, leb, ◌==◌, if◌then◌else◌,
  Bool-cases, length, length-take, length-drop, ltb-false→le, take, drop, All, bit_and, Error, ok,
  err, not_wim, unsupported, corrupt, slice, le_at, slice-eq, at-eq, Finishes, value, error,
  Finishes-bind, Finishes-guard, Finishes-if, leb→le,
}
use go_wim.Lzx.Consts.{window_size}
use go_wim.Wim.Names.{name_eq}
use go_wim.Wim.Dentry.{no_hash}
use go_wim.Wim.ResHdr.{ResHdr, read_res_hdr, has_flag, flag_metadata, flag_compressed}
use go_wim.Wim.Resource.{ReaderAt, bytes_reader, read_full}
use go_wim.Wim.Header.{
  Reader, hash_lookup, read_chunk_size, read_header, outside, add_hash, file_entry, read_entry_at,
  blob_entries, read_blob_table, open_tables, header_fields, default_chunk_size, header_size,
  wim_magic, wim_version,
}

-- The contract of `io.ReaderAt`: a read without an error read every byte that was asked for.
abbrev pub IsFull : ReaderAt → Type 0
IsFull r = (n off : ℕ) (bs : List ℕ) → r n off ≡ (bs, none) → length bs ≡ n

full_part :
    (n off : ℕ) (w bs : List ℕ) → off + n ≤ length w → take n (drop off w) ≡ bs → length bs ≡ n
full_part n off w bs h e =
    subst (λ t. length t ≡ n) e (omega (arith, length-take n (drop off w), length-drop off w))

-- The reader behind OpenBytes keeps it.
pub bytes_reader-IsFull : (w : List ℕ) → IsFull (bytes_reader w)
unfolding bytes_reader
bytes_reader-IsFull w n off bs = elim (Bool-cases (leb (length w) off)) [
  | inl past ↦ rw past (λ e. cc)
  | inr within ↦ elim (Bool-cases (ltb (length w) (off + n))) [
    | inl short ↦ rw (within, short) (λ e. cc)
    | inr long ↦ rw (within, long) (λ e. full_part n off w bs (ltb-false→le _ _ long) cc)
  ]
]

-- No codec, or a power of two up to the window.
abbrev pub IsChunkSize : ℕ → Type 0
IsChunkSize c = (c ≡ 0) ⊎ ((0 < c) × (c ≤ window_size) × (bit_and c (c - 1) ≡ 0))

-- A resource that lies in a file of that size.
abbrev pub Inside : ℕ → ResHdr → Type 0
Inside size res = res.offset + res.size ≤ size

-- What the loop over the blob table keeps.
pub record IsLoaded (size : ℕ) (rd : Reader) : Type 0 where
  pub sized : rd.size ≡ size
  pub chunked : IsChunkSize rd.chunk_size
  pub metas_inside : All (Inside size) rd.metas
  pub streams_inside : All (λ (hash, res). Inside size res) rd.by_hash

-- What an accepted file guarantees: every resource lies in it, and the images are as many as the
-- header says, the boot image one of them or none.
pub record IsIndexed (size : ℕ) (rd : Reader) : Type 0 where
  pub loaded : IsLoaded size rd
  pub counted : length rd.metas ≡ rd.image_count
  pub booted : rd.boot_index ≤ rd.image_count

le_at-Finishes :
    (w : ℕ) (b : List ℕ) (o : ℕ) → o + w ≤ length b → Finishes (λ v. Unit) (le_at w b o)
le_at-Finishes w b o h = rw (slice-eq b o w h) (value tt)

slice-Finishes : (b : List ℕ) (o n : ℕ) → o + n ≤ length b → Finishes (λ v. Unit) (slice b o n)
slice-Finishes b o n h = rw (slice-eq b o n h) (value tt)

read_res_hdr-Finishes :
    (b : List ℕ) (o : ℕ) → o + 24 ≤ length b → Finishes (λ v. Unit) (read_res_hdr b o)
unfolding read_res_hdr
read_res_hdr-Finishes b o h = Finishes-bind (le_at-Finishes 8 b o (omega arith)) λ packed _.
    rw (at-eq b (o + 7) 0 (omega arith)) (
      Finishes-bind (le_at-Finishes 8 b (o + 8) (omega arith)) λ offset _.
        Finishes-bind (le_at-Finishes 8 b (o + 16) (omega arith)) λ uncompressed _. value tt)

read-Finishes :
    (n : ℕ) (x : List ℕ × Option Error)
    → ((bs : List ℕ) → x ≡ (bs, none) → length bs ≡ n)
    → Finishes (λ bs. length bs ≡ n) (read_full x)
unfolding read_full
read-Finishes n (bs, none) full = value (full bs refl)
read-Finishes n (bs, some x) full = error

full-Finishes :
    (r : ReaderAt) (n off : ℕ) → IsFull r → Finishes (λ bs. length bs ≡ n) (read_full (r n off))
full-Finishes r n off full = read-Finishes n (r n off) (full n off)

checked_chunk :
    (chunk : ℕ)
    → Finishes IsChunkSize (
        if chunk == 0 || ltb window_size chunk || not (bit_and chunk (chunk - 1) == 0)
        then err unsupported
        else ok chunk)
checked_chunk chunk =
    Finishes-if (chunk == 0 || ltb window_size chunk || not (bit_and chunk (chunk - 1) == 0))
      (λ _. error) (λ e. value (inr (ground arith, ground arith, ground arith)))

read_chunk_size-IsChunkSize : (flags field : ℕ) → Finishes IsChunkSize (read_chunk_size flags field)
unfolding read_chunk_size
read_chunk_size-IsChunkSize flags field =
    Finishes-if (not (has_flag flags 0x2)) (λ _. value (inl refl))
      λ _.
        Finishes-if (has_flag flags 0x20000) (λ _. error)
          λ _.
            Finishes-if (has_flag flags 0x80000) (λ _. error)
              λ _.
                Finishes-if (not (has_flag flags 0x40000)) (λ _. error)
                  λ _. checked_chunk (if field == 0 then default_chunk_size else field)

header_fields-IsLoaded :
    (size : ℕ) (b : List ℕ) → length b ≡ 208 → Finishes (IsLoaded size) (header_fields size b)
unfolding header_fields
header_fields-IsLoaded size b whole = Finishes-bind (le_at-Finishes 2 b 40 (omega arith)) λ part _.
    Finishes-bind (le_at-Finishes 2 b 42 (omega arith)) λ total _.
      Finishes-guard (part == 1 && total == 1) unsupported λ _.
        Finishes-bind (le_at-Finishes 4 b 16 (omega arith)) λ flags _.
          Finishes-bind (le_at-Finishes 4 b 20 (omega arith)) λ field _.
            Finishes-bind (read_chunk_size-IsChunkSize flags field) λ chunk c.
              Finishes-bind (le_at-Finishes 4 b 44 (omega arith)) λ count _.
                Finishes-bind (le_at-Finishes 4 b 120 (omega arith)) λ boot _.
                  Finishes-bind (read_res_hdr-Finishes b 96 (omega arith)) λ meta _.
                    Finishes-bind (read_res_hdr-Finishes b 48 (omega arith)) λ table _.
                      Finishes-bind (read_res_hdr-Finishes b 72 (omega arith)) λ xml _.
                        value (record {
                          sized = refl;
                          chunked = c;
                          metas_inside = tt;
                          streams_inside = tt;
                        })

read_header-IsLoaded :
    (r : ReaderAt) (size : ℕ) → IsFull r → Finishes (IsLoaded size) (read_header r size)
unfolding read_header
read_header-IsLoaded r size full = Finishes-guard (leb header_size size) not_wim λ _.
    Finishes-bind (full-Finishes r 208 0 full) λ b whole.
      Finishes-bind (slice-Finishes b 0 8 (omega arith)) λ magic _.
        Finishes-guard (name_eq magic wim_magic) not_wim λ _.
          Finishes-bind (le_at-Finishes 4 b 8 (omega arith)) λ n _.
            Finishes-guard (n == header_size) unsupported λ _.
              Finishes-bind (le_at-Finishes 4 b 12 (omega arith)) λ v _.
                Finishes-guard (v == wim_version) unsupported
                  λ _. header_fields-IsLoaded size b whole

inside : (size : ℕ) (res : ResHdr) → not (outside size res) ≡ true → Inside size res
unfolding outside
inside size res e = ground arith

All-snoc :
    (P : ResHdr → Type 0) (xs : List ResHdr) (x : ResHdr) → All P xs → P x → All P (xs ++ (x ∷ []))
All-snoc P [] x h p = (p, tt)
All-snoc P (y ∷ xs) x (q, h) p = (q, All-snoc P xs x h p)

new_hash-IsLoaded :
    (size : ℕ) (rd : Reader) (hash : List ℕ) (res : ResHdr) (found : Option ResHdr)
    → IsLoaded size rd
    → Inside size res
    → IsLoaded size
        (elim found [ none ↦ record rd { by_hash = (hash, res) ∷ rd.by_hash } | some old ↦ rd ])
new_hash-IsLoaded size rd hash res none k i = record {
  sized = k.sized;
  chunked = k.chunked;
  metas_inside = k.metas_inside;
  streams_inside = (i, k.streams_inside);
}
new_hash-IsLoaded size rd hash res (some old) k i = k

add_hash-IsLoaded :
    (size : ℕ) (rd : Reader) (hash : List ℕ) (res : ResHdr)
    → IsLoaded size rd
    → Inside size res
    → IsLoaded size (add_hash rd hash res)
unfolding add_hash
add_hash-IsLoaded size rd hash res k i = elim (Bool-cases (name_eq hash no_hash)) [
  | inl e ↦ rw e k
  | inr e ↦ rw e (new_hash-IsLoaded size rd hash res (hash_lookup rd.by_hash hash) k i)
]

file_entry-IsLoaded :
    (size : ℕ) (rd : Reader) (res : ResHdr) (refs : ℕ) (hash : List ℕ)
    → IsLoaded size rd
    → Inside size res
    → IsLoaded size (file_entry rd res refs hash)
unfolding file_entry
file_entry-IsLoaded size rd res refs hash k i =
    elim (Bool-cases (has_flag res.flags flag_metadata)) [
      | inr e ↦ rw e (add_hash-IsLoaded size rd hash res k i)
      | inl e ↦ elim (Bool-cases (refs == 0)) [
        | inl stale ↦ rw (e, stale) k
        | inr live ↦
            rw (e, live)
              (record {
                sized = k.sized;
                chunked = k.chunked;
                metas_inside = All-snoc (Inside size) rd.metas res k.metas_inside i;
                streams_inside = k.streams_inside;
              })
      ]
    ]

read_entry_at-IsLoaded :
    (size : ℕ) (rd : Reader) (tbl : List ℕ) (o : ℕ)
    → IsLoaded size rd
    → o + 50 ≤ length tbl
    → Finishes (IsLoaded size) (read_entry_at rd tbl o)
unfolding read_entry_at
read_entry_at-IsLoaded size rd tbl o k h =
    Finishes-bind (read_res_hdr-Finishes tbl o (omega arith)) λ res _.
      Finishes-guard (not (has_flag res.flags 0x10)) unsupported λ _.
        Finishes-guard (not (has_flag res.flags 0x08)) unsupported λ _.
          Finishes-guard (not (outside rd.size res)) corrupt λ within.
            Finishes-bind (le_at-Finishes 4 tbl (o + 24 + 2) (omega arith)) λ refs _.
              Finishes-bind (slice-Finishes tbl (o + 30) 20 (omega arith)) λ hash _. value (
                file_entry-IsLoaded size rd res refs hash k
                  (subst (λ s. Inside s res) k.sized (inside rd.size res within)))

blob_entries-IsLoaded :
    (size n : ℕ) (rd : Reader) (tbl : List ℕ) (o : ℕ)
    → IsLoaded size rd
    → o + n * 50 ≤ length tbl
    → Finishes (IsLoaded size) (blob_entries n rd tbl o)
unfolding blob_entries
blob_entries-IsLoaded size zero rd tbl o k h = value k
blob_entries-IsLoaded size (suc n) rd tbl o k h =
    Finishes-bind (read_entry_at-IsLoaded size rd tbl o k (omega arith))
      λ rd' k'. blob_entries-IsLoaded size n rd' tbl (o + 50) k' (omega arith)

read_blob_table-IsIndexed :
    (r : ReaderAt) (size : ℕ) (rd : Reader)
    → IsFull r
    → IsLoaded size rd
    → Finishes (IsIndexed size) (read_blob_table r rd)
unfolding read_blob_table
read_blob_table-IsIndexed r size rd full k =
    let n = rd.blob_table.size / 50 in
    Finishes-guard (not (has_flag rd.blob_table.flags flag_compressed)) unsupported λ _.
      Finishes-guard (not (outside rd.size rd.blob_table)) corrupt λ _.
        Finishes-guard (rd.blob_table.size % 50 == 0) corrupt λ _.
          Finishes-guard (not (n == 0)) corrupt λ _.
            Finishes-bind (full-Finishes r (n * 50) rd.blob_table.offset full) λ tbl whole.
              Finishes-bind (blob_entries-IsLoaded size n rd tbl 0 k (omega arith)) λ rd' k'.
                Finishes-guard (length rd'.metas == rd'.image_count) corrupt λ counted.
                  Finishes-guard (leb rd'.boot_index rd'.image_count) corrupt λ booted.
                    value
                      (record { loaded = k'; counted = ground arith; booted = leb→le _ _ booted })

-- Opening any file through a reader that keeps the contract of io.ReaderAt, up to the XML, ends with
-- an error or with a Reader whose chunk size is none or a power of two up to the window, whose
-- images and indexed streams lie in the file, and whose image count and boot index are those of
-- the images that were found. It never panics.
pub open_tables-IsIndexed :
    (r : ReaderAt) (size : ℕ) → IsFull r → Finishes (IsIndexed size) (open_tables r size)
unfolding open_tables
open_tables-IsIndexed r size full =
    Finishes-bind (read_header-IsLoaded r size full)
      λ rd k. read_blob_table-IsIndexed r size rd full k
