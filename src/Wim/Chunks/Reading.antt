-- ===== src/Wim/Chunks/Reading.antt =====
-- A resource from `compressResource`, read by resource.go.
use go_wim.Base.{
  ℕ, suc, ◌+◌, ◌-◌, ◌*◌, ◌/◌, ◌^◌, ◌≤◌, ◌<◌, ◌≡◌, refl, sym, subst, ap, ◌∙◌, true, false, List, [],
  ◌∷◌, ◌++◌, append-nil, arith, inl, inr, Bool-cases, none, some, ltb, leb, ◌==◌, length,
  length-append, get_elem?, replicate, take, drop, drop-drop, take-append_len, drop-append_len, u64,
  ok, le→leb, le→ltb-false,
}
use native.Mathlib.Nat.{mul-le-mul_left, mul-le-mul_right}
use go_wim.Lzx.Consts.{window_size}
use go_wim.Wim.ResHdr.{ResHdr, has_flag, flag_compressed}
use go_wim.Lzx.Compress.{Coder, compress}
use go_wim.Lzx.Compress.Sizes.{IsNarrow}
use go_wim.Wim.Resource.{
  ChunkCache, use_stored, ReaderAt, chunk_count, entry_size, chunk_usize, plausible_size,
  max_resource_size, load_table, read_chunk_table, read_full, table_offsets,
}
use go_wim.Wim.Resource.Table.{read_chunk_table-IsTableOf}
use go_wim.Wim.Resource.Read.{chunks_from}
use go_wim.Wim.Resource.Slice.{count_bounds}
use go_wim.Wim.Chunks.{chunk_src, encode_chunk, encode_chunks, place_chunks, compress_resource}
use go_wim.Wim.Chunks.Layout.{
  concat, entries_from, starts_from, marks, chunk_start, place_chunks-eq, table_offsets-eq,
  starts_from-marks, check_offsets-marks, marks-chunk_start, concat-chunk_start,
  length-entries_from,
}
use go_wim.Wim.Chunks.Stored.{
  taken_as, encode_chunk-taken, get_elem?-encode_chunks, length-encode_chunks, length-chunk_src,
  chunks_from-chunk_src, length-concat, short_chunks, chunk_src-le, encode_chunk_pos,
}

-- A resource that holds what `compressResource` made of the bytes, in a file that serves it.
pub record IsWritten (coder : Coder) (chunk : ℕ) (bytes : List ℕ) (r : ReaderAt) (res : ResHdr)
    : Type 0 where
  pub size : res.size ≡ length (compress_resource coder chunk bytes).0
  pub uncompressed : res.uncompressed ≡ length bytes
  pub coded : has_flag res.flags flag_compressed ≡ true
  pub fits : res.offset + res.size < 2 ^ 64
  pub serves :
      (off n : ℕ)
      → off < res.size
      → off + n ≤ res.size
      → r n (res.offset + off) ≡ (take n (drop off (compress_resource coder chunk bytes).0), none)

entry_room : (size n : ℕ) → n ≤ size → size ≤ max_resource_size → n < 256 ^ entry_size size
entry_room size n h few = elim (Bool-cases (ltb 0xffffffff size)) [
  | inl e ↦ rw e (omega arith)
  | inr e ↦ rw e (ground arith)
]

module _ (coder : Coder) (good : IsNarrow coder) (chunk : ℕ) (bytes : List ℕ) (m : ℕ)
    (count : chunk_count chunk (length bytes) ≡ suc m) where
  abbrev entry : ℕ
  entry = entry_size (length bytes)

  abbrev first : List ℕ
  first = encode_chunk coder chunk bytes 0

  abbrev later : List (List ℕ)
  later = encode_chunks coder chunk bytes m 1

  abbrev table : List ℕ
  table = entries_from entry (length first) later

  body-eq : (compress_resource coder chunk bytes).0 ≡ table ++ (first ++ concat later)
  unfolding compress_resource encode_chunks
  body-eq =
      let size : length later ≡ m = length-encode_chunks coder chunk bytes good m 1 in
      let back : suc m - 1 ≡ m = omega arith in
      rw (count, back)
        (ap
            (λ n.
              let (t, c) = place_chunks entry (first ∷ later) 0 (replicate (n * entry) 0) [] in
              t ++ c)
            (sym size)
          ∙ ap (λ x. x.0 ++ x.1) (place_chunks-eq entry first later))

  encoded-chunks : first ∷ later ≡ encode_chunks coder chunk bytes (suc m) 0
  unfolding encode_chunks
  encoded-chunks = refl

  module _ (r : ReaderAt) (res : ResHdr) (k : IsWritten coder chunk bytes r res)
      (positive : 0 < chunk) (narrow : chunk ≤ window_size) (used : 0 < length bytes)
      (few : length bytes ≤ max_resource_size) where
    bounds : (m * chunk < length bytes) × (length bytes ≤ m * chunk + chunk)
    bounds =
        let (b1, b2, b3) = count_bounds chunk (length bytes) (suc m) positive used (sym count) in
        let back : suc m - 1 ≡ m = omega arith in (rw back at b2, rw back at b3)

    source_size :
        (i : ℕ) → i ≤ m → length (chunk_src bytes chunk i) ≡ chunk_usize chunk res (suc m) i
    unfolding chunk_usize
    source_size i h =
        let below : i * chunk ≤ m * chunk = mul-le-mul_right chunk h in
        let back : suc m - 1 ≡ m = omega arith in
        length-chunk_src coder chunk bytes good i (omega (arith, below, bounds))
        ∙ rw (back, k.uncompressed)
            (elim (Bool-cases (i == m)) [
              | inl e ↦ let same : i ≡ m = ground arith in rw same (ground (arith, bounds))
              | inr e ↦
                  let next : suc i * chunk ≤ m * chunk = mul-le-mul_right chunk (ground arith) in
                  rw e (ground (arith, bounds, next))
            ])

    source_pos : (i : ℕ) → i ≤ m → 0 < length (chunk_src bytes chunk i)
    source_pos i h =
        let below : i * chunk ≤ m * chunk = mul-le-mul_right chunk h in
        ground (
          arith,
          length-chunk_src coder chunk bytes good i (omega (arith, below, bounds)),
          below,
          bounds,
        )

    -- All chunks together are no longer than the input.
    chunks-total : length (first ++ concat later) ≤ length bytes
    unfolding concat encode_chunks
    chunks-total =
        let total : length (first ++ concat later)
            ≤ length (chunks_from (chunk_src bytes chunk) 0 (suc m)) =
          length-concat coder chunk bytes good (suc m) 0 in
        let whole =
          chunks_from-chunk_src coder chunk bytes good (suc m) 0 (omega (arith, bounds)) in
        let all : 0 * chunk ≡ 0 = omega arith in
        let size : length (drop (0 * chunk) bytes) ≡ length bytes = rw all refl in
        omega (arith, total, ap length whole, size)

    table-size : length table ≡ m * entry
    table-size =
        length-entries_from entry (length first) later
        ∙ ap (λ n. n * entry) (length-encode_chunks coder chunk bytes good m 1)

    res-size : res.size ≡ m * entry + length (first ++ concat later)
    res-size =
        k.size
        ∙ ap length body-eq
        ∙ length-append table (first ++ concat later)
        ∙ ap (λ n. n + length (first ++ concat later)) table-size

    pub plausible : plausible_size chunk res ≡ ok tt
    unfolding plausible_size
    plausible =
        let small : ltb max_resource_size res.uncompressed ≡ false =
          le→ltb-false _ _ (omega (arith, k.uncompressed)) in
        let some_chunk : (chunk == 0) ≡ false = ground arith in
        let times : m * 4 ≤ m * entry = ground arith in
        let rounds : suc m ≤ res.size / 4 + 1 = omega (arith, times, res-size) in
        let room : suc m * chunk ≤ (res.size / 4 + 1) * chunk = mul-le-mul_right chunk rounds in
        let whole : u64 ((res.size / 4 + 1) * chunk) ≡ (res.size / 4 + 1) * chunk =
          let eights : m * entry ≤ m * 8 = ground arith in
          let ones : m * 1 ≤ m * chunk = mul-le-mul_left m positive in
          let wide : (res.size / 4 + 1) * chunk ≤ (res.size / 4 + 1) * 32768 =
            mul-le-mul_left (res.size / 4 + 1) narrow in
          omega (arith, eights, ones, wide, bounds, res-size, chunks-total) in
        let fits : leb res.uncompressed ((res.size / 4 + 1) * chunk) ≡ true =
          le→leb _ _ (omega (arith, room, bounds, k.uncompressed)) in
        rw (small, k.coded, some_chunk, whole, fits) refl

    abbrev pub base : ℕ
    base = res.offset + m * entry

    abbrev pub offsets : List ℕ
    offsets = marks base (first ∷ later)

    table-read : table_offsets m entry table 0 base ≡ ok (starts_from base (length first) later)
    table-read =
        let size = length-encode_chunks coder chunk bytes good m 1 in
        let total = length-append first (concat later) in
        let small : length first + length (concat later) < 256 ^ entry =
          entry_room (length bytes) _ (omega (arith, chunks-total, total)) (omega arith) in
        let room : 0 + length later * entry ≤ length table = rw size (omega (arith, table-size)) in
        subst (λ n. table_offsets n entry table 0 base ≡ ok (starts_from base (length first) later))
          size
          (table_offsets-eq entry later (length first) 0 base table [] small room
            (sym (append-nil table)))

    load_table-eq : load_table r chunk res (suc m) (m * entry) ≡ ok offsets
    unfolding load_table marks concat encode_chunks read_full
    load_table-eq =
        let low : leb (m * entry) res.size ≡ true = ground (arith, res-size) in
        let from : u64 base ≡ base = omega (arith, k.fits, res-size) in
        let end : u64 (res.offset + res.size) ≡ base + length first + length (concat later) =
          omega (arith, k.fits, res-size, length-append first (concat later)) in
        let back : suc m - 1 ≡ m = omega arith in
        let here : res.offset + 0 ≡ res.offset = omega arith in
        let some_first = encode_chunk_pos coder chunk bytes good 0 (source_pos 0 (omega arith)) in
        let front : take (m * entry) (drop 0 (compress_resource coder chunk bytes).0) ≡ table =
          ap (take (m * entry)) body-eq
          ∙ take-append_len (m * entry) table (first ++ concat later) table-size in
        let read : read_full (r (m * entry) res.offset) ≡ ok table =
          ap (λ o. read_full (r (m * entry) o)) (sym here)
          ∙ ap read_full (
              k.serves 0 (m * entry)
                (omega (arith, res-size, some_first, length-append first (concat later)))
                (omega (arith, res-size)))
          ∙ ap ok front in
        let whole =
          starts_from-marks base (length first) (base + length first + length (concat later)) later
            refl (omega (arith, k.fits, res-size, length-append first (concat later))) in
        let short =
          short_chunks coder chunk bytes good (suc m) 0 (chunk_src-le coder chunk bytes good) in
        let checked =
          check_offsets-marks base (base + length first + length (concat later)) chunk base
            (first ∷ later) (omega arith) (omega (arith, length-append first (concat later)))
            short in
        rw (low, read, from, end, back, k.uncompressed, table-read, whole, checked) refl

    pub read_chunk_table-eq : read_chunk_table r chunk res ≡ ok offsets
    unfolding read_chunk_table
    read_chunk_table-eq =
        let back : suc m - 1 ≡ m = omega arith in
        let some_chunks : (suc m == 0) ≡ false = ground arith in
        let chunks : chunk_count chunk res.uncompressed ≡ suc m =
          ap (chunk_count chunk) k.uncompressed ∙ count in
        let size : (suc m - 1) * entry_size res.uncompressed ≡ m * entry =
          rw (back, k.uncompressed) refl in
        rw (plausible, chunks, some_chunks)
          (ap (λ n. load_table r chunk res (suc m) n) size ∙ load_table-eq)

    -- The bytes of a stored chunk in the file.
    served-chunk :
        (i : ℕ) (coded : List ℕ)
        → get_elem? (first ∷ later) i ≡ some coded
        → 0 < length coded
        → r (length coded) (base + chunk_start (first ∷ later) i) ≡ (coded, none)
    unfolding concat
    served-chunk i coded at_i some_coded =
        let (part, next, within) = concat-chunk_start (first ∷ later) i coded at_i in
        let o = chunk_start (first ∷ later) i in
        let place : base + o ≡ res.offset + (m * entry + o) = omega arith in
        let behind : drop (m * entry) (compress_resource coder chunk bytes).0
            ≡ first ++ concat later =
          ap (drop (m * entry)) body-eq
          ∙ drop-append_len (m * entry) table (first ++ concat later) table-size in
        ap (r (length coded)) place
        ∙ k.serves (m * entry + o) (length coded) (omega (arith, within, res-size, some_coded))
            (omega (arith, within, res-size))
        ∙ ap (λ t. (take (length coded) t, none))
            (sym (drop-drop o (m * entry) (compress_resource coder chunk bytes).0)
              ∙ ap (drop o) behind)
        ∙ ap (λ t. (t, none)) part

    -- Chunk i stands between two marks, and the reader takes what stands there.
    pub taken-chunk :
        (i : ℕ) (cache : ChunkCache)
        → i ≤ m
        → (start : ℕ) × (stop : ℕ) × (get_elem? offsets i ≡ some start)
          × (get_elem? offsets (suc i) ≡ some stop)
          × (use_stored i
                (stop - start)
                (chunk_usize chunk res (suc m) i)
                (r (stop - start) start)
                cache
              ≡ taken_as i
                  (chunk_src bytes chunk i)
                  cache
                  (compress coder chunk (chunk_src bytes chunk i)))
    unfolding encode_chunks
    taken-chunk i cache h =
        let coded = encode_chunk coder chunk bytes i in
        let at_i : get_elem? (first ∷ later) i ≡ some coded =
          get_elem?-encode_chunks coder chunk bytes good (suc m) 0 i (omega arith)
          ∙ ap (λ j. some (encode_chunk coder chunk bytes j)) (omega arith) in
        let (part, next, within) = concat-chunk_start (first ∷ later) i coded at_i in
        let size : length (first ∷ later) ≡ suc m =
          ap suc (length-encode_chunks coder chunk bytes good m 1) in
        let chunks : suc m ≡ chunk_count chunk res.uncompressed =
          sym (ap (chunk_count chunk) k.uncompressed ∙ count) in
        let t =
          read_chunk_table-IsTableOf r chunk res offsets (omega (arith, chunks))
            read_chunk_table-eq in
        let span = t.spans i (omega (arith, chunks)) in
        let start =
          marks-chunk_start (first ∷ later) base i span.start (omega (arith, size)) span.starts in
        let stop =
          marks-chunk_start (first ∷ later) base (suc i) span.stop (omega (arith, size))
            span.stops in
        let csize : span.stop - span.start ≡ length coded = omega (arith, start, stop, next) in
        let usize = source_size i h in
        let read =
          served-chunk i coded at_i (encode_chunk_pos coder chunk bytes good i (source_pos i h)) in
        (
          span.start,
          span.stop,
          span.starts,
          span.stops,
          ap (λ n. use_stored i n (chunk_usize chunk res (suc m) i) (r n span.start) cache) csize
              ∙ ap (λ n. use_stored i (length coded) n (r (length coded) span.start) cache)
                  (sym usize)
              ∙ ap
                  (λ o.
                    use_stored i (length coded) (length (chunk_src bytes chunk i))
                      (r (length coded) o) cache)
                  start
              ∙ ap (λ x. use_stored i (length coded) (length (chunk_src bytes chunk i)) x cache)
                  read
              ∙ encode_chunk-taken coder chunk bytes good i i cache,
        )
