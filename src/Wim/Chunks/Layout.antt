-- ===== src/Wim/Chunks/Layout.antt =====
-- The bytes of a chunked resource, and the table that `readChunkTable` reads of them.
use go_wim.Base.{
  ℕ, zero, suc, ◌+◌, ◌-◌, ◌*◌, ◌^◌, ◌≤◌, ◌<◌, ◌≡◌, refl, sym, ap, ◌∙◌, true, not, ◌||◌, List, [],
  ◌∷◌, ◌++◌, append-nil, append_assoc, arith, some, ltb, leb, length, length-append, get_elem?,
  replicate, length-replicate, take, drop, drop-drop, take-append_len, drop-append_len, overwrite,
  overwrite-append, overwrite_all, overwrite_nil, All, u64, to_le, length-to_le, from_le-to_le, ok,
  le_at, slice-eq,
}
use go_wim.Wim.Resource.{table_offsets, check_offsets}
use go_wim.Wim.Chunks.{place_chunks}

-- The chunks one behind the other.
unfoldable pub concat : List (List ℕ) → List ℕ
concat [] = []
concat (e ∷ es) = e ++ concat es

-- The table entries of chunks that begin s bytes behind the table.
unfoldable pub entries_from : ℕ → ℕ → List (List ℕ) → List ℕ
entries_from entry s [] = []
entries_from entry s (e ∷ es) = to_le entry s ++ entries_from entry (s + length e) es

-- Where they begin, in a file whose table ends at base.
unfoldable pub starts_from : ℕ → ℕ → List (List ℕ) → List ℕ
starts_from base s [] = []
starts_from base s (e ∷ es) = u64 (base + s) ∷ starts_from base (s + length e) es

pub length-entries_from :
    (entry s : ℕ) (es : List (List ℕ)) → length (entries_from entry s es) ≡ length es * entry
unfolding entries_from
length-entries_from entry s [] = omega arith
length-entries_from entry s (e ∷ es) = omega (
  arith,
  length-append (to_le entry s) (entries_from entry (s + length e) es),
  length-to_le entry s,
  length-entries_from entry (s + length e) es,
)

-- The loop behind the first chunk.
place_chunks-entries :
    (entry : ℕ) (es : List (List ℕ)) (i : ℕ) (zeros front chunks : List ℕ)
    → length front ≡ i * entry
    → place_chunks entry es (suc i) (overwrite zeros 0 front) chunks
      ≡ (overwrite zeros 0 (front ++ entries_from entry (length chunks) es), chunks ++ concat es)
unfolding place_chunks entries_from concat
place_chunks-entries entry [] i zeros front chunks size =
    rw (append-nil front, append-nil chunks) refl
place_chunks-entries entry (e ∷ es) i zeros front chunks size =
    let later : ltb 0 (suc i) ≡ true = ground arith in
    let back : suc i - 1 ≡ i = omega arith in
    let place : i * entry ≡ 0 + length front = omega (arith, size) in
    let up : suc i + 1 ≡ suc (suc i) = omega arith in
    let cell = to_le entry (length chunks) in
    rw (later, back, place, up, overwrite-append zeros 0 front cell)
      (place_chunks-entries entry es (suc i) zeros (front ++ cell) (chunks ++ e)
          (omega (arith, length-append front cell, length-to_le entry (length chunks), size))
        ∙ rw
            (
              append_assoc front cell (entries_from entry (length (chunks ++ e)) es),
              length-append chunks e,
              append_assoc chunks e (concat es),
            )
            refl)

-- What `compressResource` puts together: the table of all chunks but the first, and the chunks.
pub place_chunks-eq :
    (entry : ℕ) (e : List ℕ) (es : List (List ℕ))
    → place_chunks entry (e ∷ es) 0 (replicate (length es * entry) 0) []
      ≡ (entries_from entry (length e) es, e ++ concat es)
unfolding place_chunks
place_chunks-eq entry e es =
    let zeros : List ℕ = replicate (length es * entry) 0 in
    ap (λ t. place_chunks entry es 1 t e) (sym (overwrite_nil zeros))
    ∙ place_chunks-entries entry es 0 zeros [] e (omega arith)
    ∙ ap (λ t. (t, e ++ concat es))
        (overwrite_all zeros (entries_from entry (length e) es)
          (length-entries_from entry (length e) es ∙ sym (length-replicate (length es * entry) 0)))

-- `readChunkTable` reads the entries that stand at byte pos of a table.
pub table_offsets-eq :
    (entry : ℕ) (es : List (List ℕ)) (s pos base : ℕ) (tbl rest : List ℕ)
    → s + length (concat es) < 256 ^ entry
    → pos + length es * entry ≤ length tbl
    → drop pos tbl ≡ entries_from entry s es ++ rest
    → table_offsets (length es) entry tbl pos base ≡ ok (starts_from base s es)
unfolding table_offsets entries_from starts_from concat
table_offsets-eq entry [] s pos base tbl rest small room at_pos = refl
table_offsets-eq entry (e ∷ es) s pos base tbl rest small room at_pos =
    let behind = entries_from entry (s + length e) es ++ rest in
    let front = at_pos ∙ append_assoc (to_le entry s) (entries_from entry (s + length e) es) rest in
    let size = length-append e (concat es) in
    let value : take entry (drop pos tbl) ≡ to_le entry s =
      ap (take entry) front ∙ take-append_len entry (to_le entry s) behind (length-to_le entry s) in
    let read : le_at entry tbl pos ≡ ok s =
      rw (slice-eq tbl pos entry (omega (arith, room)), value)
        (ap ok (from_le-to_le entry s (omega (arith, small, size)))) in
    rw read (
      rw
        (table_offsets-eq entry es (s + length e) (pos + entry) base tbl rest
          (omega (arith, small, size)) (omega (arith, room))
          (sym (drop-drop entry pos tbl)
            ∙ ap (drop entry) front
            ∙ drop-append_len entry (to_le entry s) behind (length-to_le entry s)))
        refl)

-- All marks between the chunks: each chunk's start, and the end of the last.
unfoldable pub marks : ℕ → List (List ℕ) → List ℕ
marks a [] = a ∷ []
marks a (e ∷ es) = a ∷ marks (a + length e) es

-- The starts and the end behind them are the marks.
pub starts_from-marks :
    (base s end : ℕ) (es : List (List ℕ))
    → end ≡ base + s + length (concat es)
    → end < 2 ^ 64
    → starts_from base s es ++ (end ∷ []) ≡ marks (base + s) es
unfolding starts_from marks concat
starts_from-marks base s end [] e small = ap (λ n. n ∷ []) (omega (arith, e))
starts_from-marks base s end (x ∷ es) e small =
    let size = length-append x (concat es) in
    let whole : u64 (base + s) ≡ base + s = omega (arith, e, small) in
    let next : base + (s + length x) ≡ base + s + length x = omega arith in
    rw whole (
      ap (λ t. (base + s) ∷ t)
        (starts_from-marks base (s + length x) end es (omega (arith, e, size)) small
          ∙ ap (λ n. marks n es) next))

pub check_offsets-marks :
    (base end chunk a : ℕ) (es : List (List ℕ))
    → base ≤ a
    → a + length (concat es) ≤ end
    → All (λ e. length e ≤ chunk) es
    → check_offsets base end chunk (marks a es) ≡ ok tt
unfolding check_offsets marks concat
check_offsets-marks base end chunk a [] low high short = refl
check_offsets-marks base end chunk a (e ∷ []) low high (h, hs) =
    let size = length-append e [] in
    let inside : not (ltb a base || ltb (a + length e) a || ltb end (a + length e)) ≡ true =
      ground (arith, size) in
    let fits : leb (a + length e - a) chunk ≡ true = ground arith in rw (inside, fits) refl
check_offsets-marks base end chunk a (e ∷ e' ∷ es) low high (h, hs) =
    let size = length-append e (concat (e' ∷ es)) in
    let inside : not (ltb a base || ltb (a + length e) a || ltb end (a + length e)) ≡ true =
      ground (arith, size) in
    let fits : leb (a + length e - a) chunk ≡ true = ground arith in
    rw (inside, fits)
      (check_offsets-marks base end chunk (a + length e) (e' ∷ es) (omega arith)
        (omega (arith, size)) hs)

-- What stands in a list of chunks at k, and where it begins among them.
pub chunk_start : List (List ℕ) → ℕ → ℕ
chunk_start es zero = 0
chunk_start [] (suc k) = 0
chunk_start (e ∷ es) (suc k) = length e + chunk_start es k

pub marks-chunk_start :
    (es : List (List ℕ)) (a k n : ℕ)
    → k ≤ length es
    → get_elem? (marks a es) k ≡ some n
    → n ≡ a + chunk_start es k
unfolding marks chunk_start
marks-chunk_start [] a zero n h e = let same : a ≡ n = cc in omega (arith, same)
marks-chunk_start [] a (suc k) n h e = absurd (omega arith)
marks-chunk_start (x ∷ es) a zero n h e = let same : a ≡ n = cc in omega (arith, same)
marks-chunk_start (x ∷ es) a (suc k) n h e =
    omega (arith, marks-chunk_start es (a + length x) k n (omega arith) e)

pub concat-chunk_start :
    (es : List (List ℕ)) (k : ℕ) (e : List ℕ)
    → get_elem? es k ≡ some e
    → (take (length e) (drop (chunk_start es k) (concat es)) ≡ e)
      × (chunk_start es k + length e ≡ chunk_start es (suc k))
      × (chunk_start es k + length e ≤ length (concat es))
unfolding concat chunk_start
concat-chunk_start [] k e h = cc
concat-chunk_start (x ∷ es) zero e h =
    let same : x ≡ e = cc in
    let size : length x ≡ length e = ap length same in
    (
      take-append_len (length e) x (concat es) size ∙ same,
      omega (arith, size),
      omega (arith, length-append x (concat es), size),
    )
concat-chunk_start (x ∷ es) (suc k) e h =
    let (part, next, within) = concat-chunk_start es k e h in
    (
      ap (take (length e)) (
            sym (drop-drop (chunk_start es k) (length x) (x ++ concat es))
            ∙ ap (drop (chunk_start es k)) (drop-append_len (length x) x (concat es) refl))
          ∙ part,
      omega (arith, next),
      omega (arith, within, length-append x (concat es)),
    )
