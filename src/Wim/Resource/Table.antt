-- ===== src/Wim/Resource/Table.antt =====
-- What an accepted chunk table guarantees.
use go_wim.Base.{
  ℕ, zero, suc, ◌+◌, ◌-◌, ◌*◌, ◌≤◌, ◌<◌, ◌≡◌, refl, not, ◌||◌, List, [], ◌∷◌, ◌++◌, some, arith,
  ltb, leb, length, get_elem?, length-append, u64, ok, ok-injective, subst, le_at, >>=-eq-ok,
  guard-eq-ok, guard, corrupt,
}
use go_wim.Wim.ResHdr.{ResHdr}
use go_wim.Wim.Resource.{
  ReaderAt, read_full, plausible_size, chunk_count, entry_size, table_offsets, check_offsets,
  load_table, read_chunk_table,
}

-- Chunk k of the table starts at a and ends at b: inside the resource, and no longer than a chunk.
pub record IsSpan (base end chunk : ℕ) (offs : List ℕ) (k : ℕ) : Type 0 where
  pub start : ℕ
  pub stop : ℕ
  pub starts : get_elem? offs k ≡ some start
  pub stops : get_elem? offs (suc k) ≡ some stop
  pub above : base ≤ start
  pub ordered : start ≤ stop
  pub below : stop ≤ end
  pub short : stop - start ≤ chunk

check_offsets-IsSpan :
    (base end chunk : ℕ) (offs : List ℕ)
    → check_offsets base end chunk offs ≡ ok tt
    → (k : ℕ) → suc k < length offs
    → IsSpan base end chunk offs k
unfolding check_offsets
check_offsets-IsSpan base end chunk [] e k h = absurd (omega arith)
check_offsets-IsSpan base end chunk (a ∷ []) e k h = absurd (omega arith)
check_offsets-IsSpan base end chunk (a ∷ b ∷ rest) e zero h =
    let (u, g1, e1) = >>=-eq-ok (guard (not (ltb a base || ltb b a || ltb end b)) corrupt) _ e in
    let (v, g2, e2) = >>=-eq-ok (guard (leb (b - a) chunk) corrupt) _ e1 in
    record {
      start = a;
      stop = b;
      starts = refl;
      stops = refl;
      above = ground (arith, guard-eq-ok _ _ g1);
      ordered = ground (arith, guard-eq-ok _ _ g1);
      below = ground (arith, guard-eq-ok _ _ g1);
      short = ground (arith, guard-eq-ok _ _ g2);
    }
check_offsets-IsSpan base end chunk (a ∷ b ∷ rest) e (suc k) h =
    let (u, g1, e1) = >>=-eq-ok (guard (not (ltb a base || ltb b a || ltb end b)) corrupt) _ e in
    let (v, g2, e2) = >>=-eq-ok (guard (leb (b - a) chunk) corrupt) _ e1 in
    let s = check_offsets-IsSpan base end chunk (b ∷ rest) e2 k (omega arith) in
    record {
      start = s.start;
      stop = s.stop;
      starts = s.starts;
      stops = s.stops;
      above = s.above;
      ordered = s.ordered;
      below = s.below;
      short = s.short;
    }

length-table_offsets :
    (n entry : ℕ) (tbl : List ℕ) (pos base : ℕ) (offs : List ℕ)
    → table_offsets n entry tbl pos base ≡ ok offs
    → length offs ≡ n
unfolding table_offsets
length-table_offsets zero entry tbl pos base offs e = ground arith
length-table_offsets (suc n) entry tbl pos base offs e =
    let (v, e1, f1) = >>=-eq-ok (le_at entry tbl pos) _ e in
    let (rest, e2, f2) = >>=-eq-ok (table_offsets n entry tbl (pos + entry) base) _ f1 in
    ground (arith, length-table_offsets n entry tbl (pos + entry) base rest e2)

-- The table of `nchunks` chunks: it begins behind its entries, it ends with the resource, and every
-- chunk between is a span.
pub record IsTableOf (chunk : ℕ) (res : ResHdr) (nchunks : ℕ) (offs : List ℕ) : Type 0 where
  pub size : length offs ≡ nchunks + 1
  pub first :
      get_elem? offs 0 ≡ some (u64 (res.offset + (nchunks - 1) * entry_size res.uncompressed))
  pub spans :
      (k : ℕ)
      → k < nchunks
      → IsSpan
          (u64 (res.offset + (nchunks - 1) * entry_size res.uncompressed))
          (u64 (res.offset + res.size))
          chunk
          offs
          k

load_table-IsTableOf :
    (r : ReaderAt) (chunk : ℕ) (res : ResHdr) (nchunks : ℕ) (offs : List ℕ)
    → 0 < nchunks
    → load_table r chunk res nchunks ((nchunks - 1) * entry_size res.uncompressed) ≡ ok offs
    → IsTableOf chunk res nchunks offs
unfolding load_table
load_table-IsTableOf r chunk res nchunks offs pos e =
    let n = (nchunks - 1) * entry_size res.uncompressed in
    let base = u64 (res.offset + n) in
    let end = u64 (res.offset + res.size) in
    let (u, g, e1) = >>=-eq-ok (guard (leb n res.size) corrupt) _ e in
    let (tbl, _, e2) = >>=-eq-ok (read_full (r n res.offset)) _ e1 in
    let (starts, t, e3) =
      >>=-eq-ok (table_offsets (nchunks - 1) (entry_size res.uncompressed) tbl 0 base) _ e2 in
    let (v, c, e4) =
      >>=-eq-ok (check_offsets base end chunk (base ∷ (starts ++ (end ∷ [])))) _ e3 in
    let same : base ∷ (starts ++ (end ∷ [])) ≡ offs = ok-injective e4 in
    let size : length (base ∷ (starts ++ (end ∷ []))) ≡ nchunks + 1 = omega (
      arith,
      length-append starts (end ∷ []),
      length-table_offsets (nchunks - 1) (entry_size res.uncompressed) tbl 0 base starts t,
    ) in
    subst (IsTableOf chunk res nchunks) same (record {
      size = size;
      first = refl;
      spans = λ k hk. check_offsets-IsSpan base end chunk _ c k (omega arith);
    })

-- If `readChunkTable` accepts the table of a resource of one chunk at least, the table has one more
-- offset than chunks, the first stands behind the entries, and every chunk lies between there and the
-- end of the resource, in order, and stores no more than the chunk size.
pub read_chunk_table-IsTableOf :
    (r : ReaderAt) (chunk_size : ℕ) (res : ResHdr) (offs : List ℕ)
    → 0 < chunk_count chunk_size res.uncompressed
    → read_chunk_table r chunk_size res ≡ ok offs
    → IsTableOf chunk_size res (chunk_count chunk_size res.uncompressed) offs
unfolding read_chunk_table
read_chunk_table-IsTableOf r chunk_size res offs pos e =
    let (u, g, e1) = >>=-eq-ok (plausible_size chunk_size res) _ e in
    load_table-IsTableOf r chunk_size res (chunk_count chunk_size res.uncompressed) offs pos
      (ground (arith, e1))
