-- ===== src/Wim/Resource/Slice.antt =====
-- Random access by chunks is a slice of the whole contents, whatever the cache holds.
use go_wim.Base.{
  ℕ, zero, suc, ◌+◌, ◌-◌, ◌*◌, ◌%◌, ◌≤◌, ◌<◌, ◌≡◌, sym, ap, ◌∙◌, true, false, ◌||◌, List, [], ◌++◌,
  none, some, inl, inr, arith, ltb, ◌==◌, if◌then◌else◌, length, take, drop, get_elem?,
  length-append, length-take, take-append, drop-nil, take-nil, drop-append_le, drop-append_ge,
  append-nil, append_assoc, ok, Bool-cases, at-some, ltb-false→le, lt→ltb, le→leb,
}
use native.Mathlib.Nat.{div-add-mod, mod-lt}
use native.Mathlib.Decide.{dec_lt, ℕ_discrete}
use native.Mathlib.Numerals.{add-one}
use go_wim.Wim.ResHdr.{ResHdr}
use go_wim.Wim.Resource.{
  ReaderAt, ChunkCache, chunk_count, chunk_usize, wanted_part, copy_chunk, chunk_round, chunk_loop,
}
use go_wim.Wim.Resource.Read.{chunks_from, CacheHolds, load_chunk-eq, IsStored}

-- A quotient rounded up.
round_up_bounds :
    (chunk total n rem : ℕ)
    → 0 < chunk
    → 0 < total
    → chunk * n + rem ≡ total + chunk - 1
    → rem < chunk
    → (0 < n) × ((n - 1) * chunk < total) × (total ≤ (n - 1) * chunk + chunk)
round_up_bounds chunk total zero rem pos used e h = absurd (omega arith)
round_up_bounds chunk total (suc n) rem pos used e h =
    let back : suc n - 1 ≡ n = omega arith in
    let times : chunk * suc n ≡ n * chunk + chunk = grind arith in rw back (omega arith)

pub count_bounds :
    (chunk total n : ℕ)
    → 0 < chunk
    → 0 < total
    → n ≡ chunk_count chunk total
    → (0 < n) × ((n - 1) * chunk < total) × (total ≤ (n - 1) * chunk + chunk)
count_bounds chunk total n pos used e =
    round_up_bounds chunk total n ((total + chunk - 1) % chunk) pos used
      (rw e (div-add-mod (total + chunk - 1) chunk)) (mod-lt (total + chunk - 1) pos)

module _ (r : ReaderAt) (chunk : ℕ) (res : ResHdr) (offs : List ℕ) (nchunks : ℕ)
    (chunks : ℕ → List ℕ) (k : IsStored r chunk res offs nchunks chunks) where
  bounds :
      (0 < nchunks)
      × ((nchunks - 1) * chunk < res.uncompressed)
      × (res.uncompressed ≤ (nchunks - 1) * chunk + chunk)
  bounds = count_bounds chunk res.uncompressed nchunks k.positive k.used k.count

  usize_bounds :
      (i : ℕ) → (0 < chunk_usize chunk res nchunks i) × (chunk_usize chunk res nchunks i ≤ chunk)
  unfolding chunk_usize
  usize_bounds i = ground (arith, bounds, k.positive)

  -- The whole contents, and their size.
  unfoldable pub contents : List ℕ
  contents = chunks_from chunks 0 nchunks

  -- Where the wanted part of chunk i begins.
  abbrev part_start : ℕ → ℕ → ℕ
  part_start off i = if ltb (i * chunk) off then off - i * chunk else 0

  copy_chunk-eq :
      (off want i : ℕ) (out bytes : List ℕ) (cache : ChunkCache)
      → part_start off i ≤ length bytes
      → copy_chunk r chunk res offs nchunks off want i out (bytes, none, cache)
        ≡ ok (out ++ take (want - length out) (drop (part_start off i) bytes), none, cache)
  unfolding copy_chunk wanted_part
  copy_chunk-eq off want i out bytes cache room = rw (le→leb (part_start off i) (length bytes) room)

  span_fits :
      (i start stop : ℕ)
      → stop - start ≤ chunk
      → (chunk_usize chunk res nchunks i == 0
          || ltb chunk (chunk_usize chunk res nchunks i)
          || ltb chunk (stop - start))
        ≡ false
  span_fits i start stop short = ground (arith, usize_bounds i)

  round-eq :
      (off want i : ℕ) (out : List ℕ) (cache : ChunkCache)
      → i < nchunks
      → part_start off i ≤ length (chunks i)
      → CacheHolds chunks cache
      → (cache' : ChunkCache) × (chunk_round r chunk res offs nchunks off want i out cache
          ≡ ok (out ++ take (want - length out) (drop (part_start off i) (chunks i)), none, cache'))
        × CacheHolds chunks cache'
  unfolding chunk_round
  round-eq off want i out cache lt room holds =
      let span = k.table.spans i lt in
      let (cache', load, holds') =
        load_chunk-eq r chunks span.start i (span.stop - span.start)
          (chunk_usize chunk res nchunks i) cache (k.stores i lt) (k.sizes i lt) holds in
      let next : get_elem? offs (i + 1) ≡ some span.stop = rw add-one span.stops in
      (
        cache',
        rw
            (
              at-some offs i span.starts,
              at-some offs (i + 1) next,
              span_fits i span.start span.stop span.short,
              load,
            )
            (copy_chunk-eq off want i out (chunks i) cache' room),
        holds',
      )

  later_start : (off i : ℕ) → off ≤ i * chunk + chunk → part_start off (i + 1) ≡ 0
  later_start off i h = let e : (i + 1) * chunk ≡ i * chunk + chunk = grind arith in ground arith

  -- What one chunk adds, and what the chunks behind it add to that.
  joined :
      (want : ℕ) (out part rest : List ℕ)
      → (out ++ take (want - length out) part)
          ++ take (want - length (out ++ take (want - length out) part)) rest
        ≡ out ++ take (want - length out) (part ++ rest)
  joined want out part rest =
      let left : want - length (out ++ take (want - length out) part)
          ≡ want - length out - length part =
        omega (
          arith,
          length-append out (take (want - length out) part),
          length-take (want - length out) part,
        ) in
      rw (left, take-append (want - length out) part rest) (append_assoc out _ _)

  -- A round that is made, and the content behind it.
  loop_more :
      (off want rounds i : ℕ) (out : List ℕ) (cache : ChunkCache) (out' : List ℕ) (c1 : ChunkCache)
      → i < nchunks
      → ltb (length out) want ≡ true
      → chunk_round r chunk res offs nchunks off want i out cache ≡ ok (out', none, c1)
      → chunk_loop r chunk res offs nchunks off want (suc rounds) i out cache
        ≡ chunk_loop r chunk res offs nchunks off want rounds (i + 1) out' c1
  unfolding chunk_loop
  loop_more off want rounds i out cache out' c1 lt more e1 = rw (lt→ltb i nchunks lt, more, e1)

  behind :
      (off want rounds i : ℕ) (out : List ℕ)
      → off ≤ i * chunk + chunk
      → part_start off i ≤ length (chunks i)
      → let out' = out ++ take (want - length out) (drop (part_start off i) (chunks i)) in
        out'
          ++ take
              (want - length out')
              (drop (part_start off (i + 1)) (chunks_from chunks (i + 1) rounds))
        ≡ out
          ++ take (want - length out) (drop (part_start off i) (chunks_from chunks i (suc rounds)))
  behind off want rounds i out near room =
      rw
        (
          later_start off i near,
          add-one,
          drop-append_le (part_start off i) (chunks i) (chunks_from chunks (suc i) rounds) room,
        )
        (joined want out _ (chunks_from chunks (suc i) rounds))

  loop-eq :
      (off want rounds i : ℕ) (out : List ℕ) (cache : ChunkCache)
      → i + rounds ≡ nchunks
      → off ≤ i * chunk + chunk
      → (i < nchunks → part_start off i ≤ length (chunks i))
      → CacheHolds chunks cache
      → (cache' : ChunkCache) × (chunk_loop r chunk res offs nchunks off want rounds i out cache
          ≡ ok (
            out ++ take (want - length out) (drop (part_start off i) (chunks_from chunks i rounds)),
            none,
            cache',
          ))
        × CacheHolds chunks cache'
  unfolding chunk_loop
  loop-eq off want zero i out cache last near room holds =
      (cache, rw (drop-nil (part_start off i), take-nil (want - length out), append-nil out), holds)
  loop-eq off want (suc rounds) i out cache last near room holds =
      let lt : i < nchunks = omega arith in
      let (c1, e1, holds1) = round-eq off want i out cache lt (room lt) holds in
      let out' = out ++ take (want - length out) (drop (part_start off i) (chunks i)) in
      let (c2, e2, holds2) =
        loop-eq off want rounds (i + 1) out' c1 (omega arith)
          (let e : (i + 1) * chunk ≡ i * chunk + chunk = grind arith in omega arith)
          (λ h. rw (later_start off i near) (omega arith)) holds1 in
      elim (Bool-cases (ltb (length out) want)) [
        | inl more ↦ (
          c2,
          loop_more off want rounds i out cache _ c1 lt more e1
              ∙ e2
              ∙ ap (λ t. ok (t, none, c2)) (behind off want rounds i out near (room lt)),
          holds2,
        )
        | inr full ↦ (
          cache,
          (let done : want - length out ≡ 0 = omega (arith, ltb-false→le _ _ full) in
              rw (lt→ltb i nchunks lt, full, done, append-nil out)),
          holds,
        )
      ]

  whole_usize : (i : ℕ) → i < nchunks - 1 → chunk_usize chunk res nchunks i ≡ chunk
  unfolding chunk_usize
  whole_usize i h = ground arith

  last_usize :
      (i : ℕ) → i ≡ nchunks - 1 → chunk_usize chunk res nchunks i + i * chunk ≡ res.uncompressed
  unfolding chunk_usize
  last_usize i e = rw e (ground (arith, bounds))

  -- Whole chunks in front of an offset are passed over.
  skip_chunks :
      (j i m f : ℕ)
      → i + (j + m) ≡ nchunks
      → 0 < m
      → drop (j * chunk + f) (chunks_from chunks i (j + m)) ≡ drop f (chunks_from chunks (i + j) m)
  skip_chunks zero i m f last pos =
      let e1 : 0 * chunk + f ≡ f = omega arith in
      let e2 : 0 + m ≡ m = omega arith in let e3 : i + 0 ≡ i = omega arith in rw (e1, e2, e3)
  skip_chunks (suc j) i m f last pos =
      let e1 : suc j + m ≡ suc (j + m) = omega arith in
      let size : length (chunks i) ≡ chunk =
        k.sizes i (omega arith) ∙ whole_usize i (omega arith) in
      let far : suc j * chunk + f ≡ chunk + (j * chunk + f) = grind arith in
      let e2 : chunk + (j * chunk + f) - length (chunks i) ≡ j * chunk + f = omega arith in
      let e3 : i + suc j ≡ suc i + j = omega arith in
      rw
        (
          e1,
          far,
          drop-append_ge (chunk + (j * chunk + f)) (chunks i) (chunks_from chunks (suc i) (j + m))
              (omega arith),
          e2,
          e3,
        )
        (skip_chunks j (suc i) m f (omega arith) pos)

  length-chunks_from :
      (m i : ℕ)
      → 0 < m
      → i + m ≡ nchunks
      → length (chunks_from chunks i m) + i * chunk ≡ res.uncompressed
  length-chunks_from zero i pos last = absurd (omega arith)
  length-chunks_from (suc zero) i pos last =
      rw (append-nil (chunks i), k.sizes i (omega arith)) (last_usize i (omega arith))
  length-chunks_from (suc (suc m)) i pos last =
      let e : suc i * chunk ≡ i * chunk + chunk = grind arith in
      rw (length-append (chunks i) (chunks_from chunks (suc i) (suc m))) (
        omega (
          arith,
          k.sizes i (omega arith),
          whole_usize i (omega arith),
          length-chunks_from (suc m) (suc i) (omega arith) (omega arith),
        ))

  pub length-contents : length contents ≡ res.uncompressed
  unfolding contents
  length-contents = omega (arith, length-chunks_from nchunks 0 bounds.0 (omega arith))

  -- The chunk that an offset falls into, and the part of the contents from there on.
  below_count : (q off : ℕ) → q * chunk ≤ off → off < res.uncompressed → q < nchunks
  below_count q off le lt = elim (dec_lt q nchunks) [
    | yes h ↦ h
    | no h ↦
        let above : nchunks * chunk ≤ q * chunk = grind arith in
        let back : nchunks * chunk ≡ (nchunks - 1) * chunk + chunk = all_of nchunks bounds.0 in
        absurd (omega (arith, bounds))
  ]
    where
      all_of : (n : ℕ) → 0 < n → n * chunk ≡ (n - 1) * chunk + chunk
      all_of zero h = absurd (omega arith)
      all_of (suc n) h = let e : suc n - 1 ≡ n = omega arith in rw e (grind arith)

  drop_from :
      (q f off : ℕ)
      → q * chunk + f ≡ off
      → q < nchunks
      → drop f (chunks_from chunks q (nchunks - q)) ≡ drop off contents
  unfolding contents
  drop_from q f off e lt =
      let e1 : q + (nchunks - q) ≡ nchunks = omega arith in
      let e2 : 0 + q ≡ q = omega arith in
      sym (rw (e, e1, e2) at (skip_chunks q 0 (nchunks - q) f (omega arith) (omega arith)))

  pub loop-slice :
      (off want q : ℕ) (cache : ChunkCache)
      → q * chunk ≤ off
      → off < q * chunk + chunk
      → off < res.uncompressed
      → CacheHolds chunks cache
      → (cache' : ChunkCache) × (chunk_loop r chunk res offs nchunks off want
            (nchunks - q)
            q
            []
            cache
          ≡ ok (take want (drop off contents), none, cache'))
        × CacheHolds chunks cache'
  loop-slice off want q cache low high lt holds =
      let room : q < nchunks = below_count q off low lt in
      let f : q * chunk + part_start off q ≡ off = ground arith in
      let inside : part_start off q ≤ length (chunks q) =
        ground (arith, k.sizes q room, usize_left q off) in
      let (c, e, h) =
        loop-eq off want (nchunks - q) q [] cache (omega arith) (omega arith) (λ _. inside) holds in
      let all : want - 0 ≡ want = omega arith in
      (c, e ∙ rw (all, drop_from q (part_start off q) off f room), h)
    where
      usize_left :
          (q off : ℕ)
          → off < res.uncompressed
          → off < q * chunk + chunk
          → off ≤ q * chunk + chunk_usize chunk res nchunks q
      usize_left q off lt high = elim (ℕ_discrete q (nchunks - 1)) [
        | yes e ↦ omega (arith, last_usize q e)
        | no n ↦ unfold chunk_usize in ground arith
      ]
