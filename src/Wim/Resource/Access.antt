-- ===== src/Wim/Resource/Access.antt =====
-- `readResourceAt` on a compressed resource: the bytes, the EOF and the cache of every read.
use go_wim.Base.{
  ℕ, ◌+◌, ◌-◌, ◌/◌, ◌≤◌, ◌<◌, ◌≡◌, refl, ap, ◌∙◌, true, false, ◌||◌, List, [], ◌∷◌, Error, Option,
  none, some, inl, inr, arith, ltb, leb, ◌==◌, if◌then◌else◌, length, take, drop, length-take,
  length-drop, take_all, take-nil, Result, ok, Bool-cases, >>=-eq-ok, eof, ltb→lt, le→leb,
  le→ltb-false,
}
use native.Mathlib.Decide.{dec_lt}
use native.Mathlib.Nat.{div-add-mod', mod-lt}
use go_wim.Wim.ResHdr.{ResHdr, has_flag, flag_compressed}
use go_wim.Wim.Resource.{
  ReaderAt, Progress, ChunkCache, plausible_size, chunk_loop, all_produced, read_chunked_at,
  read_chunk_table, read_part, short_read, read_resource_at,
}
use go_wim.Wim.Resource.Read.{CacheHolds, IsStored}
use go_wim.Wim.Resource.Slice.{contents, length-contents, loop-slice}

plausible_of_table :
    (r : ReaderAt) (chunk : ℕ) (res : ResHdr) (offs : List ℕ)
    → read_chunk_table r chunk res ≡ ok offs
    → plausible_size chunk res ≡ ok tt
unfolding read_chunk_table
plausible_of_table r chunk res offs e = (>>=-eq-ok (plausible_size chunk res) _ e).1

module _ (r : ReaderAt) (chunk : ℕ) (res : ResHdr) (offs : List ℕ) (nchunks : ℕ)
    (chunks : ℕ → List ℕ) (k : IsStored r chunk res offs nchunks chunks)
    (table : read_chunk_table r chunk res ≡ ok offs) where
  abbrev whole : List ℕ
  whole = contents r chunk res offs nchunks chunks k

  -- What a read leaves is a part of the contents, no error or EOF, and a cache that still holds.
  abbrev Serves : ℕ → ℕ → Option Error → Result Progress → Type 0
  Serves want off e result =
      (cache : ChunkCache) × (result ≡ ok (take want (drop off whole), e, cache))
      × CacheHolds chunks cache

  chunked-eq :
      (want off : ℕ) (cache : ChunkCache) (out : List ℕ) (cache' : ChunkCache)
      → chunk_loop r chunk res offs nchunks off want (nchunks - off / chunk) (off / chunk) [] cache
        ≡ ok (out, none, cache')
      → want ≤ length out
      → read_chunked_at r chunk res want off cache ≡ ok (out, none, cache')
  unfolding read_chunked_at all_produced
  chunked-eq want off cache out cache' e full =
      let count : length offs - 1 ≡ nchunks = omega (arith, k.table.size) in
      rw (table, count, e, le→ltb-false (length out) want full)

  read_chunked_at-Serves :
      (want off : ℕ) (cache : ChunkCache)
      → off + want ≤ res.uncompressed
      → 0 < want
      → CacheHolds chunks cache
      → Serves want off none (read_chunked_at r chunk res want off cache)
  read_chunked_at-Serves want off cache inside pos holds =
      let (c, e, h) =
        loop-slice r chunk res offs nchunks chunks k off want (off / chunk) cache
          (omega (arith, div-add-mod' off chunk))
          (omega (arith, div-add-mod' off chunk, mod-lt off k.positive)) (omega arith) holds in
      (
        c,
        chunked-eq want off cache _ c e (
            omega (
              arith,
              length-take want (drop off whole),
              length-drop off whole,
              length-contents r chunk res offs nchunks chunks k,
            )),
        h,
      )

  -- The bytes that a request of `len` bytes at `off` can have.
  abbrev served : ℕ → ℕ → ℕ
  served len off = if ltb res.uncompressed (off + len) then res.uncompressed - off else len

  resource-eq :
      (len off : ℕ) (cache : ChunkCache) (out : List ℕ) (cache' : ChunkCache)
      → has_flag res.flags flag_compressed ≡ true
      → off < res.uncompressed
      → 0 < served len off
      → read_chunked_at r chunk res (served len off) off cache ≡ ok (out, none, cache')
      → read_resource_at r chunk res len off cache
        ≡ ok (out, (if ltb res.uncompressed (off + len) then some eof else none), cache')
  unfolding read_resource_at read_part short_read
  resource-eq len off cache out cache' coded inside pos e =
      let before : leb res.uncompressed off ≡ false = ground arith in
      let some_want : (served len off == 0) ≡ false = ground arith in
      rw (plausible_of_table r chunk res offs table, before, some_want, coded, e)

  -- At or past the end nothing is read.
  past_end :
      (len off : ℕ) (cache : ChunkCache)
      → res.uncompressed ≤ off
      → read_resource_at r chunk res len off cache ≡ ok ([], some eof, cache)
  unfolding read_resource_at
  past_end len off cache h =
      rw (plausible_of_table r chunk res offs table, le→leb res.uncompressed off h)

  nothing_wanted :
      (len off : ℕ) (cache : ChunkCache)
      → off < res.uncompressed
      → served len off ≡ 0
      → read_resource_at r chunk res len off cache ≡ ok ([], none, cache)
  unfolding read_resource_at
  nothing_wanted len off cache h e =
      let before : leb res.uncompressed off ≡ false = ground arith in
      rw (plausible_of_table r chunk res offs table, before, e)

  take-served :
      (len off : ℕ)
      → off < res.uncompressed
      → take (served len off) (drop off whole) ≡ take len (drop off whole)
  take-served len off h = elim (Bool-cases (ltb res.uncompressed (off + len))) [
    | inl short ↦
        let size : length (drop off whole) ≡ res.uncompressed - off =
          length-drop off whole
          ∙ ap (λ n. n - off) (length-contents r chunk res offs nchunks chunks k) in
        rw (
          short,
          take_all (res.uncompressed - off) (drop off whole) (omega arith),
          take_all len (drop off whole) (omega (arith, ltb→lt _ _ short)),
        )
    | inr full ↦ rw full
  ]

  -- The error of a read: EOF at the end of the resource and past it, and on a short read.
  abbrev pub end_error : ℕ → ℕ → Option Error
  end_error len off =
      if leb res.uncompressed off || ltb res.uncompressed (off + len) then some eof else none

  drop_past : (off : ℕ) → res.uncompressed ≤ off → drop off whole ≡ []
  drop_past off h =
      no_items (drop off whole)
        (omega (arith, length-drop off whole, length-contents r chunk res offs nchunks chunks k))
    where
      no_items : (xs : List ℕ) → length xs ≡ 0 → xs ≡ []
      no_items [] e = refl
      no_items (x ∷ xs) e = absurd (omega arith)

  inside_end :
      (len off : ℕ)
      → off < res.uncompressed
      → end_error len off ≡ (if ltb res.uncompressed (off + len) then some eof else none)
  inside_end len off h = ground arith

  -- On a compressed resource whose chunks are stored, with the table that the file gives, a read of `len`
  -- bytes at any offset returns that slice of the contents, from a cache that holds nothing or the
  -- bytes of the chunk that it names; the error is io.EOF if the offset is at the end or behind it or
  -- the read asks for more than is left, and else none; and the cache left holds again.
  pub read_resource_at-Serves :
      (len off : ℕ) (cache : ChunkCache)
      → has_flag res.flags flag_compressed ≡ true
      → CacheHolds chunks cache
      → Serves len off (end_error len off) (read_resource_at r chunk res len off cache)
  read_resource_at-Serves len off cache coded holds = elim (dec_lt off res.uncompressed) [
    | yes inside ↦ elim (dec_lt 0 (served len off)) [
      | yes pos ↦
          let (c, e, h) =
            read_chunked_at-Serves (served len off) off cache (ground arith) pos holds in
          (
            c,
            resource-eq len off cache _ c coded inside pos e
                ∙ rw (inside_end len off inside, take-served len off inside),
            h,
          )
      | no none_wanted ↦
          let len_zero : len ≡ 0 = ground arith in
          (
            cache,
            nothing_wanted len off cache inside (omega arith)
                ∙ rw (
                  inside_end len off inside,
                  len_zero,
                  le→ltb-false res.uncompressed (off + 0) (omega arith),
                ),
            holds,
          )
    ]
    | no beyond ↦ (
      cache,
      past_end len off cache (omega arith)
          ∙ rw (
            drop_past off (omega arith),
            take-nil len,
            le→leb res.uncompressed off (omega arith),
          ),
      holds,
    )
  ]
