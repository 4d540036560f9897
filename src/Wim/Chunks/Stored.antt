-- ===== src/Wim/Chunks/Stored.antt =====
-- What `compressResource` makes, read back by chunks.
use go_wim.Base.{
  ℕ, zero, suc, ◌+◌, ◌-◌, ◌*◌, ◌≤◌, ◌<◌, ◌≡◌, refl, sym, ap, ◌∙◌, true, false, List, [], ◌∷◌, ◌++◌,
  append-nil, drop-drop, take-append-drop, take_all, arith, inl, inr, Bool-cases, Option, none,
  some, ltb, ◌==◌, if◌then◌else◌, length, length-append, length-take, length-drop, get_elem?, take,
  drop, All, Result, ok,
}
use go_wim.Lzx.Compress.{Coder, compress}
use go_wim.Lzx.Compress.Sizes.{IsNarrow, compress-length}
use go_wim.Wim.Resource.{ChunkCache, Progress, decode_chunk, use_stored}
use go_wim.Wim.Resource.Read.{chunks_from}
use go_wim.Wim.Chunks.{chunk_src, encode_chunk, encode_chunks}
use go_wim.Wim.Chunks.Layout.{concat}

drop_all : (n : ℕ) (xs : List ℕ) → length xs ≤ n → drop n xs ≡ []
drop_all zero [] h = refl
drop_all zero (x ∷ xs) h = absurd (omega arith)
drop_all (suc n) [] h = refl
drop_all (suc n) (x ∷ xs) h = drop_all n xs (omega arith)

-- What the reader makes of a chunk: the bytes themselves where Compress declined, and else what the decoder
-- gives for the bytes that it returned.
abbrev pub taken_as : ℕ → List ℕ → ChunkCache → Option (List ℕ) → Result Progress
taken_as i src cache none = ok (src, none, cache)
taken_as i src cache (some coded) = decode_chunk i (length src) coded cache

module _ (coder : Coder) (chunk : ℕ) (bytes : List ℕ) (good : IsNarrow coder) where
  pub encode_chunk-le :
      (i : ℕ) → length (encode_chunk coder chunk bytes i) ≤ length (chunk_src bytes chunk i)
  unfolding encode_chunk
  encode_chunk-le i = go (compress coder chunk (chunk_src bytes chunk i)) refl
    where
      go :
          (x : Option (List ℕ))
          → compress coder chunk (chunk_src bytes chunk i) ≡ x
          → length (elim x as (λ y. List ℕ) [ none ↦ chunk_src bytes chunk i | some coded ↦ coded ])
            ≤ length (chunk_src bytes chunk i)
      go none e = omega arith
      go (some coded) e =
          omega (arith, compress-length coder chunk (chunk_src bytes chunk i) coded good e)

  pub encode_chunk_pos :
      (i : ℕ) → 0 < length (chunk_src bytes chunk i) → 0 < length (encode_chunk coder chunk bytes i)
  unfolding encode_chunk
  encode_chunk_pos i h = go (compress coder chunk (chunk_src bytes chunk i)) refl
    where
      go :
          (x : Option (List ℕ))
          → compress coder chunk (chunk_src bytes chunk i) ≡ x
          → 0
            < length
                (elim x as (λ y. List ℕ) [ none ↦ chunk_src bytes chunk i | some coded ↦ coded ])
      go none e = h
      go (some coded) e = (compress-length coder chunk (chunk_src bytes chunk i) coded good e).0

  -- A chunk as it is stored, and how the reader takes it.
  pub encode_chunk-taken :
      (i k : ℕ) (cache : ChunkCache)
      → use_stored k
          (length (encode_chunk coder chunk bytes i))
          (length (chunk_src bytes chunk i))
          (encode_chunk coder chunk bytes i, none)
          cache
        ≡ taken_as k
            (chunk_src bytes chunk i)
            cache
            (compress coder chunk (chunk_src bytes chunk i))
  unfolding encode_chunk use_stored
  encode_chunk-taken i k cache = go (compress coder chunk (chunk_src bytes chunk i)) refl
    where
      go :
          (x : Option (List ℕ))
          → compress coder chunk (chunk_src bytes chunk i) ≡ x
          → (let stored = elim x as (λ y. List ℕ) [
            | none ↦ chunk_src bytes chunk i
            | some coded ↦ coded
          ] in
              if length stored == length (chunk_src bytes chunk i)
              then ok (stored, none, cache)
              else decode_chunk k (length (chunk_src bytes chunk i)) stored cache)
            ≡ taken_as k (chunk_src bytes chunk i) cache x
      go none e =
          let same : (length (chunk_src bytes chunk i) == length (chunk_src bytes chunk i)) ≡ true =
            ground arith in
          rw same refl
      go (some coded) e =
          let (positive, shorter, within) =
            compress-length coder chunk (chunk_src bytes chunk i) coded good e in
          let other : (length coded == length (chunk_src bytes chunk i)) ≡ false = ground arith in
          rw other refl

  pub get_elem?-encode_chunks :
      (n i k : ℕ)
      → k < n
      → get_elem? (encode_chunks coder chunk bytes n i) k
        ≡ some (encode_chunk coder chunk bytes (i + k))
  unfolding encode_chunks
  get_elem?-encode_chunks zero i k h = absurd (omega arith)
  get_elem?-encode_chunks (suc n) i zero h =
      ap (λ j. some (encode_chunk coder chunk bytes j)) (omega arith)
  get_elem?-encode_chunks (suc n) i (suc k) h =
      get_elem?-encode_chunks n (i + 1) k (omega arith)
      ∙ ap (λ j. some (encode_chunk coder chunk bytes j)) (omega arith)

  pub length-encode_chunks : (n i : ℕ) → length (encode_chunks coder chunk bytes n i) ≡ n
  unfolding encode_chunks
  length-encode_chunks zero i = refl
  length-encode_chunks (suc n) i = ap suc (length-encode_chunks n (i + 1))

  -- The size of a chunk of the input.
  pub length-chunk_src :
      (i : ℕ)
      → i * chunk ≤ length bytes
      → length (chunk_src bytes chunk i)
        ≡ (if ltb (length bytes) (i * chunk + chunk) then length bytes - i * chunk else chunk)
  length-chunk_src i h =
      let up : (i + 1) * chunk ≡ i * chunk + chunk = grind arith in
      rw up (
        ground (
          arith,
          length-take
              ((if ltb (length bytes) (i * chunk + chunk) then length bytes else i * chunk + chunk)
                - i * chunk)
              (drop (i * chunk) bytes),
          length-drop (i * chunk) bytes,
        ))

  pub chunk_src-le : (i : ℕ) → length (chunk_src bytes chunk i) ≤ chunk
  chunk_src-le i =
      let up : (i + 1) * chunk ≡ i * chunk + chunk = grind arith in
      rw up (
        ground (
          arith,
          length-take
              ((if ltb (length bytes) (i * chunk + chunk) then length bytes else i * chunk + chunk)
                - i * chunk)
              (drop (i * chunk) bytes),
        ))

  -- The chunks of the input from chunk i on are what is left of it.
  pub chunks_from-chunk_src :
      (m i : ℕ)
      → length bytes ≤ (i + m) * chunk
      → chunks_from (chunk_src bytes chunk) i m ≡ drop (i * chunk) bytes
  chunks_from-chunk_src zero i h =
      let same : i + 0 ≡ i = omega arith in sym (drop_all (i * chunk) bytes (rw same at h))
  chunks_from-chunk_src (suc m) i h =
      let up : i + 1 ≡ suc i = omega arith in
      let sum : i + suc m ≡ suc i + m = omega arith in
      let times : suc i * chunk ≡ i * chunk + chunk = grind arith in
      ap (λ t. chunk_src bytes chunk i ++ t) (chunks_from-chunk_src m (suc i) (rw (← sum) h))
      ∙ rw (up, times) (split (i * chunk))
    where
      split :
          (o : ℕ)
          → take
                ((if ltb (length bytes) (o + chunk) then length bytes else o + chunk) - o)
                (drop o bytes)
              ++ drop (o + chunk) bytes
            ≡ drop o bytes
      split o = elim (Bool-cases (ltb (length bytes) (o + chunk))) [
        | inr e ↦
            let size : o + chunk - o ≡ chunk = omega arith in
            rw (e, size, ← drop-drop chunk o bytes) (take-append-drop chunk (drop o bytes))
        | inl e ↦
            rw
              (
                e,
                drop_all (o + chunk) bytes (ground arith),
                take_all (length bytes - o) (drop o bytes) (omega (arith, length-drop o bytes)),
              )
              (append-nil (drop o bytes))
      ]

  pub length-concat :
      (n i : ℕ)
      → length (concat (encode_chunks coder chunk bytes n i))
        ≤ length (chunks_from (chunk_src bytes chunk) i n)
  unfolding concat encode_chunks
  length-concat zero i = omega arith
  length-concat (suc n) i =
      let up : i + 1 ≡ suc i = omega arith in
      let same = ap (λ j. length (chunks_from (chunk_src bytes chunk) j n)) up in
      omega (
        arith,
        length-append (encode_chunk coder chunk bytes i)
            (concat (encode_chunks coder chunk bytes n (i + 1))),
        length-append (chunk_src bytes chunk i) (chunks_from (chunk_src bytes chunk) (suc i) n),
        encode_chunk-le i,
        length-concat n (i + 1),
        same,
      )

  pub short_chunks :
      (n i : ℕ)
      → ((j : ℕ) → length (chunk_src bytes chunk j) ≤ chunk)
      → All (λ e. length e ≤ chunk) (encode_chunks coder chunk bytes n i)
  unfolding encode_chunks
  short_chunks zero i h = tt
  short_chunks (suc n) i h = (omega (arith, encode_chunk-le i, h i), short_chunks n (i + 1) h)
