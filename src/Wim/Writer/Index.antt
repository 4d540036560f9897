-- ===== src/Wim/Writer/Index.antt =====
-- The Writer's streams and their index by hash.
use go_wim.Base.{
  ℕ, ◌≡◌, refl, sym, subst, ap, ◌∙◌, List, [], ◌∷◌, ◌++◌, none, some, inl, inr, Bool-cases, length,
  get_elem?, set, get_elem?-set_self, get_elem?-set_ne, get_elem?-append, get_elem?-append_len,
  get_elem?-append_one, get_elem?-lt,
}
use native.Mathlib.Decide.{ℕ_discrete}
use go_wim.Wim.Names.{name_eq}
use go_wim.Wim.Names.Order.{name_eq_refl, name_eq→eq}
use go_wim.Wim.Encode.{BlobEntry}
use go_wim.Wim.Writer.{Options, Calls, Writer, new_writer, find_hash}
use go_wim.Wim.Writer.Run.{Call, run, IsStable, run-Keeps}

-- The index names exactly the streams: each entry a stream with that hash, each stream by its hash.
pub record IsIndex {D : Type 0} (w : Writer D) : Type 0 where
  pub found :
      (h : List ℕ) (j : ℕ)
      → find_hash w.by_hash h ≡ some j
      → (b : BlobEntry) × (get_elem? w.blobs j ≡ some b) × (b.hash ≡ h)
  pub known :
      (j : ℕ) (b : BlobEntry) → get_elem? w.blobs j ≡ some b → find_hash w.by_hash b.hash ≡ some j

find_hash-hit :
    (h : List ℕ) (j : ℕ) (rest : List (List ℕ × ℕ)) → find_hash ((h, j) ∷ rest) h ≡ some j
unfolding find_hash
find_hash-hit h j rest = rw (name_eq_refl h) refl

nothing_found :
    (h : List ℕ) (j : ℕ)
    → find_hash [] h ≡ some j
    → (b : BlobEntry) × (get_elem? [] j ≡ some b) × (b.hash ≡ h)
unfolding find_hash
nothing_found h j e = cc

module _ {D : Type 0} where
  -- A stream that gets more references.
  count_known :
      (w : Writer D) (j refs i : ℕ) (b c : BlobEntry)
      → get_elem? w.blobs j ≡ some b
      → IsIndex w
      → get_elem? (set w.blobs j (record b { refs = refs })) i ≡ some c
      → find_hash w.by_hash c.hash ≡ some i
  count_known w j refs i b c e k at_i = elim (ℕ_discrete j i) [
    | yes same ↦
        let old : get_elem? w.blobs i ≡ some b = rw (← same) e in
        let new : get_elem? (set w.blobs j (record b { refs = refs })) i
            ≡ some (record b { refs = refs }) =
          rw (← same)
            (get_elem?-set_self w.blobs j (record b { refs = refs }) (get_elem?-lt w.blobs j e)) in
        let both : some (record b { refs = refs }) ≡ some c = sym new ∙ at_i in
        let entry : record b { refs = refs } ≡ c = cc in
        let hash : b.hash ≡ c.hash = ap (λ x. x.hash) entry in
        subst (λ h. find_hash w.by_hash h ≡ some i) hash (k.known i b old)
    | no other ↦
        k.known i c (sym (get_elem?-set_ne w.blobs j i (record b { refs = refs }) other) ∙ at_i)
  ]

  count_found :
      (w : Writer D) (j refs i : ℕ) (b : BlobEntry) (h : List ℕ)
      → get_elem? w.blobs j ≡ some b
      → IsIndex w
      → find_hash w.by_hash h ≡ some i
      → (c : BlobEntry) × (get_elem? (set w.blobs j (record b { refs = refs })) i ≡ some c)
        × (c.hash ≡ h)
  count_found w j refs i b h e k at_h =
      let (c, at_i, same_hash) = k.found h i at_h in
      elim (ℕ_discrete j i) [
        | yes same ↦
            let old : some b ≡ some c = sym e ∙ rw same at_i in
            let entry : b ≡ c = cc in
            (
              record b { refs = refs },
              rw (← same) (
                  get_elem?-set_self w.blobs j (record b { refs = refs })
                    (get_elem?-lt w.blobs j e)),
              ap (λ x. x.hash) entry ∙ same_hash,
            )
        | no other ↦
            (c, get_elem?-set_ne w.blobs j i (record b { refs = refs }) other ∙ at_i, same_hash)
      ]

  add_found :
      (w : Writer D) (b : BlobEntry) (h : List ℕ) (i : ℕ)
      → IsIndex w
      → find_hash ((b.hash, length w.blobs) ∷ w.by_hash) h ≡ some i
      → (c : BlobEntry) × (get_elem? (w.blobs ++ (b ∷ [])) i ≡ some c) × (c.hash ≡ h)
  unfolding find_hash
  add_found w b h i k at_h = elim (Bool-cases (name_eq b.hash h)) [
    | inl e ↦
        let last : some (length w.blobs) ≡ some i = rw e at at_h in
        let same : length w.blobs ≡ i = cc in
        (b, rw (← same) (get_elem?-append_len w.blobs b), name_eq→eq b.hash h e)
    | inr e ↦
        let (c, at_i, same_hash) = k.found h i (rw e at at_h) in
        (c, get_elem?-append w.blobs (b ∷ []) i at_i, same_hash)
  ]

  add_known :
      (w : Writer D) (b c : BlobEntry) (i : ℕ)
      → find_hash w.by_hash b.hash ≡ none
      → IsIndex w
      → get_elem? (w.blobs ++ (b ∷ [])) i ≡ some c
      → find_hash ((b.hash, length w.blobs) ∷ w.by_hash) c.hash ≡ some i
  unfolding find_hash
  add_known w b c i fresh k at_i = elim (get_elem?-append_one w.blobs b i at_i) [
    | inr (place, entry) ↦ rw (← entry, place) (find_hash-hit b.hash (length w.blobs) w.by_hash)
    | inl old ↦ elim (Bool-cases (name_eq b.hash c.hash)) [
      | inr e ↦ rw e (k.known i c old)
      | inl e ↦
          let stored : find_hash w.by_hash b.hash ≡ some i =
            rw (name_eq→eq b.hash c.hash e) (k.known i c old) in
          let clash : none ≡ some i = sym fresh ∙ stored in cc
    ]
  ]

  IsIndex-IsStable : IsStable D (λ w. IsIndex w)
  IsIndex-IsStable = record {
    moved = λ w dst n s k. record { found = k.found; known = k.known };
    counted = λ w j refs b e k. record {
      found = λ h i at_h. count_found w j refs i b h e k at_h;
      known = λ i c at_i. count_known w j refs i b c e k at_i;
    };
    added = λ w b fresh k. record {
      found = λ h i at_h. add_found w b h i k at_h;
      known = λ i c at_i. add_known w b c i fresh k at_i;
    };
    imaged = λ w im k. record { found = k.found; known = k.known };
  }

  -- Whatever calls are made on a new Writer, and whatever they return: each hash in the index names a
  -- stream with that hash, and each stream is named by its hash, so no two streams have the same one.
  pub run-IsIndex :
      (calls : Calls D) (opts : Options) (cs : List Call) (dst : D)
      → IsIndex (run calls opts cs (new_writer dst)).1
  unfolding new_writer
  run-IsIndex calls opts cs dst =
      run-Keeps calls opts (λ w. IsIndex w) IsIndex-IsStable
        (λ w e k. record { found = k.found; known = k.known })
        (λ w k. record { found = k.found; known = k.known }) cs (new_writer dst)
        (record { found = λ h j e. nothing_found h j e; known = λ j b e. cc })
