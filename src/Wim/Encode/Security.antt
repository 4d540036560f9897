-- ===== src/Wim/Encode/Security.antt =====
-- The security table as it is written, and where `treeOffset` finds its end.
use go_wim.Base.{
  ℕ, zero, suc, ◌+◌, ◌-◌, ◌*◌, ◌/◌, ◌^◌, ◌≤◌, ◌<◌, ◌≡◌, refl, sym, subst, ap, ◌∙◌, true, List, [],
  ◌∷◌, ◌++◌, append_assoc, arith, length, length-append, replicate, length-replicate, overwrite,
  length-overwrite, drop-overwrite, drop, to_le, from_le-to_le, leb, le→leb, ok, le_at,
}
use go_wim.Wim.Parts.{Parts, put_parts, join, InRow, put_parts-append, put_parts-join}
use go_wim.Wim.ResHdr.{align8}
use go_wim.Wim.ResHdr.RoundTrip.{align8-ge}
use go_wim.Wim.Dentry.{tree_offset}
use go_wim.Wim.Encode.BlobTable.{field_at}
use go_wim.Wim.Encode.{
  descriptors_size, security_total, put_lengths, put_descriptors, encode_security_table,
}

-- The lengths of the descriptors, and the descriptors.
abbrev pub lengths_bytes : List (List ℕ) → List ℕ
lengths_bytes [] = []
lengths_bytes (sd ∷ sds) = to_le 8 (length sd) ++ lengths_bytes sds

abbrev pub descriptors_bytes : List (List ℕ) → List ℕ
descriptors_bytes [] = []
descriptors_bytes (sd ∷ sds) = sd ++ descriptors_bytes sds

-- The table: the total, the count, the lengths, the descriptors, and zeros up to a multiple of 8.
abbrev pub security_bytes : List (List ℕ) → List ℕ
security_bytes sds =
    to_le 4 (security_total sds)
    ++ (to_le 4 (length sds) ++ (lengths_bytes sds ++ descriptors_bytes sds))

length_parts : ℕ → List (List ℕ) → Parts
length_parts off [] = []
length_parts off (sd ∷ sds) = (off, to_le 8 (length sd)) ∷ length_parts (off + 8) sds

descriptor_parts : ℕ → List (List ℕ) → Parts
descriptor_parts off [] = []
descriptor_parts off (sd ∷ sds) = (off, sd) ∷ descriptor_parts (off + length sd) sds

put_lengths-parts :
    (sds : List (List ℕ)) (off : ℕ) (buf : List ℕ)
    → put_lengths sds off buf ≡ put_parts buf (length_parts off sds)
unfolding put_lengths put_parts length_parts
put_lengths-parts [] off buf = refl
put_lengths-parts (sd ∷ sds) off buf =
    put_lengths-parts sds (off + 8) (overwrite buf off (to_le 8 (length sd)))

put_descriptors-parts :
    (sds : List (List ℕ)) (off : ℕ) (buf : List ℕ)
    → put_descriptors sds off buf ≡ put_parts buf (descriptor_parts off sds)
unfolding put_descriptors put_parts descriptor_parts
put_descriptors-parts [] off buf = refl
put_descriptors-parts (sd ∷ sds) off buf =
    put_descriptors-parts sds (off + length sd) (overwrite buf off sd)

join-parts :
    (sds all : List (List ℕ)) (off off' : ℕ)
    → join (length_parts off sds ++ descriptor_parts off' all)
      ≡ lengths_bytes sds ++ descriptors_bytes all
unfolding join length_parts descriptor_parts
join-parts [] all off off' = descriptors all off'
  where
    descriptors :
        (all : List (List ℕ)) (off : ℕ) → join (descriptor_parts off all) ≡ descriptors_bytes all
    descriptors [] off = refl
    descriptors (sd ∷ sds) off = ap (λ t. sd ++ t) (descriptors sds (off + length sd))
join-parts (sd ∷ sds) all off off' =
    ap (λ t. to_le 8 (length sd) ++ t) (join-parts sds all (off + 8) off')
    ∙ sym (append_assoc (to_le 8 (length sd)) (lengths_bytes sds) (descriptors_bytes all))

descriptors-InRow : (sds : List (List ℕ)) (off : ℕ) → InRow off (descriptor_parts off sds)
unfolding descriptor_parts
descriptors-InRow [] off = tt
descriptors-InRow (sd ∷ sds) off = (refl, descriptors-InRow sds (off + length sd))

parts-InRow :
    (sds all : List (List ℕ)) (off off' : ℕ)
    → off' ≡ off + 8 * length sds
    → InRow off (length_parts off sds ++ descriptor_parts off' all)
unfolding length_parts
parts-InRow [] all off off' e =
    let same : off' ≡ off = omega (arith, e) in
    subst (λ o. InRow o (descriptor_parts off' all)) same (descriptors-InRow all off')
parts-InRow (sd ∷ sds) all off off' e =
    (refl, parts-InRow sds all (off + 8) off' (omega (arith, e)))

length-lengths_bytes : (sds : List (List ℕ)) → length (lengths_bytes sds) ≡ 8 * length sds
length-lengths_bytes [] = refl
length-lengths_bytes (sd ∷ sds) =
    omega (arith, length-append (to_le 8 (length sd)) (lengths_bytes sds), length-lengths_bytes sds)

length-descriptors_bytes :
    (sds : List (List ℕ)) → length (descriptors_bytes sds) ≡ descriptors_size sds
unfolding descriptors_size
length-descriptors_bytes [] = refl
length-descriptors_bytes (sd ∷ sds) =
    omega (arith, length-append sd (descriptors_bytes sds), length-descriptors_bytes sds)

drop-replicate : (n m : ℕ) → drop {A = ℕ} n (replicate m 0) ≡ replicate (m - n) 0
drop-replicate zero m = let same : m ≡ m - 0 = omega arith in ap (λ k. replicate k 0) same
drop-replicate (suc n) zero = let same : 0 ≡ 0 - suc n = omega arith in ap (λ k. replicate k 0) same
drop-replicate (suc n) (suc m) =
    let same : m - n ≡ suc m - suc n = omega arith in
    drop-replicate n m ∙ ap (λ k. replicate k 0) same

module _ (sds : List (List ℕ)) where
  abbrev total : ℕ
  total = security_total sds

  length-security_bytes : length (security_bytes sds) ≡ total
  unfolding security_total
  length-security_bytes = omega (
    arith,
    length-append (lengths_bytes sds) (descriptors_bytes sds),
    length-lengths_bytes sds,
    length-descriptors_bytes sds,
  )

  written-parts :
      encode_security_table sds ≡ overwrite (replicate (align8 total) 0) 0 (security_bytes sds)
  unfolding encode_security_table put_parts join
  written-parts =
      let buf : List ℕ = replicate (align8 total) 0 in
      let start = 8 + 8 * length sds in
      let sized = overwrite (overwrite buf 0 (to_le 4 total)) 4 (to_le 4 (length sds)) in
      ap (put_descriptors sds start) (put_lengths-parts sds 8 sized)
      ∙ put_descriptors-parts sds start (put_parts sized (length_parts 8 sds))
      ∙ put_parts-append sized (length_parts 8 sds) (descriptor_parts start sds)
      ∙ put_parts-join buf (to_le 4 total) 4
          ((4, to_le 4 (length sds)) ∷ (length_parts 8 sds ++ descriptor_parts start sds)) refl
          (refl, parts-InRow sds sds 8 start refl)
      ∙ ap (λ t. overwrite buf 0 (to_le 4 total ++ (to_le 4 (length sds) ++ t)))
          (join-parts sds sds 8 start)

  align8-total-ge : total < 2 ^ 32 → total ≤ align8 total
  align8-total-ge small = align8-ge total (omega arith)

  padded :
      total < 2 ^ 32
      → encode_security_table sds ≡ security_bytes sds ++ replicate (align8 total - total) 0
  padded small =
      let buf : List ℕ = replicate (align8 total) 0 in
      let size : 0 + length (security_bytes sds) ≡ total = omega (arith, length-security_bytes) in
      written-parts
      ∙ drop-overwrite buf 0 (security_bytes sds)
          (omega (arith, size, align8-total-ge small, length-replicate {A = ℕ} (align8 total) 0))
      ∙ ap (λ n. security_bytes sds ++ drop n buf) size
      ∙ ap (λ t. security_bytes sds ++ t) (drop-replicate total (align8 total))

  table-size : length (encode_security_table sds) ≡ align8 total
  table-size =
      ap length written-parts
      ∙ length-overwrite {A = ℕ} (replicate (align8 total) 0) 0 (security_bytes sds)
      ∙ length-replicate (align8 total) 0

  few_enough : length sds ≤ (total - 8) / 8
  unfolding security_total
  few_enough = omega arith

  total-ge : 8 + 8 * length sds ≤ total
  unfolding security_total
  total-ge = omega arith

  tree_offset-front :
      (md rest : List ℕ)
      → total < 2 ^ 32
      → md ≡ (security_bytes sds ++ replicate (align8 total - total) 0) ++ rest
      → length md ≡ align8 total + length rest
      → tree_offset md ≡ ok (align8 total)
  unfolding tree_offset
  tree_offset-front md rest small front whole =
      let room = align8-total-ge small in
      let size : le_at 4 md 0 ≡ ok total =
        rw
          (field_at 4 0 0 md md (to_le 4 total) _ refl front refl
            (omega (arith, whole, room, total-ge)))
          (ap ok (from_le-to_le 4 total small)) in
      let count : le_at 4 md 4 ≡ ok (length sds) =
        rw
          (field_at 4 4 0 md md (to_le 4 (length sds)) _ refl (ap (drop 4) front) refl
            (omega (arith, whole, room, total-ge)))
          (ap ok (from_le-to_le 4 (length sds) (omega (arith, small, total-ge)))) in
      let header : leb 8 (length md) ≡ true = le→leb _ _ (omega (arith, whole, room, total-ge)) in
      let enough : leb 8 total ≡ true = le→leb _ _ (omega (arith, total-ge)) in
      let counted : leb (length sds) ((total - 8) / 8) ≡ true = le→leb _ _ few_enough in
      let inside : leb (align8 total) (length md) ≡ true = le→leb _ _ (omega (arith, whole)) in
      rw (size, count, header, enough, counted, inside) refl

  -- Descriptors whose table takes less than 2^32 bytes: the table is its total, their count, their lengths,
  -- the descriptors and zeros up to a multiple of 8, and `treeOffset` finds the dentries where it ends,
  -- whatever stands behind it.
  pub tree_offset-encode_security_table :
      (rest : List ℕ)
      → security_total sds < 2 ^ 32
      → (encode_security_table sds
          ≡ security_bytes sds ++ replicate (align8 (security_total sds) - security_total sds) 0)
        × (tree_offset (encode_security_table sds ++ rest)
            ≡ ok (length (encode_security_table sds)))
  tree_offset-encode_security_table rest small =
      let size : length (encode_security_table sds ++ rest) ≡ align8 total + length rest =
        omega (arith, length-append (encode_security_table sds) rest, table-size) in
      (
        padded small,
        tree_offset-front (encode_security_table sds ++ rest) rest small
              (ap (λ t. t ++ rest) (padded small)) size
            ∙ ap ok (sym table-size),
      )
