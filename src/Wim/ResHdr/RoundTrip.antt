-- ===== src/Wim/ResHdr/RoundTrip.antt =====
-- A resource header is read back as it was written, and the alignment is the least one.
use go_wim.Base.{
  u64, bit_and_clear3, ℕ, zero, suc, ◌+◌, ◌-◌, ◌*◌, ◌%◌, ◌^◌, ◌≤◌, ◌<◌, ◌≡◌, ap, ◌∙◌, List, [], ◌∷◌,
  ◌++◌, arith, length, take, drop, overwrite, overwrite-append, window-overwrite, length-overwrite,
  u8, bit_and_mask, to_le, from_le, from_le-to_le, ok, at, le_at, slice-eq,
}
use go_wim.Wim.ResHdr.{ResHdr, read_res_hdr, write_res_hdr, align8}

-- A header whose fields fit: 7 bytes of size, a byte of flags, two 64-bit words.
pub record Fits (h : ResHdr) : Type 0 where
  pub size : h.size < 2 ^ 56
  pub flags : h.flags < 2 ^ 8
  pub offset : h.offset < 2 ^ 64
  pub uncompressed : h.uncompressed < 2 ^ 64

-- The 24 bytes of a header.
abbrev pub hdr_bytes : ResHdr → List ℕ
hdr_bytes h =
    take 7 (to_le 8 h.size) ++ ((u8 h.flags ∷ []) ++ (to_le 8 h.offset ++ to_le 8 h.uncompressed))

pub write_res_hdr-bytes :
    (b : List ℕ) (o : ℕ) (h : ResHdr) → write_res_hdr b o h ≡ overwrite b o (hdr_bytes h)
unfolding write_res_hdr
write_res_hdr-bytes b o h =
    let s = take 7 (to_le 8 h.size) in
    let f = u8 h.flags ∷ [] in
    ap (λ t. overwrite (overwrite t (o + 8) (to_le 8 h.offset)) (o + 16) (to_le 8 h.uncompressed))
      (overwrite-append b o s f)
    ∙ ap (λ t. overwrite t (o + 16) (to_le 8 h.uncompressed))
        (overwrite-append b o (s ++ f) (to_le 8 h.offset))
    ∙ overwrite-append b o (s ++ (f ++ to_le 8 h.offset)) (to_le 8 h.uncompressed)

le_at-overwrite :
    (w j : ℕ) (b : List ℕ) (o : ℕ) (vs : List ℕ)
    → o + length vs ≤ length b
    → j + w ≤ length vs
    → le_at w (overwrite b o vs) (o + j) ≡ ok (from_le (take w (drop j vs)))
le_at-overwrite w j b o vs hb hj = rw (
  slice-eq (overwrite b o vs) (o + j) w (omega (arith, length-overwrite b o vs)),
  window-overwrite b o j w vs hb hj,
)

-- The packed word: the size below the flags.
packed-eq : (h : ResHdr) → Fits h → from_le (take 8 (hdr_bytes h)) ≡ h.flags * 2 ^ 56 + h.size
packed-eq h f = omega (arith, f.size, f.flags)

read_parts :
    (w : List ℕ) (o packed flags offset uncompressed : ℕ)
    → le_at 8 w o ≡ ok packed
    → at w (o + 7) ≡ ok flags
    → le_at 8 w (o + 8) ≡ ok offset
    → le_at 8 w (o + 16) ≡ ok uncompressed
    → read_res_hdr w o
      ≡ ok (record {
        size = packed % 2 ^ 56;
        flags = flags;
        offset = offset;
        uncompressed = uncompressed;
      })
unfolding read_res_hdr
read_parts w o packed flags offset uncompressed e1 e2 e3 e4 =
    rw (e1, e2, e3, e4, bit_and_mask 56 packed)

at_of_take : (xs : List ℕ) (i v : ℕ) → take 1 (drop i xs) ≡ v ∷ [] → at xs i ≡ ok v
at_of_take [] zero v e = cc
at_of_take [] (suc i) v e = cc
at_of_take (x ∷ xs) zero v e = cc
at_of_take (x ∷ xs) (suc i) v e = at_of_take xs i v e

-- The parts again, with the size taken out of its word.
unpacked : (h : ResHdr) → Fits h → (h.flags * 2 ^ 56 + h.size) % 2 ^ 56 ≡ h.size
unpacked h f = omega (arith, f.size)

-- A header whose values fit their fields (56 bits of size, 8 of flags, 64 and 64) is read back as it was
-- written, at any place of a buffer that holds its 24 bytes.
pub read_res_hdr-write_res_hdr :
    (b : List ℕ) (o : ℕ) (h : ResHdr)
    → Fits h
    → o + 24 ≤ length b
    → read_res_hdr (write_res_hdr b o h) o ≡ ok h
read_res_hdr-write_res_hdr b o h f room =
    let first : o + 0 ≡ o = omega arith in
    let flags : u8 h.flags ≡ h.flags = omega (arith, f.flags) in
    let w = write_res_hdr b o h in
    read_parts w o (h.flags * 2 ^ 56 + h.size) h.flags h.offset h.uncompressed
      (rw (write_res_hdr-bytes b o h) (
        rw first at (le_at-overwrite 8 0 b o (hdr_bytes h) room (omega arith))
        ∙ ap ok (packed-eq h f)))
      (rw (write_res_hdr-bytes b o h) (
        at_of_take _ (o + 7) h.flags
          (window-overwrite b o 7 1 (hdr_bytes h) room (omega arith) ∙ ap (λ t. t ∷ []) flags)))
      (rw (write_res_hdr-bytes b o h) (
        le_at-overwrite 8 8 b o (hdr_bytes h) room (omega arith)
        ∙ ap ok (from_le-to_le 8 h.offset (omega (arith, f.offset)))))
      (rw (write_res_hdr-bytes b o h) (
        le_at-overwrite 8 16 b o (hdr_bytes h) room (omega arith)
        ∙ ap ok (from_le-to_le 8 h.uncompressed (omega (arith, f.uncompressed)))))
    ∙ ap
        (λ n.
          ok (record {
            size = n;
            flags = h.flags;
            offset = h.offset;
            uncompressed = h.uncompressed;
          }))
        (unpacked h f)

-- Where the sum does not wrap.
align8-eq : (n : ℕ) → n + 7 < 2 ^ 64 → align8 n ≡ n + 7 - (n + 7) % 8
unfolding align8
align8-eq n h = let whole : u64 (n + 7) ≡ n + 7 = omega arith in rw whole (bit_and_clear3 (n + 7) h)

pub align8-ge : (n : ℕ) → n + 7 < 2 ^ 64 → n ≤ align8 n
align8-ge n h = omega (arith, align8-eq n h)

-- For an int that is not negative and at least 7 below the greatest one, `align8` gives the least multiple
-- of 8 that is not below it.
pub align8_least :
    (n m : ℕ)
    → n + 7 < 2 ^ 63
    → n ≤ m
    → m % 8 ≡ 0
    → (align8 n % 8 ≡ 0) × (n ≤ align8 n) × (align8 n ≤ m)
align8_least n m small h e = omega (arith, align8-eq n (omega arith))
