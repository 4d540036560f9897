-- ===== src/Lzx/Codes/RoundTrip.antt =====
-- Symbols written with canonicalCodes and read back with a table from `build`.
use go_wim.Base.{
  ℕ, zero, suc, ◌%◌, ◌^◌, ◌≤◌, ◌<◌, ◌≡◌, refl, sym, subst, ap, ◌∙◌, List, [], ◌∷◌, ◌++◌,
  append_assoc, arith, length, get_or, All, IsBytes, Result, ok, ◌>>=◌,
}
use native.Mathlib.Nat.{mod-eq_of_lt}
use go_wim.Lzx.Stream.{to_bits}
use go_wim.Lzx.BitReader.{BitReader, new_reader}
use go_wim.Lzx.BitReader.Prefix.{IsAt, new_reader-IsAt}
use go_wim.Lzx.BitWriter.{new_writer, flush}
use go_wim.Lzx.BitWriter.Suffix.{new_writer-Holds, flush-words}
use go_wim.Lzx.BitWriter.RoundTrip.{write_all, fields_bits, write_all-Holds}
use go_wim.Lzx.Huffman.{Huffman, build}
use go_wim.Lzx.Huffman as Table
use go_wim.Lzx.Codes.{canonical_codes}
use go_wim.Lzx.Codes.First.{IsComplete, first_of-le, rank-lt, code_of, All-at, canonical_codes-eq}
use go_wim.Lzx.Codes.Table.{Decodes, build-Decodes}
use go_wim.Lzx.Codes.Decode.{sym-code}

-- The codes of symbols, each with its length.
pub symbol_fields : List ℕ → List ℕ → List ℕ → List (ℕ × ℕ)
symbol_fields codes lens [] = []
symbol_fields codes lens (s ∷ syms) =
    (get_or codes s 0, get_or lens s 0) ∷ symbol_fields codes lens syms

-- As many symbols as asked for, read in order.
pub read_symbols : ℕ → Huffman → BitReader → Result (List ℕ × BitReader)
read_symbols zero h b = ok ([], b)
read_symbols (suc n) h b = do
  (s, b') ← Table.sym b h
  (syms, b'') ← read_symbols n h b'
  ok (s ∷ syms, b'')

module _ (lens codes : List ℕ) (k : IsComplete lens)
    (codes_at : (s : ℕ)
      → s < length lens
      → 1 ≤ get_or lens s 0
      → get_or codes s 0 ≡ code_of lens s) where
  -- Symbols of the alphabet that have a code.
  abbrev IsCoded : List ℕ → Type 0
  IsCoded syms = All (λ s. (s < length lens) × (1 ≤ get_or lens s 0)) syms

  narrow : (syms : List ℕ) → All (λ (v, n). n ≤ 16) (symbol_fields codes lens syms)
  unfolding symbol_fields
  narrow [] = tt
  narrow (s ∷ syms) = (All-at s lens k.limits, narrow syms)

  code-whole :
      (s : ℕ)
      → s < length lens
      → 1 ≤ get_or lens s 0
      → get_or codes s 0 % 2 ^ get_or lens s 0 ≡ code_of lens s
  code-whole s in_range some = rw (codes_at s in_range some) (
      mod-eq_of_lt (
        omega (
          arith,
          first_of-le lens (get_or lens s 0) k some (All-at s lens k.limits),
          rank-lt s lens in_range,
        )))

  read_symbols-fields :
      (h : Huffman) (syms : List ℕ) (b : BitReader) (rest : List ℕ)
      → Decodes lens h
      → IsCoded syms
      → IsBytes b.inp
      → IsAt b (fields_bits (symbol_fields codes lens syms) ++ rest)
      → (b' : BitReader) × (read_symbols (length syms) h b ≡ ok (syms, b'))
  unfolding read_symbols symbol_fields
  read_symbols-fields h [] b rest d known bytes at_code = (b, refl)
  read_symbols-fields h (s ∷ syms) b rest d ((in_range, some), known) bytes at_code =
      let tail = fields_bits (symbol_fields codes lens syms) in
      let whole = code-whole s in_range some in
      let (b', e, at', same) = sym-code lens h s b (tail ++ rest) k d in_range some bytes (
        subst (IsAt b)
          (append_assoc (to_bits (get_or lens s 0) (get_or codes s 0 % 2 ^ get_or lens s 0)) tail
              rest
            ∙ ap (λ c. to_bits (get_or lens s 0) c ++ (tail ++ rest)) whole)
          at_code) in
      let (b'', es) =
        read_symbols-fields h syms b' rest d known (subst IsBytes (sym same.same_input) bytes)
          at' in
      (b'', rw (e, es) refl)

-- For the lengths of a complete code: canonicalCodes and `build` both succeed, and symbols that have a
-- code, written by it with the bit writer and flushed, are what `sym` reads back with the table.
pub read_symbols-write_all :
    (h : Huffman) (lens syms : List ℕ)
    → IsComplete lens
    → length h.symbol ≡ 496
    → All (λ s. (s < length lens) × (1 ≤ get_or lens s 0)) syms
    → (codes : List ℕ) × (t : Huffman) × (b : BitReader) × (canonical_codes lens ≡ ok codes)
      × (build h lens ≡ ok t)
      × (read_symbols
            (length syms)
            t
            (new_reader (flush (write_all (symbol_fields codes lens syms) new_writer)).out)
          ≡ ok (syms, b))
unfolding new_reader
read_symbols-write_all h lens syms k size known =
    let (codes, e, same_size, codes_at) = canonical_codes-eq lens k in
    let (t, built, d) = build-Decodes h lens size k in
    let fields = symbol_fields codes lens syms in
    let written = flush (write_all fields new_writer) in
    let (pad, bits_eq, bytes) =
      flush-words (write_all fields new_writer) (fields_bits fields) (
        write_all-Holds fields new_writer [] (narrow lens codes k codes_at syms)
          new_writer-Holds) in
    let (b, es) =
      read_symbols-fields lens codes k codes_at t syms (new_reader written.out) pad d known bytes
        (subst (IsAt (new_reader written.out)) bits_eq (new_reader-IsAt written.out)) in
    (codes, t, b, e, built, es)
