-- ===== src/Lzx/BitWriter/RoundTrip.antt =====
-- What the bit writer writes, the bit reader reads.
use go_wim.Base.{
  ℕ, ◌%◌, ◌^◌, ◌≤◌, ◌≡◌, refl, sym, ap, List, [], ◌∷◌, ◌++◌, append_assoc, append-nil, arith,
  length, length-append, take, take-append_len, drop-append_len, All, IsBytes, subst, pow2-pos,
}
use native.Mathlib.Nat.{mod-lt}
use go_wim.Lzx.Stream.{to_bits, from_bits, length-to_bits, from_bits-to_bits}
use go_wim.Lzx.BitReader.{BitReader, new_reader, bits}
use go_wim.Lzx.BitReader.Prefix.{IsAt, new_reader-IsAt, bits-IsAt}
use go_wim.Lzx.BitWriter.{BitWriter, new_writer, write, flush}
use go_wim.Lzx.BitWriter.Suffix.{Holds, new_writer-Holds, write-Holds, flush-words}

-- Fields, each a number and a width, written in order.
pub write_all : List (ℕ × ℕ) → BitWriter → BitWriter
write_all [] w = w
write_all ((v, n) ∷ fields) w = write_all fields (write w v n)

-- Reads of the fields' widths, in order.
pub read_all : List (ℕ × ℕ) → BitReader → List ℕ × BitReader
read_all [] b = ([], b)
read_all ((v, n) ∷ fields) b =
    let (x, b') = bits b n in let (xs, b'') = read_all fields b' in (x ∷ xs, b'')

-- The numbers that fit the widths.
abbrev pub values : List (ℕ × ℕ) → List ℕ
values [] = []
values ((v, n) ∷ fields) = (v % 2 ^ n) ∷ values fields

abbrev pub fields_bits : List (ℕ × ℕ) → List ℕ
fields_bits [] = []
fields_bits ((v, n) ∷ fields) = to_bits n (v % 2 ^ n) ++ fields_bits fields

pub write_all-Holds :
    (fields : List (ℕ × ℕ)) (w : BitWriter) (stream : List ℕ)
    → All (λ (v, n). n ≤ 16) fields
    → Holds w stream
    → Holds (write_all fields w) (stream ++ fields_bits fields)
unfolding write_all
write_all-Holds [] w stream narrow k = subst (Holds w) (sym (append-nil stream)) k
write_all-Holds ((v, n) ∷ fields) w stream (h, hs) k =
    subst (Holds (write_all fields (write w v n)))
      (append_assoc stream (to_bits n (v % 2 ^ n)) (fields_bits fields))
      (write_all-Holds fields (write w v n) (stream ++ to_bits n (v % 2 ^ n)) hs
        (write-Holds w v n stream h k))

pub read_all-values :
    (fields : List (ℕ × ℕ)) (b : BitReader) (rest : List ℕ)
    → All (λ (v, n). n ≤ 16) fields
    → IsBytes b.inp
    → IsAt b (fields_bits fields ++ rest)
    → (read_all fields b).0 ≡ values fields
unfolding read_all
read_all-values [] b rest narrow bytes k = refl
read_all-values ((v, n) ∷ fields) b rest (h, hs) bytes k =
    let field = to_bits n (v % 2 ^ n) in
    let size : length field ≡ n = length-to_bits n (v % 2 ^ n) in
    let k' = subst (IsAt b) (append_assoc field (fields_bits fields) rest) k in
    let (b', e, at', same) =
      bits-IsAt b n (field ++ (fields_bits fields ++ rest)) h
        (omega (arith, length-append field (fields_bits fields ++ rest), size)) bytes k' in
    let front : from_bits 0 (take n (field ++ (fields_bits fields ++ rest))) ≡ v % 2 ^ n =
      rw (take-append_len n field (fields_bits fields ++ rest) size)
        (from_bits-to_bits n (v % 2 ^ n) (mod-lt v (pow2-pos n))) in
    let next = subst (IsAt b') (drop-append_len n field (fields_bits fields ++ rest) size) at' in
    rw (e, front)
      (ap (λ t. (v % 2 ^ n) ∷ t)
        (read_all-values fields b' rest hs (subst IsBytes (sym same.same_input) bytes) next))

-- Fields of at most 16 bits each, written from an empty writer and flushed, are read back in order from
-- the bytes by reads of the same widths: each as its low bits.
pub read_all-write_all :
    (fields : List (ℕ × ℕ))
    → All (λ (v, n). n ≤ 16) fields
    → (read_all fields (new_reader (flush (write_all fields new_writer)).out)).0 ≡ values fields
unfolding new_reader
read_all-write_all fields narrow =
    let (pad, e, bytes) =
      flush-words (write_all fields new_writer) (fields_bits fields)
        (write_all-Holds fields new_writer [] narrow new_writer-Holds) in
    read_all-values fields (new_reader (flush (write_all fields new_writer)).out) pad narrow bytes (
      subst (IsAt (new_reader (flush (write_all fields new_writer)).out)) e
        (new_reader-IsAt (flush (write_all fields new_writer)).out))
