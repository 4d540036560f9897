-- ===== src/Lzx/Decode/Stored.antt =====
-- A chunk of one uncompressed block decodes to its bytes.
use go_wim.Base.{
  ℕ, zero, suc, ◌+◌, ◌-◌, ◌*◌, ◌/◌, ◌%◌, ◌^◌, ◌≤◌, ◌<◌, ◌≡◌, refl, ap, ◌∙◌, true, false, List, [],
  ◌∷◌, ◌++◌, arith, ◌==◌, if◌then◌else◌, length, get_or, overwrite, take_all, u8, u16, bit_or,
  bit_or_disjoint, le→leb, lt→ltb, le→ltb-false, ok,
}
use go_wim.Lzx.Consts.{window_size}
use go_wim.Lzx.BitReader.{BitReader, new_reader, next_word, shl32, feed, take_bits, bits}
use go_wim.Lzx.E8.{decode_e8}
use go_wim.Lzx.Decode.{
  Decoder, new_decoder, realign, read_size, read_recent, read_block_header, read_uncompressed,
  read_block, block_loop, decompress,
}

abbrev reader : List ℕ → ℕ → ℕ → ℕ → BitReader
reader inp pos acc nbits = record {
  inp = inp;
  pos = pos;
  acc = acc;
  nbits = nbits;
  unaligned = false;
  failed = false;
}

-- Bits that are there, and bits behind a feed.
bits-have :
    (inp : List ℕ) (pos acc nbits n : ℕ)
    → 0 < n
    → n ≤ nbits
    → nbits < 256
    → bits (reader inp pos acc nbits) n
      ≡ (u16 (acc / 2 ^ (32 - n)), reader inp pos (shl32 acc n) (nbits - n))
unfolding bits
bits-have inp pos acc nbits n some have small =
    let e : (n == 0) ≡ false = ground arith in
    let count : u8 (nbits + 256 - n) ≡ nbits - n = omega arith in
    rw (bits, e, le→ltb-false nbits n have, take_bits, count) refl

feed-word :
    (inp : List ℕ) (pos acc nbits : ℕ)
    → pos + 2 ≤ length inp
    → nbits ≤ 16
    → feed (reader inp pos acc nbits)
      ≡ reader inp
          (pos + 2)
          (bit_or acc (shl32 (get_or inp pos 0 + 256 * get_or inp (pos + 1) 0) (16 - nbits)))
          (nbits + 16)
unfolding feed next_word
feed-word inp pos acc nbits room few =
    let shift : u8 (16 + 256 - nbits) ≡ 16 - nbits = omega arith in
    let count : u8 (nbits + 16) ≡ nbits + 16 = omega arith in
    rw (feed, next_word, le→leb (pos + 2) (length inp) room, shift, count) refl

bits-feed :
    (inp : List ℕ) (pos acc nbits n acc' : ℕ)
    → pos + 2 ≤ length inp
    → nbits < n
    → n ≤ 16
    → bit_or acc (shl32 (get_or inp pos 0 + 256 * get_or inp (pos + 1) 0) (16 - nbits)) ≡ acc'
    → bits (reader inp pos acc nbits) n
      ≡ (u16 (acc' / 2 ^ (32 - n)), reader inp (pos + 2) (shl32 acc' n) (nbits + 16 - n))
unfolding bits
bits-feed inp pos acc nbits n acc' room less small same =
    let e : (n == 0) ≡ false = ground arith in
    let count : u8 (nbits + 16 + 256 - n) ≡ nbits + 16 - n = omega arith in
    rw
      (
        bits,
        e,
        lt→ltb nbits n less,
        feed-word inp pos acc nbits room (omega arith),
        same,
        take_bits,
        count,
      )
      refl

-- The words of the header: the type 3, a clear flag, and the 16 bits of the size.
abbrev pub stored_header : ℕ → List ℕ
stored_header n = ((n / 16) % 256) ∷ (0x60 + n / 4096) ∷ 0 ∷ ((n % 16) * 16) ∷ []

-- A block of the bytes, with the three recent offsets 1.
abbrev pub stored_block : List ℕ → List ℕ
stored_block bs = stored_header (length bs) ++ (1 ∷ 0 ∷ 0 ∷ 0 ∷ 1 ∷ 0 ∷ 0 ∷ 0 ∷ 1 ∷ 0 ∷ 0 ∷ 0 ∷ bs)

first_word : (n : ℕ) → n ≤ 32768 → bit_or 0 (shl32 (0x6000 + n / 16) 16) ≡ (0x6000 + n / 16) * 65536
first_word n small = omega (arith, bit_or_disjoint 32 0 (shl32 (0x6000 + n / 16) 16) (omega arith))

second_word : (n : ℕ) → n ≤ 32768 → bit_or (n / 16 * 2 ^ 20) (shl32 ((n % 16) * 4096) 4) ≡ n * 65536
second_word n small =
    omega (arith, bit_or_disjoint 20 (n / 16) (shl32 ((n % 16) * 4096) 4) (omega arith))

same_bits :
    (inp : List ℕ) (pos nbits v v' acc : ℕ) {acc' : ℕ}
    → v ≡ v'
    → acc ≡ acc'
    → ◌≡◌ {A = ℕ × BitReader} (v, reader inp pos acc nbits) (v', reader inp pos acc' nbits)
same_bits inp pos nbits v v' acc e f = cc

header_bits :
    (inp : List ℕ) (n : ℕ)
    → 16 ≤ length inp
    → n ≤ 32768
    → get_or inp 0 0 + 256 * get_or inp 1 0 ≡ 0x6000 + n / 16
    → get_or inp 2 0 + 256 * get_or inp 3 0 ≡ (n % 16) * 4096
    → (bits (reader inp 0 0 0) 3 ≡ (3, reader inp 2 (n / 16 * 2 ^ 19) 13))
      × (bits (reader inp 2 (n / 16 * 2 ^ 19) 13) 1 ≡ (0, reader inp 2 (n / 16 * 2 ^ 20) 12))
      × (bits (reader inp 2 (n / 16 * 2 ^ 20) 12) 16 ≡ (n, reader inp 4 0 12))
      × (bits (reader inp 4 0 12) 12 ≡ (0, reader inp 4 0 0))
header_bits inp n room small w1 w2 =
    let f1 =
      bits-feed inp 0 0 0 3 ((0x6000 + n / 16) * 65536) (omega arith) (omega arith) (omega arith)
        (rw w1 (first_word n small)) in
    let f2 = bits-have inp 2 (n / 16 * 2 ^ 19) 13 1 (omega arith) (omega arith) (omega arith) in
    let f3 =
      bits-feed inp 2 (n / 16 * 2 ^ 20) 12 16 (n * 65536) (omega arith) (omega arith) (omega arith)
        (rw w2 (second_word n small)) in
    let f4 = bits-have inp 4 0 12 12 (omega arith) (omega arith) (omega arith) in
    (
      f1 ∙ same_bits _ _ _ _ _ _ (omega arith) (omega arith),
      f2 ∙ same_bits _ _ _ _ _ _ (omega arith) (omega arith),
      f3 ∙ same_bits _ _ _ _ _ _ (omega arith) (omega arith),
      f4 ∙ same_bits _ _ _ _ _ _ (omega arith) (omega arith),
    )

-- The decoder behind the header of a block at the start of the input.
abbrev stored_decoder : List ℕ → ℕ → ℕ → ℕ → Decoder
stored_decoder inp pos acc nbits = record (new_decoder inp) { b = reader inp pos acc nbits }

read_size-stored :
    (inp : List ℕ) (n : ℕ)
    → n ≤ 32768
    → bits (reader inp 2 (n / 16 * 2 ^ 19) 13) 1 ≡ (0, reader inp 2 (n / 16 * 2 ^ 20) 12)
    → bits (reader inp 2 (n / 16 * 2 ^ 20) 12) 16 ≡ (n, reader inp 4 0 12)
    → read_size (reader inp 2 (n / 16 * 2 ^ 19) 13) ≡ ok (n, reader inp 4 0 12)
unfolding read_size
read_size-stored inp n small e f = rw (e, f, le→ltb-false window_size n small) refl

read_recent-stored :
    (bs : List ℕ)
    → bits (reader (stored_block bs) 4 0 12) 12 ≡ (0, reader (stored_block bs) 4 0 0)
    → read_recent (stored_decoder (stored_block bs) 4 0 12)
      ≡ ok (stored_decoder (stored_block bs) 16 0 0)
unfolding read_recent new_decoder
read_recent-stored bs e =
    rw
      (
        e,
        le→leb 16 (length (stored_block bs)) (omega arith),
        le→leb 6 (length (stored_block bs)) (omega arith),
        le→leb 10 (length (stored_block bs)) (omega arith),
        le→leb 14 (length (stored_block bs)) (omega arith),
      )
      refl

read_block_header-stored :
    (bs : List ℕ)
    → length bs ≤ 32768
    → read_block_header (new_decoder (stored_block bs))
      ≡ ok (3, length bs, stored_decoder (stored_block bs) 16 0 0)
unfolding read_block_header new_decoder new_reader realign
read_block_header-stored bs small =
    let (f1, f2, f3, f4) =
      header_bits (stored_block bs) (length bs) (omega arith) small (omega arith) (omega arith) in
    rw (f1, read_size-stored (stored_block bs) (length bs) small f2 f3, read_recent-stored bs f4)
      refl

overwrite_all : (buf bs : List ℕ) → length buf ≡ length bs → overwrite buf 0 bs ≡ bs
overwrite_all [] [] e = refl
overwrite_all [] (v ∷ bs) e = absurd (omega arith)
overwrite_all (x ∷ buf) [] e = absurd (omega arith)
overwrite_all (x ∷ buf) (v ∷ bs) e = ap (λ t. v ∷ t) (overwrite_all buf bs (omega arith))

-- Nothing is left behind the last byte.
last_round : (fuel : ℕ) (d : Decoder) (bs : List ℕ) → block_loop fuel d bs (0 + length bs) ≡ ok bs
unfolding block_loop
last_round zero d bs = rw (le→ltb-false (0 + length bs) (length bs) (omega arith)) refl
last_round (suc fuel) d bs = rw (le→ltb-false (0 + length bs) (length bs) (omega arith)) refl

behind : List ℕ → Decoder
behind bs = record (new_decoder (stored_block bs)) {
  b = record (reader (stored_block bs) (16 + length bs) 0 0) {
    unaligned = if length bs % 2 == 1 then true else false;
  };
}

read_uncompressed-stored :
    (buf bs : List ℕ)
    → length buf ≡ length bs
    → (d : Decoder) × (read_uncompressed (stored_decoder (stored_block bs) 16 0 0) buf 0 (length bs)
        ≡ ok (length bs, d, bs))
unfolding read_uncompressed new_decoder behind
read_uncompressed-stored buf bs same = (
  behind bs,
  rw
      (
        le→leb (16 + length bs) (length (stored_block bs)) (omega arith),
        take_all (length bs) bs (omega arith),
        overwrite_all buf bs same,
      )
      refl,
)

read_block-stored :
    (buf bs : List ℕ)
    → length buf ≡ length bs
    → length bs ≤ 32768
    → (d : Decoder) × (read_block (new_decoder (stored_block bs)) buf 0 ≡ ok (length bs, d, bs))
unfolding read_block
read_block-stored buf bs same small =
    let (d, e) = read_uncompressed-stored buf bs same in
    (
      d,
      rw
          (
            read_block,
            read_block_header-stored bs small,
            le→leb (0 + length bs) (length buf) (omega arith),
          )
          e,
    )

block_loop-stored :
    (buf bs : List ℕ)
    → length buf ≡ length bs
    → 1 ≤ length bs
    → length bs ≤ 32768
    → (fuel : ℕ) → fuel ≡ length buf
    → block_loop fuel (new_decoder (stored_block bs)) buf 0 ≡ ok bs
unfolding block_loop
block_loop-stored buf bs same some small zero e = absurd (omega arith)
block_loop-stored buf bs same some small (suc fuel) e =
    let (d, f) = read_block-stored buf bs same small in
    rw (lt→ltb 0 (length buf) (omega arith), f, lt→ltb 0 (length bs) (omega arith))
      (last_round fuel d bs)

nonzero_test : (n : ℕ) → 1 ≤ n → (n == 0) ≡ false
nonzero_test n h = ground arith

-- Into any buffer of their number, a chunk of one uncompressed block of 1 to 32768 bytes decompresses
-- to those bytes, with the branch translation undone.
pub decompress-stored_block :
    (buf bs : List ℕ)
    → length buf ≡ length bs
    → 1 ≤ length bs
    → length bs ≤ window_size
    → decompress buf (stored_block bs) ≡ ok (decode_e8 bs)
unfolding decompress
decompress-stored_block buf bs same some small =
    rw
      (
        decompress,
        nonzero_test (length buf) (omega arith),
        le→ltb-false window_size (length buf) (omega arith),
        block_loop-stored buf bs same some small (length buf) refl,
      )
      refl
