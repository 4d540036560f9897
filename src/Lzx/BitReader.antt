-- ===== src/Lzx/BitReader.antt =====
-- lzx/decode.go: bitReader, the bits of a chunk taken most significant first from 16-bit words.
pub mod Prefix
use go_wim.Base.{
  ℕ, ◌+◌, ◌-◌, ◌*◌, ◌/◌, ◌^◌, Bool, true, false, List, ltb, leb, ◌==◌, if◌then◌else◌, length,
  get_or, u8, u16, u32, bit_or,
}

pub record BitReader : Type 0 where
  pub inp : List ℕ
  pub pos : ℕ
  pub acc : ℕ
  pub nbits : ℕ
  pub unaligned : Bool
  pub failed : Bool

-- `&bitReader{in: src}`
unfoldable pub new_reader : List ℕ → BitReader
new_reader src = record {
  inp = src;
  pos = 0;
  acc = 0;
  nbits = 0;
  unaligned = false;
  failed = false;
}

-- The word at `pos` and the position behind it: a whole word, a last single byte, or zero.
unfoldable pub next_word : List ℕ → ℕ → ℕ × ℕ
next_word inp pos =
    if leb (pos + 2) (length inp)
    then (get_or inp pos 0 + 256 * get_or inp (pos + 1) 0, pos + 2)
    else if ltb pos (length inp)
    then (get_or inp pos 0, length inp)
    else (0, pos)

-- A uint32 shifted left, by a uint8 count: nothing is left past 31.
abbrev pub shl32 : ℕ → ℕ → ℕ
shl32 v k = u32 (v * 2 ^ k)

unfoldable pub feed : BitReader → BitReader
unfolding next_word
feed b =
    let (w, p) = next_word b.inp b.pos in
    record b {
      pos = p;
      acc = bit_or b.acc (shl32 w (u8 (16 + 256 - b.nbits)));
      nbits = u8 (b.nbits + 16);
    }

-- `bits(n)`: the value and the reader behind it. The subtractions are those of a uint8, with n at most 16.
unfoldable pub take_bits : BitReader → ℕ → ℕ × BitReader
take_bits b n =
    (u16 (b.acc / 2 ^ (32 - n)), record b { acc = shl32 b.acc n; nbits = u8 (b.nbits + 256 - n) })

unfoldable pub bits : BitReader → ℕ → ℕ × BitReader
unfolding take_bits
bits b n = if n == 0 then (0, b) else if ltb b.nbits n then take_bits (feed b) n else take_bits b n

-- `b.err = true`
pub fail_reader : BitReader → BitReader
fail_reader b = record b { failed = true }
