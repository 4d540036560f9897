-- ===== src/Lzx/BitWriter.antt =====
-- lzx/encode.go: bitWriter, the inverse of the bit reader.
pub mod Suffix
pub mod RoundTrip
use go_wim.Base.{
  ℕ, zero, suc, ◌+◌, ◌-◌, ◌/◌, ◌^◌, List, [], ◌∷◌, ◌++◌, ltb, leb, ◌==◌, if◌then◌else◌, u8, u16,
  bit_or, bit_and,
}
use go_wim.Lzx.BitReader.{shl32}

pub record BitWriter : Type 0 where
  pub out : List ℕ
  pub acc : ℕ
  pub nbits : ℕ

unfoldable pub new_writer : BitWriter
new_writer = record { out = []; acc = 0; nbits = 0 }

-- One word, low byte first.
abbrev pub word_bytes : ℕ → List ℕ
word_bytes acc = u8 (u16 (acc / 2 ^ 16)) ∷ u8 (u16 (acc / 2 ^ 16) / 2 ^ 8) ∷ []

-- `for w.nbits >= 16`: with n at most 16 and fewer than 16 bits pending, two rounds are enough; a
-- uint8 holds at most fifteen words.
unfoldable pub drain : ℕ → BitWriter → BitWriter
drain zero w = w
drain (suc fuel) w =
    let next =
      drain fuel
        (record { out = w.out ++ word_bytes w.acc; acc = shl32 w.acc 16; nbits = w.nbits - 16 }) in
    if leb 16 w.nbits then next else w

unfoldable pub push : BitWriter → ℕ → ℕ → BitWriter
push w v n = record w {
  acc = bit_or w.acc (shl32 (bit_and v (2 ^ n - 1)) (u8 (32 + 512 - w.nbits - n)));
  nbits = u8 (w.nbits + n);
}

-- `write(v, n)`
unfoldable pub write : BitWriter → ℕ → ℕ → BitWriter
unfolding push drain
write w v n = if n == 0 then w else drain 16 (push w v n)

unfoldable pub flush : BitWriter → BitWriter
flush w =
    if ltb 0 w.nbits then record { out = w.out ++ word_bytes w.acc; acc = 0; nbits = 0 } else w
