-- ===== src/Wim/ResHdr.antt =====
-- wim.go: resource headers, their packing of a 7-byte size against a 1-byte flag field, and the
-- alignment of metadata regions.
pub mod RoundTrip
use go_wim.Base.{
  ℕ, zero, suc, ◌+◌, ◌-◌, ◌*◌, ◌/◌, ◌%◌, ◌^◌, ◌≤◌, ◌≡◌, Bool, not, List, [], ◌∷◌, ◌++◌, leb, ◌==◌,
  length, overwrite, take, u8, u64, bit_and, to_le, Result, ok, ◌>>=◌, at, put, le_at,
}

abbrev pub flag_metadata : ℕ
flag_metadata = 0x02

abbrev pub flag_compressed : ℕ
flag_compressed = 0x04

abbrev pub dir_attr : ℕ
dir_attr = 0x10

abbrev pub res_hdr_size : ℕ
res_hdr_size = 24

abbrev pub blob_entry_size : ℕ
blob_entry_size = 50

abbrev pub blob_hash_offset : ℕ
blob_hash_offset = res_hdr_size + 2 + 4

pub record ResHdr : Type 0 where
  pub size : ℕ
  pub flags : ℕ
  pub offset : ℕ
  pub uncompressed : ℕ

-- `h.flags & f != 0`
abbrev pub has_flag : ℕ → ℕ → Bool
has_flag flags f = not (bit_and flags f == 0)

-- `readResHdr(b, o)`
unfoldable pub read_res_hdr : List ℕ → ℕ → Result ResHdr
read_res_hdr b o = do
  packed ← le_at 8 b o
  flags ← at b (o + 7)
  offset ← le_at 8 b (o + 8)
  uncompressed ← le_at 8 b (o + 16)
  ok (record {
    size = bit_and packed (2 ^ 56 - 1);
    flags = flags;
    offset = offset;
    uncompressed = uncompressed;
  })

-- `writeResHdr`: seven bytes of the size, the flags, and two words. The caller's buffer holds
-- `o + 24` bytes.
unfoldable pub write_res_hdr : List ℕ → ℕ → ResHdr → List ℕ
write_res_hdr b o h =
    overwrite
      (overwrite (overwrite (overwrite b o (take 7 (to_le 8 h.size))) (o + 7) (u8 h.flags ∷ []))
        (o + 8) (to_le 8 h.offset))
      (o + 16) (to_le 8 h.uncompressed)

-- `align8`: `(n + 7) &^ 7`, on an `int` as its 64 bits.
unfoldable pub align8 : ℕ → ℕ
align8 n = bit_and (u64 (n + 7)) (2 ^ 64 - 8)
