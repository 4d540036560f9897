-- ===== src/Lzx/Tokens/Decoded.antt =====
-- The decoder makes of a token the match that it was made from.
use go_wim.Base.{
  ℕ, ◌+◌, ◌-◌, ◌/◌, ◌^◌, ◌≤◌, ◌<◌, ◌≡◌, sym, Bool, ◌⊎◌, List, Option, none, some, Result, ok, err,
  panic, hang,
}
use go_wim.Lzx.BitReader.{BitReader}
use go_wim.Lzx.Tree.{checked_sym}
use go_wim.Lzx.Decode.{Decoder, match_length, extra_bits, match_offset}
use go_wim.Lzx.Tokens.{Token}
use go_wim.Lzx.Tokens.Mirror.{width_of}

-- The decoder's bits stand for a length symbol, and reading it leaves the reader b.
abbrev pub HoldsLength : Decoder → Option ℕ → BitReader → Type 0
HoldsLength d none b = d.b ≡ b
HoldsLength d (some x) b = checked_sym d.b d.length_tree ≡ ok (x, b)

-- The decoder's bits stand for the extra bits of a slot, of which a slot below 3 has none.
abbrev pub HoldsOffset : Decoder → Bool → ℕ → ℕ → BitReader → Type 0
HoldsOffset d use_aligned slot extra b =
    ((slot < 3) × (d.b ≡ b))
    ⊎ ((3 ≤ slot)
        × (v : ℕ) × (a : ℕ) × (extra_bits d (width_of slot) use_aligned ≡ ok (v, a, b))
        × (v + a ≡ extra))

-- The decoder's bits behind the main symbol stand for a token, where there is one.
abbrev pub HoldsToken : Decoder → Bool → Result (Token × List ℕ) → BitReader → BitReader → Type 0
HoldsToken d use_aligned (ok (t, recent')) b1 b2 =
    HoldsLength d t.len_sym b1 × HoldsOffset (record d { b = b1 }) use_aligned t.slot t.extra b2
HoldsToken d use_aligned (err x) b1 b2 = Unit
HoldsToken d use_aligned panic b1 b2 = Unit
HoldsToken d use_aligned hang b1 b2 = Unit

-- What the decoder makes of a token: its symbol is one of the main alphabet's matches, its extra bits fit
-- their width, and match_length and match_offset give the length and the offset.
pub record IsDecoded (d : Decoder) (use_aligned : Bool) (len offset : ℕ) (b1 b2 : BitReader)
    (t : Token) (recent' : List ℕ) : Type 0 where
  pub above : 256 ≤ t.sym
  pub below : t.sym < 496
  pub fits : t.extra < 2 ^ width_of t.slot
  pub len_back : match_length d t.sym ≡ ok (len, record d { b = b1 })
  pub offset_back :
      match_offset (record d { b = b1 }) ((t.sym - 256) / 8) use_aligned
      ≡ ok (offset, record d { b = b2; recent = recent' })
