-- ===== src/Wim/Names.antt =====
-- Names of dentries: Go's strings as lists of bytes, their order, and the two encodings of text
-- that the code goes through (`unicode/utf16` and the UTF-8 of `string(runes)`).
pub mod Order
use go_wim.Base.{
  ℕ, zero, suc, ◌+◌, ◌-◌, ◌*◌, ◌/◌, ◌%◌, Bool, true, false, ◌&&◌, ◌||◌, not, List, [], ◌∷◌, ◌++◌,
  ltb, leb, ◌==◌, if◌then◌else◌,
}

-- `a < b` on strings
unfoldable pub name_lt : List ℕ → List ℕ → Bool
name_lt [] [] = false
name_lt [] (b ∷ bs) = true
name_lt (a ∷ as') [] = false
name_lt (a ∷ as') (b ∷ bs) = ltb a b || (a == b && name_lt as' bs)

-- `a == b` on strings
unfoldable pub name_eq : List ℕ → List ℕ → Bool
name_eq [] [] = true
name_eq [] (b ∷ bs) = false
name_eq (a ∷ as') [] = false
name_eq (a ∷ as') (b ∷ bs) = a == b && name_eq as' bs

abbrev in_range : ℕ → ℕ → ℕ → Bool
in_range lo hi c = leb lo c && ltb c hi

-- `utf16.Decode`: a pair of surrogates is one rune, a lone one the replacement character.
pub utf16_decode : List ℕ → List ℕ
utf16_decode [] = []
utf16_decode (u ∷ []) = (if in_range 0xd800 0xe000 u then 0xfffd else u) ∷ []
utf16_decode (u ∷ v ∷ us) =
    let paired = ((u - 0xd800) * 0x400 + (v - 0xdc00) + 0x10000) ∷ utf16_decode us in
    let single = (if in_range 0xd800 0xe000 u then 0xfffd else u) ∷ utf16_decode (v ∷ us) in
    if in_range 0xd800 0xdc00 u && in_range 0xdc00 0xe000 v then paired else single

-- One rune in UTF-8.
pub utf8_rune : ℕ → List ℕ
utf8_rune c =
    if ltb c 0x80
    then c ∷ []
    else if ltb c 0x800
    then (0xc0 + c / 0x40) ∷ (0x80 + c % 0x40) ∷ []
    else if ltb c 0x10000
    then (0xe0 + c / 0x1000) ∷ (0x80 + c / 0x40 % 0x40) ∷ (0x80 + c % 0x40) ∷ []
    else (0xf0 + c / 0x40000)
      ∷ (0x80 + c / 0x1000 % 0x40)
      ∷ (0x80 + c / 0x40 % 0x40)
      ∷ (0x80 + c % 0x40)
      ∷ []

-- `string(runes)`
pub utf8_encode : List ℕ → List ℕ
unfolding utf8_rune
utf8_encode [] = []
utf8_encode (c ∷ cs) = utf8_rune c ++ utf8_encode cs

-- `strings.ContainsRune(name, '/')`, which for an ASCII character looks for its byte.
unfoldable pub contains_byte : ℕ → List ℕ → Bool
contains_byte c [] = false
contains_byte c (b ∷ bs) = b == c || contains_byte c bs
