-- ===== src/Base/Words.antt =====
-- Fixed-width unsigned integers as numbers below 2^w, and their little-endian bytes.
use Prim.Native.Nat.{ℕ, zero, suc, ◌+◌, ◌*◌, ◌/◌, ◌%◌, ◌^◌, ◌<◌}
use mathlib.Core.Path.{◌≡◌, refl}
use mathlib.Core.List.{List, [], ◌∷◌}
use native.Mathlib.Nat.{pow-suc}
use native.Mathlib.Omega.{arith}
use go_wim.Base.Lists.{length, All}
use go_wim.Base.Results.{Result, ok, slice, ◌>>=◌}

abbrev pub u8 : ℕ → ℕ
u8 n = n % 2 ^ 8

abbrev pub u16 : ℕ → ℕ
u16 n = n % 2 ^ 16

abbrev pub u32 : ℕ → ℕ
u32 n = n % 2 ^ 32

abbrev pub u64 : ℕ → ℕ
u64 n = n % 2 ^ 64

abbrev pub IsByte : ℕ → Type 0
IsByte b = b < 256

abbrev pub IsBytes : List ℕ → Type 0
IsBytes bs = All IsByte bs

-- The number that little-endian bytes stand for.
abbrev pub from_le : List ℕ → ℕ
from_le [] = 0
from_le (b ∷ bs) = b + 256 * from_le bs

-- The w low bytes of a number, lowest first.
abbrev pub to_le : ℕ → ℕ → List ℕ
to_le zero v = []
to_le (suc w) v = (v % 256) ∷ to_le w (v / 256)

-- `binary.LittleEndian.Uint(8 w)(b[o:])`
abbrev pub le_at : ℕ → List ℕ → ℕ → Result ℕ
le_at w b o = do bs ← slice b o w; ok (from_le bs)

pub length-to_le : (w v : ℕ) → length (to_le w v) ≡ w
length-to_le zero v = refl
length-to_le (suc w) v = omega (arith, length-to_le w (v / 256))

pub to_le-IsBytes : (w v : ℕ) → IsBytes (to_le w v)
to_le-IsBytes zero v = tt
to_le-IsBytes (suc w) v = (omega arith, to_le-IsBytes w (v / 256))

pub to_le-from_le : (bs : List ℕ) → IsBytes bs → to_le (length bs) (from_le bs) ≡ bs
to_le-from_le [] h = refl
to_le-from_le (b ∷ bs) (hb, hbs) = ground (arith, to_le-from_le bs hbs)

pub from_le-lt : (bs : List ℕ) → IsBytes bs → from_le bs < 256 ^ length bs
from_le-lt [] h = omega arith
from_le-lt (b ∷ bs) (hb, hbs) = omega (arith, from_le-lt bs hbs, pow-suc 256 (length bs))

-- Reading back what was written: the number, if it fits.
pub from_le-to_le : (w v : ℕ) → v < 256 ^ w → from_le (to_le w v) ≡ v
from_le-to_le zero v h = omega arith
from_le-to_le (suc w) v h =
    omega (arith, pow-suc 256 w, from_le-to_le w (v / 256) (omega (arith, pow-suc 256 w)))
