-- ===== src/Lzx/Stream.antt =====
-- Numbers as bits, first bit first: what the reader and the writer of bits have in common.
use go_wim.Base.{
  ℕ, zero, suc, ◌+◌, ◌*◌, ◌/◌, ◌%◌, ◌^◌, ◌<◌, ◌≡◌, refl, sym, ap, ◌∙◌, List, [], ◌∷◌, ◌++◌,
  append-nil, append_assoc, arith, u32, length, length-append, pow2-pos, double_pow,
}
use native.Mathlib.Nat.{
  pow-suc, div-add-mod', mod-lt, mul-div-mul_right, div-lt_iff_lt-mul, mul-lt-mul_of_pos_right,
  mul-pos, mul-add-mod_self_right, mod-eq_of_lt,
}

-- The n low bits of a number, the highest first.
abbrev pub to_bits : ℕ → ℕ → List ℕ
to_bits zero v = []
to_bits (suc n) v = to_bits n (v / 2) ++ (v % 2 ∷ [])

-- The number that bits stand for, behind the bits that were read before.
abbrev pub from_bits : ℕ → List ℕ → ℕ
from_bits v [] = v
from_bits v (b ∷ bs) = from_bits (2 * v + b) bs

-- The bits of a run of 16-bit words, each stored low byte first; a last single byte is a word.
abbrev pub words_bits : List ℕ → List ℕ
words_bits [] = []
words_bits (lo ∷ []) = to_bits 16 lo
words_bits (lo ∷ hi ∷ rest) = to_bits 16 (lo + 256 * hi) ++ words_bits rest

pub length-to_bits : (n v : ℕ) → length (to_bits n v) ≡ n
length-to_bits zero v = refl
length-to_bits (suc n) v =
    omega (arith, length-append (to_bits n (v / 2)) (v % 2 ∷ []), length-to_bits n (v / 2))

pub from_bits-append :
    (v : ℕ) (xs ys : List ℕ) → from_bits v (xs ++ ys) ≡ from_bits (from_bits v xs) ys
from_bits-append v [] ys = refl
from_bits-append v (x ∷ xs) ys = from_bits-append (2 * v + x) xs ys

pub from_bits-to_bits : (n v : ℕ) → v < 2 ^ n → from_bits 0 (to_bits n v) ≡ v
from_bits-to_bits zero v h = omega arith
from_bits-to_bits (suc n) v h =
    from_bits-append 0 (to_bits n (v / 2)) (v % 2 ∷ [])
    ∙ omega (arith, from_bits-to_bits n (v / 2) (omega (arith, pow-suc 2 n)))

-- High bits and then low ones.
pub to_bits-add :
    (m n a b : ℕ) → b < 2 ^ n → to_bits (n + m) (a * 2 ^ n + b) ≡ to_bits m a ++ to_bits n b
to_bits-add m zero a b h =
    let e : a * 2 ^ 0 + b ≡ a = omega arith in
    let none : 0 + m ≡ m = omega arith in rw (e, none) (sym (append-nil (to_bits m a)))
to_bits-add m (suc n) a b h =
    let up : suc n + m ≡ suc (n + m) = omega arith in
    let half : (a * 2 ^ suc n + b) / 2 ≡ a * 2 ^ n + b / 2 = omega (arith, double_pow a n) in
    let last : (a * 2 ^ suc n + b) % 2 ≡ b % 2 = omega (arith, double_pow a n) in
    rw (up, half, last, to_bits-add m n a (b / 2) (omega (arith, pow-suc 2 n)))
      (append_assoc (to_bits m a) (to_bits n (b / 2)) (b % 2 ∷ []))

pub pow2-add : (m n : ℕ) → 2 ^ (m + n) ≡ 2 ^ m * 2 ^ n
pow2-add zero n = let e : 0 + n ≡ n = omega arith in rw e (omega arith)
pow2-add (suc m) n =
    let up : suc m + n ≡ suc (m + n) = omega arith in
    rw (up, pow-suc 2 (m + n), pow-suc 2 m, pow2-add m n) (omega arith)

-- A number in two parts, and its bits.
pub to_bits_split : (m n v : ℕ) → to_bits (n + m) v ≡ to_bits m (v / 2 ^ n) ++ to_bits n (v % 2 ^ n)
to_bits_split m n v =
    ap (to_bits (n + m)) (sym (div-add-mod' v (2 ^ n)))
    ∙ to_bits-add m n (v / 2 ^ n) (v % 2 ^ n) (mod-lt v (pow2-pos n))

-- The products behind a shift: all factors are powers of two.
taken_value :
    (acc held h l P J N : ℕ)
    → held ≡ h * P + l
    → acc ≡ held * J
    → acc * N ≡ h * (N * (P * J)) + l * (J * N)
taken_value acc held h l P J N e f = ap (λ t. t * N) (f ∙ ap (λ t. t * J) e) ∙ omega arith

pub high_part :
    (i n j acc held : ℕ)
    → held < 2 ^ (i + n)
    → acc ≡ held * 2 ^ j
    → (acc / 2 ^ (i + j) ≡ held / 2 ^ i) × (held / 2 ^ i < 2 ^ n)
high_part i n j acc held small e = (
  rw (e, pow2-add i j) (mul-div-mul_right held (2 ^ i) (pow2-pos j)),
  (div-lt_iff_lt-mul (pow2-pos i)).1 (omega (arith, small, pow2-add i n)),
)

pub low_part :
    (i n j acc held : ℕ)
    → i + n + j ≡ 32
    → acc ≡ held * 2 ^ j
    → u32 (acc * 2 ^ n) ≡ held % 2 ^ i * 2 ^ (j + n)
low_part i n j acc held whole e =
    let split =
      taken_value acc held (held / 2 ^ i) (held % 2 ^ i) (2 ^ i) (2 ^ j) (2 ^ n)
        (sym (div-add-mod' held (2 ^ i))) e in
    let full : 2 ^ n * (2 ^ i * 2 ^ j) ≡ 2 ^ 32 =
      let sum : n + (i + j) ≡ 32 = omega arith in
      rw (← pow2-add i j, ← pow2-add n (i + j), sum) refl in
    let tail : 2 ^ j * 2 ^ n ≡ 2 ^ (j + n) = sym (pow2-add j n) in
    let below : held % 2 ^ i * (2 ^ j * 2 ^ n) < 2 ^ 32 = omega (
      arith,
      full,
      mul-lt-mul_of_pos_right {k = 2 ^ j * 2 ^ n} (mod-lt held (pow2-pos i))
          (mul-pos (pow2-pos j) (pow2-pos n)),
    ) in
    rw (split, full, mul-add-mod_self_right (held / 2 ^ i) (2 ^ 32) _, mod-eq_of_lt below, tail)
      refl
