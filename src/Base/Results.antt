-- ===== src/Base/Results.antt =====
-- The outcome of a Go call: a value, an error, a run-time panic (an index or a slice out of
-- range), or, in the model alone, a loop that used up its fuel.
use Prim.Native.Nat.{ℕ, zero, suc, ◌+◌, ◌≤◌, ◌<◌}
use mathlib.Core.Path.{◌≡◌, refl, subst}
use mathlib.Core.Bool.{Bool, true, false}
use mathlib.Core.List.{List, [], ◌∷◌}
use mathlib.Core.Option.{none, some}
use native.Mathlib.Omega.{arith}
use go_wim.Base.Lists.{length, get_elem?, get_or, take, drop, set}
use go_wim.Base.Tests.{leb, ltb, if◌then◌else◌, le→leb, lt→ltb}

-- The error values that callers tell apart; the text around a wrapped error is dropped. `io` is an
-- error of the underlying reader, `other` one that wraps no named value. `wrapped` is kept where
-- the code compares an error by `==`, which sees the wrapper and not what is inside.
pub data Error : Type 0 where
  lzx_corrupt not_wim unsupported corrupt eof invalid not_exist no_security bad_chunk_size other :
      Error
  io : ℕ → Error
  wrapped : Error → Error

pub data Result {ℓ} (A : Type ℓ) : Type ℓ where
  ok : A → Result A
  err : Error → Result A
  panic : Result A
  hang : Result A

infixl 5 ◌>>=◌ ◌>>◌
abbrev pub ◌>>=◌ {κ μ} : {X : Type κ} {Y : Type μ} → Result X → (X → Result Y) → Result Y
panic >>= next = panic
hang >>= next = hang
err cause >>= next = err cause
ok x >>= next = next x

abbrev pub ◌>>◌ {κ} : {Y : Type κ} → Result (Unit {0}) → Result Y → Result Y
check >> rest = check >>= λ passed. rest

-- `if !test { return cause }`
abbrev pub guard : Bool → Error → Result (Unit {0})
guard false cause = err cause
guard true cause = ok tt

-- `xs[i]`
abbrev pub at {ℓ} : {A : Type ℓ} → List A → ℕ → Result A
at xs i = elim (get_elem? xs i) [ none ↦ panic | some a ↦ ok a ]

-- `xs[i : i+n]`
abbrev pub slice {ℓ} : {A : Type ℓ} → List A → ℕ → ℕ → Result (List A)
slice xs i n = if leb (i + n) (length xs) then ok (take n (drop i xs)) else panic

-- `xs[i] = v`
abbrev pub put {ℓ} : {A : Type ℓ} → List A → ℕ → A → Result (List A)
put xs i v = if ltb i (length xs) then ok (set xs i v) else panic

-- The call ends with a value that satisfies P, or with an error: it neither panics nor hangs.
pub data Finishes {ℓ} {A : Type ℓ} (P : A → Type 0) : Result A → Type ℓ where
  value : {a : A} → P a → Finishes P (ok a)
  error : {e : Error} → Finishes P (err e)

module _ {ℓ κ} {A : Type ℓ} {B : Type κ} {P : A → Type 0} {Q : B → Type 0} where
  -- Calls in a row: what the first ensures is what the rest may use.
  pub Finishes-bind :
      {m : Result A} {f : A → Result B}
      → Finishes P m
      → ((a : A) → P a → Finishes Q (f a))
      → Finishes Q (m >>= f)
  Finishes-bind (value p) k = k _ p
  Finishes-bind error k = error

pub ok-injective {ℓ} : {A : Type ℓ} {a b : A} → ok a ≡ ok b → a ≡ b
ok-injective e = cc

module _ {ℓ κ} {A : Type ℓ} {B : Type κ} where
  -- The two steps behind a value.
  pub >>=-eq-ok :
      (m : Result A) (next : A → Result B) {v : B}
      → (m >>= next) ≡ ok v
      → (x : A) × (m ≡ ok x) × (next x ≡ ok v)
  >>=-eq-ok panic next h = cc
  >>=-eq-ok hang next h = cc
  >>=-eq-ok (err cause) next h = cc
  >>=-eq-ok (ok x) next h = (x, refl, h)

module _ {ℓ} {A : Type ℓ} {P : A → Type 0} where
  pub Finishes-map :
      {Q : A → Type 0} {m : Result A} → ((a : A) → P a → Q a) → Finishes P m → Finishes Q m
  Finishes-map k (value p) = value (k _ p)
  Finishes-map k error = error

  pub Finishes-ok : {m : Result A} {a : A} → m ≡ ok a → Finishes P m → P a
  Finishes-ok {a} e (value {a = b} h) = let e' : b ≡ a = cc in subst P e' h
  Finishes-ok e error = cc

  -- After a guard the test holds.
  pub Finishes-guard :
      (b : Bool) (e : Error) {r : Result A}
      → (b ≡ true → Finishes P r)
      → Finishes P (guard b e >> r)
  Finishes-guard true e k = k refl
  Finishes-guard false e k = error

  pub Finishes-if :
      (b : Bool) {r s : Result A}
      → (b ≡ true → Finishes P r)
      → (b ≡ false → Finishes P s)
      → Finishes P (if b then r else s)
  Finishes-if true k l = k refl
  Finishes-if false k l = l refl

module _ {ℓ} {A : Type ℓ} where
  pub at-eq : (xs : List A) (i : ℕ) (d : A) → i < length xs → at xs i ≡ ok (get_or xs i d)
  at-eq [] i d h = absurd (omega arith)
  at-eq (x ∷ xs) zero d h = refl
  at-eq (x ∷ xs) (suc i) d h = at-eq xs i d (omega arith)

  pub at-some : (xs : List A) (i : ℕ) {a : A} → get_elem? xs i ≡ some a → at xs i ≡ ok a
  at-some [] i e = cc
  at-some (x ∷ xs) zero e = cc
  at-some (x ∷ xs) (suc i) e = at-some xs i e

  pub put-eq : (xs : List A) (i : ℕ) (v : A) → i < length xs → put xs i v ≡ ok (set xs i v)
  put-eq xs i v h = rw (lt→ltb i (length xs) h)

  pub slice-eq :
      (xs : List A) (i n : ℕ) → i + n ≤ length xs → slice xs i n ≡ ok (take n (drop i xs))
  slice-eq xs i n h = rw (le→leb (i + n) (length xs) h)

pub guard-eq-ok : (b : Bool) (e : Error) {u : Unit {0}} → guard b e ≡ ok u → b ≡ true
guard-eq-ok true e h = refl
guard-eq-ok false e h = cc
