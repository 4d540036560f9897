-- ===== src/Base/Lists.antt =====
-- Slices as lists, measured and indexed by native numbers, under the library's names.
use Prim.Native.Nat.{ℕ, zero, suc, ◌+◌, ◌-◌, ◌≤◌, ◌<◌, min}
use mathlib.Core.Path.{◌≡◌, refl, ap, ap₂}
use mathlib.Core.Logic.{◌≢◌, ◌⊎◌, inl, inr}
use mathlib.Core.List.{List, [], ◌∷◌, ◌++◌}
use mathlib.Core.Option.{Option, none, some}
use native.Mathlib.Omega.{arith}
use go_wim.Base.Tests.{◌==◌, if◌then◌else◌}

module _ {ℓ} {A : Type ℓ} where
  abbrev pub length : List A → ℕ
  length [] = 0
  length (x ∷ xs) = suc (length xs)

  abbrev pub get_elem? : List A → ℕ → Option A
  get_elem? [] i = none
  get_elem? (x ∷ xs) zero = some x
  get_elem? (x ∷ xs) (suc i) = get_elem? xs i

  abbrev pub get_or : List A → ℕ → A → A
  get_or [] i d = d
  get_or (x ∷ xs) zero d = x
  get_or (x ∷ xs) (suc i) d = get_or xs i d

  abbrev pub set : List A → ℕ → A → List A
  set [] i v = []
  set (x ∷ xs) zero v = v ∷ xs
  set (x ∷ xs) (suc i) v = x ∷ set xs i v

  abbrev pub take : ℕ → List A → List A
  take zero xs = []
  take (suc n) [] = []
  take (suc n) (x ∷ xs) = x ∷ take n xs

  abbrev pub drop : ℕ → List A → List A
  drop zero xs = xs
  drop (suc n) [] = []
  drop (suc n) (x ∷ xs) = drop n xs

  abbrev pub replicate : ℕ → A → List A
  replicate zero a = []
  replicate (suc n) a = a ∷ replicate n a

  -- What a loop such as `copy(xs[i:], vs)` leaves: `vs` written over `xs` from index i on.
  abbrev pub overwrite : List A → ℕ → List A → List A
  overwrite xs zero [] = xs
  overwrite [] zero (v ∷ vs) = []
  overwrite (x ∷ xs) zero (v ∷ vs) = v ∷ overwrite xs zero vs
  overwrite [] (suc i) vs = []
  overwrite (x ∷ xs) (suc i) vs = x ∷ overwrite xs i vs

  abbrev pub All {κ} : (A → Type κ) → List A → Type κ
  All P [] = Unit {κ}
  All P (x ∷ xs) = P x × All P xs

module _ {ℓ} {A : Type ℓ} where
  pub length-append : (xs ys : List A) → length (xs ++ ys) ≡ length xs + length ys
  length-append [] ys = omega arith
  length-append (x ∷ xs) ys = omega (arith, length-append xs ys)

  pub length-set : (xs : List A) (i : ℕ) (v : A) → length (set xs i v) ≡ length xs
  length-set [] i v = refl
  length-set (x ∷ xs) zero v = refl
  length-set (x ∷ xs) (suc i) v = ap suc (length-set xs i v)

  pub length-overwrite :
      (xs : List A) (i : ℕ) (vs : List A) → length (overwrite xs i vs) ≡ length xs
  length-overwrite [] zero [] = refl
  length-overwrite [] zero (v ∷ vs) = refl
  length-overwrite (x ∷ xs) zero [] = refl
  length-overwrite (x ∷ xs) zero (v ∷ vs) = ap suc (length-overwrite xs zero vs)
  length-overwrite [] (suc i) vs = refl
  length-overwrite (x ∷ xs) (suc i) vs = ap suc (length-overwrite xs i vs)

  pub take-append-drop : (n : ℕ) (xs : List A) → take n xs ++ drop n xs ≡ xs
  take-append-drop zero xs = refl
  take-append-drop (suc n) [] = refl
  take-append-drop (suc n) (x ∷ xs) = ap (λ t. x ∷ t) (take-append-drop n xs)

  pub take-append-drop-take : (n : ℕ) (xs : List A) → take n xs ++ drop (length (take n xs)) xs ≡ xs
  take-append-drop-take zero xs = refl
  take-append-drop-take (suc n) [] = refl
  take-append-drop-take (suc n) (x ∷ xs) = ap (λ t. x ∷ t) (take-append-drop-take n xs)

  pub length-take : (n : ℕ) (xs : List A) → length (take n xs) ≡ min n (length xs)
  length-take zero xs = omega arith
  length-take (suc n) [] = omega arith
  length-take (suc n) (x ∷ xs) = omega (arith, length-take n xs)

  pub length-drop : (n : ℕ) (xs : List A) → length (drop n xs) ≡ length xs - n
  length-drop zero xs = omega arith
  length-drop (suc n) [] = omega arith
  length-drop (suc n) (x ∷ xs) = omega (arith, length-drop n xs)

  pub length-replicate : (n : ℕ) (a : A) → length (replicate n a) ≡ n
  length-replicate zero a = refl
  length-replicate (suc n) a = ap suc (length-replicate n a)

  pub get_elem?_total : (xs : List A) (i : ℕ) → i < length xs → (a : A) × (get_elem? xs i ≡ some a)
  get_elem?_total [] i h = absurd (omega arith)
  get_elem?_total (x ∷ xs) zero h = (x, refl)
  get_elem?_total (x ∷ xs) (suc i) h = get_elem?_total xs i (omega arith)

  pub get_elem?-set_self :
      (xs : List A) (i : ℕ) (v : A) → i < length xs → get_elem? (set xs i v) i ≡ some v
  get_elem?-set_self [] i v h = absurd (omega arith)
  get_elem?-set_self (x ∷ xs) zero v h = refl
  get_elem?-set_self (x ∷ xs) (suc i) v h = get_elem?-set_self xs i v (omega arith)

  pub get_elem?-set_ne :
      (xs : List A) (i j : ℕ) (v : A) → i ≢ j → get_elem? (set xs i v) j ≡ get_elem? xs j
  get_elem?-set_ne [] i j v ne = refl
  get_elem?-set_ne (x ∷ xs) zero zero v ne = absurd (ne refl)
  get_elem?-set_ne (x ∷ xs) zero (suc j) v ne = refl
  get_elem?-set_ne (x ∷ xs) (suc i) zero v ne = refl
  get_elem?-set_ne (x ∷ xs) (suc i) (suc j) v ne = get_elem?-set_ne xs i j v (λ e. ne (ap suc e))

  pub get_elem?-append :
      (xs ys : List A) (i : ℕ) {a : A} → get_elem? xs i ≡ some a → get_elem? (xs ++ ys) i ≡ some a
  get_elem?-append [] ys i e = cc
  get_elem?-append (x ∷ xs) ys zero e = e
  get_elem?-append (x ∷ xs) ys (suc i) e = get_elem?-append xs ys i e

  pub get_elem?-append_len : (xs : List A) (a : A) → get_elem? (xs ++ (a ∷ [])) (length xs) ≡ some a
  get_elem?-append_len [] a = refl
  get_elem?-append_len (x ∷ xs) a = get_elem?-append_len xs a

  -- What stands in a list with one element more: what stood there, or that element behind it.
  pub get_elem?-append_one :
      (xs : List A) (a : A) (i : ℕ) {c : A}
      → get_elem? (xs ++ (a ∷ [])) i ≡ some c
      → (get_elem? xs i ≡ some c) ⊎ ((i ≡ length xs) × (a ≡ c))
  get_elem?-append_one [] a zero e = inr (refl, cc)
  get_elem?-append_one [] a (suc i) e = cc
  get_elem?-append_one (x ∷ xs) a zero e = inl e
  get_elem?-append_one (x ∷ xs) a (suc i) e = elim (get_elem?-append_one xs a i e) [
    | inl old ↦ inl old
    | inr (same, last) ↦ inr (ap suc same, last)
  ]

  pub get_elem?-lt : (xs : List A) (i : ℕ) {a : A} → get_elem? xs i ≡ some a → i < length xs
  get_elem?-lt [] i e = cc
  get_elem?-lt (x ∷ xs) zero e = omega arith
  get_elem?-lt (x ∷ xs) (suc i) e = omega (arith, get_elem?-lt xs i e)

  pub All-map {κ μ} :
      {P : A → Type κ} {Q : A → Type μ}
      → ((a : A) → P a → Q a)
      → (xs : List A) → All P xs
      → All Q xs
  All-map f [] h = tt
  All-map f (x ∷ xs) (p, ps) = (f x p, All-map f xs ps)

  pub get_or-set :
      (xs : List A) (i j : ℕ) (v d : A)
      → i < length xs
      → get_or (set xs i v) j d ≡ (if i == j then v else get_or xs j d)
  get_or-set [] i j v d h = absurd (omega arith)
  get_or-set (x ∷ xs) zero zero v d h = refl
  get_or-set (x ∷ xs) zero (suc j) v d h = ground arith
  get_or-set (x ∷ xs) (suc i) zero v d h = ground arith
  get_or-set (x ∷ xs) (suc i) (suc j) v d h = ground (arith, get_or-set xs i j v d (omega arith))

  pub get_or-replicate : (n i : ℕ) (d : A) → get_or (replicate n d) i d ≡ d
  get_or-replicate zero i d = refl
  get_or-replicate (suc n) zero d = refl
  get_or-replicate (suc n) (suc i) d = get_or-replicate n i d

  pub take-append :
      (n : ℕ) (xs ys : List A) → take n (xs ++ ys) ≡ take n xs ++ take (n - length xs) ys
  take-append zero [] ys = refl
  take-append zero (x ∷ xs) ys = ground arith
  take-append (suc n) [] ys = let e : suc n - 0 ≡ suc n = omega arith in rw e
  take-append (suc n) (x ∷ xs) ys = ground (arith, take-append n xs ys)

  pub drop-append_le :
      (n : ℕ) (xs ys : List A) → n ≤ length xs → drop n (xs ++ ys) ≡ drop n xs ++ ys
  drop-append_le zero xs ys h = refl
  drop-append_le (suc n) [] ys h = absurd (omega arith)
  drop-append_le (suc n) (x ∷ xs) ys h = drop-append_le n xs ys (omega arith)

  pub drop-append_ge :
      (n : ℕ) (xs ys : List A) → length xs ≤ n → drop n (xs ++ ys) ≡ drop (n - length xs) ys
  drop-append_ge n [] ys h = let e : n - 0 ≡ n = omega arith in rw e
  drop-append_ge zero (x ∷ xs) ys h = absurd (omega arith)
  drop-append_ge (suc n) (x ∷ xs) ys h = ground (arith, drop-append_ge n xs ys)

  pub take_all : (n : ℕ) (xs : List A) → length xs ≤ n → take n xs ≡ xs
  take_all zero [] h = refl
  take_all zero (x ∷ xs) h = absurd (omega arith)
  take_all (suc n) [] h = refl
  take_all (suc n) (x ∷ xs) h = ap (λ t. x ∷ t) (take_all n xs (omega arith))

  pub drop-nil : (n : ℕ) → drop {A = A} n [] ≡ []
  drop-nil zero = refl
  drop-nil (suc n) = refl

  pub take-nil : (n : ℕ) → take {A = A} n [] ≡ []
  take-nil zero = refl
  take-nil (suc n) = refl

  pub overwrite-append :
      (b : List A) (o : ℕ) (xs ys : List A)
      → overwrite (overwrite b o xs) (o + length xs) ys ≡ overwrite b o (xs ++ ys)
  overwrite-append b zero [] ys = none_over b ys
    where
      none_over : (b ys : List A) → overwrite (overwrite b zero []) zero ys ≡ overwrite b zero ys
      none_over [] [] = refl
      none_over [] (y ∷ ys) = refl
      none_over (x ∷ b) [] = refl
      none_over (x ∷ b) (y ∷ ys) = refl
  overwrite-append [] zero (x ∷ xs) ys = ground arith
  overwrite-append (a ∷ b) zero (x ∷ xs) ys =
      let e : 0 + suc (length xs) ≡ suc (0 + length xs) = omega arith in
      rw e (ap (λ t. x ∷ t) (overwrite-append b zero xs ys))
  overwrite-append [] (suc o) xs ys =
      let e : suc o + length xs ≡ suc (o + length xs) = omega arith in rw e
  overwrite-append (a ∷ b) (suc o) xs ys =
      let e : suc o + length xs ≡ suc (o + length xs) = omega arith in
      rw e (ap (λ t. a ∷ t) (overwrite-append b o xs ys))

  pub overwrite_nil : (b : List A) → overwrite b 0 [] ≡ b
  overwrite_nil [] = refl
  overwrite_nil (x ∷ b) = refl

  -- Writing over everything, and writing what stands there.
  pub overwrite_all : (b vs : List A) → length vs ≡ length b → overwrite b 0 vs ≡ vs
  overwrite_all [] [] h = refl
  overwrite_all [] (v ∷ vs) h = absurd (omega arith)
  overwrite_all (x ∷ b) [] h = absurd (omega arith)
  overwrite_all (x ∷ b) (v ∷ vs) h = ap (λ t. v ∷ t) (overwrite_all b vs (omega arith))

  pub overwrite_same :
      (b : List A) (o : ℕ) (vs rest : List A) → drop o b ≡ vs ++ rest → overwrite b o vs ≡ b
  overwrite_same b zero [] rest h = overwrite_nil b
  overwrite_same [] zero (v ∷ vs) rest h = refl
  overwrite_same (x ∷ b) zero (v ∷ vs) rest h =
      ap₂ (λ a t. a ∷ t) (let e : v ≡ x = cc in e) (overwrite_same b zero vs rest cc)
  overwrite_same [] (suc o) vs rest h = refl
  overwrite_same (x ∷ b) (suc o) vs rest h = ap (λ t. x ∷ t) (overwrite_same b o vs rest h)

  -- What was written is what stands there.
  pub drop-overwrite :
      (b : List A) (o : ℕ) (vs : List A)
      → o + length vs ≤ length b
      → drop o (overwrite b o vs) ≡ vs ++ drop (o + length vs) b
  drop-overwrite b zero [] h = none_over b
    where
      none_over : (b : List A) → overwrite b zero [] ≡ b
      none_over [] = refl
      none_over (x ∷ b) = refl
  drop-overwrite [] zero (v ∷ vs) h = absurd (omega arith)
  drop-overwrite (a ∷ b) zero (v ∷ vs) h =
      let e : 0 + suc (length vs) ≡ suc (0 + length vs) = omega arith in
      rw e (ap (λ t. v ∷ t) (drop-overwrite b zero vs (omega arith)))
  drop-overwrite [] (suc o) vs h = absurd (omega arith)
  drop-overwrite (a ∷ b) (suc o) vs h =
      let e : suc o + length vs ≡ suc (o + length vs) = omega arith in
      rw e (drop-overwrite b o vs (omega arith))

  -- The two parts of a list, by the length of the first.
  pub take-append_len : (n : ℕ) (xs ys : List A) → length xs ≡ n → take n (xs ++ ys) ≡ xs
  take-append_len n [] ys h = rw (← h) refl
  take-append_len zero (x ∷ xs) ys h = absurd (omega arith)
  take-append_len (suc n) (x ∷ xs) ys h = ap (λ t. x ∷ t) (take-append_len n xs ys (omega arith))

  pub drop-append_len : (n : ℕ) (xs ys : List A) → length xs ≡ n → drop n (xs ++ ys) ≡ ys
  drop-append_len n [] ys h = rw (← h) refl
  drop-append_len zero (x ∷ xs) ys h = absurd (omega arith)
  drop-append_len (suc n) (x ∷ xs) ys h = drop-append_len n xs ys (omega arith)

  pub drop-drop : (i j : ℕ) (xs : List A) → drop i (drop j xs) ≡ drop (j + i) xs
  drop-drop i zero xs = let e : 0 + i ≡ i = omega arith in rw e
  drop-drop i (suc j) [] = let e : suc j + i ≡ suc (j + i) = omega arith in rw (e, drop-nil i)
  drop-drop i (suc j) (x ∷ xs) =
      let e : suc j + i ≡ suc (j + i) = omega arith in rw e (drop-drop i j xs)

  pub take-append_le : (n : ℕ) (xs ys : List A) → n ≤ length xs → take n (xs ++ ys) ≡ take n xs
  take-append_le zero xs ys h = refl
  take-append_le (suc n) [] ys h = absurd (omega arith)
  take-append_le (suc n) (x ∷ xs) ys h = ap (λ t. x ∷ t) (take-append_le n xs ys (omega arith))

  -- A part of what was written, read back.
  pub window-overwrite :
      (b : List A) (o j n : ℕ) (vs : List A)
      → o + length vs ≤ length b
      → j + n ≤ length vs
      → take n (drop (o + j) (overwrite b o vs)) ≡ take n (drop j vs)
  window-overwrite b o j n vs hb hj =
      rw
        (
          ← drop-drop j o (overwrite b o vs),
          drop-overwrite b o vs hb,
          drop-append_le j vs (drop (o + length vs) b) (omega arith),
        )
        (take-append_le n (drop j vs) _ (omega (arith, length-drop j vs)))
