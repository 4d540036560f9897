-- ===== src/Lzx/Frequencies/Cost.antt =====
-- What the aligned tree costs and saves.
use go_wim.Base.{
  ℕ, ◌+◌, ◌*◌, ◌≤◌, ◌≡◌, refl, ap, ◌∙◌, Bool, true, false, List, [], ◌∷◌, arith, inl, inr,
  Bool-cases, ltb, ◌==◌, if◌then◌else◌, length, get_or, ok, at-eq,
}
use go_wim.Lzx.Frequencies.{pays_loop, aligned_pays}

-- Every symbol from s on that occurs has a code.
abbrev pub all_coded : List ℕ → List ℕ → ℕ → Bool
all_coded [] lens s = true
all_coded (n ∷ freq) lens s =
    if n == 0
    then all_coded freq lens (s + 1)
    else if get_or lens s 0 == 0
    then false
    else all_coded freq lens (s + 1)

-- The bits of the low offset bits, raw and coded.
abbrev pub raw_bits : List ℕ → ℕ
raw_bits [] = 0
raw_bits (n ∷ freq) = n * 3 + raw_bits freq

abbrev pub coded_bits : List ℕ → List ℕ → ℕ → ℕ
coded_bits [] lens s = 0
coded_bits (n ∷ freq) lens s = n * get_or lens s 0 + coded_bits freq lens (s + 1)

pays_loop-eq :
    (freq lens : List ℕ) (s raw coded : ℕ)
    → s + length freq ≤ length lens
    → pays_loop freq lens s raw coded
      ≡ ok (
          if all_coded freq lens s
          then ltb (coded + coded_bits freq lens s) (raw + raw_bits freq)
          else false)
unfolding pays_loop
pays_loop-eq [] lens s raw coded room =
    let c : coded + 0 ≡ coded = omega arith in let r : raw + 0 ≡ raw = omega arith in rw (c, r) refl
pays_loop-eq (n ∷ freq) lens s raw coded room = elim (Bool-cases (n == 0)) [
  | inl e ↦
      let nothing : n ≡ 0 = ground arith in
      let c : coded + (n * get_or lens s 0 + coded_bits freq lens (s + 1))
          ≡ coded + coded_bits freq lens (s + 1) =
        rw nothing (omega arith) in
      let r : raw + (n * 3 + raw_bits freq) ≡ raw + raw_bits freq = omega (arith, nothing) in
      rw (e, c, r) (pays_loop-eq freq lens (s + 1) raw coded (omega arith))
  | inr e ↦ elim (Bool-cases (get_or lens s 0 == 0)) [
    | inl e' ↦ rw (e, at-eq lens s 0 (omega arith), e') refl
    | inr e' ↦
        let c : coded + (n * get_or lens s 0 + coded_bits freq lens (s + 1))
            ≡ coded + n * get_or lens s 0 + coded_bits freq lens (s + 1) =
          omega arith in
        let r : raw + (n * 3 + raw_bits freq) ≡ raw + n * 3 + raw_bits freq = omega arith in
        rw (e, at-eq lens s 0 (omega arith), e', c, r)
          (pays_loop-eq freq lens (s + 1) (raw + n * 3) (coded + n * get_or lens s 0) (omega arith))
  ]
]

-- For eight frequencies and eight lengths, alignedPays answers whether every symbol that occurs has a code
-- and the coded bits, with the 24 bits of the tree, are fewer than three bits a symbol.
pub aligned_pays-eq :
    (freq lens : List ℕ)
    → length freq ≡ 8
    → length lens ≡ 8
    → aligned_pays freq lens
      ≡ ok (
          if all_coded freq lens 0
          then ltb (24 + coded_bits freq lens 0) (raw_bits freq)
          else false)
unfolding aligned_pays
aligned_pays-eq freq lens size size' =
    let same : 0 + raw_bits freq ≡ raw_bits freq = omega arith in
    pays_loop-eq freq lens 0 0 24 (omega (arith, size, size'))
    ∙ ap (λ r. ok (if all_coded freq lens 0 then ltb (24 + coded_bits freq lens 0) r else false))
        same
