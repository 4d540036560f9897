-- ===== src/Wim/Fs/Listing.antt =====
-- `ReadDir(n)`: a directory in pieces is the whole of it.
use go_wim.Base.{
  ℕ, zero, suc, ◌+◌, ◌≤◌, ◌<◌, ◌≡◌, refl, true, false, ◌&&◌, inl, inr, List, [], ◌∷◌, ◌++◌, Option,
  none, some, arith, ltb, leb, ◌==◌, if◌then◌else◌, Bool-cases, length, take, drop, take_all,
  take-append-drop-take, length-take, length-drop, drop-drop, ltb-false→le, Error, eof,
}
use go_wim.Wim.Dentry.{Dentry}
use go_wim.Wim.Fs.{read_dir}

-- One call and what follows it from the new position.
abbrev pub with_rest :
    List Dentry × Option Error × ℕ → (ℕ → List Dentry × Option Error) → List Dentry × Option Error
with_rest (part, none, next) k = let (rest, last) = k next in (part ++ rest, last)
with_rest (part, some x, next) k = (part, some x)

-- What a caller has after that many calls of ReadDir(n), up to the first error, and that error.
pub pieces : ℕ → List Dentry → ℕ → ℕ → List Dentry × Option Error
pieces zero all pos n = ([], none)
pieces (suc calls) all pos n = with_rest (read_dir all pos n) (λ next. pieces calls all next n)

-- The part of what is left that one call returns.
part-eq-take :
    (n : ℕ) (rest : List Dentry)
    → 0 < n
    → (if ltb 0 n && ltb n (length rest) then take n rest else rest) ≡ take n rest
part-eq-take n rest more = elim (Bool-cases (ltb n (length rest))) [
  | inl e ↦ let e' : ltb 0 n ≡ true = ground arith in rw (e, e') refl
  | inr e ↦
      let e' : ltb 0 n ≡ true = ground arith in
      rw (e, e', take_all n rest (ltb-false→le n _ e)) refl
]

next-enough :
    (calls : ℕ) (all : List Dentry) (pos n : ℕ)
    → 0 < n
    → pos < length all
    → length all ≤ pos + suc calls
    → length all ≤ pos + length (take n (drop pos all)) + calls
next-enough calls all pos n more lt enough =
    ground (arith, length-take n (drop pos all), length-drop pos all)

drop_all : (pos : ℕ) (all : List Dentry) → length all ≤ pos → drop pos all ≡ []
drop_all zero [] h = refl
drop_all zero (x ∷ xs) h = absurd (omega arith)
drop_all (suc pos) [] h = refl
drop_all (suc pos) (x ∷ xs) h = drop_all pos xs (omega arith)

read_dir-done :
    (all : List Dentry) (pos n : ℕ)
    → 0 < n
    → leb (length all) pos ≡ true
    → read_dir all pos n ≡ ([], some eof, pos)
unfolding read_dir
read_dir-done all pos n more done = let e : (n == 0) ≡ false = ground arith in rw (done, e) refl

read_dir-more :
    (all : List Dentry) (pos n : ℕ)
    → 0 < n
    → leb (length all) pos ≡ false
    → read_dir all pos n ≡ (take n (drop pos all), none, pos + length (take n (drop pos all)))
unfolding read_dir
read_dir-more all pos n more left = rw (left, part-eq-take n (drop pos all) more) refl

last_call :
    (calls : ℕ) (all : List Dentry) (pos n : ℕ)
    → 0 < n
    → leb (length all) pos ≡ true
    → pieces (suc calls) all pos n ≡ (drop pos all, some eof)
unfolding pieces
last_call calls all pos n more done =
    rw (read_dir-done all pos n more done, drop_all pos all (ground arith)) refl

-- Calls of ReadDir(n) with a positive n from any position, at least one more of them than entries are
-- left, return up to the first error the entries from the position on, each once and in order, and
-- that error is io.EOF.
pub pieces-drop :
    (calls : ℕ) (all : List Dentry) (pos n : ℕ)
    → 0 < n
    → length all ≤ pos + calls
    → pieces (suc calls) all pos n ≡ (drop pos all, some eof)
unfolding pieces
pieces-drop zero all pos n more enough = last_call 0 all pos n more (ground arith)
pieces-drop (suc calls) all pos n more enough = elim (Bool-cases (leb (length all) pos)) [
  | inl done ↦ last_call (suc calls) all pos n more done
  | inr left ↦
      let lt : pos < length all = ground arith in
      rw
        (
          read_dir-more all pos n more left,
          pieces-drop calls all (pos + length (take n (drop pos all))) n more
              (next-enough calls all pos n more lt enough),
          ← drop-drop (length (take n (drop pos all))) pos all,
          take-append-drop-take n (drop pos all),
        )
        refl
]
