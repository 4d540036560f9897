-- ===== src/Lzx/Huffman/Counts.antt =====
-- How often a code length occurs, and how many symbols have a shorter code: what the table's
-- counts and offsets stand for.
use go_wim.Base.{
  ℕ, ◌+◌, ◌≤◌, ◌≡◌, refl, List, [], ◌∷◌, arith, ltb, leb, ◌==◌, ◌&&◌, if◌then◌else◌, length,
}

abbrev pub occurs : ℕ → List ℕ → ℕ
occurs l [] = 0
occurs l (v ∷ vs) = (if v == l then 1 else 0) + occurs l vs

-- The symbols that have a code shorter than l.
abbrev pub shorter : ℕ → List ℕ → ℕ
shorter l [] = 0
shorter l (v ∷ vs) = (if leb 1 v && ltb v l then 1 else 0) + shorter l vs

pub shorter-suc :
    (l : ℕ) (lens : List ℕ) → 1 ≤ l → shorter (l + 1) lens ≡ shorter l lens + occurs l lens
shorter-suc l [] h = refl
shorter-suc l (v ∷ vs) h = ground (arith, shorter-suc l vs)

pub shorter-one : (lens : List ℕ) → shorter 1 lens ≡ 0
shorter-one [] = refl
shorter-one (v ∷ vs) = ground (arith, shorter-one vs)

pub shorter-le-length : (l : ℕ) (lens : List ℕ) → shorter l lens ≤ length lens
shorter-le-length l [] = omega arith
shorter-le-length l (v ∷ vs) = ground (arith, shorter-le-length l vs)

pub occurs-le-length : (l : ℕ) (lens : List ℕ) → occurs l lens ≤ length lens
occurs-le-length l [] = omega arith
occurs-le-length l (v ∷ vs) = ground (arith, occurs-le-length l vs)
