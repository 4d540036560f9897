-- ===== src/Wim/Parts.antt =====
-- Byte buffers that are filled by writes one behind the other.
use go_wim.Base.{
  ℕ, ◌+◌, ◌≡◌, refl, sym, ap, ◌∙◌, List, [], ◌∷◌, ◌++◌, append-nil, append_assoc, arith, length,
  length-append, overwrite, overwrite-append,
}

-- Writes at given places, in order.
abbrev pub Parts : Type 0
Parts = List (ℕ × List ℕ)

unfoldable pub put_parts : List ℕ → Parts → List ℕ
put_parts b [] = b
put_parts b ((o, xs) ∷ parts) = put_parts (overwrite b o xs) parts

unfoldable pub join : Parts → List ℕ
join [] = []
join ((o, xs) ∷ parts) = xs ++ join parts

-- Each begins where the one before it ends.
abbrev pub InRow : ℕ → Parts → Type 0
InRow o [] = Unit
InRow o ((o', xs) ∷ parts) = (o' ≡ o) × InRow (o + length xs) parts

pub put_parts-append :
    (b : List ℕ) (ps qs : Parts) → put_parts (put_parts b ps) qs ≡ put_parts b (ps ++ qs)
unfolding put_parts
put_parts-append b [] qs = refl
put_parts-append b ((o, xs) ∷ ps) qs = put_parts-append (overwrite b o xs) ps qs

pub put_parts-join :
    (b front : List ℕ) (o : ℕ) (parts : Parts)
    → length front ≡ o
    → InRow o parts
    → put_parts (overwrite b 0 front) parts ≡ overwrite b 0 (front ++ join parts)
unfolding put_parts join
put_parts-join b front o [] size row = ap (overwrite b 0) (sym (append-nil front))
put_parts-join b front o ((o', xs) ∷ parts) size (e, row) =
    let place : o' ≡ 0 + length front = omega (arith, e, size) in
    ap (λ n. put_parts (overwrite (overwrite b 0 front) n xs) parts) place
    ∙ ap (λ t. put_parts t parts) (overwrite-append b 0 front xs)
    ∙ put_parts-join b (front ++ xs) (o + length xs) parts
        (omega (arith, length-append front xs, size)) row
    ∙ ap (overwrite b 0) (append_assoc front xs (join parts))
