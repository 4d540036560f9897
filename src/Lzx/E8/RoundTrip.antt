-- ===== src/Lzx/E8/RoundTrip.antt =====
-- The whole translation: what the decoder leaves of an encoded chunk.
use go_wim.Base.{
  ℕ, ◌+◌, ◌^◌, ◌≤◌, ◌<◌, ◌≡◌, refl, ap, false, inl, inr, List, [], ◌∷◌, ◌++◌, arith, ltb, ◌==◌,
  length, from_le, to_le, IsBytes, Bool-cases, ==_iff, ltb-false→le, ltb→lt,
}
use go_wim.Lzx.Consts.{window_size}
use go_wim.Lzx.E8.{translate, encode_call, decode_call, encode_e8, decode_e8}
use go_wim.Lzx.E8.Value.{decode_call-encode_call, encode_call-lt}

module _ (call : ℕ → ℕ → ℕ) where
  -- One round of the loop, at an E8 byte, at another byte and near the end.
  translate_hit :
      (i b0 b1 b2 b3 : ℕ) (rest : List ℕ)
      → 5 < length rest
      → translate call i (0xe8 ∷ b0 ∷ b1 ∷ b2 ∷ b3 ∷ rest)
        ≡ 0xe8
          ∷ (to_le 4 (call i (from_le (b0 ∷ b1 ∷ b2 ∷ b3 ∷ []))) ++ translate call (i + 5) rest)
  unfolding translate
  translate_hit i b0 b1 b2 b3 rest h = ground arith

  translate_miss :
      (i op : ℕ) (bs : List ℕ)
      → (op == 0xe8) ≡ false
      → 9 < length bs
      → translate call i (op ∷ bs) ≡ op ∷ translate call (i + 1) bs
  translate_miss i op [] ne h = absurd (omega arith)
  translate_miss i op (a ∷ []) ne h = absurd (omega arith)
  translate_miss i op (a ∷ b ∷ []) ne h = absurd (omega arith)
  translate_miss i op (a ∷ b ∷ c ∷ []) ne h = absurd (omega arith)
  translate_miss i op (b0 ∷ b1 ∷ b2 ∷ b3 ∷ rest) ne h = unfold translate in ground arith

  translate_end : (i : ℕ) (bs : List ℕ) → length bs ≤ 10 → translate call i bs ≡ bs
  unfolding translate
  translate_end i [] h = refl
  translate_end i (a ∷ []) h = refl
  translate_end i (a ∷ b ∷ []) h = refl
  translate_end i (a ∷ b ∷ c ∷ []) h = refl
  translate_end i (a ∷ b ∷ c ∷ d ∷ []) h = refl
  translate_end i (op ∷ b0 ∷ b1 ∷ b2 ∷ b3 ∷ rest) h = ground arith

  pub length-translate : (i : ℕ) (bs : List ℕ) → length (translate call i bs) ≡ length bs
  unfolding translate
  length-translate i [] = refl
  length-translate i (a ∷ []) = refl
  length-translate i (a ∷ b ∷ []) = refl
  length-translate i (a ∷ b ∷ c ∷ []) = refl
  length-translate i (a ∷ b ∷ c ∷ d ∷ []) = refl
  length-translate i (op ∷ b0 ∷ b1 ∷ b2 ∷ b3 ∷ rest) =
      ground
        (arith, length-translate (i + 5) rest, length-translate (i + 1) (b0 ∷ b1 ∷ b2 ∷ b3 ∷ rest))

translate_undo_end :
    (i : ℕ) (bs : List ℕ)
    → length bs ≤ 10
    → translate decode_call i (translate encode_call i bs) ≡ bs
translate_undo_end i bs h = rw (translate_end encode_call i bs h) (translate_end decode_call i bs h)

-- The word that the encoder left is read back, and decoded to the bytes that it stood for.
undo_word :
    (i b0 b1 b2 b3 : ℕ)
    → i < 2 ^ 15
    → IsBytes (b0 ∷ b1 ∷ b2 ∷ b3 ∷ [])
    → let x = from_le (b0 ∷ b1 ∷ b2 ∷ b3 ∷ []) in
      to_le 4 (decode_call i (from_le (to_le 4 (encode_call i x)))) ≡ b0 ∷ b1 ∷ b2 ∷ b3 ∷ []
undo_word i b0 b1 b2 b3 hi hb = ground (
  arith,
  encode_call-lt i (from_le (b0 ∷ b1 ∷ b2 ∷ b3 ∷ [])),
  decode_call-encode_call i (from_le (b0 ∷ b1 ∷ b2 ∷ b3 ∷ [])),
)

undo_hit :
    (i b0 b1 b2 b3 : ℕ) (rest : List ℕ)
    → i < 2 ^ 15
    → IsBytes (b0 ∷ b1 ∷ b2 ∷ b3 ∷ [])
    → 5 < length rest
    → translate decode_call (i + 5) (translate encode_call (i + 5) rest) ≡ rest
    → translate decode_call i (translate encode_call i (0xe8 ∷ b0 ∷ b1 ∷ b2 ∷ b3 ∷ rest))
      ≡ 0xe8 ∷ b0 ∷ b1 ∷ b2 ∷ b3 ∷ rest
undo_hit i b0 b1 b2 b3 rest hi hb hl ih =
    rw
      (
        translate_hit encode_call i b0 b1 b2 b3 rest hl,
        translate_hit decode_call i _ _ _ _ (translate encode_call (i + 5) rest)
            (omega (arith, length-translate encode_call (i + 5) rest)),
        ih,
      )
      (ap (λ t. 0xe8 ∷ (t ++ rest)) (undo_word i b0 b1 b2 b3 hi hb))

undo_miss :
    (i op : ℕ) (bs : List ℕ)
    → (op == 0xe8) ≡ false
    → 9 < length bs
    → translate decode_call (i + 1) (translate encode_call (i + 1) bs) ≡ bs
    → translate decode_call i (translate encode_call i (op ∷ bs)) ≡ op ∷ bs
undo_miss i op bs ne hl ih = rw (
  translate_miss encode_call i op bs ne hl,
  translate_miss decode_call i op (translate encode_call (i + 1) bs) ne
      (omega (arith, length-translate encode_call (i + 1) bs)),
  ih,
)

-- A window's bytes at i and behind it come back from the encoding.
pub translate_undo :
    (i : ℕ) (bs : List ℕ)
    → IsBytes bs
    → i + length bs ≤ window_size
    → translate decode_call i (translate encode_call i bs) ≡ bs
translate_undo i [] hb hl = translate_undo_end i [] (omega arith)
translate_undo i (a ∷ []) hb hl = translate_undo_end i _ (omega arith)
translate_undo i (a ∷ b ∷ []) hb hl = translate_undo_end i _ (omega arith)
translate_undo i (a ∷ b ∷ c ∷ []) hb hl = translate_undo_end i _ (omega arith)
translate_undo i (a ∷ b ∷ c ∷ d ∷ []) hb hl = translate_undo_end i _ (omega arith)
translate_undo i (op ∷ b0 ∷ b1 ∷ b2 ∷ b3 ∷ rest) (h, (h0, (h1, (h2, (h3, hr))))) hl =
    elim (Bool-cases (ltb 5 (length rest))) [
      | inl long ↦ elim (Bool-cases (op == 0xe8)) [
        | inl hit ↦ rw ((==_iff op 0xe8).0 hit) (
            undo_hit i b0 b1 b2 b3 rest (omega arith) (h0, (h1, (h2, (h3, tt)))) (ltb→lt _ _ long)
              (translate_undo (i + 5) rest hr (omega arith)))
        | inr miss ↦
            undo_miss i op (b0 ∷ b1 ∷ b2 ∷ b3 ∷ rest) miss (omega (arith, ltb→lt _ _ long)) (
              translate_undo (i + 1) (b0 ∷ b1 ∷ b2 ∷ b3 ∷ rest) (h0, (h1, (h2, (h3, hr))))
                (omega arith))
      ]
      | inr short ↦ translate_undo_end i _ (omega (arith, ltb-false→le _ _ short))
    ]

pub length-decode_e8 : (bs : List ℕ) → length (decode_e8 bs) ≡ length bs
unfolding decode_e8
length-decode_e8 bs = ground (arith, length-translate decode_call 0 bs)

-- On every chunk of bytes that is no longer than the window, the decoder's branch translation undoes
-- the encoder's.
pub decode_e8-encode_e8 :
    (bs : List ℕ) → IsBytes bs → length bs ≤ window_size → decode_e8 (encode_e8 bs) ≡ bs
unfolding decode_e8 encode_e8
decode_e8-encode_e8 bs hb hl =
    ground (arith, translate_undo 0 bs hb (omega arith), length-translate encode_call 0 bs)
