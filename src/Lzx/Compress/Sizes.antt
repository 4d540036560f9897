-- ===== src/Lzx/Compress/Sizes.antt =====
-- The sizes of what Compress returns.
use go_wim.Base.{
  ℕ, ◌%◌, ◌^◌, ◌≤◌, ◌<◌, ◌≡◌, subst, ap, ◌||◌, inl, inr, Bool-cases, List, [], ◌∷◌, ◌++◌, some,
  arith, ltb, leb, ◌==◌, if◌then◌else◌, length, length-append, All,
}
use go_wim.Lzx.Consts.{window_size, blk_verbatim, blk_aligned}
use go_wim.Lzx.Stream.{to_bits, length-to_bits, words_bits}
use go_wim.Lzx.BitWriter.{BitWriter, new_writer, write, flush}
use go_wim.Lzx.BitWriter.Suffix.{Holds, new_writer-Holds, write-Holds, flush-words}
use go_wim.Lzx.E8.{encode_e8}
use go_wim.Lzx.Compress.{Block, Coder, write_fields, emit_block, compress}

-- The fields that a coder writes are no wider than `write` allows.
abbrev pub IsNarrow : Coder → Type 0
IsNarrow coder = (bytes : List ℕ) → All (λ (v, n). n ≤ 16) (coder bytes).fields

-- A writer that holds some bits.
abbrev HoldsSome : BitWriter → Type 0
HoldsSome w = (stream : List ℕ) × (0 < length stream) × Holds w stream

write-HoldsSome : (w : BitWriter) (v n : ℕ) → n ≤ 16 → HoldsSome w → HoldsSome (write w v n)
write-HoldsSome w v n narrow (stream, some_bits, k) = (
  stream ++ to_bits n (v % 2 ^ n),
  omega (arith, length-append stream (to_bits n (v % 2 ^ n))),
  write-Holds w v n stream narrow k,
)

write_fields-HoldsSome :
    (fields : List (ℕ × ℕ)) (w : BitWriter)
    → All (λ (v, n). n ≤ 16) fields
    → HoldsSome w
    → HoldsSome (write_fields fields w)
unfolding write_fields
write_fields-HoldsSome [] w narrow k = k
write_fields-HoldsSome ((v, n) ∷ fields) w (h, hs) k =
    write_fields-HoldsSome fields (write w v n) hs (write-HoldsSome w v n h k)

emit_block-HoldsSome :
    (size : ℕ) (block : Block)
    → All (λ (v, n). n ≤ 16) block.fields
    → HoldsSome (emit_block new_writer size block)
unfolding emit_block
emit_block-HoldsSome size block narrow =
    let kind = if block.use_aligned then blk_aligned else blk_verbatim in
    let typed : HoldsSome (write new_writer kind 3) = (
      to_bits 3 (kind % 2 ^ 3),
      omega (arith, length-to_bits 3 (kind % 2 ^ 3)),
      write-Holds new_writer kind 3 [] (omega arith) new_writer-Holds,
    ) in
    write_fields-HoldsSome block.fields _ narrow (elim (Bool-cases (size == window_size)) [
      | inl e ↦ rw e (write-HoldsSome (write new_writer kind 3) 1 1 (omega arith) typed)
      | inr e ↦ rw e (
          write-HoldsSome (write (write new_writer kind 3) 0 1) size 16 (omega arith)
            (write-HoldsSome (write new_writer kind 3) 0 1 (omega arith) typed))
    ])

some_words :
    (out stream pad : List ℕ) → words_bits out ≡ stream ++ pad → 0 < length stream → 0 < length out
some_words [] stream pad e h = omega (arith, ap length e, length-append stream pad)
some_words (x ∷ out) stream pad e h = omega arith

flush_pos : (w : BitWriter) → HoldsSome w → 0 < length (flush w).out
flush_pos w (stream, some_bits, k) =
    let (pad, e, bytes) = flush-words w stream k in some_words (flush w).out stream pad e some_bits

-- What Compress returns is shorter than its input, and not empty.
pub compress-length :
    (coder : Coder) (cap : ℕ) (src coded : List ℕ)
    → IsNarrow coder
    → compress coder cap src ≡ some coded
    → (0 < length coded) × (length coded < length src) × (length coded ≤ cap)
unfolding compress
compress-length coder cap src coded narrow e =
    let out = (flush (emit_block new_writer (length src) (coder (encode_e8 src)))).out in
    elim (Bool-cases (length src == 0 || ltb window_size (length src))) [
      | inl refused ↦ cc (rw refused at e)
      | inr taken ↦ elim (Bool-cases (leb (length src) (length out) || ltb cap (length out))) [
        | inl long ↦ cc (rw (taken, long) at e)
        | inr short ↦
            let same : out ≡ coded = cc (rw (taken, short) at e) in
            let positive : 0 < length out = flush_pos _ (
              emit_block-HoldsSome (length src) (coder (encode_e8 src)) (narrow (encode_e8 src))) in
            subst (λ c. (0 < length c) × (length c < length src) × (length c ≤ cap)) same
              (positive, ground arith, ground arith)
      ]
    ]
