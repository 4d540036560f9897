-- ===== src/Lzx/Compress.antt =====
-- lzx/encode.go: Compress, its guards, the copy that it translates, and the header of the block. The
-- trees and the tokens behind that header are an argument.
pub mod Sizes
use go_wim.Base.{
  ℕ, zero, ◌≤◌, Bool, true, false, ◌||◌, List, [], ◌∷◌, Option, none, some, ltb, leb, ◌==◌,
  if◌then◌else◌, length,
}
use go_wim.Lzx.Consts.{window_size, blk_verbatim, blk_aligned}
use go_wim.Lzx.BitWriter.{BitWriter, new_writer, write, flush}
use go_wim.Lzx.E8.{encode_e8}

-- What stands in a block: whether its low offset bits are coded, and the fields of its trees and tokens, each a
-- number and a width.
pub record Block : Type 0 where
  pub use_aligned : Bool
  pub fields : List (ℕ × ℕ)

-- `findMatches` to `alignedPays`: the block of the translated bytes.
abbrev pub Coder : Type 0
Coder = List ℕ → Block

-- The writes of the fields, in order.
write_fields : List (ℕ × ℕ) → BitWriter → BitWriter
write_fields [] w = w
write_fields ((v, n) ∷ fields) w = write_fields fields (write w v n)

-- `emitBlock`
unfoldable pub emit_block : BitWriter → ℕ → Block → BitWriter
unfolding write_fields
emit_block w size block =
    let typed = write w (if block.use_aligned then blk_aligned else blk_verbatim) 3 in
    let sized = if size == window_size then write typed 1 1 else write (write typed 0 1) size 16 in
    write_fields block.fields sized

-- `Compress`: from the size of `dst` and from `src`, the bytes written to `dst`, or none when it reports that
-- they are not fewer than those of `src`.
unfoldable pub compress : Coder → ℕ → List ℕ → Option (List ℕ)
unfolding emit_block
compress coder cap src =
    let out = (flush (emit_block new_writer (length src) (coder (encode_e8 src)))).out in
    if length src == 0 || ltb window_size (length src)
    then none
    else if leb (length src) (length out) || ltb cap (length out)
    then none
    else some out
