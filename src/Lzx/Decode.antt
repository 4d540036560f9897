-- ===== src/Lzx/Decode.antt =====
-- lzx/decode.go: the decoder of one chunk: trees, block headers, blocks and `Decompress`.
pub mod Trees
pub mod Matches
pub mod Safety
pub mod Stored
use go_wim.Base.{
  ℕ, zero, suc, ◌+◌, ◌-◌, ◌*◌, ◌/◌, ◌%◌, ◌^◌, ◌≡◌, refl, Bool, true, false, not, List, [], ◌∷◌,
  ◌++◌, ltb, leb, ◌==◌, ◌&&◌, ◌||◌, if◌then◌else◌, length, overwrite, replicate, take, drop, get_or,
  set, u8, u32, Result, ok, err, panic, hang, lzx_corrupt, ◌>>=◌, ◌>>◌, guard, at, put, slice,
  le_at,
}
use go_wim.Lzx.Consts.{
  window_size, main_code_split, main_code_count, len_code_count, aligned_count, min_match,
  blk_verbatim, blk_aligned, blk_uncompressed, footer_bits, base_position,
}
use go_wim.Lzx.BitReader.{BitReader, new_reader, bits}
use go_wim.Lzx.Huffman.{Huffman, new_huffman, build}
use go_wim.Lzx.Tree.{read_fields, read_tree, checked_sym}
use go_wim.Lzx.E8.{decode_e8}

-- The state of one chunk: the reader, the code lengths and trees, and the recent offsets.
pub record Decoder : Type 0 where
  pub b : BitReader
  pub main_lens : List ℕ
  pub len_lens : List ℕ
  pub main : Huffman
  pub length_tree : Huffman
  pub aligned : Huffman
  pub recent : List ℕ

-- `&decoder{b: bitReader{in: src}, recent: [3]uint32{1, 1, 1}}`
unfoldable pub new_decoder : List ℕ → Decoder
new_decoder src = record {
  b = new_reader src;
  main_lens = replicate main_code_count 0;
  len_lens = replicate len_code_count 0;
  main = new_huffman;
  length_tree = new_huffman;
  aligned = new_huffman;
  recent = 1 ∷ 1 ∷ 1 ∷ [];
}

pub read_aligned_tree : Decoder → Result Decoder
read_aligned_tree d =
    let (lens, b') = read_fields aligned_count 3 d.b in
    build d.aligned lens >>= λ h. ok (record d { b = b'; aligned = h })

pub read_main_trees : Decoder → Result Decoder
read_main_trees d = do
  (lo, b1) ← read_tree d.b (take main_code_split d.main_lens)
  (hi, b2) ← read_tree b1 (drop main_code_split d.main_lens)
  h ← build d.main (lo ++ hi)
  ok (record d { b = b2; main_lens = lo ++ hi; main = h })

pub read_length_tree : Decoder → Result Decoder
read_length_tree d = do
  (lens, b1) ← read_tree d.b d.len_lens
  h ← build d.length_tree lens
  ok (record d { b = b1; len_lens = lens; length_tree = h })

pub read_trees : Decoder → Bool → Result Decoder
unfolding read_aligned_tree read_main_trees read_length_tree
read_trees d read_aligned = do
  d1 ← if read_aligned then read_aligned_tree d else ok d
  d2 ← read_main_trees d1
  read_length_tree d2

-- The alignment restored after an uncompressed block of odd length.
pub realign : BitReader → BitReader
realign b =
    if b.unaligned
    then record b { pos = if ltb b.pos (length b.inp) then b.pos + 1 else b.pos; unaligned = false }
    else b

-- The block's size: the whole window, or a count of 16 bits.
pub read_size : BitReader → Result (ℕ × BitReader)
read_size b =
    let (full, b1) = bits b 1 in
    let (size, b2) = bits b1 16 in
    if not (full == 0)
    then ok (window_size, b1)
    else if ltb window_size size
    then err lzx_corrupt
    else ok (size, b2)

-- The case of an uncompressed block: the rest of the word dropped, three offsets read.
pub read_recent : Decoder → Result Decoder
read_recent d =
    let (v, b1) = bits d.b (if d.b.nbits == 0 then 16 else d.b.nbits) in
    guard (leb (b1.pos + 12) (length b1.inp)) lzx_corrupt
    >> (le_at 2 b1.inp b1.pos >>= λ r0. le_at 2 b1.inp (b1.pos + 4) >>= λ r1.
        le_at 2 b1.inp (b1.pos + 8) >>= λ r2.
        ok (record d { b = record b1 { pos = b1.pos + 12 }; recent = r0 ∷ r1 ∷ r2 ∷ [] }))

-- `readBlockHeader`: the block type, its size and the decoder.
pub read_block_header : Decoder → Result (ℕ × ℕ × Decoder)
unfolding realign read_size read_recent
read_block_header d =
    let (type, b1) = bits (realign d.b) 3 in
    read_size b1 >>= λ (size, b2).
    let d2 = record d { b = b2 } in
    if u8 type == blk_verbatim || u8 type == blk_aligned
    then ok (u8 type, size, d2)
    else if u8 type == blk_uncompressed
    then (read_recent d2 >>= λ d3. ok (u8 type, size, d3))
    else err lzx_corrupt

-- The length of a match from its main symbol.
unfoldable pub match_length : Decoder → ℕ → Result (ℕ × Decoder)
match_length d s =
    if (s - 256) % 8 == 7
    then (checked_sym d.b d.length_tree >>= λ (x, b').
        ok ((s - 256) % 8 + x + min_match, record d { b = b' }))
    else ok ((s - 256) % 8 + min_match, d)

-- `d.recent[slot] = d.recent[0]; d.recent[0] = offset`
unfoldable pub promote : List ℕ → ℕ → Result (ℕ × List ℕ)
promote recent slot = do
  offset ← at recent slot
  front ← at recent 0
  recent' ← put recent slot front
  recent'' ← put recent' 0 offset
  ok (offset, recent'')

-- A new offset shifts the other two down.
unfoldable pub shift_in : List ℕ → ℕ → Result (List ℕ)
shift_in recent offset = do
  r1 ← at recent 1
  recent1 ← put recent 2 r1
  r0 ← at recent1 0
  recent2 ← put recent1 1 r0
  put recent2 0 offset

-- The offset bits below a slot's base: verbatim, or the low three through the aligned tree.
unfoldable pub extra_bits : Decoder → ℕ → Bool → Result (ℕ × ℕ × BitReader)
extra_bits d n use_aligned =
    if n == 0
    then ok (0, 0, d.b)
    else if use_aligned && leb 3 n
    then (let (v, b1) = bits d.b (n - 3) in
        checked_sym b1 d.aligned >>= λ (a, b2). ok (u32 (v * 8), u32 a, b2))
    else (let (v, b1) = bits d.b n in ok (v, 0, b1))

unfoldable pub fresh_offset : Decoder → ℕ → Bool → Result (ℕ × Decoder)
unfolding shift_in extra_bits
fresh_offset d slot use_aligned = do
  guard (ltb slot (length footer_bits)) lzx_corrupt
  n ← at footer_bits slot
  (verbatim, aligned, b') ← extra_bits d n use_aligned
  base ← at base_position slot
  let offset = u32 (base + verbatim + aligned + 2 ^ 32 - min_match)
  recent' ← shift_in d.recent offset
  ok (offset, record d { b = b'; recent = recent' })

unfoldable pub match_offset : Decoder → ℕ → Bool → Result (ℕ × Decoder)
unfolding promote fresh_offset
match_offset d slot use_aligned =
    if ltb slot 3
    then (promote d.recent slot >>= λ (offset, recent'). ok (offset, record d { recent = recent' }))
    else fresh_offset d slot use_aligned

-- `for e := i + matchLen; i < e; i++ { window[i] = window[i-int(offset)] }`
pub copy_match : ℕ → List ℕ → ℕ → ℕ → Result (List ℕ)
copy_match zero window i offset = ok window
copy_match (suc n) window i offset =
    (if leb offset i then at window (i - offset) else panic) >>= λ v.
    put window i v >>= λ window'. copy_match n window' (i + 1) offset

-- What one round of the loop leaves: the decoder, the window and the next position.
abbrev pub Round : Type 0
Round = Decoder × List ℕ × ℕ

pub decode_match : Decoder → List ℕ → ℕ → ℕ → ℕ → Bool → Result Round
unfolding match_length match_offset copy_match
decode_match d window i end s use_aligned = do
  (len, d1) ← match_length d s
  (offset, d2) ← match_offset d1 ((s - 256) / 8) use_aligned
  guard (not (offset == 0 || ltb i offset || ltb (end - i) len)) lzx_corrupt
  window' ← copy_match len window i offset
  ok (d2, window', i + len)

pub decode_round : Decoder → List ℕ → ℕ → ℕ → Bool → Result Round
unfolding decode_match
decode_round d window i end use_aligned = checked_sym d.b d.main >>= λ (s, b1).
    let d1 = record d { b = b1 } in
    if ltb s 256
    then (put window i (u8 s) >>= λ window'. ok (d1, window', i + 1))
    else decode_match d1 window i end s use_aligned

-- `readCompressed`, with as many rounds as there are bytes to fill at most.
pub read_compressed : ℕ → Decoder → List ℕ → ℕ → ℕ → Bool → Result (Decoder × List ℕ)
unfolding decode_round
read_compressed zero d window i end use_aligned = if ltb i end then hang else ok (d, window)
read_compressed (suc fuel) d window i end use_aligned =
    let round = decode_round d window i end use_aligned >>= λ (d', window', i').
    read_compressed fuel d' window' i' end use_aligned in
    if ltb i end then round else ok (d, window)

pub read_uncompressed : Decoder → List ℕ → ℕ → ℕ → Result (ℕ × Decoder × List ℕ)
read_uncompressed d window start size = do
  guard (leb (d.b.pos + size) (length d.b.inp)) lzx_corrupt
  bytes ← slice d.b.inp d.b.pos size
  let odd = if size % 2 == 1 then true else d.b.unaligned
  ok (
    size,
    record d { b = record (d.b) { pos = d.b.pos + size; unaligned = odd } },
    overwrite window start bytes,
  )

-- `readBlock`: the bytes produced, the decoder and the window.
pub read_block : Decoder → List ℕ → ℕ → Result (ℕ × Decoder × List ℕ)
unfolding read_block_header read_trees read_compressed read_uncompressed
read_block d window start = do
  (type, size, d1) ← read_block_header d
  guard (leb (start + size) (length window)) lzx_corrupt
  if type == blk_uncompressed
      then read_uncompressed d1 window start size
      else (read_trees d1 (type == blk_aligned) >>= λ d2.
          read_compressed size d2 window start (start + size) (type == blk_aligned)
          >>= λ (d3, window'). ok (size, d3, window'))

-- The loop of `Decompress`; every round produces a byte at least.
pub block_loop : ℕ → Decoder → List ℕ → ℕ → Result (List ℕ)
unfolding read_block
block_loop zero d dst n = if ltb n (length dst) then hang else ok dst
block_loop (suc fuel) d dst n =
    let round = read_block d dst n >>= λ (produced, d', dst').
    guard (ltb 0 produced) lzx_corrupt >> block_loop fuel d' dst' (n + produced) in
    if ltb n (length dst) then round else ok dst

-- `Decompress(dst, src)`: what dst holds afterwards.
unfoldable pub decompress : List ℕ → List ℕ → Result (List ℕ)
unfolding block_loop decode_e8
decompress dst src =
    if length dst == 0
    then ok dst
    else if ltb window_size (length dst)
    then err lzx_corrupt
    else (block_loop (length dst) (new_decoder src) dst 0 >>= λ out. ok (decode_e8 out))
