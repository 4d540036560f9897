-- ===== src/Lzx/Tests.antt =====
-- Concrete inputs for the theorems about lzx/.
use go_wim.Base.{
  true, some, ◌++◌, Result, err, panic, hang, ◌≤◌, ◌<◌, get_or, ok, ℕ, ◌≡◌, refl, List, [], ◌∷◌,
  arith, length, replicate, Finishes, IsBytes,
}
use go_wim.Lzx.BitReader.{BitReader, new_reader, bits}
use go_wim.Lzx.Huffman.{new_huffman, build, sym}
use go_wim.Lzx.Huffman.Safety.{IsTable, build-IsTable, sym-Finishes, new_huffman-IsTable}
use go_wim.Lzx.Decode.{Decoder, new_decoder, decompress}
use go_wim.Lzx.Decode.Safety.{decompress-Finishes}
use go_wim.Lzx.Decode.Stored.{stored_block, decompress-stored_block}
use go_wim.Lzx.Huffman.Counts.{occurs}
use go_wim.Lzx.Frequencies.{Coded, literal, matched, Frequencies, count_frequencies, aligned_pays}
use go_wim.Lzx.Frequencies.Cost.{aligned_pays-eq}
use go_wim.Lzx.Frequencies.Counted.{
  main_symbols, len_symbols, aligned_symbols, count_frequencies-eq,
}
use go_wim.Lzx.Huffman as Table
use go_wim.Lzx.Huffman.{Huffman}
use go_wim.Lzx.BitWriter.{new_writer, flush}
use go_wim.Lzx.BitWriter.RoundTrip.{write_all, read_all, read_all-write_all}
use go_wim.Lzx.Codes.{canonical_codes}
use go_wim.Lzx.Codes.First.{IsComplete, code_of, canonical_codes-eq}
use go_wim.Lzx.Codes.RoundTrip.{symbol_fields, read_symbols, read_symbols-write_all}
use go_wim.Lzx.E8.{encode_e8, decode_e8}
use go_wim.Lzx.E8.RoundTrip.{decode_e8-encode_e8}

abbrev four_items : List ℕ
four_items = 1 ∷ 2 ∷ 3 ∷ 4 ∷ []

-- A call instruction at byte 1 of a chunk, and its target behind it.
abbrev call_code : List ℕ
call_code = 0x90 ∷ 0xe8 ∷ 0x10 ∷ 0x20 ∷ 0 ∷ 0 ∷ 1 ∷ 2 ∷ 3 ∷ 4 ∷ 5 ∷ 6 ∷ 7 ∷ []

abbrev four_bytes : List ℕ
four_bytes = replicate 4 0

abbrev two_codes : List ℕ
two_codes = 1 ∷ 2 ∷ 2 ∷ []

decompress-Finishes_example :
    Finishes
      (λ out. length out ≡ length four_bytes)
      (decompress four_bytes (stored_block four_items))
decompress-Finishes_example = decompress-Finishes four_bytes (stored_block four_items)

decompress-stored_block_example : decompress four_bytes (stored_block four_items) ≡ ok four_items
unfolding decode_e8
decompress-stored_block_example =
    decompress-stored_block four_bytes four_items refl (omega arith) (omega arith)

encode_call_code :
    encode_e8 call_code ≡ 0x90 ∷ 0xe8 ∷ 0x11 ∷ 0x20 ∷ 0 ∷ 0 ∷ 1 ∷ 2 ∷ 3 ∷ 4 ∷ 5 ∷ 6 ∷ 7 ∷ []
unfolding encode_e8
encode_call_code = refl

call_code-IsBytes : IsBytes call_code
call_code-IsBytes = ground arith

decode_e8-encode_e8_example : decode_e8 (encode_e8 call_code) ≡ call_code
decode_e8-encode_e8_example = decode_e8-encode_e8 call_code call_code-IsBytes (omega arith)

build-IsTable_example : Finishes IsTable (build new_huffman two_codes)
build-IsTable_example =
    build-IsTable new_huffman two_codes new_huffman-IsTable.symbol_size (omega arith)

sym-Finishes_example : Finishes (λ s. Unit) (sym (new_reader (stored_block four_items)) new_huffman)
sym-Finishes_example =
    sym-Finishes (new_reader (stored_block four_items)) new_huffman new_huffman-IsTable

-- The table of a length code of two symbols, 11 and 12, with a bit each.
abbrev length_table : Result Huffman → Huffman
length_table (ok h) = h
length_table (err e) = new_huffman
length_table panic = new_huffman
length_table hang = new_huffman

-- A decoder before the bit 0, for the symbol 11, and the 8 bits of 234.
abbrev at_match : Decoder
at_match = record (new_decoder (0x00 ∷ 0x75 ∷ [])) {
  length_tree = length_table (build new_huffman (replicate 11 0 ++ (1 ∷ 1 ∷ replicate 236 0)));
  recent = 1 ∷ 2 ∷ 3 ∷ [];
}

-- The reader behind the first bit, and behind all nine.
abbrev behind_length : BitReader
behind_length = (bits at_match.b 1).1

abbrev behind_offset : BitReader
behind_offset = (bits behind_length 8).1

-- Fields of three bits and of sixteen.
abbrev two_fields : List (ℕ × ℕ)
two_fields = (5, 3) ∷ (0x1234, 16) ∷ []

read_all-write_all_example :
    (read_all two_fields (new_reader (flush (write_all two_fields new_writer)).out)).0
    ≡ 5 ∷ 0x1234 ∷ []
read_all-write_all_example = read_all-write_all two_fields (omega arith, (omega arith, tt))

two_codes-IsComplete : IsComplete two_codes
two_codes-IsComplete = record {
  few = omega arith;
  limits = (omega arith, (omega arith, (omega arith, tt)));
  full = refl;
}

canonical_codes-eq_example :
    (codes : List ℕ) × (canonical_codes two_codes ≡ ok codes)
    × (length codes ≡ 3)
    × ((s : ℕ) → s < 3 → 1 ≤ get_or two_codes s 0 → get_or codes s 0 ≡ code_of two_codes s)
canonical_codes-eq_example = canonical_codes-eq two_codes two_codes-IsComplete

abbrev three_symbols : List ℕ
three_symbols = 2 ∷ 0 ∷ 1 ∷ []

read_symbols-write_all_example :
    (codes : List ℕ) × (t : Huffman) × (b : BitReader) × (canonical_codes two_codes ≡ ok codes)
    × (build new_huffman two_codes ≡ ok t)
    × (read_symbols 3 t (
          new_reader
            (flush (write_all (symbol_fields codes two_codes three_symbols) new_writer)).out)
        ≡ ok (three_symbols, b))
read_symbols-write_all_example =
    read_symbols-write_all new_huffman two_codes three_symbols two_codes-IsComplete
      new_huffman-IsTable.symbol_size
      ((omega arith, omega arith), ((omega arith, omega arith), ((omega arith, omega arith), tt)))

-- A literal, and a match with a long length and a coded offset.
abbrev two_tokens : List Coded
two_tokens =
    literal 65 ∷ matched (record { sym = 335; len_sym = some 4; slot = 9; extra = 13 }) ∷ []

count_frequencies-eq_example :
    (r : Frequencies) × (count_frequencies two_tokens ≡ ok r)
    × ((s : ℕ) → get_or r.main_freq s 0 ≡ occurs s (main_symbols two_tokens))
    × ((s : ℕ) → get_or r.len_freq s 0 ≡ occurs s (len_symbols two_tokens))
    × ((s : ℕ) → get_or r.aligned_freq s 0 ≡ occurs s (aligned_symbols two_tokens))
count_frequencies-eq_example =
    count_frequencies-eq two_tokens (omega arith)
      (omega arith, ((omega arith, (omega arith, tt), omega arith), tt))

-- Forty uses of one symbol and forty of another, with a bit each.
abbrev two_used : List ℕ
two_used = 40 ∷ 40 ∷ replicate 6 0

abbrev one_bit_each : List ℕ
one_bit_each = 1 ∷ 1 ∷ replicate 6 0

aligned_pays-eq_example : aligned_pays two_used one_bit_each ≡ ok true
aligned_pays-eq_example = aligned_pays-eq two_used one_bit_each refl refl
