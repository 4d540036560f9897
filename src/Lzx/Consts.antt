-- ===== src/Lzx/Consts.antt =====
-- lzx/lzx.go: the sizes of the window and of the alphabets, and the position slots.
use go_wim.Base.{ℕ, ◌*◌, ◌+◌, ◌-◌, List, [], ◌∷◌}

abbrev pub window_size : ℕ
window_size = 32768

abbrev pub main_code_split : ℕ
main_code_split = 256

abbrev pub main_code_count : ℕ
main_code_count = 256 + 30 * 8

abbrev pub len_code_count : ℕ
len_code_count = 249

abbrev pub pretree_count : ℕ
pretree_count = 20

abbrev pub aligned_count : ℕ
aligned_count = 8

abbrev pub max_tree_path : ℕ
max_tree_path = 16

abbrev pub min_match : ℕ
min_match = 2

abbrev pub max_match : ℕ
max_match = min_match + 7 + len_code_count - 1

abbrev pub blk_verbatim : ℕ
blk_verbatim = 1

abbrev pub blk_aligned : ℕ
blk_aligned = 2

abbrev pub blk_uncompressed : ℕ
blk_uncompressed = 3

abbrev pub e8_file_size : ℕ
e8_file_size = 12000000

abbrev pub e8_min_length : ℕ
e8_min_length = 10

abbrev pub footer_bits : List ℕ
footer_bits =
    0 ∷ 0 ∷ 0 ∷ 0 ∷ 1 ∷ 1 ∷ 2 ∷ 2 ∷ 3 ∷ 3 ∷ 4 ∷ 4 ∷ 5 ∷ 5 ∷ 6 ∷ 6 ∷ 7 ∷ 7 ∷ 8 ∷ 8 ∷ 9 ∷ 9 ∷ 10 ∷ 10
    ∷ 11 ∷ 11 ∷ 12 ∷ 12 ∷ 13 ∷ 13 ∷ 14 ∷ []

abbrev pub base_position : List ℕ
base_position =
    0 ∷ 1 ∷ 2 ∷ 3 ∷ 4 ∷ 6 ∷ 8 ∷ 12 ∷ 16 ∷ 24 ∷ 32 ∷ 48 ∷ 64 ∷ 96 ∷ 128 ∷ 192 ∷ 256 ∷ 384 ∷ 512 ∷ 768
    ∷ 1024 ∷ 1536 ∷ 2048 ∷ 3072 ∷ 4096 ∷ 6144 ∷ 8192 ∷ 12288 ∷ 16384 ∷ 24576 ∷ 32768 ∷ []
