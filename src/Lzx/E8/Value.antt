-- ===== src/Lzx/E8/Value.antt =====
-- One call word: the decoder's arithmetic undoes the encoder's, at every position of a window.
use go_wim.Base.{ℕ, ◌^◌, ◌<◌, ◌≡◌, arith}
use go_wim.Lzx.E8.{encode_call, decode_call}

pub decode_call-encode_call :
    (pos x : ℕ) → pos < 2 ^ 15 → x < 2 ^ 32 → decode_call pos (encode_call pos x) ≡ x
unfolding decode_call encode_call
decode_call-encode_call pos x hp hx = ground arith

pub encode_call-lt : (pos x : ℕ) → x < 2 ^ 32 → encode_call pos x < 2 ^ 32
unfolding encode_call
encode_call-lt pos x hx = ground arith
