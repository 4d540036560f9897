-- ===== src/Lzx/Frequencies.antt =====
-- lzx/encode.go: how often the tokens use each symbol, and whether the aligned tree pays.
pub mod Counted
pub mod Cost
use go_wim.Base.{
  ℕ, zero, suc, ◌+◌, ◌*◌, Bool, true, false, ◌&&◌, List, [], ◌∷◌, Option, none, some, ltb, leb,
  ◌==◌, if◌then◌else◌, replicate, u32, bit_and, Result, ok, ◌>>=◌, at, put,
}
use go_wim.Lzx.Consts.{main_code_count, len_code_count, aligned_count, footer_bits}
use go_wim.Lzx.Tokens.{Token}

-- `token`: a literal, whose slot is -1, or a match.
pub data Coded : Type 0 where
  literal : ℕ → Coded
  matched : Token → Coded

-- The three counts of a Compressor.
pub record Frequencies : Type 0 where
  pub main_freq : List ℕ
  pub len_freq : List ℕ
  pub aligned_freq : List ℕ

-- `freq[s]++`
pub count_up : List ℕ → ℕ → Result (List ℕ)
count_up freq s = do n ← at freq s; put freq s (u32 (n + 1))

pub count_len : List ℕ → Option ℕ → Result (List ℕ)
unfolding count_up
count_len freq none = ok freq
count_len freq (some s) = count_up freq s

-- `if t.slot >= 3 && footerBits[t.slot] >= 3 { … }`
pub count_aligned : List ℕ → Token → Result (List ℕ)
unfolding count_up
count_aligned freq t =
    let counted = at footer_bits t.slot >>= λ n.
    if leb 3 n then count_up freq (bit_and t.extra 7) else ok freq in
    if leb 3 t.slot then counted else ok freq

-- The body of the loop of `countFrequencies`.
pub count_token : Frequencies → Coded → Result Frequencies
unfolding count_up count_len count_aligned
count_token f (literal s) = count_up f.main_freq s >>= λ main. ok (record f { main_freq = main })
count_token f (matched t) = do
  main ← count_up f.main_freq t.sym
  lens ← count_len f.len_freq t.len_sym
  aligned ← count_aligned f.aligned_freq t
  ok (record { main_freq = main; len_freq = lens; aligned_freq = aligned })

pub count_tokens : List Coded → Frequencies → Result Frequencies
unfolding count_token
count_tokens [] f = ok f
count_tokens (t ∷ tokens) f = do f' ← count_token f t; count_tokens tokens f'

-- `countFrequencies`
pub count_frequencies : List Coded → Result Frequencies
unfolding count_tokens
count_frequencies tokens = count_tokens tokens (record {
  main_freq = replicate main_code_count 0;
  len_freq = replicate len_code_count 0;
  aligned_freq = replicate aligned_count 0;
})

-- The loop of `alignedPays` from symbol s on, with what it has added up; 64 bits hold the sums of 32-bit
-- counts.
pub pays_loop : List ℕ → List ℕ → ℕ → ℕ → ℕ → Result Bool
pays_loop [] lens s raw coded = ok (ltb coded raw)
pays_loop (n ∷ freq) lens s raw coded =
    if n == 0
    then pays_loop freq lens (s + 1) raw coded
    else (at lens s >>= λ l.
        if l == 0 then ok false else pays_loop freq lens (s + 1) (raw + n * 3) (coded + n * l))

-- `alignedPays`
pub aligned_pays : List ℕ → List ℕ → Result Bool
unfolding pays_loop
aligned_pays freq lens = pays_loop freq lens 0 0 (aligned_count * 3)
