-- ===== src/Lzx/Decode/Matches.antt =====
-- One coded element: the lengths and offsets of a match, its copy, and a round of the loop.
use go_wim.Base.{
  ℕ, zero, suc, ◌+◌, ◌-◌, ◌/◌, ◌%◌, ◌≤◌, ◌<◌, ◌≡◌, refl, ◌∙◌, Bool, true, not, ◌||◌, ◌&&◌, List, [],
  ◌∷◌, arith, ltb, leb, ◌==◌, length, get_or, set, length-set, Finishes, value, Finishes-bind,
  Finishes-guard, Finishes-map, Finishes-if, at-eq, put-eq, ltb→lt, le→leb, lzx_corrupt, u8,
}
use go_wim.Lzx.Consts.{footer_bits, base_position}
use go_wim.Lzx.BitReader.{bits}
use go_wim.Lzx.Tree.Safety.{checked_sym-Finishes}
use go_wim.Lzx.Decode.Trees.{IsDecoder, with_reader, with_recent}
use go_wim.Lzx.Decode.{
  Decoder, match_length, promote, shift_in, extra_bits, match_offset, copy_match, Round,
  decode_match, decode_round,
}

match_length-Finishes :
    (d : Decoder) (s : ℕ)
    → IsDecoder d
    → Finishes (λ (r : ℕ × Decoder). (2 ≤ r.0) × IsDecoder r.1) (match_length d s)
unfolding match_length
match_length-Finishes d s k =
    Finishes-if ((s - 256) % 8 == 7)
      (λ _.
        Finishes-bind (checked_sym-Finishes d.b d.length_tree k.length_tree)
          λ (x, b') _. value (omega arith, with_reader d b' k))
      (λ _. value (omega arith, k))

promote-Finishes :
    (recent : List ℕ) (slot : ℕ)
    → length recent ≡ 3
    → slot < 3
    → Finishes (λ (r : ℕ × List ℕ). length r.1 ≡ 3) (promote recent slot)
unfolding promote
promote-Finishes (r0 ∷ r1 ∷ r2 ∷ []) zero h hs = value refl
promote-Finishes (r0 ∷ r1 ∷ r2 ∷ []) (suc zero) h hs = value refl
promote-Finishes (r0 ∷ r1 ∷ r2 ∷ []) (suc (suc zero)) h hs = value refl
promote-Finishes (r0 ∷ r1 ∷ r2 ∷ []) (suc (suc (suc slot))) h hs = absurd (omega arith)
promote-Finishes [] slot h hs = absurd (omega arith)
promote-Finishes (r0 ∷ []) slot h hs = absurd (omega arith)
promote-Finishes (r0 ∷ r1 ∷ []) slot h hs = absurd (omega arith)
promote-Finishes (r0 ∷ r1 ∷ r2 ∷ r3 ∷ rs) slot h hs = absurd (omega arith)

shift_in-Finishes :
    (recent : List ℕ) (offset : ℕ)
    → length recent ≡ 3
    → Finishes (λ r. length r ≡ 3) (shift_in recent offset)
unfolding shift_in
shift_in-Finishes (r0 ∷ r1 ∷ r2 ∷ []) offset h = value refl
shift_in-Finishes [] offset h = absurd (omega arith)
shift_in-Finishes (r0 ∷ []) offset h = absurd (omega arith)
shift_in-Finishes (r0 ∷ r1 ∷ []) offset h = absurd (omega arith)
shift_in-Finishes (r0 ∷ r1 ∷ r2 ∷ r3 ∷ rs) offset h = absurd (omega arith)

extra_bits-Finishes :
    (d : Decoder) (n : ℕ) (use_aligned : Bool)
    → IsDecoder d
    → Finishes (λ r. Unit) (extra_bits d n use_aligned)
unfolding extra_bits
extra_bits-Finishes d n use_aligned k =
    Finishes-if (n == 0) (λ _. value tt)
      λ _.
        Finishes-if (use_aligned && leb 3 n)
          (λ _.
            Finishes-bind (checked_sym-Finishes (bits d.b (n - 3)).1 d.aligned k.aligned)
              λ (a, b2) _. value tt)
          (λ _. value tt)

match_offset-IsDecoder :
    (d : Decoder) (slot : ℕ) (use_aligned : Bool)
    → IsDecoder d
    → Finishes (λ (r : ℕ × Decoder). IsDecoder r.1) (match_offset d slot use_aligned)
unfolding match_offset
match_offset-IsDecoder d slot use_aligned k =
    Finishes-if (ltb slot 3)
      (λ near.
        Finishes-bind (promote-Finishes d.recent slot k.recent (ltb→lt slot 3 near))
          λ (offset, recent') h. value (with_recent d d.b recent' k h))
      (λ _. Finishes-guard (ltb slot 31) lzx_corrupt λ low.
        let fits : slot < 31 = ltb→lt slot 31 low in
        rw (at-eq footer_bits slot 0 fits) (
          Finishes-bind (extra_bits-Finishes d (get_or footer_bits slot 0) use_aligned k)
            λ (verbatim, aligned, b') _. rw (at-eq base_position slot 0 fits) (
              Finishes-bind (shift_in-Finishes d.recent _ k.recent)
                λ recent' h. value (with_recent d b' recent' k h))))

pub copy_match-Finishes :
    (n : ℕ) (window : List ℕ) (i offset : ℕ)
    → offset ≤ i
    → i + n ≤ length window
    → Finishes (λ w. length w ≡ length window) (copy_match n window i offset)
unfolding copy_match
copy_match-Finishes zero window i offset lo hi = value refl
copy_match-Finishes (suc n) window i offset lo hi =
    let v = get_or window (i - offset) 0 in
    rw
      (
        le→leb offset i lo,
        at-eq window (i - offset) 0 (omega arith),
        put-eq window i v (omega arith),
      )
      (Finishes-map (λ w e. e ∙ length-set window i v)
        (copy_match-Finishes n (set window i v) (i + 1) offset (omega arith)
          (omega (arith, length-set window i v))))

-- What a round of the loop leaves: the same window but for its bytes, and a position further on
-- that does not pass the end.
pub record IsRound (window : List ℕ) (i end : ℕ) (r : Round) : Type 0 where
  pub decoder : IsDecoder r.0
  pub size : length r.1 ≡ length window
  pub forward : i < r.2
  pub inside : r.2 ≤ end

in_reach :
    (offset i end len : ℕ)
    → i < end
    → not (offset == 0 || ltb i offset || ltb (end - i) len) ≡ true
    → (offset ≤ i) × (i + len ≤ end)
in_reach offset i end len h e = ground arith

decode_match-IsRound :
    (d : Decoder) (window : List ℕ) (i end s : ℕ) (use_aligned : Bool)
    → IsDecoder d
    → i < end
    → end ≤ length window
    → Finishes (IsRound window i end) (decode_match d window i end s use_aligned)
unfolding decode_match
decode_match-IsRound d window i end s use_aligned k hi he =
    Finishes-bind (match_length-Finishes d s k) λ (len, d1) (long, k1).
      Finishes-bind (match_offset-IsDecoder d1 ((s - 256) / 8) use_aligned k1) λ (offset, d2) k2.
        Finishes-guard (not (offset == 0 || ltb i offset || ltb (end - i) len)) lzx_corrupt λ e.
          let (near, room) = in_reach offset i end len hi e in
          Finishes-bind (copy_match-Finishes len window i offset near (omega arith)) λ w same.
            value (record { decoder = k2; size = same; forward = omega arith; inside = room })

pub decode_round-IsRound :
    (d : Decoder) (window : List ℕ) (i end : ℕ) (use_aligned : Bool)
    → IsDecoder d
    → i < end
    → end ≤ length window
    → Finishes (IsRound window i end) (decode_round d window i end use_aligned)
unfolding decode_round
decode_round-IsRound d window i end use_aligned k hi he =
    Finishes-bind (checked_sym-Finishes d.b d.main k.main) λ (s, b1) _.
      Finishes-if (ltb s 256)
        (λ _. rw (put-eq window i (u8 s) (omega arith)) (
          value (record {
            decoder = with_reader d b1 k;
            size = length-set window i (u8 s);
            forward = omega arith;
            inside = omega arith;
          })))
        (λ _.
          decode_match-IsRound (record d { b = b1 }) window i end s use_aligned (with_reader d b1 k)
            hi he)
