-- ===== src/Common/Hash.antt =====
-- MurmurHash64B of common/hash.h, on the bytes of the key; words are of 32 bits and little-endian.
use ddls.Prelude.{
  ℕ, zero, suc, ◌*◌, ◌%◌, ◌^◌, ◌<◌, List, [], ◌∷◌, bit_or, bit_xor, bit_or-lt, shift_right, leb,
  if◌then◌else◌, take, drop, length, length-drop, arith, Bool-cases, inl, inr, ◌≤◌,
}
use native.Mathlib.Nat.{mod-lt}
use ddls.Message.Wire.{Byte, of_bytes}

abbrev pub word_size : ℕ
word_size = 2 ^ 32

-- const unsigned int m
abbrev pub multiplier : ℕ
multiplier = 0x5bd1e995

-- h *= m
unfoldable pub times_m : ℕ → ℕ
times_m h = (h * multiplier) % word_size

-- k *= m; k ^= k >> r; k *= m, with r = 24.
unfoldable pub mix : ℕ → ℕ
mix k = let k' = times_m k in times_m (bit_xor k' (shift_right k' 24))

-- h *= m; h ^= k
unfoldable pub mix_in : ℕ → ℕ → ℕ
mix_in h k = bit_xor (times_m h) (mix k)

-- while (len >= 8), on fuel: the two hashes and the bytes that are left.
unfoldable pub pairs_of_words : ℕ → ℕ → ℕ → List Byte → ℕ × ℕ × List Byte
pairs_of_words zero h1 h2 data_ = (h1, h2, data_)
pairs_of_words (suc fuel) h1 h2 data_ =
    let more =
      pairs_of_words fuel (mix_in h1 (of_bytes (take 4 data_)))
        (mix_in h2 (of_bytes (take 4 (drop 4 data_)))) (drop 8 data_) in
    if leb 8 (length data_) then more else (h1, h2, data_)

-- if (len >= 4)
unfoldable pub last_word : ℕ → List Byte → ℕ × List Byte
last_word h1 data_ =
    if leb 4 (length data_)
    then (mix_in h1 (of_bytes (take 4 data_)), drop 4 data_)
    else (h1, data_)

-- switch (len), where each case goes on in the next.
unfoldable pub last_bytes : ℕ → List Byte → ℕ
last_bytes h2 [] = h2
last_bytes h2 (a ∷ []) = times_m (bit_xor h2 a)
last_bytes h2 (a ∷ b ∷ []) = times_m (bit_xor (bit_xor h2 (b * 2 ^ 8)) a)
last_bytes h2 (a ∷ b ∷ c ∷ rest) =
    times_m (bit_xor (bit_xor (bit_xor h2 (c * 2 ^ 16)) (b * 2 ^ 8)) a)

-- h ^= g >> s; h *= m
unfoldable pub stir : ℕ → ℕ → ℕ → ℕ
stir s h g = times_m (bit_xor h (shift_right g s))

-- The four last steps and the result of 64 bits.
unfoldable pub finish : ℕ → ℕ → ℕ
finish h1 h2 =
    let a1 = stir 18 h1 h2 in
    let a2 = stir 22 h2 a1 in
    let b1 = stir 17 a1 a2 in let b2 = stir 19 a2 b1 in bit_or (b1 * word_size) b2

unfoldable pub murmur_hash64_b : List Byte → ℕ → ℕ
murmur_hash64_b key seed =
    let words = pairs_of_words (length key) (bit_xor seed (length key)) 0 key in
    let word = last_word words.0 words.2 in finish word.0 (last_bytes words.1 word.1)

times_m-lt : (h : ℕ) → times_m h < 2 ^ 32
unfolding times_m
times_m-lt h = mod-lt (h * multiplier) (omega arith)

finish-lt : (h1 h2 : ℕ) → finish h1 h2 < 2 ^ 64
unfolding finish stir
finish-lt h1 h2 =
    let a1 = stir 18 h1 h2 in
    let a2 = stir 22 h2 a1 in
    let b1 = stir 17 a1 a2 in
    let high = times_m-lt (bit_xor a1 (shift_right a2 17)) in
    let low = times_m-lt (bit_xor a2 (shift_right b1 19)) in
    bit_or-lt 64 _ _ (omega (arith, high)) (omega (arith, low))

pairs_of_words-rest :
    (fuel h1 h2 : ℕ) (data_ : List Byte)
    → length data_ ≤ fuel
    → length (pairs_of_words fuel h1 h2 data_).2 < 8
unfolding pairs_of_words
pairs_of_words-rest zero h1 h2 data_ h = omega (arith, h)
pairs_of_words-rest (suc fuel) h1 h2 data_ h = elim (Bool-cases (leb 8 (length data_))) [
  | inl e ↦
      rw e (pairs_of_words-rest fuel _ _ (drop 8 data_) (ground (arith, e, h, length-drop 8 data_)))
  | inr e ↦ rw e (ground (arith, e))
]

-- The hash is a number of 64 bits, and the loop over pairs of words leaves fewer than eight bytes,
-- which the word and the bytes after it take up.
pub murmur_hash64_b-lt :
    (key : List Byte) (seed : ℕ)
    → (murmur_hash64_b key seed < 2 ^ 64)
      × (length (pairs_of_words (length key) (bit_xor seed (length key)) 0 key).2 < 8)
unfolding murmur_hash64_b
murmur_hash64_b-lt key seed = (
  finish-lt _ _,
  pairs_of_words-rest (length key) (bit_xor seed (length key)) 0 key (omega arith),
)
