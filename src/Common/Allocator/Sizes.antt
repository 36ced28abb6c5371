-- ===== src/Common/Allocator/Sizes.antt =====
-- The size classes of the smart allocator are powers of two.
use ddls.Prelude.{
  ℕ, suc, ◌+◌, ◌-◌, ◌*◌, ◌%◌, ◌^◌, ◌≤◌, ◌<◌, ◌≡◌, refl, sym, ap, ◌∙◌, ◌⊎◌, inl, inr, arith, bit,
  shift_right, bit-shift_right, bit-bit_or, bit-le, bit_or-lt, bit_or-one, shift_right-le,
  Bool-cases, leb, top_bit,
}
use ddls.Common.Allocator.{smear, alloc_size}
use native.Mathlib.Nat.{pow-suc, mod-eq_of_lt, pow-le-pow_right}

-- The digits of z at a distance below k, in steps of u, are ones.
Ones : ℕ → ℕ → ℕ → Type 0
Ones k u z = (d : ℕ) → d ≤ k → d < 64 → d % u ≡ 0 → bit z (k - d) ≡ 1

smear-Ones :
    (k s u z : ℕ)
    → ((d : ℕ) → d % s ≡ 0 → (d % u ≡ 0) ⊎ ((s ≤ d) × ((d - s) % u ≡ 0)))
    → Ones k u z
    → Ones k s (smear s z)
unfolding Ones smear
smear-Ones k s u z halve ones d le lt at = elim (halve d at) [
  | inl e ↦ omega (
    arith,
    bit-bit_or z (shift_right z s) (k - d),
    ones d le lt e,
    bit-le (shift_right z s) (k - d),
  )
  | inr (far, e) ↦
      let place : s + (k - d) ≡ k - (d - s) = omega arith in
      omega (
        arith,
        bit-bit_or z (shift_right z s) (k - d),
        bit-shift_right z s (k - d),
        ap (bit z) place,
        bit-le z (k - d),
        ones (d - s) (omega arith) (omega arith) e,
      )
]

smear-lt : (k s z : ℕ) → z < 2 ^ k → smear s z < 2 ^ k
unfolding smear
smear-lt k s z h = bit_or-lt k z (shift_right z s) h (omega (arith, shift_right-le z s))

smear_all : ℕ → ℕ
smear_all y = smear 1 (smear 2 (smear 4 (smear 8 (smear 16 (smear 32 y)))))

smear_all-lt : (k y : ℕ) → y < 2 ^ k → smear_all y < 2 ^ k
unfolding smear_all
smear_all-lt k y h =
    smear-lt k 1 _
      (smear-lt k 2 _ (smear-lt k 4 _ (smear-lt k 8 _ (smear-lt k 16 _ (smear-lt k 32 y h)))))

smear_all-Ones : (k y : ℕ) → Ones k 64 y → Ones k 1 (smear_all y)
unfolding smear_all
smear_all-Ones k y ones =
    smear-Ones k 1 2 _ (λ d at. omega arith)
      (smear-Ones k 2 4 _ (λ d at. omega arith)
        (smear-Ones k 4 8 _ (λ d at. omega arith)
          (smear-Ones k 8 16 _ (λ d at. omega arith)
            (smear-Ones k 16 32 _ (λ d at. omega arith)
              (smear-Ones k 32 64 y (λ d at. omega arith) ones)))))

smear_all-pow : (k y : ℕ) → k < 63 → y < 2 ^ suc k → bit y k ≡ 1 → smear_all y + 1 ≡ 2 ^ suc k
unfolding Ones
smear_all-pow k y h lt one =
    let start : Ones k 64 y = λ d le small at. let here : k - d ≡ k = omega arith in rw here one in
    let ones = smear_all-Ones k y start in
    bit_or-one k (smear_all y)
      (λ i le.
        let place : k - (k - i) ≡ i = omega arith in
        sym (ap (bit (smear_all y)) place) ∙ ones (k - i) (omega arith) (omega arith) (omega arith))
      (smear_all-lt (suc k) y lt)

-- A request of up to 2^63 bytes is served from the list of a power of two that holds it; the power is
-- 32, or less than twice the request.
pub alloc_size-pow :
    (size : ℕ)
    → size ≤ 2 ^ 63
    → (k : ℕ) × (alloc_size size ≡ 2 ^ k) × (size ≤ 2 ^ k) × ((k ≡ 5) ⊎ (2 ^ k < 2 * size))
unfolding alloc_size smear_all
alloc_size-pow size high = elim (Bool-cases (leb size 32)) [
  | inl e ↦ (5, rw e, ground (arith, e), inl refl)
  | inr e ↦
      let low : 32 < size = ground (arith, e) in
      let (k, lt, le, up, one) = top_bit 63 (size - 1) (omega arith) (omega arith) in
      let sum = smear_all-pow k (size - 1) lt up one in
      let bound : 2 ^ suc k ≤ 2 ^ 63 = pow-le-pow_right (omega arith) lt in
      let small : 2 ^ suc k < 2 ^ 64 = omega (arith, bound) in
      (
        suc k,
        rw e (ap (λ x. x % 2 ^ 64) sum ∙ mod-eq_of_lt small),
        omega (arith, pow-suc 2 k),
        inr (omega (arith, pow-suc 2 k)),
      )
]
