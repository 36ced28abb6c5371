-- ===== src/Prelude/Bits.antt =====
-- The binary operations on numbers: their digits, one by one, and their size.
use Prim.Native.Nat.{
  ℕ, zero, suc, ◌+◌, ◌*◌, ◌/◌, ◌%◌, ◌^◌, ◌≤◌, ◌<◌, max, bit_or, bit_xor, differ, digits,
  bit_or-bitwise, bit_xor-bitwise,
}
use mathlib.Core.Logic.{inl, inr}
use ddls.Prelude.Tests.{Nat-cases}
use mathlib.Core.Path.{◌≡◌, refl, sym, ap, ◌∙◌}
use native.Mathlib.Omega.{arith}
use native.Mathlib.Nat.{pow-suc}

-- x >> s on an unsigned number.
unfoldable pub shift_right : ℕ → ℕ → ℕ
shift_right x zero = x
shift_right x (suc s) = shift_right (x / 2) s

-- The binary digit at position i.
pub bit : ℕ → ℕ → ℕ
bit x zero = x % 2
bit x (suc i) = bit (x / 2) i

pub bit-shift_right : (x s i : ℕ) → bit (shift_right x s) i ≡ bit x (s + i)
unfolding bit shift_right
bit-shift_right x zero i = let none : 0 + i ≡ i = omega arith in rw none
bit-shift_right x (suc s) i =
    let next : suc s + i ≡ suc (s + i) = omega arith in rw next (bit-shift_right (x / 2) s i)

pub bit-le : (x i : ℕ) → bit x i ≤ 1
unfolding bit
bit-le x zero = omega arith
bit-le x (suc i) = bit-le (x / 2) i

bit-zero : (i : ℕ) → bit 0 i ≡ 0
unfolding bit
bit-zero zero = refl
bit-zero (suc i) = bit-zero i

-- An operation on two binary digits, of which the first may be missing.
record IsDigitOp (op : ℕ → ℕ → ℕ) : Type 0 where
  skip : (y : ℕ) → op 0 y ≡ y
  small : (x y : ℕ) → x ≤ 1 → y ≤ 1 → op x y ≤ 1

module _ (op : ℕ → ℕ → ℕ) (is : IsDigitOp op) where
  digit-le : (a b : ℕ) → op (a % 2) (b % 2) ≤ 1
  digit-le a b = is.small (a % 2) (b % 2) (omega arith) (omega arith)

  missing : (b i : ℕ) → bit b i ≡ op (bit 0 i) (bit b i)
  missing b i = rw (bit-zero i) (sym (is.skip (bit b i)))

  bit-digits :
      (fuel a b i : ℕ) → a ≤ fuel → bit (digits (λ y. y) op fuel a b) i ≡ op (bit a i) (bit b i)
  unfolding bit
  bit-digits zero zero b i h = missing b i
  bit-digits zero (suc a) b i h = absurd (omega arith)
  bit-digits (suc fuel) zero b i h = missing b i
  bit-digits (suc fuel) (suc a) b zero h = let low = digit-le (suc a) b in omega (arith, low)
  bit-digits (suc fuel) (suc a) b (suc i) h =
      let high = digits (λ y. y) op fuel (suc a / 2) (b / 2) in
      let low = digit-le (suc a) b in
      let half : (high * 2 + op (suc a % 2) (b % 2)) / 2 ≡ high = omega (arith, low) in
      rw half (bit-digits fuel (suc a / 2) (b / 2) i (omega arith))

  digits-lt : (fuel n a b : ℕ) → a < 2 ^ n → b < 2 ^ n → digits (λ y. y) op fuel a b < 2 ^ n
  digits-lt zero n a b p q = q
  digits-lt (suc fuel) n zero b p q = q
  digits-lt (suc fuel) zero (suc a) b p q = absurd (omega arith)
  digits-lt (suc fuel) (suc n) (suc a) b p q =
      let double = pow-suc 2 n in
      let low = digit-le (suc a) b in
      let high =
        digits-lt fuel n (suc a / 2) (b / 2) (omega (arith, double)) (omega (arith, double)) in
      omega (arith, double, low, high)

max-IsDigitOp : IsDigitOp max
max-IsDigitOp = record { skip = λ y. omega arith; small = λ x y p q. omega arith }

differ-small : (x y : ℕ) → x ≤ 1 → y ≤ 1 → differ x y ≤ 1
differ-small zero y p q = q
differ-small (suc zero) zero p q = p
differ-small (suc zero) (suc y) p q = omega arith
differ-small (suc (suc x)) y p q = absurd (omega arith)

differ-IsDigitOp : IsDigitOp differ
differ-IsDigitOp = record { skip = λ y. refl; small = differ-small }

pub bit-bit_or : (a b i : ℕ) → bit (bit_or a b) i ≡ max (bit a i) (bit b i)
bit-bit_or a b i =
    ap (λ c. bit c i) (bit_or-bitwise a b) ∙ bit-digits max max-IsDigitOp a a b i (omega arith)

pub bit_or-lt : (n a b : ℕ) → a < 2 ^ n → b < 2 ^ n → bit_or a b < 2 ^ n
bit_or-lt n a b p q = omega (arith, bit_or-bitwise a b, digits-lt max max-IsDigitOp a n a b p q)

pub bit_xor-lt : (n a b : ℕ) → a < 2 ^ n → b < 2 ^ n → bit_xor a b < 2 ^ n
bit_xor-lt n a b p q =
    omega (arith, bit_xor-bitwise a b, digits-lt differ differ-IsDigitOp a n a b p q)

pub shift_right-le : (x s : ℕ) → shift_right x s ≤ x
unfolding shift_right
shift_right-le x zero = omega arith
shift_right-le x (suc s) = omega (arith, shift_right-le (x / 2) s)

pub bit_or-one : (k z : ℕ) → ((i : ℕ) → i ≤ k → bit z i ≡ 1) → z < 2 ^ suc k → z + 1 ≡ 2 ^ suc k
unfolding bit
bit_or-one zero z ones h = omega (arith, ones 0 (omega arith))
bit_or-one (suc k) z ones h = omega (
  arith,
  ones 0 (omega arith),
  bit_or-one k (z / 2) (λ i le. ones (suc i) (omega arith)) (omega (arith, pow-suc 2 (suc k))),
  pow-suc 2 (suc k),
)

-- The highest digit of a number.
pub top_bit :
    (n y : ℕ)
    → 0 < y
    → y < 2 ^ n
    → (k : ℕ) × (k < n) × (2 ^ k ≤ y) × (y < 2 ^ suc k) × (bit y k ≡ 1)
unfolding bit
top_bit zero y pos h = absurd (omega arith)
top_bit (suc n) y pos h = elim (Nat-cases y 1) [
  | inl e ↦ (0, omega arith, omega arith, omega arith, omega arith)
  | inr ne ↦
      let (k, lt, low, high, one) = top_bit n (y / 2) (omega arith) (omega (arith, pow-suc 2 n)) in
      (suc k, omega arith, omega (arith, pow-suc 2 k), omega (arith, pow-suc 2 (suc k)), one)
]
