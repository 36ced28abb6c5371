-- ===== src/Net/Engine.antt =====
-- net/allreduce_engine.cc: the blocks of Allreduce, how many blocks Allgather has, and its last
-- rotation. Sizes do not pass an int.
use ddls.Prelude.{
  ℕ, zero, suc, ◌+◌, ◌-◌, ◌*◌, ◌/◌, ◌^◌, ◌≤◌, ◌<◌, ◌≡◌, refl, sym, ap, ◌∙◌, List, [], ◌∷◌, ◌++◌,
  ltb, if◌then◌else◌, reverse, take, drop, length, min, arith, take-append, drop-append,
  length-append,
}
use ddls.Net.Topology.{bruck_steps}
use mathlib.Core.List.{reverse-append, reverse-cons, reverse-reverse}
use native.Mathlib.Nat.{pow-suc, one-le-pow}

-- The blocks of `step` bytes that `Allreduce` assigns to the machines, the last the rest: their
-- lengths, with `left` bytes and `n` machines to go.
unfoldable pub block_lens : ℕ → ℕ → ℕ → List ℕ
block_lens step left zero = []
block_lens step left (suc zero) = left ∷ []
block_lens step left (suc (suc n)) =
    let len = if ltb step left then step else left in len ∷ block_lens step (left - len) (suc n)

-- (count + num_machines - 1) / num_machines elements of `type_size` bytes, at least one.
unfoldable pub assign_blocks : ℕ → ℕ → ℕ → List ℕ
assign_blocks input_size type_size num_machines =
    let step = (input_size / type_size + num_machines - 1) / num_machines in
    block_lens ((if ltb step 1 then 1 else step) * type_size) input_size num_machines

-- The number of blocks at hand before round `i` of Allgather.
unfoldable pub accumulated : ℕ → ℕ → ℕ
accumulated num_machines zero = 1
accumulated num_machines (suc i) =
    let accumulated_block = accumulated num_machines i in
    accumulated_block
    + (if ltb (2 ^ i) (num_machines - accumulated_block)
        then 2 ^ i
        else num_machines - accumulated_block)

-- The three calls of std::reverse, `start` being block_start[rank_].
unfoldable pub rotate_right {ℓ} : {A : Type ℓ} → ℕ → List A → List A
rotate_right start output =
    let turned = reverse output in
    let first = reverse (take start turned) ++ drop start turned in
    take start first ++ reverse (drop start first)

pub sum_of : List ℕ → ℕ
sum_of [] = 0
sum_of (x ∷ xs) = x + sum_of xs

-- The blocks that `Allreduce` assigns: one for each machine, and together all the input.
pub block_lens-sum_of :
    (step left n : ℕ)
    → 0 < n
    → (sum_of (block_lens step left n) ≡ left) × (length (block_lens step left n) ≡ n)
unfolding block_lens sum_of
block_lens-sum_of step left zero pos = absurd (omega arith)
block_lens-sum_of step left (suc zero) pos = (omega arith, refl)
block_lens-sum_of step left (suc (suc n)) pos =
    let len = if ltb step left then step else left in
    let (sum, count) = block_lens-sum_of step (left - len) (suc n) (omega arith) in
    (ground (arith, sum), ap suc count)

accumulated-min : (n i : ℕ) → 0 < n → accumulated n i ≡ min (2 ^ i) n
unfolding accumulated
accumulated-min n zero pos = omega arith
accumulated-min n (suc i) pos =
    let double : 2 ^ suc i ≡ 2 ^ i * 2 = pow-suc 2 i in
    ground (arith, accumulated-min n i pos, double)

bruck_steps-enough : (fuel k n : ℕ) → n ≤ 2 ^ k + fuel → n ≤ 2 ^ bruck_steps fuel k n
unfolding bruck_steps
bruck_steps-enough zero k n h = omega arith
bruck_steps-enough (suc fuel) k n h =
    let double : 2 ^ suc k ≡ 2 ^ k * 2 = pow-suc 2 k in
    let one : 2 ^ (k + 1) ≡ 2 ^ suc k = ap (λ j. 2 ^ j) (omega arith) in
    let some : 1 ≤ 2 ^ k = one-le-pow k 2 (omega arith) in
    ground (arith, bruck_steps-enough fuel (k + 1) n, double, one, some)

-- After the rounds of the Bruck map, all blocks are at hand; before round `i` there are 2^i of them,
-- or all.
pub accumulated-all :
    (num_machines i : ℕ)
    → 0 < num_machines
    → (accumulated num_machines i ≡ min (2 ^ i) num_machines)
      × (accumulated num_machines (bruck_steps num_machines 0 num_machines) ≡ num_machines)
accumulated-all n i pos = (
  accumulated-min n i pos,
  omega (arith, accumulated-min n (bruck_steps n 0 n) pos, bruck_steps-enough n 0 n (omega arith)),
)

pub take_front {ℓ} : {A : Type ℓ} (n : ℕ) (xs ys : List A) → length xs ≡ n → take n (xs ++ ys) ≡ xs
take_front n xs ys h = ap (λ k. take k (xs ++ ys)) (sym h) ∙ take-append xs ys

pub drop_front {ℓ} : {A : Type ℓ} (n : ℕ) (xs ys : List A) → length xs ≡ n → drop n (xs ++ ys) ≡ ys
drop_front n xs ys h = ap (λ k. drop k (xs ++ ys)) (sym h) ∙ drop-append xs ys

length-reverse {ℓ} : {A : Type ℓ} (xs : List A) → length (reverse xs) ≡ length xs
length-reverse [] = refl
length-reverse (x ∷ xs) =
    ap length (reverse-cons x xs)
    ∙ omega (arith, length-append (reverse xs) (x ∷ []), length-reverse xs)

-- The three reversals put the blocks that were gathered last, `start` bytes, in front of the others.
pub rotate_right-append {ℓ} :
    {A : Type ℓ} (start : ℕ) (xs ys : List A)
    → length ys ≡ start
    → rotate_right start (xs ++ ys) ≡ ys ++ xs
unfolding rotate_right
rotate_right-append start xs ys h =
    let turned = reverse-append xs ys in
    let size : length (reverse ys) ≡ start = length-reverse ys ∙ h in
    let front = take_front start (reverse ys) (reverse xs) size in
    let back = drop_front start (reverse ys) (reverse xs) size in
    rw (
      turned,
      front,
      back,
      reverse-reverse ys,
      take_front start ys (reverse xs) h,
      drop_front start ys (reverse xs) h,
      reverse-reverse xs,
    )
