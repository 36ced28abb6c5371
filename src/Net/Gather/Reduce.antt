-- ===== src/Net/Gather/Reduce.antt =====
-- Every machine ends with the same reduction of all inputs.
use ddls.Prelude.{
  ℕ, zero, suc, ◌+◌, ◌-◌, ◌*◌, ◌^◌, ◌<◌, ◌≡◌, sym, ap, ap₂, ◌∙◌, List, [], ◌++◌, some, take, drop,
  length, append_assoc, append-nil, arith, lt→ltb,
}
use ddls.Net.Engine.{take_front, drop_front}
use ddls.Net.Gather.{block_start, reduced, allreduce_by_all_gather}
use ddls.Net.Gather.Laws.{all_blocks, length-all_blocks, allgather-all_blocks}

module _ {ℓ} {A : Type ℓ} (n size : ℕ) (input : ℕ → List A) where
  abbrev same_size : ℕ → ℕ
  same_size r = size

  -- The inputs reduced into the first, in the order of the ranks.
  unfoldable pub reduction : (List A → List A → List A) → ℕ → List A
  reduction reducer zero = input 0
  reduction reducer (suc i) = reducer (input (suc i)) (reduction reducer i)

  -- The blocks of all ranks from one on.
  later : ℕ → ℕ → List A
  later r zero = []
  later r (suc count) = input r ++ later (suc r) count

  all_blocks-later :
      (r count : ℕ)
      → all_blocks n same_size input (r + count) ≡ all_blocks n same_size input r ++ later r count
  unfolding later all_blocks
  all_blocks-later r zero =
      let here : r + 0 ≡ r = omega arith in
      ap (all_blocks n same_size input) here ∙ sym (append-nil (all_blocks n same_size input r))
  all_blocks-later r (suc count) =
      let next : r + suc count ≡ suc r + count = omega arith in
      ap (all_blocks n same_size input) next
      ∙ all_blocks-later (suc r) count
      ∙ append_assoc (all_blocks n same_size input r) (input r) (later (suc r) count)

  module _ (sized : (r : ℕ) → r < n → length (input r) ≡ size) (pos : 0 < n) where
    block-at :
        (i : ℕ)
        → i < n
        → take size (drop (block_start n same_size i) (all_blocks n same_size input n)) ≡ input i
    unfolding later
    block-at i lt =
        let m = n - suc i in
        let count : n ≡ i + suc m = omega arith in
        let before = all_blocks n same_size input i in
        let behind = later (suc i) m in
        let start = length-all_blocks n same_size input sized pos i (omega arith) in
        ap (λ b. take size (drop (block_start n same_size i) b))
          (ap (all_blocks n same_size input) count ∙ all_blocks-later i (suc m))
        ∙ ap (take size) (drop_front (block_start n same_size i) before (input i ++ behind) start)
        ∙ take_front size (input i) behind (sized i lt)

    reduced-reduction :
        (reducer : List A → List A → List A) (i : ℕ)
        → i < n
        → reduced n same_size input reducer size (all_blocks n same_size input n) i
          ≡ reduction reducer i
    unfolding reduced reduction block_start
    reduced-reduction reducer zero lt = block-at 0 lt
    reduced-reduction reducer (suc i) lt =
        ap₂ reducer (block-at (suc i) lt) (reduced-reduction reducer i (omega arith))

    -- For inputs of one size, where an int holds the size of all: AllreduceByAllGather returns on every machine, and on each the output is
    -- the inputs of all machines, reduced in the order of the ranks.
    pub allreduce_by_all_gather-reduction :
        (reducer : List A → List A → List A) (rank : ℕ)
        → rank < n
        → size * n < 2 ^ 31
        → allreduce_by_all_gather n size reducer input rank ≡ some (reduction reducer (n - 1))
    unfolding allreduce_by_all_gather
    allreduce_by_all_gather-reduction reducer rank lt int_size =
        rw
          (
            lt→ltb (size * n) (2 ^ 31) int_size,
            allgather-all_blocks n same_size input sized pos rank lt,
          )
          (ap some (reduced-reduction reducer (n - 1) (omega (arith, pos))))
