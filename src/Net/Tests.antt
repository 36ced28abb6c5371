-- ===== src/Net/Tests.antt =====
-- Five machines, and four for recursive halving.
use ddls.Prelude.{ℕ, List, take, ◌+◌, ◌<◌, ◌≢◌, ◌⊎◌, ◌≡◌, refl, [], ◌∷◌, arith, some}
use ddls.Net.Topology.{
  partner, exchange, recursive_halving_map, halving_steps, group_map, node_types, group_all,
  add_to_group, opens_group, group_exchange, starts_from, sum_len,
}
use ddls.Net.Gather.{block_start, allgather, allreduce_by_all_gather}
use ddls.Net.Gather.Reduce.{reduction, allreduce_by_all_gather-reduction}
use ddls.Net.Gather.Laws.{all_blocks, allgather-all_blocks}
use ddls.Net.Scatter.{
  is_powerof_2, size_of_blocks, bytes_at, reduce_at, from_neighbor, grouped, halved, reduced_block,
  reduce_scatter, scattered,
}
use ddls.Net.Topology.Pairs.{Within, partner-exchange}

partner-exchange_example :
    let e = exchange 1 2 in
    let e' = exchange e.rank 2 in
    (e.rank < 4)
    × (e.rank ≢ 1)
    × (e'.rank ≡ 1)
    × ((e.send_block_start ≡ e'.recv_block_start) × (e.send_block_len ≡ e'.recv_block_len))
    × ((e'.send_block_start ≡ e.recv_block_start) × (e'.send_block_len ≡ e.recv_block_len))
    × Within e.recv_block_start e.recv_block_len 1
    × Within e.send_block_start e.send_block_len e.rank
    × (((e.recv_block_start ≡ 0) × (e.send_block_start ≡ e.recv_block_start + e.recv_block_len))
        ⊎ ((e.send_block_start ≡ 0) × (e.recv_block_start ≡ e.send_block_start + e.send_block_len)))
partner-exchange_example = partner-exchange 2 1 1 (omega arith) (omega arith)

-- With five machines the last two make a group, and the last takes no part in the exchanges.
last_of_five : (recursive_halving_map 4 5).neighbor ≡ some 3
unfolding recursive_halving_map halving_steps group_map node_types group_all add_to_group
    opens_group group_exchange partner starts_from sum_len
last_of_five = refl

-- Five machines with two bytes each.
abbrev two_bytes : ℕ → List ℕ
two_bytes rank = rank ∷ rank ∷ []

allgather-all_blocks_example :
    allgather 5 (λ rank. 2) two_bytes 3 ≡ some (all_blocks 5 (λ rank. 2) two_bytes 5)
allgather-all_blocks_example =
    allgather-all_blocks 5 (λ rank. 2) two_bytes (λ r lt. refl) (omega arith) 3 (omega arith)

gathered_by_three :
    all_blocks 5 (λ rank. 2) two_bytes 5 ≡ 0 ∷ 0 ∷ 1 ∷ 1 ∷ 2 ∷ 2 ∷ 3 ∷ 3 ∷ 4 ∷ 4 ∷ []
unfolding all_blocks
gathered_by_three = refl

-- The inputs of five machines, of which the second is added up with the first, and so on.
abbrev first_sum : List ℕ → List ℕ → List ℕ
first_sum [] dst = dst
first_sum (x ∷ src) [] = []
first_sum (x ∷ src) (y ∷ dst) = (x + y) ∷ dst

allreduce_by_all_gather-reduction_example :
    allreduce_by_all_gather 5 2 first_sum two_bytes 3 ≡ some (reduction 5 2 two_bytes first_sum 4)
allreduce_by_all_gather-reduction_example =
    allreduce_by_all_gather-reduction 5 2 two_bytes (λ r lt. refl) (omega arith) first_sum 3
      (omega arith) (omega arith)

ten : reduction 5 2 two_bytes first_sum 4 ≡ 10 ∷ 0 ∷ []
unfolding reduction
ten = refl

-- The sum of two arrays, as far as the second goes.
abbrev sums : List ℕ → List ℕ → List ℕ
sums src [] = []
sums [] (y ∷ dst) = y ∷ dst
sums (x ∷ src) (y ∷ dst) = (x + y) ∷ sums src dst

abbrev four_bytes : ℕ → List ℕ
four_bytes rank = rank ∷ (rank + 10) ∷ (rank + 100) ∷ (rank + 1000) ∷ []

-- Each of four machines has the sum of its block.
summed_on_four :
    scattered 4 (λ r. 1) sums 4 four_bytes 4
    ≡ some ((6 ∷ []) ∷ (46 ∷ []) ∷ (406 ∷ []) ∷ (4006 ∷ []) ∷ [])
unfolding scattered reduce_scatter reduced_block halved grouped from_neighbor reduce_at bytes_at
    size_of_blocks is_powerof_2 recursive_halving_map halving_steps group_map node_types group_all
    add_to_group opens_group group_exchange exchange partner starts_from sum_len block_start
summed_on_four = refl

-- Of three machines the last two are a group.
summed_on_three :
    scattered 3 (λ r. 1) sums 3 (λ r. take 3 (four_bytes r)) 3
    ≡ some ((3 ∷ []) ∷ (33 ∷ []) ∷ (303 ∷ []) ∷ [])
unfolding scattered reduce_scatter reduced_block halved grouped from_neighbor reduce_at bytes_at
    size_of_blocks is_powerof_2 recursive_halving_map halving_steps group_map node_types group_all
    add_to_group opens_group group_exchange exchange partner starts_from sum_len block_start
summed_on_three = refl
