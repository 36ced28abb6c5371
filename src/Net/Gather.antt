-- ===== src/Net/Gather.antt =====
-- Allgather of net/allreduce_engine.cc on all machines at once. A round sends one message from each
-- machine; SendRecv is the linkers': what arrives is what was sent, and a receiver that gets another
-- number of bytes than it waits for, or a message that was sent elsewhere, is `none`.
pub mod Laws
pub mod Reduce
use ddls.Prelude.{
  ℕ, zero, suc, ◌+◌, ◌-◌, ◌*◌, ◌%◌, ◌^◌, List, [], ◌∷◌, ◌++◌, Option, none, some, ◌>>=◌, ◌>>◌,
  check, ltb, ◌==◌, if◌then◌else◌, take, drop, length,
}
use ddls.Net.Topology.{bruck_steps, in_rank, out_rank}
use ddls.Net.Engine.{accumulated, rotate_right}

-- cur_block_size of round i.
unfoldable pub cur_block_size : ℕ → ℕ → ℕ → ℕ
cur_block_size num_machines i accumulated_block =
    if ltb (2 ^ i) (num_machines - accumulated_block)
    then 2 ^ i
    else num_machines - accumulated_block

module _ (num_machines : ℕ) (block_len : ℕ → ℕ) where
  -- The bytes of `count` blocks from a rank on: send_len, and need_recv_cnt.
  unfoldable pub len_from : ℕ → ℕ → ℕ
  len_from start zero = 0
  len_from start (suc count) = block_len (start % num_machines) + len_from (suc start) count

  -- The sum of the blocks before a rank.
  unfoldable pub block_start : ℕ → ℕ
  block_start zero = 0
  block_start (suc rank) = block_start rank + block_len rank

  module _ {ℓ} {A : Type ℓ} (input : ℕ → List A) where
    -- The message that a machine gets in round i, where `theirs` is the output of its sender.
    unfoldable pub received : ℕ → ℕ → List A → Option (List A)
    received i rank theirs =
        let accumulated_block = accumulated num_machines i in
        let count = cur_block_size num_machines i accumulated_block in
        let incoming = in_rank num_machines (2 ^ i) rank in
        let message = take (len_from incoming count) theirs in
        check (out_rank num_machines (2 ^ i) incoming == rank)
        >> check (length message == len_from (rank + accumulated_block) count)
        >> some message

    -- The output of a machine before round i.
    unfoldable pub output : ℕ → ℕ → Option (List A)
    output zero rank = some (take (block_len rank) (input rank))
    output (suc i) rank = do
      own ← output i rank
      theirs ← output i (in_rank num_machines (2 ^ i) rank)
      message ← received i rank theirs
      some (own ++ message)

    -- Allgather: the rounds of the Bruck map, and the rotation.
    unfoldable pub allgather : ℕ → Option (List A)
    allgather rank = do
      out ← output (bruck_steps num_machines 0 num_machines) rank
      some (rotate_right (block_start rank) out)

    -- AllreduceByAllGather: the loop that reduces the blocks of the buffer into its first.
    unfoldable pub reduced : (List A → List A → List A) → ℕ → List A → ℕ → List A
    reduced reducer input_size buffer zero = take input_size buffer
    reduced reducer input_size buffer (suc i) =
        reducer (take input_size (drop (block_start (suc i)) buffer))
          (reduced reducer input_size buffer i)

-- AllreduceByAllGather, on inputs of one size: what it writes to the output. The size of all inputs
-- is a product of int: `none` where it is none.
unfoldable pub allreduce_by_all_gather {ℓ} :
    {A : Type ℓ} → ℕ → ℕ → (List A → List A → List A) → (ℕ → List A) → ℕ → Option (List A)
allreduce_by_all_gather num_machines input_size reducer input rank = do
  check (ltb (input_size * num_machines) (2 ^ 31))
  buffer ← allgather num_machines (λ r. input_size) input rank
  some (reduced num_machines (λ r. input_size) input reducer input_size buffer (num_machines - 1))
