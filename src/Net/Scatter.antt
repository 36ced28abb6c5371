-- ===== src/Net/Scatter.antt =====
-- ReduceScatter and Allreduce of net/allreduce_engine.cc on all machines at once. SendTo, RecvFrom
-- and SendRecv are the linkers': a message that no one waits for, or of another length, is `none`.
use Prim.Native.Nat.{bit_and}
use ddls.Prelude.{
  ℕ, zero, suc, ◌+◌, ◌-◌, ◌/◌, List, [], ◌++◌, Option, some, ◌>>=◌, ◌>>◌, check, Bool, ltb, ◌∷◌,
  ◌==◌, if◌then◌else◌, ◌||◌, take, drop, length, get_or, get_elem?,
}
use ddls.Net.Topology.{normal, group_leader, other, recursive_halving_map}
use ddls.Net.Engine.{assign_blocks}
use ddls.Net.Gather.{block_start, allgather, allreduce_by_all_gather}

unfoldable pub is_powerof_2 : ℕ → Bool
is_powerof_2 num_machines = bit_and num_machines (num_machines - 1) == 0

-- send_size and need_recv_cnt: the bytes of `count` blocks.
unfoldable pub size_of_blocks : (ℕ → ℕ) → ℕ → ℕ → ℕ
size_of_blocks block_len start zero = 0
size_of_blocks block_len start (suc count) =
    block_len start + size_of_blocks block_len (suc start) count

module _ {ℓ} {A : Type ℓ} where
  -- The `len` bytes at an address of an array.
  unfoldable pub bytes_at : ℕ → ℕ → List A → List A
  bytes_at start len bytes = take len (drop start bytes)

  -- reducer(output, input + start, len), where the output begins with what was received.
  unfoldable pub reduce_at : (List A → List A → List A) → ℕ → ℕ → List A → List A → List A
  reduce_at reducer start len message bytes =
      take start bytes ++ reducer message (bytes_at start len bytes) ++ drop (start + len) bytes

  module _ (num_machines : ℕ) (block_len : ℕ → ℕ) (reducer : List A → List A → List A)
      (input_size : ℕ) (input : ℕ → List A) where
    -- RecvFrom the neighbor, that sends to its own neighbor what `sent` says.
    unfoldable pub from_neighbor : (ℕ → Option (List A)) → ℕ → ℕ → Option (List A)
    from_neighbor sent need_recv_cnt rank = do
      neighbor ← (recursive_halving_map rank num_machines).neighbor
      back ← (recursive_halving_map neighbor num_machines).neighbor
      message ← sent neighbor
      check (back == rank) >> check (length message == need_recv_cnt) >> some message

    -- The data of a machine before recursive halving: a group leader has its neighbor's too.
    unfoldable pub grouped : ℕ → Option (List A)
    grouped rank =
        let theirs = from_neighbor (λ r. some (take input_size (input r))) input_size rank in
        if is_powerof_2 num_machines
        then some (input rank)
        else elim (recursive_halving_map rank num_machines).type [
          | normal ↦ some (input rank)
          | other ↦ some (input rank)
          | group_leader ↦ do
            message ← theirs
            some (reduce_at reducer 0 input_size message (input rank))
        ]

    -- The data of a machine before exchange i.
    unfoldable pub halved : ℕ → ℕ → Option (List A)
    halved zero rank = grouped rank
    halved (suc i) rank = do
      mine ← get_elem? (recursive_halving_map rank num_machines).exchanges i
      theirs ← get_elem? (recursive_halving_map mine.rank num_machines).exchanges i
      bytes ← halved i rank
      sent ← halved i mine.rank
      let send_size = size_of_blocks block_len theirs.send_block_start theirs.send_block_len
      let need_recv_cnt = size_of_blocks block_len mine.recv_block_start mine.recv_block_len
      let from = block_start num_machines block_len theirs.send_block_start
      let message = bytes_at from send_size sent
      check (theirs.rank == rank)
          >> check (send_size == need_recv_cnt)
          >> some (
              reduce_at reducer (block_start num_machines block_len mine.recv_block_start)
                need_recv_cnt message bytes)

    -- The block of `owner` in the data that a machine has after the exchanges.
    unfoldable pub reduced_block : ℕ → ℕ → Option (List A)
    reduced_block owner rank = do
      bytes ← halved (recursive_halving_map rank num_machines).k rank
      some (bytes_at (block_start num_machines block_len owner) (block_len owner) bytes)

    -- ReduceScatter: what a machine has in its output.
    unfoldable pub reduce_scatter : ℕ → Option (List A)
    reduce_scatter rank =
        let own = reduced_block rank rank in
        let received = from_neighbor (reduced_block rank) (block_len rank) rank in
        if is_powerof_2 num_machines
        then own
        else elim (recursive_halving_map rank num_machines).type [
          | normal ↦ own
          | group_leader ↦ own
          | other ↦ received
        ]

    -- The outputs of the first machines.
    unfoldable pub scattered : ℕ → Option (List (List A))
    scattered zero = some []
    scattered (suc rank) = do
      before ← scattered rank
      own ← reduce_scatter rank
      some (before ++ own ∷ [])

  -- Allreduce, on inputs of one size: what it writes to the output.
  unfoldable pub allreduce :
      ℕ → ℕ → ℕ → (List A → List A → List A) → (ℕ → List A) → ℕ → Option (List A)
  allreduce num_machines input_size type_size reducer input rank =
      let lens = λ (r : ℕ). get_or (assign_blocks input_size type_size num_machines) r 0 in
      if ltb (input_size / type_size) num_machines || ltb input_size 4096
      then allreduce_by_all_gather num_machines input_size reducer input rank
      else do
        outputs ← scattered num_machines lens reducer input_size input num_machines
        allgather num_machines lens (λ r. get_or outputs r []) rank
