-- ===== src/Table/Tests.antt =====
-- An array of five numbers on two servers, and keys on two servers.
use ddls.Prelude.{ℕ, ◌+◌, ◌<◌, ◌≡◌, refl, List, [], ◌∷◌, some, true, false, length, map, arith}
use ddls.KvStore.Memory.{write_block}
use ddls.KvStore.{
  KvStore, free, taken, new, grow_capacity, set_value, get, get_slot, locate, probe, set_found,
  add_entry, flag_node, flag,
}
use ddls.KvStore.Valid.{IsValid, view}
use ddls.KvStore.Fresh.{new-IsValid}
use ddls.Table.Array.{
  ArrayWorker, new_worker, upto, shard, server_size, partition, Payload, key, values, all_key,
}
use ddls.Table.Array.Shards.{concat}
use ddls.Table.Array.Laws.{partition-shard, add_get-shard, zip_with}
use ddls.Table.Kv.{split, Part, put, set_all}
use ddls.Table.Kv
use ddls.Table.Kv.Split.{split-for, keys_at, vals_at, keys_for, vals_for}
use ddls.Table.Kv.Local.{process_reply_get-view, last_block}

abbrev worker : ArrayWorker
worker = record { size = 5; num_server = 2; server_offsets = 0 ∷ 2 ∷ 5 ∷ [] }

worker_made : new_worker 2 5 ≡ some worker
unfolding new_worker
worker_made = refl

abbrev request : Payload ℕ ℕ
request = key all_key

abbrev five : List ℕ
five = 1 ∷ 2 ∷ 3 ∷ 4 ∷ 5 ∷ []

partition-shard_example :
    (partition worker (request ∷ values five ∷ [])
      ≡ some (map (λ i. request ∷ values (shard worker i five) ∷ []) (upto 0 2)))
    × (concat (map (λ i. shard worker i five) (upto 0 2)) ≡ five)
    × ((i : ℕ) → i < 2 → length (shard worker i five) ≡ server_size 2 i 5)
partition-shard_example = partition-shard 1 5 worker (omega arith) worker_made request five refl

add_get-shard_example :
    concat (map (λ i. shard worker i (zip_with ◌+◌ five five)) (upto 0 2)) ≡ 2 ∷ 4 ∷ 6 ∷ 8 ∷ 10 ∷ []
add_get-shard_example =
    (add_get-shard {AddOption = ℕ} 1 5 worker (omega arith) worker_made ◌+◌ 0 five five refl refl).1

abbrev three_vals : List ℕ
three_vals = 40 ∷ 30 ∷ 60 ∷ []

split-for_example :
    (keys_at (split 2 1 (4 ∷ 3 ∷ 6 ∷ []) three_vals []) 0 ≡ keys_for 2 0 (4 ∷ 3 ∷ 6 ∷ []))
    × (vals_at (split 2 1 (4 ∷ 3 ∷ 6 ∷ []) three_vals []) 0
        ≡ vals_for 2 1 0 (4 ∷ 3 ∷ 6 ∷ []) three_vals)
split-for_example = split-for 2 1 0 (4 ∷ 3 ∷ 6 ∷ []) three_vals []

even_keys : keys_at (split {V = ℕ} 2 0 (4 ∷ 3 ∷ 6 ∷ []) [] []) 0 ≡ 4 ∷ 6 ∷ []
unfolding split put
even_keys = refl

abbrev local : KvStore ℕ
local = record {
  node = taken 0 (flag true 0) ∷ free ∷ free ∷ free ∷ [];
  node_size = 1;
  node_capacity = 4;
  mem = write_block (λ p. 9) 0 (0 ∷ []);
  data_size = 1;
  data_capacity = 4;
  value_len = 1;
}

local_made : new (λ p. 9) 0 4 1 ≡ some local
unfolding new set_value get get_slot locate probe set_found add_entry grow_capacity flag_node
local_made = refl

local-IsValid : IsValid local
local-IsValid = (new-IsValid (λ p. 9) 0 4 1 local local_made).0

abbrev after_reply : KvStore ℕ
after_reply = record local {
  node = taken 0 (flag true 0) ∷ taken 5 (flag false 1) ∷ free ∷ taken 3 (flag false 2) ∷ [];
  node_size = 3;
  mem = write_block (write_block (write_block (λ p. 9) 0 (0 ∷ [])) 1 (50 ∷ [])) 2 (30 ∷ []);
  data_size = 3;
}

reply_set : Kv.process_reply_get (5 ∷ 3 ∷ []) (50 ∷ 30 ∷ []) local ≡ some after_reply
unfolding Kv.process_reply_get set_all set_value get get_slot locate probe set_found add_entry
    flag_node
reply_set = refl

process_reply_get-view_example :
    IsValid after_reply
    × ((k : ℕ) → view after_reply k ≡ last_block 1 (5 ∷ 3 ∷ []) (50 ∷ 30 ∷ []) k (view local k))
process_reply_get-view_example =
    process_reply_get-view (5 ∷ 3 ∷ []) (50 ∷ 30 ∷ []) local after_reply local-IsValid (omega arith)
      reply_set
