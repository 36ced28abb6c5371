-- ===== src/Table/Array.antt =====
-- table/array_table.cc: an array of parameters that is cut in blocks, one for each server.
pub mod Shards
pub mod Laws
use ddls.Prelude.{
  ℕ, zero, suc, ◌+◌, ◌-◌, ◌*◌, ◌/◌, ◌%◌, ◌^◌, List, [], ◌∷◌, ◌++◌, Option, none, some, ◌>>=◌, ◌>>◌,
  check, Bool, true, false, ◌&&◌, ltb, ◌==◌, if◌then◌else◌, get_or, take, drop, map, length,
}
use ddls.Prelude.Int.{ℤ, pos, negsuc, eqb_ℤ}
use ddls.KvStore.Memory.{write_block}
use ddls.Scheduler.Table.{ServerTable}

-- What the blobs of a request or a reply hold, each read as what its place in the message says.
pub data Payload {ℓ} (T : Type ℓ) (AddOption : Type ℓ) : Type ℓ where
  key : ℤ → Payload T AddOption
  values : List T → Payload T AddOption
  option : AddOption → Payload T AddOption

abbrev pub all_key : ℤ
all_key = negsuc 0

-- The numbers from `i` on, `n` of them: a for loop.
abbrev pub upto : ℕ → ℕ → List ℕ
upto i zero = []
upto i (suc n) = i ∷ upto (suc i) n

pub record ArrayWorker : Type 0 where
  pub size : ℕ
  pub num_server : ℕ
  pub server_offsets : List ℕ

-- `static_cast<integer_t>(size_)`, which wraps. Where it gives a negative number so are the offsets,
-- as a `size_t` behind every buffer: `none`.
unfoldable pub to_integer : ℕ → Option ℕ
to_integer size = check (ltb (size % 2 ^ 32) (2 ^ 31)) >> some (size % 2 ^ 32)

-- The constructor, for `num_servers` servers.
unfoldable pub new_worker : ℕ → ℕ → Option ArrayWorker
unfolding to_integer
new_worker num_servers size = do
  check (ltb num_servers size)
  whole ← to_integer size
  some (record {
    size = size;
    num_server = num_servers;
    server_offsets =
        0 ∷ (map (λ i. i * (whole / num_servers)) (upto 1 (num_servers - 1)) ++ size ∷ []);
  })

abbrev pub offset : ArrayWorker → ℕ → ℕ
offset w i = get_or w.server_offsets i 0

abbrev pub block_size : ArrayWorker → ℕ → ℕ
block_size w i = offset w (i + 1) - offset w i

-- The values that `Partition` sends to server `i`.
unfoldable pub shard {ℓ} : {T : Type ℓ} → ArrayWorker → ℕ → List T → List T
shard w i vals = take (block_size w i) (drop (offset w i) vals)

pub record ArrayServer {ℓ} (T : Type ℓ) : Type ℓ where
  pub server_id : ℕ
  pub storage : List T
  pub size : ℕ

-- `size_` of the constructor.
unfoldable pub server_size : ℕ → ℕ → ℕ → ℕ
server_size num_servers server_id size =
    if server_id == num_servers - 1
    then size / num_servers + size % num_servers
    else size / num_servers

module _ {ℓ} {T AddOption : Type ℓ} where
  -- The blobs for each server, in the order of their ids.
  unfoldable pub partition :
      ArrayWorker → List (Payload T AddOption) → Option (List (List (Payload T AddOption)))
  partition w (k ∷ []) = some (map (λ i. k ∷ []) (upto 0 w.num_server))
  partition w (k ∷ values vals ∷ []) = do
    check (length vals == w.size)
    some (map (λ i. k ∷ values (shard w i vals) ∷ []) (upto 0 w.num_server))
  partition w (k ∷ values vals ∷ o ∷ []) = do
    check (length vals == w.size)
    some (map (λ i. k ∷ values (shard w i vals) ∷ o ∷ []) (upto 0 w.num_server))
  partition w kv = none

  -- `data_` is the memory of the caller of Get.
  unfoldable pub process_reply_get :
      ArrayWorker → List (Payload T AddOption) → (ℕ → T) → Option (ℕ → T)
  process_reply_get w (key (pos id) ∷ values vals ∷ []) data_ = do
    check (length vals == block_size w id)
    some (write_block data_ (offset w id) vals)
  process_reply_get w reply data_ = none

  -- `update` is the updater's Update, `default` the fields of a new AddOption.
  unfoldable pub process_add :
      (List T → List T → AddOption → List T)
      → AddOption
      → List (Payload T AddOption)
      → ArrayServer T
      → Option (ArrayServer T)
  process_add update default (key k ∷ values vals ∷ []) s = do
    check (eqb_ℤ k all_key)
    check (length vals == s.size)
    some (record s { storage = update s.storage vals default })
  process_add update default (key k ∷ values vals ∷ option o ∷ []) s = do
    check (eqb_ℤ k all_key)
    check (length vals == s.size)
    some (record s { storage = update s.storage vals o })
  process_add update default blobs s = none

  -- `access` is the updater's Access.
  unfoldable pub process_get :
      (List T → List T)
      → List (Payload T AddOption)
      → ArrayServer T
      → Option (List (Payload T AddOption) × ArrayServer T)
  process_get access (key k ∷ rest) s = do
    check (eqb_ℤ k all_key)
    some (key (pos s.server_id) ∷ values (access s.storage) ∷ [], s)
  process_get access blobs s = none

  -- The table as the schedulers use it.
  abbrev pub array_table :
      (List T → List T → AddOption → List T)
      → AddOption
      → (List T → List T)
      → ServerTable (Payload T AddOption)
  array_table update default access = record {
    Store = ArrayServer T;
    process_get = process_get access;
    process_add = process_add update default;
  }
