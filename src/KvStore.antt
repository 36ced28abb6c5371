-- ===== src/KvStore.antt =====
-- kvstore/kvstore.h and kvstore/kvstore.cc: an open-addressing table of keys whose values are blocks
-- of one length in a separate array. Keys are unsigned numbers.
pub mod Memory
pub mod Probe
pub mod Valid
pub mod Insert
pub mod Update
pub mod Refine
pub mod Lookup
pub mod Fresh
pub mod Persist
mod Tests
use ddls.Prelude.{
  ℕ, zero, suc, ◌+◌, ◌-◌, ◌*◌, ◌%◌, ◌^◌, List, [], ◌∷◌, ◌++◌, Option, none, some, ◌>>=◌, ◌>>◌,
  check, Bool, true, false, not, ltb, leb, ◌==◌, if◌then◌else◌, get_or, set, take, replicate,
  bit_and,
}
use Memory.{write_block, read_block}

-- `free` is a node whose offset is -1: its key is not read. Any other offset is not negative.
pub data Node : Type 0 where
  free : Node
  taken : (key offset : ℕ) → Node

-- kImmutableMask: the flag is the bit above all offsets.
abbrev pub immutable_mask : ℕ
immutable_mask = 2 ^ 62

abbrev pub max_probe_num : ℕ
max_probe_num = 32

-- `data_` is the memory that the pointer names; its cells hold anything before they are written.
pub record KvStore {ℓ} (V : Type ℓ) : Type ℓ where
  pub node : List Node
  pub node_size : ℕ
  pub node_capacity : ℕ
  pub mem : ℕ → V
  pub data_size : ℕ
  pub data_capacity : ℕ
  pub value_len : ℕ

pub data Slot : Type 0 where
  hit : (index offset : ℕ) → Slot
  empty : ℕ → Slot

-- The probing loop of `Get`, with `probe_num` rounds left. `none` is the LOG_FATAL behind it.
unfoldable pub probe : List Node → ℕ → ℕ → ℕ → ℕ → Option Slot
probe nodes capacity key zero index = none
probe nodes capacity key (suc probe_num) index =
    let rest = probe nodes capacity key probe_num (bit_and (index + 1) (capacity - 1)) in
    if ltb index capacity
    then elim (get_or nodes index free) [
      | free ↦ some (empty index)
      | taken k offset ↦ if k == key then some (hit index offset) else rest
    ]
    else none

-- What `Get` writes through its references.
pub data Found : Type 0 where
  missing : Found
  found : (node_index offset : ℕ) (immutable new_data : Bool) → Found

-- node_[node_index].offset |= kImmutableMask, or &= ~kImmutableMask
unfoldable pub flag : Bool → ℕ → ℕ
flag immutable offset =
    if immutable then offset % immutable_mask + immutable_mask else offset % immutable_mask

unfoldable pub flag_node : Bool → Node → Node
flag_node immutable free = free
flag_node immutable (taken key offset) = taken key (flag immutable offset)

-- node_capacity_ *= 2 while it is below the wish: `fuel` rounds at most. A `size_t` wraps to 0.
unfoldable pub grow_capacity : ℕ → ℕ → ℕ → Option ℕ
grow_capacity zero capacity init = none
grow_capacity (suc fuel) capacity init =
    let rest = grow_capacity fuel (capacity * 2 % 2 ^ 64) init in
    if ltb capacity init then rest else some capacity

-- Clear() frees the first `node_size_` nodes.
unfoldable pub free_first : ℕ → List Node → List Node
free_first zero nodes = nodes
free_first (suc n) [] = []
free_first (suc n) (x ∷ nodes) = free ∷ free_first n nodes

-- The first nodes of a fresh array of free ones are overwritten.
unfoldable pub overwrite : List Node → List Node → List Node
overwrite [] nodes = nodes
overwrite (x ∷ xs) [] = []
overwrite (x ∷ xs) (y ∷ nodes) = x ∷ overwrite xs nodes

-- What Store(stream) writes, in the order of the stream.
pub record Image {ℓ} (V : Type ℓ) : Type ℓ where
  pub node_capacity : ℕ
  pub node_size : ℕ
  pub nodes : List Node
  pub data_capacity : ℕ
  pub data_size : ℕ
  pub cells : List V

module _ {ℓ} {V : Type ℓ} where
  unfoldable pub locate : KvStore V → ℕ → Option Slot
  locate s key = probe s.node s.node_capacity key max_probe_num (bit_and key (s.node_capacity - 1))

  -- Add one new entry.
  unfoldable pub add_entry : KvStore V → ℕ → ℕ → KvStore V
  add_entry s key index = record s {
    node = set s.node index (taken key s.data_size);
    data_size = s.data_size + s.value_len;
    node_size = s.node_size + 1;
  }

  unfoldable pub get_slot : KvStore V → ℕ → Bool → Slot → KvStore V × Found
  get_slot s key immutable (empty index) =
      if immutable
      then (s, missing)
      else (add_entry s key index, found index s.data_size immutable true)
  get_slot s key immutable (hit index offset) =
      if leb immutable_mask offset
      then (s, found index (offset % immutable_mask) true false)
      else (s, found index offset immutable false)

  -- Get(key, &node_index, &offset, immutable, new_data)
  unfoldable pub get : KvStore V → ℕ → Bool → Option (KvStore V × Found)
  get s key immutable = locate s key >>= λ slot. some (get_slot s key immutable slot)

  unfoldable pub value_of : KvStore V → Found → Option (List V)
  value_of s missing = none
  value_of s (found index offset immutable new_data) = some (read_block s.mem offset s.value_len)

  -- Get(key): the address of the value, here its contents; `some none` is the null pointer.
  unfoldable pub get_value : KvStore V → ℕ → Option (Option (List V))
  get_value s key = get s key true >>= λ r. some (value_of s r.1)

  unfoldable pub set_found : KvStore V → List V → Bool → Found → KvStore V
  set_found s val immutable missing = s
  set_found s val immutable (found index offset immu new_data) = record s {
    mem = write_block s.mem offset val;
    node = set s.node index (flag_node immutable (get_or s.node index free));
  }

  -- Set(key, val, immutable); `val` has `value_len` values.
  unfoldable pub set_value : KvStore V → ℕ → List V → Bool → Option (KvStore V)
  set_value s key val immutable = do
    (s', result) ← get s key false
    some (set_found s' val immutable result)

  -- The constructor, with AddBlackList: key 0 holds zeros and is immutable. The loop that frees the
  -- nodes counts with an int, which a capacity from 2^31 on overflows. 65 rounds: after them the
  -- capacity is 0 for ever.
  unfoldable pub new : (ℕ → V) → V → ℕ → ℕ → Option (KvStore V)
  new garbage zero_value init_capacity value_len = do
    capacity ← grow_capacity 65 1 init_capacity
    check (ltb capacity (2 ^ 31))
    set_value
        (record {
          node = replicate capacity free;
          node_size = 0;
          node_capacity = capacity;
          mem = garbage;
          data_size = 0;
          data_capacity = capacity * value_len;
          value_len = value_len;
        })
        0 (replicate value_len zero_value) true

  unfoldable pub clear : KvStore V → KvStore V
  clear s = record s { node = free_first s.node_size s.node; node_size = 0; data_size = 0 }

  unfoldable pub store : KvStore V → Image V
  store s = record {
    node_capacity = s.node_capacity;
    node_size = s.node_size;
    nodes = take s.node_size s.node;
    data_capacity = s.data_capacity;
    data_size = s.data_size;
    cells = read_block s.mem 0 s.data_size;
  }

  -- Load(stream) into a store of the same `value_len`.
  unfoldable pub load : (ℕ → V) → Image V → KvStore V → KvStore V
  load garbage image s = record {
    node = overwrite image.nodes (replicate image.node_capacity free);
    node_size = image.node_size;
    node_capacity = image.node_capacity;
    mem = write_block garbage 0 image.cells;
    data_size = image.data_size;
    data_capacity = image.data_capacity;
    value_len = s.value_len;
  }
