-- ===== src/KvStore/Valid.antt =====
-- The invariant of the store: every key is where its probe leads, and the blocks do not overlap.
use ddls.Prelude.{ℕ, ◌+◌, ◌-◌, ◌%◌, ◌≤◌, ◌≡◌, ◌≢◌, ◌⊎◌, List, Option, none, some, length, bit_and}
use ddls.KvStore.{KvStore, Node, taken, Slot, hit, empty, probe, immutable_mask, max_probe_num}
use ddls.KvStore.Memory.{read_block}
use ddls.KvStore.Probe.{at_index}

abbrev pub find : List Node → ℕ → ℕ → Option Slot
find nodes capacity key = probe nodes capacity key max_probe_num (bit_and key (capacity - 1))

abbrev pub block : ℕ → ℕ
block offset = offset % immutable_mask

-- The array of nodes alone: where keys are, and which blocks of the data they name.
pub record IsPlaced (nodes : List Node) (capacity data_size value_len : ℕ) : Type 0 where
  pub size : length nodes ≡ capacity
  pub reach : (i k o : ℕ) → at_index nodes i ≡ taken k o → find nodes capacity k ≡ some (hit i o)
  pub inside : (i k o : ℕ) → at_index nodes i ≡ taken k o → block o + value_len ≤ data_size
  pub apart :
      (i j k k' o o' : ℕ)
      → at_index nodes i ≡ taken k o
      → at_index nodes j ≡ taken k' o'
      → i ≢ j
      → (block o + value_len ≤ block o') ⊎ (block o' + value_len ≤ block o)

abbrev pub IsValid {ℓ} : {V : Type ℓ} → KvStore V → Type 0
IsValid s = IsPlaced s.node s.node_capacity s.data_size s.value_len

-- The store as a map from keys to blocks.
abbrev pub view_slot {ℓ} : {V : Type ℓ} → (ℕ → V) → ℕ → Option Slot → Option (List V)
view_slot mem len none = none
view_slot mem len (some (hit i o)) = some (read_block mem (block o) len)
view_slot mem len (some (empty i)) = none

unfoldable pub view {ℓ} : {V : Type ℓ} → KvStore V → ℕ → Option (List V)
view s key = view_slot s.mem s.value_len (find s.node s.node_capacity key)
