-- ===== src/KvStore/Tests.antt =====
-- The store of capacity 4, with values of one number.
use ddls.Prelude.{
  ℕ, zero, suc, ◌≡◌, ◌≢◌, ◌<◌, ◌≤◌, ◌*◌, ◌^◌, ◌⊎◌, refl, List, [], ◌∷◌, Option, none, some, ◌>>=◌,
  true, false, arith, ◌↔◌,
}
use ddls.KvStore.{
  KvStore, free, taken, locate, probe, new, get, get_value, set_value, load, store, clear,
  free_first, found, grow_capacity, get_slot, set_found, add_entry, flag, flag_node,
}
use ddls.KvStore.Memory.{read_block, write_block}
use ddls.KvStore.Probe.{at_index}
use ddls.KvStore.Valid.{IsValid, block, view}
use ddls.KvStore.Lookup.{get_value-set_value}
use ddls.KvStore.Fresh.{new-IsValid, grow_capacity-IsLeast}
use ddls.KvStore.Persist.{view-load, view-load_lost, view-clear}

abbrev fresh : KvStore ℕ
fresh = record {
  node = taken 0 (flag true 0) ∷ free ∷ free ∷ free ∷ [];
  node_size = 1;
  node_capacity = 4;
  mem = write_block (λ p. 9) 0 (0 ∷ []);
  data_size = 1;
  data_capacity = 4;
  value_len = 1;
}

constructed : new (λ p. 9) 0 4 1 ≡ some fresh
unfolding new set_value get get_slot locate probe set_found add_entry grow_capacity flag_node
constructed = refl

abbrev five_set : KvStore ℕ
five_set = record {
  node = taken 0 (flag true 0) ∷ taken 5 (flag false 1) ∷ free ∷ free ∷ [];
  node_size = 2;
  node_capacity = 4;
  mem = write_block (write_block (λ p. 9) 0 (0 ∷ [])) 1 (7 ∷ []);
  data_size = 2;
  data_capacity = 4;
  value_len = 1;
}

set_five : set_value fresh 5 (7 ∷ []) false ≡ some five_set
unfolding set_value get get_slot locate probe set_found add_entry flag_node
set_five = refl

new-IsValid_example :
    IsValid fresh × (view fresh 0 ≡ some (0 ∷ [])) × ((k : ℕ) → k ≢ 0 → view fresh k ≡ none)
new-IsValid_example = new-IsValid (λ p. 9) 0 4 1 fresh constructed

fresh-IsValid : IsValid fresh
fresh-IsValid = (new-IsValid (λ p. 9) 0 4 1 fresh constructed).0

get_value-set_value_example :
    IsValid five_set
    × (get_value five_set 5 ≡ some (some (7 ∷ [])))
    × ((k : ℕ) (w : List ℕ)
        → k ≢ 5
        → (get_value fresh k ≡ some (some w)) ↔ (get_value five_set k ≡ some (some w)))
    × ((j : ℕ) × (o : ℕ) × (get five_set 5 false ≡ some (five_set, found j o false false)))
get_value-set_value_example =
    get_value-set_value fresh five_set 5 (7 ∷ []) false fresh-IsValid refl (omega arith) set_five

fresh_packed : (i k o : ℕ) → at_index fresh.node i ≡ taken k o → i < 1
fresh_packed zero k o h = omega arith
fresh_packed (suc zero) k o h = cc
fresh_packed (suc (suc zero)) k o h = cc
fresh_packed (suc (suc (suc zero))) k o h = cc
fresh_packed (suc (suc (suc (suc i)))) k o h = cc

view-load_example : view (load (λ p. 3) (store fresh) fresh) 0 ≡ view fresh 0
view-load_example = view-load fresh (λ p. 3) fresh-IsValid (omega arith) fresh_packed 0

-- Key 3 is in the last of the four nodes, and node_size_ is 2: Store does not write it.
abbrev three_set : KvStore ℕ
three_set = record fresh {
  node = taken 0 (flag true 0) ∷ free ∷ free ∷ taken 3 (flag false 1) ∷ [];
  node_size = 2;
  mem = write_block fresh.mem 1 (8 ∷ []);
  data_size = 2;
}

set_three : set_value fresh 3 (8 ∷ []) false ≡ some three_set
unfolding set_value get get_slot locate probe set_found add_entry flag_node
set_three = refl

three_set-IsValid : IsValid three_set
three_set-IsValid =
    (get_value-set_value fresh three_set 3 (8 ∷ []) false fresh-IsValid refl (omega arith)
      set_three).0

view-load_lost_example :
    (view three_set 3 ≡ some (read_block three_set.mem (block (flag false 1)) 1))
    × (view (load (λ p. 3) (store three_set) three_set) 3 ≡ none)
view-load_lost_example =
    view-load_lost three_set (λ p. 3) 3 3 (flag false 1) three_set-IsValid (omega arith) refl
      (omega arith)

view-clear_example : IsValid (clear fresh) × ((key : ℕ) → view (clear fresh) key ≡ none)
view-clear_example = view-clear fresh fresh-IsValid fresh_packed

-- Clear keeps the node of key 3, and the second Set after it writes into the block of that key.
clear_shares :
    ◌>>=◌ {B = Option (List ℕ)}
      (set_value (clear three_set) 1 (5 ∷ []) false)
      (λ s. set_value s 2 (6 ∷ []) false >>= λ t. some (view t 3))
    ≡ some (some (6 ∷ []))
unfolding set_value get get_slot locate probe set_found add_entry flag_node clear free_first view
    flag read_block write_block
clear_shares = refl

grow_capacity-IsLeast_example :
    (5 ≤ 2 ^ 63
      → (m : ℕ) × (grow_capacity 65 1 5 ≡ some (2 ^ m))
        × (5 ≤ 2 ^ m)
        × (m ≤ 63)
        × ((2 ^ m ≡ 1) ⊎ (2 ^ m < 2 * 5)))
    × (2 ^ 63 < 5 → (fuel : ℕ) → grow_capacity fuel 1 5 ≡ none)
grow_capacity-IsLeast_example = grow_capacity-IsLeast 5
