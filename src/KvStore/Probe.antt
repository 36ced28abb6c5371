-- ===== src/KvStore/Probe.antt =====
-- The probing loop, and how it changes when one node is written.
use ddls.Prelude.{
  ℕ, zero, suc, ◌+◌, ◌-◌, ◌<◌, ◌≡◌, refl, inl, inr, List, Option, none, some, ◌==◌, ==_refl,
  if◌then◌else◌, length, arith, get_or, set, bit_and, Nat-cases, ◌⊎◌, get_or-set_self,
  get_or-set_ne,
}
use ddls.KvStore.{Node, free, taken, Slot, hit, empty, probe}

pub Node-cases : (x : Node) → (x ≡ free) ⊎ ((k : ℕ) × (o : ℕ) × (x ≡ taken k o))
Node-cases free = inl refl
Node-cases (taken k o) = inr (k, o, refl)

abbrev pub at_index : List Node → ℕ → Node
at_index nodes i = get_or nodes i free

module _ (capacity key : ℕ) where
  -- A hit names a taken node that has the key, and an empty slot a free node.
  pub probe_hit :
      (nodes : List Node) (n i j o : ℕ)
      → probe nodes capacity key n i ≡ some (hit j o)
      → (at_index nodes j ≡ taken key o) × (j < capacity)
  unfolding probe
  probe_hit nodes zero i j o h = cc
  probe_hit nodes (suc n) i j o h =
      ground (
        arith,
        Node-cases (at_index nodes i),
        probe_hit nodes n (bit_and (i + 1) (capacity - 1)) j o,
      )

  pub probe_empty :
      (nodes : List Node) (n i j : ℕ)
      → probe nodes capacity key n i ≡ some (empty j)
      → (at_index nodes j ≡ free) × (j < capacity)
  unfolding probe
  probe_empty nodes zero i j h = cc
  probe_empty nodes (suc n) i j h =
      ground (
        arith,
        Node-cases (at_index nodes i),
        probe_empty nodes n (bit_and (i + 1) (capacity - 1)) j,
      )

  -- Taking a free node leaves every hit.
  pub probe_hit_set :
      (nodes : List Node) (n i j o e : ℕ) (x : Node)
      → at_index nodes e ≡ free
      → probe nodes capacity key n i ≡ some (hit j o)
      → probe (set nodes e x) capacity key n i ≡ some (hit j o)
  unfolding probe
  probe_hit_set nodes zero i j o e x f h = cc
  probe_hit_set nodes (suc n) i j o e x f h = ground (
    arith,
    Node-cases (at_index nodes i),
    Nat-cases e i,
    get_or-set_ne nodes e i x free,
    probe_hit_set nodes n (bit_and (i + 1) (capacity - 1)) j o e x,
  )

  -- Taking the free node at which the probe for a key ended makes it the hit of that key.
  pub probe_empty_set :
      (nodes : List Node) (n i e o : ℕ)
      → length nodes ≡ capacity
      → probe nodes capacity key n i ≡ some (empty e)
      → probe (set nodes e (taken key o)) capacity key n i ≡ some (hit e o)
  unfolding probe
  probe_empty_set nodes zero i e o size h = cc
  probe_empty_set nodes (suc n) i e o size h = ground (
    arith,
    Node-cases (at_index nodes i),
    Nat-cases e i,
    get_or-set_ne nodes e i (taken key o) free,
    get_or-set_self nodes e (taken key o) free,
    ==_refl key,
    probe_empty nodes n (bit_and (i + 1) (capacity - 1)) e,
    probe_empty_set nodes n (bit_and (i + 1) (capacity - 1)) e o,
  )

-- The answer after the offset of the node `j` has become `o`.
abbrev pub relabel : ℕ → ℕ → Slot → Slot
relabel j o (hit i o') = hit i (if j == i then o else o')
relabel j o (empty i) = empty i

abbrev pub map_slot : (Slot → Slot) → Option Slot → Option Slot
map_slot f none = none
map_slot f (some x) = some (f x)

-- Writing the offset of a taken node changes no path, and the offset of that node's hits.
pub probe-set_offset :
    (capacity key : ℕ) (nodes : List Node) (n i j k o o' : ℕ)
    → j < length nodes
    → at_index nodes j ≡ taken k o
    → probe (set nodes j (taken k o')) capacity key n i
      ≡ map_slot (relabel j o') (probe nodes capacity key n i)
unfolding probe
probe-set_offset capacity key nodes zero i j k o o' lt at = refl
probe-set_offset capacity key nodes (suc n) i j k o o' lt at = ground (
  arith,
  Node-cases (at_index nodes i),
  Nat-cases j i,
  get_or-set_ne nodes j i (taken k o') free,
  get_or-set_self nodes j (taken k o') free,
  probe-set_offset capacity key nodes n (bit_and (i + 1) (capacity - 1)) j k o o',
)
