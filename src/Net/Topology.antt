-- ===== src/Net/Topology.antt =====
-- net/allreduce_topo.cc: with whom a machine exchanges data, and which blocks.
pub mod Pairs
use ddls.Prelude.{
  ℕ, zero, suc, ◌+◌, ◌-◌, ◌*◌, ◌/◌, ◌%◌, ◌^◌, List, [], ◌∷◌, ◌++◌, Bool, true, false, ltb, leb,
  ◌==◌, if◌then◌else◌, map, get_or, set, replicate, length, Option, none, some,
}

-- The numbers from `i` on, `n` of them: a for loop.
abbrev pub upto : ℕ → ℕ → List ℕ
upto i zero = []
upto i (suc n) = i ∷ upto (suc i) n

-- for (k = 0; (1 << k) < num_machines; k++): `fuel` rounds at most.
unfoldable pub bruck_steps : ℕ → ℕ → ℕ → ℕ
bruck_steps zero k num_machines = k
bruck_steps (suc fuel) k num_machines =
    let rest = bruck_steps fuel (k + 1) num_machines in if ltb (2 ^ k) num_machines then rest else k

pub record BruckMap : Type 0 where
  pub k : ℕ
  pub in_ranks : List ℕ
  pub out_ranks : List ℕ

unfoldable pub in_rank : ℕ → ℕ → ℕ → ℕ
in_rank num_machines distance rank = (rank + distance) % num_machines

-- The int does not go below 0: a distance is less than num_machines.
unfoldable pub out_rank : ℕ → ℕ → ℕ → ℕ
out_rank num_machines distance rank = (rank + num_machines - distance) % num_machines

unfoldable pub bruck_map : ℕ → ℕ → BruckMap
bruck_map rank num_machines =
    let k = bruck_steps num_machines 0 num_machines in
    record {
      k = k;
      in_ranks = map (λ j. in_rank num_machines (2 ^ j) rank) (upto 0 k);
      out_ranks = map (λ j. out_rank num_machines (2 ^ j) rank) (upto 0 k);
    }

pub data NodeType : Type 0 where
  normal group_leader other : NodeType

-- One communication of recursive halving.
pub record Exchange : Type 0 where
  pub rank : ℕ
  pub send_block_start : ℕ
  pub send_block_len : ℕ
  pub recv_block_start : ℕ
  pub recv_block_len : ℕ

-- `neighbor` is read for nodes that are not normal; the lists of the source are one list here.
pub record RecursiveHalvingMap : Type 0 where
  pub k : ℕ
  pub type : NodeType
  pub neighbor : Option ℕ
  pub exchanges : List Exchange

-- while ((1 << k) <= num_machines) { ++k; } --k
unfoldable pub halving_steps : ℕ → ℕ → ℕ → ℕ
halving_steps zero k num_machines = k - 1
halving_steps (suc fuel) k num_machines =
    let rest = halving_steps fuel (k + 1) num_machines in
    if leb (2 ^ k) num_machines then rest else k - 1

-- The partner at a distance: the direction is positive for an even quotient.
unfoldable pub partner : ℕ → ℕ → ℕ
partner distance rank = if (rank / distance) % 2 == 0 then rank + distance else rank - distance

-- The body of the loop where num_machines is a power of two.
unfoldable pub exchange : ℕ → ℕ → Exchange
exchange rank distance =
    let next_node_idx = partner distance rank in
    record {
      rank = next_node_idx;
      send_block_start = (next_node_idx / distance) * distance;
      send_block_len = distance;
      recv_block_start = (rank / distance) * distance;
      recv_block_len = distance;
    }

-- Whether `i` is one of the `rest` leaders or of their followers at the end of the ranks.
unfoldable pub node_types : ℕ → ℕ → ℕ → List NodeType → List NodeType
node_types num_machines i zero types = types
node_types num_machines i (suc rest) types =
    node_types num_machines (i + 1) rest
      (set (set types (num_machines - i * 2 - 2) group_leader) (num_machines - i * 2 - 1) other)

pub record Groups : Type 0 where
  pub group_cnt : ℕ
  pub group_to_node : List ℕ
  pub node_to_group : List ℕ
  pub group_block_len : List ℕ

unfoldable pub opens_group : NodeType → Bool
opens_group normal = true
opens_group group_leader = true
opens_group other = false

-- The body of the loop over the machines: a node that is not `other` opens a group.
unfoldable pub add_to_group : ℕ → NodeType → Groups → Groups
add_to_group i type g =
    let opens = opens_group type in
    let cnt = if opens then g.group_cnt + 1 else g.group_cnt in
    record {
      group_cnt = cnt;
      group_to_node = if opens then g.group_to_node ++ i ∷ [] else g.group_to_node;
      node_to_group = g.node_to_group ++ (cnt - 1) ∷ [];
      group_block_len = set g.group_block_len (cnt - 1) (get_or g.group_block_len (cnt - 1) 0 + 1);
    }

unfoldable pub group_all : ℕ → List NodeType → Groups → Groups
group_all i [] g = g
group_all i (type ∷ types) g = group_all (i + 1) types (add_to_group i type g)

-- group_block_start, from the lengths.
unfoldable pub starts_from : ℕ → List ℕ → List ℕ
starts_from start [] = []
starts_from start (len ∷ lens) = start ∷ starts_from (start + len) lens

-- The loops that accumulate `n` lengths from a group on.
unfoldable pub sum_len : List ℕ → ℕ → ℕ → ℕ
sum_len lens start zero = 0
sum_len lens start (suc n) = get_or lens start 0 + sum_len lens (start + 1) n

-- The body of the loop where machines are grouped; `group` is the machine's own.
unfoldable pub group_exchange : Groups → ℕ → ℕ → Exchange
group_exchange g group distance =
    let block_starts = starts_from 0 g.group_block_len in
    let recv_start = (group / distance) * distance in
    let send_start = (partner distance group / distance) * distance in
    record {
      rank = get_or g.group_to_node (partner distance group) 0;
      send_block_start = get_or block_starts send_start 0;
      send_block_len = sum_len g.group_block_len send_start distance;
      recv_block_start = get_or block_starts recv_start 0;
      recv_block_len = sum_len g.group_block_len recv_start distance;
    }

abbrev distances : ℕ → List ℕ
distances k = map (λ i. 2 ^ (k - 1 - i)) (upto 0 k)

abbrev type_at : List NodeType → ℕ → NodeType
type_at types i = get_or types i normal

unfoldable pub group_map : ℕ → ℕ → ℕ → RecursiveHalvingMap
group_map k rank num_machines =
    let types = node_types num_machines 0 (num_machines - 2 ^ k) (replicate num_machines normal) in
    let g = group_all 0 types (record {
      group_cnt = 0;
      group_to_node = [];
      node_to_group = [];
      group_block_len = replicate (2 ^ k) 0;
    }) in
    let exchanges = map (group_exchange g (get_or g.node_to_group rank 0)) (distances k) in
    elim (type_at types rank) [
      | normal ↦ record { k = k; type = normal; neighbor = none; exchanges = exchanges }
      | group_leader ↦ record {
        k = k;
        type = group_leader;
        neighbor = some (rank + 1);
        exchanges = exchanges;
      }
      | other ↦ record { k = k; type = other; neighbor = some (rank - 1); exchanges = [] }
    ]

unfoldable pub recursive_halving_map : ℕ → ℕ → RecursiveHalvingMap
recursive_halving_map rank num_machines =
    let k = halving_steps (num_machines + 1) 0 num_machines in
    if 2 ^ k == num_machines
    then record {
      k = k;
      type = normal;
      neighbor = none;
      exchanges = map (exchange rank) (distances k);
    }
    else group_map k rank num_machines
