-- ===== src/KvStore/Persist.antt =====
-- Store, Load and Clear of kvstore/kvstore.cc: which nodes they keep.
use ddls.Prelude.{
  ℕ, zero, suc, ◌+◌, ◌-◌, ◌≤◌, ◌<◌, ◌≡◌, ◌≢◌, length, refl, ap, ◌∙◌, List, [], ◌∷◌, Option, none,
  some, inl, inr, arith, ltb, if◌then◌else◌, replicate, take, get_or-replicate, bit_and, Nat-cases,
  ==_refl, Bool-cases, sym, of_some,
}
use ddls.KvStore.{
  KvStore, Node, free, taken, Slot, hit, empty, probe, overwrite, store, load, free_first, clear,
  max_probe_num,
}
use ddls.KvStore.Memory.{read_block, write_block, read_block_congr, write_block_outside}
use ddls.KvStore.Probe.{at_index, probe_hit, Node-cases}
use ddls.KvStore.Fresh.{view_none}
use ddls.KvStore.Valid.{find, block, IsValid, view_slot, view}

at-overwrite :
    (nodes : List Node) (n c i : ℕ)
    → n ≤ c
    → at_index (overwrite (take n nodes) (replicate c free)) i
      ≡ (if ltb i n then at_index nodes i else free)
unfolding overwrite
at-overwrite nodes zero c i le = get_or-replicate c i free ∙ ground arith
at-overwrite [] (suc n) c i le = ground (arith, get_or-replicate c i free)
at-overwrite (x ∷ nodes) (suc n) zero i le = elim le [ ]
at-overwrite (x ∷ nodes) (suc n) (suc c) zero le = ground arith
at-overwrite (x ∷ nodes) (suc n) (suc c) (suc i) le =
    at-overwrite nodes n c i (omega arith) ∙ ground arith

-- Equal nodes lead every probe to the same slot.
probe_congr :
    (nodes nodes' : List Node) (capacity key n i : ℕ)
    → ((j : ℕ) → at_index nodes j ≡ at_index nodes' j)
    → probe nodes capacity key n i ≡ probe nodes' capacity key n i
unfolding probe
probe_congr nodes nodes' capacity key zero i h = refl
probe_congr nodes nodes' capacity key (suc n) i h = ground (
  arith,
  h i,
  Node-cases (at_index nodes i),
  probe_congr nodes nodes' capacity key n (bit_and (i + 1) (capacity - 1)) h,
)

-- A block that is written from another memory reads as there.
copied {ℓ} :
    {V : Type ℓ} (n : ℕ) (mem garbage : ℕ → V) (from p : ℕ)
    → from ≤ p
    → p < from + n
    → write_block garbage from (read_block mem from n) p ≡ mem p
unfolding write_block read_block
copied zero mem garbage from p lo hi = absurd (omega arith)
copied (suc n) mem garbage from p lo hi = elim (Nat-cases p from) [
  | inl same ↦
      write_block_outside (read_block mem (from + 1) n) _ (from + 1) p (inl (omega (arith, same)))
      ∙ rw (same, ==_refl from)
  | inr ne ↦ copied n mem _ (from + 1) p (omega (arith, ne)) (omega arith)
]

module _ {ℓ} {V : Type ℓ} (s : KvStore V) (garbage : ℕ → V)
    (size : s.node_size ≤ s.node_capacity) where
  -- What Load after Store keeps of each node.
  pub at-load :
      (i : ℕ)
      → at_index (load garbage (store s) s).node i
        ≡ (if ltb i s.node_size then at_index s.node i else free)
  unfolding load store
  at-load i = at-overwrite s.node s.node_size s.node_capacity i size

  same_nodes :
      ((i k o : ℕ) → at_index s.node i ≡ taken k o → i < s.node_size)
      → (i : ℕ) → at_index (load garbage (store s) s).node i ≡ at_index s.node i
  same_nodes packed i = elim (Node-cases (at_index s.node i)) [
    | inl gone ↦ ground (arith, at-load i, gone)
    | inr (k, o, at) ↦ ground (arith, at-load i, packed i k o at)
  ]

  view_loaded :
      (slot : Option Slot)
      → ((j o : ℕ) → slot ≡ some (hit j o) → block o + s.value_len ≤ s.data_size)
      → view_slot (load garbage (store s) s).mem s.value_len slot ≡ view_slot s.mem s.value_len slot
  unfolding load store
  view_loaded none h = refl
  view_loaded (some (empty i)) h = refl
  view_loaded (some (hit i o)) h = ap some (
      read_block_congr s.value_len _ s.mem (block o)
        (λ p lo hi. copied s.data_size s.mem garbage 0 p (omega arith) (omega (arith, h i o refl))))

  pub find-load :
      ((i k o : ℕ) → at_index s.node i ≡ taken k o → i < s.node_size)
      → (key : ℕ)
      → find (load garbage (store s) s).node s.node_capacity key ≡ find s.node s.node_capacity key
  find-load packed key =
      probe_congr _ s.node s.node_capacity key max_probe_num _ (same_nodes packed)

-- `Load` of what `Store` wrote gives every key its value, if the store is valid and all its keys are
-- in the first `node_size_` nodes.
pub view-load {ℓ} :
    {V : Type ℓ} (s : KvStore V) (garbage : ℕ → V)
    → IsValid s
    → s.node_size ≤ s.node_capacity
    → ((i k o : ℕ) → at_index s.node i ≡ taken k o → i < s.node_size)
    → (key : ℕ) → view (load garbage (store s) s) key ≡ view s key
unfolding view load store
view-load s garbage valid size packed key =
    ap (view_slot (load garbage (store s) s).mem s.value_len) (find-load s garbage size packed key)
    ∙ view_loaded s garbage size (find s.node s.node_capacity key) (λ j o h.
      valid.inside j key o (probe_hit s.node_capacity key s.node max_probe_num _ j o h).0)

-- A key of a valid store whose node is not among the first `node_size_` has a value, and has none
-- after `Load` of what `Store` wrote.
pub view-load_lost {ℓ} :
    {V : Type ℓ} (s : KvStore V) (garbage : ℕ → V) (i k o : ℕ)
    → IsValid s
    → s.node_size ≤ s.node_capacity
    → at_index s.node i ≡ taken k o
    → s.node_size ≤ i
    → (view s k ≡ some (read_block s.mem (block o) s.value_len))
      × (view (load garbage (store s) s) k ≡ none)
unfolding view load store
view-load_lost s garbage i k o valid size at beyond =
    let found = valid.reach i k o at in
    let loaded = load garbage (store s) s in
    (
      ap (view_slot s.mem s.value_len) found,
      view_none loaded.mem s.value_len (find loaded.node s.node_capacity k) (λ j o' h.
          let hit_at = (probe_hit s.node_capacity k loaded.node max_probe_num _ j o' h).0 in
          elim (Bool-cases (ltb j s.node_size)) [
            | inl before ↦
                let own : at_index s.node j ≡ taken k o' =
                  ground (arith, at-load s garbage size j, before, hit_at) in
                let same : hit i o ≡ hit j o' = of_some (sym found ∙ valid.reach j k o' own) in
                absurd (ground (arith, same, before))
            | inr after ↦ absurd (ground (arith, at-load s garbage size j, after, hit_at))
          ]),
    )

-- What Clear leaves of each node.
at-clear :
    (nodes : List Node) (n i : ℕ)
    → at_index (free_first n nodes) i ≡ (if ltb i n then free else at_index nodes i)
unfolding free_first
at-clear nodes zero i = ground arith
at-clear [] (suc n) i = ground arith
at-clear (x ∷ nodes) (suc n) zero = ground arith
at-clear (x ∷ nodes) (suc n) (suc i) = at-clear nodes n i ∙ ground arith

length-free_first : (nodes : List Node) (n : ℕ) → length (free_first n nodes) ≡ length nodes
unfolding free_first
length-free_first nodes zero = refl
length-free_first [] (suc n) = refl
length-free_first (x ∷ nodes) (suc n) = ap suc (length-free_first nodes n)

-- `Clear` of a valid store whose keys are all in the first `node_size_` nodes leaves a valid store in
-- which no key has a value, not even the key 0 of the constructor.
pub view-clear {ℓ} :
    {V : Type ℓ} (s : KvStore V)
    → IsValid s
    → ((i k o : ℕ) → at_index s.node i ≡ taken k o → i < s.node_size)
    → IsValid (clear s) × ((key : ℕ) → view (clear s) key ≡ none)
unfolding view clear
view-clear s valid packed =
    let nodes = free_first s.node_size s.node in
    let gone : (i k o : ℕ) → at_index nodes i ≢ taken k o = λ i k o h.
      elim (Bool-cases (ltb i s.node_size)) [
        | inl before ↦ absurd (ground (arith, at-clear s.node s.node_size i, before, h))
        | inr after ↦
            let kept : at_index s.node i ≡ taken k o =
              ground (arith, at-clear s.node s.node_size i, after, h) in
            absurd (ground (arith, packed i k o kept, after))
      ] in
    (
      record {
        size = length-free_first s.node s.node_size ∙ valid.size;
        reach = λ i k o h. absurd (gone i k o h);
        inside = λ i k o h. absurd (gone i k o h);
        apart = λ i j k k' o o' h. absurd (gone i k o h);
      },
      λ key.
          view_none s.mem s.value_len (find nodes s.node_capacity key)
            (λ j o h. gone j key o (probe_hit s.node_capacity key nodes max_probe_num _ j o h).0),
    )
