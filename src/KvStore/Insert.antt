-- ===== src/KvStore/Insert.antt =====
-- Taking a free node for a new key keeps the array in order, and every other key's place.
use ddls.Prelude.{
  ℕ, ◌+◌, ◌≤◌, ◌<◌, ◌≡◌, ◌≢◌, sym, ap, ◌∙◌, ◌⊎◌, ◌↔◌, inl, inr, List, some, set, arith, Nat-cases,
  get_or-set_self, get_or-set_ne, length-set,
}
use ddls.KvStore.{Node, free, taken, hit, empty, immutable_mask, max_probe_num}
use ddls.KvStore.Probe.{at_index, probe_hit, probe_empty, probe_hit_set, probe_empty_set}
use ddls.KvStore.Valid.{find, block, IsPlaced}

taken-injective : {k k' o o' : ℕ} → taken k o ≡ taken k' o' → (k ≡ k') × (o ≡ o')
taken-injective h = ground arith

module _ (nodes : List Node) (capacity data_size value_len key e : ℕ)
    (v : IsPlaced nodes capacity data_size value_len)
    (absent : find nodes capacity key ≡ some (empty e)) (small : data_size < immutable_mask) where
  nodes' : List Node
  nodes' = set nodes e (taken key data_size)

  e_free : (at_index nodes e ≡ free) × (e < capacity)
  e_free = probe_empty capacity key nodes max_probe_num _ e absent

  at_e : at_index nodes' e ≡ taken key data_size
  unfolding nodes'
  at_e = get_or-set_self nodes e (taken key data_size) free (omega (arith, v.size, e_free.1))

  at_other : (i : ℕ) → e ≢ i → at_index nodes' i ≡ at_index nodes i
  unfolding nodes'
  at_other i ne = get_or-set_ne nodes e i (taken key data_size) free ne

  pub find-insert_self :
      find (set nodes e (taken key data_size)) capacity key ≡ some (hit e data_size)
  unfolding nodes'
  find-insert_self = probe_empty_set capacity key nodes max_probe_num _ e data_size v.size absent

  find-insert_hit :
      (k j o : ℕ) → find nodes capacity k ≡ some (hit j o) → find nodes' capacity k ≡ some (hit j o)
  unfolding nodes'
  find-insert_hit k j o h =
      probe_hit_set capacity k nodes max_probe_num _ j o e (taken key data_size) e_free.0 h

  -- A taken node is the new one, or stood there before.
  origin :
      (i k o : ℕ)
      → at_index nodes' i ≡ taken k o
      → ((i ≡ e) × (k ≡ key) × (o ≡ data_size)) ⊎ (at_index nodes i ≡ taken k o)
  origin i k o h = elim (Nat-cases e i) [
    | inl same ↦
        let (a, b) = taken-injective (sym at_e ∙ ap (at_index nodes') same ∙ h) in
        inl (sym same, sym a, sym b)
    | inr ne ↦ inr (sym (at_other i ne) ∙ h)
  ]

  pub insert-IsPlaced :
      IsPlaced (set nodes e (taken key data_size)) capacity (data_size + value_len) value_len
  unfolding nodes'
  insert-IsPlaced = record {
    size = length-set nodes e _ ∙ v.size;
    reach = λ i k o h. elim (origin i k o h) [
      | inl (a, b, c) ↦ rw (a, b, c) find-insert_self
      | inr old ↦ find-insert_hit k i o (v.reach i k o old)
    ];
    inside = λ i k o h. elim (origin i k o h) [
      | inl (a, b, c) ↦ omega (arith, c, small)
      | inr old ↦ omega (arith, v.inside i k o old)
    ];
    apart = λ i j k k' o o' h h' ne. separate i j k k' o o' (origin i k o h) (origin j k' o' h') ne;
  }
    where
      separate :
          (i j k k' o o' : ℕ)
          → ((i ≡ e) × (k ≡ key) × (o ≡ data_size)) ⊎ (at_index nodes i ≡ taken k o)
          → ((j ≡ e) × (k' ≡ key) × (o' ≡ data_size)) ⊎ (at_index nodes j ≡ taken k' o')
          → i ≢ j
          → (block o + value_len ≤ block o') ⊎ (block o' + value_len ≤ block o)
      separate i j k k' o o' (inl a) (inl b) ne = absurd (ne (a.0 ∙ sym b.0))
      separate i j k k' o o' (inl a) (inr b) ne = inr (omega (arith, v.inside j k' o' b))
      separate i j k k' o o' (inr a) (inl b) ne = inl (omega (arith, v.inside i k o a))
      separate i j k k' o o' (inr a) (inr b) ne = v.apart i j k k' o o' a b ne

  -- Every key is found where it was, but the new one, which was not found.
  pub find-insert :
      (k : ℕ)
      → (k ≡ key)
        ⊎ ((j o : ℕ)
            → (find nodes capacity k ≡ some (hit j o))
              ↔ (find (set nodes e (taken key data_size)) capacity k ≡ some (hit j o)))
  unfolding nodes'
  find-insert k = elim (Nat-cases k key) [
    | inl same ↦ inl same
    | inr ne ↦ inr (λ j o. (
      find-insert_hit k j o,
      λ h. back j o ne (origin j k o (probe_hit capacity k nodes' max_probe_num _ j o h).0),
    ))
  ]
    where
      back :
          (j o : ℕ)
          → k ≢ key
          → ((j ≡ e) × (k ≡ key) × (o ≡ data_size)) ⊎ (at_index nodes j ≡ taken k o)
          → find nodes capacity k ≡ some (hit j o)
      back j o ne (inl a) = absurd (ne a.1)
      back j o ne (inr old) = v.reach j k o old
