-- ===== src/KvStore/Update.antt =====
-- Writing the flag of a taken node keeps the array in order, and every lookup.
use ddls.Prelude.{
  ℕ, ◌+◌, ◌≤◌, ◌<◌, ◌≡◌, ◌≢◌, sym, ap, ◌∙◌, ◌⊎◌, inl, inr, List, set, arith, Nat-cases,
  get_or-set_self, get_or-set_ne, length-set, Bool, true, false, ==_refl, ==_ne,
}
use ddls.KvStore.{Node, free, taken, max_probe_num, flag}
use ddls.KvStore.Probe.{at_index, probe-set_offset, relabel, map_slot}
use ddls.KvStore.Valid.{find, block, IsPlaced}

pub block-flag : (b : Bool) (o : ℕ) → block (flag b o) ≡ block o
unfolding flag
block-flag true o = omega arith
block-flag false o = omega arith

taken-injective : {k k' o o' : ℕ} → taken k o ≡ taken k' o' → (k ≡ k') × (o ≡ o')
taken-injective h = ground arith

module _ (nodes : List Node) (capacity data_size value_len j key o o' : ℕ)
    (v : IsPlaced nodes capacity data_size value_len) (lt : j < capacity)
    (at_j : at_index nodes j ≡ taken key o) (same_block : block o' ≡ block o) where
  pub find-set_offset :
      (k : ℕ)
      → find (set nodes j (taken key o')) capacity k
        ≡ map_slot (relabel j o') (find nodes capacity k)
  find-set_offset k =
      probe-set_offset capacity k nodes max_probe_num _ j key o o' (omega (arith, v.size)) at_j

  -- A taken node is the one written, or as before.
  origin :
      (i k p : ℕ)
      → at_index (set nodes j (taken key o')) i ≡ taken k p
      → ((j ≡ i) × (at_index nodes i ≡ taken k o) × (p ≡ o'))
        ⊎ ((j ≢ i) × (at_index nodes i ≡ taken k p))
  origin i k p h = elim (Nat-cases j i) [
    | inl same ↦
        let (a, b) = taken-injective (
          sym (get_or-set_self nodes j (taken key o') free (omega (arith, v.size)))
          ∙ ap (at_index (set nodes j (taken key o'))) same
          ∙ h) in
        inl (same, ap (at_index nodes) (sym same) ∙ at_j ∙ ap (λ k. taken k o) a, sym b)
    | inr ne ↦ inr (ne, sym (get_or-set_ne nodes j i (taken key o') free ne) ∙ h)
  ]

  pub flag-IsPlaced : IsPlaced (set nodes j (taken key o')) capacity data_size value_len
  flag-IsPlaced = record {
    size = length-set nodes j _ ∙ v.size;
    reach = λ i k p h. elim (origin i k p h) [
      | inl (a, b, c) ↦ rw (find-set_offset k, v.reach i k o b, c, a, ==_refl i)
      | inr (ne, b) ↦ rw (find-set_offset k, v.reach i k p b, ==_ne j i ne)
    ];
    inside = λ i k p h. elim (origin i k p h) [
      | inl (a, b, c) ↦ rw (c, same_block) (v.inside i k o b)
      | inr (ne, b) ↦ v.inside i k p b
    ];
    apart =
        λ i i' k k' p p' h h' ne. separate i i' k k' p p' (origin i k p h) (origin i' k' p' h') ne;
  }
    where
      separate :
          (i i' k k' p p' : ℕ)
          → ((j ≡ i) × (at_index nodes i ≡ taken k o) × (p ≡ o'))
            ⊎ ((j ≢ i) × (at_index nodes i ≡ taken k p))
          → ((j ≡ i') × (at_index nodes i' ≡ taken k' o) × (p' ≡ o'))
            ⊎ ((j ≢ i') × (at_index nodes i' ≡ taken k' p'))
          → i ≢ i'
          → (block p + value_len ≤ block p') ⊎ (block p' + value_len ≤ block p)
      separate i i' k k' p p' (inl a) (inl b) ne = absurd (ne (sym a.0 ∙ b.0))
      separate i i' k k' p p' (inl a) (inr b) ne =
          rw (a.2, same_block) (v.apart i i' k k' o p' a.1 b.1 ne)
      separate i i' k k' p p' (inr a) (inl b) ne =
          rw (b.2, same_block) (v.apart i i' k k' p o a.1 b.1 ne)
      separate i i' k k' p p' (inr a) (inr b) ne = v.apart i i' k k' p p' a.1 b.1 ne
