-- ===== src/KvStore/Refine.antt =====
-- `Set` writes one key of the map that the store stands for.
use ddls.Prelude.{
  ℕ, ◌+◌, ◌≤◌, ◌<◌, ◌≡◌, ◌≢◌, refl, sym, ap, ◌∙◌, ◌⊎◌, ◌↔◌, inl, inr, List, Option, none, some,
  length, set, arith, Bool-cases, get_or-set_self, Bool, true, false, ==_refl, ==_ne, >>=-eq-some,
  of_some, subst, leb,
}
use ddls.KvStore.{
  KvStore, Node, free, taken, Slot, hit, empty, immutable_mask, max_probe_num, flag, flag_node,
  locate, add_entry, get_slot, get, found, set_found, set_value,
}
use ddls.KvStore.Memory.{write_block, read_block, read-write_apart, read-write_same}
use ddls.KvStore.Probe.{at_index, probe_hit, probe_empty, relabel, map_slot}
use ddls.KvStore.Valid.{find, block, IsPlaced, IsValid, view_slot, view}
use ddls.KvStore.Insert.{insert-IsPlaced, find-insert}
use ddls.KvStore.Update.{block-flag, find-set_offset, flag-IsPlaced}

module _ {ℓ} {V : Type ℓ} (mem : ℕ → V) (len : ℕ) where
  view_slot_congr :
      (a b : Option Slot)
      → ((j o : ℕ) → (a ≡ some (hit j o)) ↔ (b ≡ some (hit j o)))
      → view_slot mem len a ≡ view_slot mem len b
  view_slot_congr (some (hit j o)) b h = ap (view_slot mem len) (sym ((h j o).0 refl))
  view_slot_congr none (some (hit j o)) h = absurd (ground (arith, (h j o).1 refl))
  view_slot_congr (some (empty i)) (some (hit j o)) h = absurd (ground (arith, (h j o).1 refl))
  view_slot_congr none none h = refl
  view_slot_congr none (some (empty i)) h = refl
  view_slot_congr (some (empty i)) none h = refl
  view_slot_congr (some (empty i)) (some (empty j)) h = refl

-- The write of a value at the node of its key, and the flag beside it.
module _ {ℓ} {V : Type ℓ} (nodes : List Node) (capacity data_size : ℕ) (mem : ℕ → V) (val : List V)
    (len : ℕ) (fits : length val ≡ len) (j key o : ℕ) (immutable : Bool)
    (v : IsPlaced nodes capacity data_size len) (lt : j < capacity)
    (at_j : at_index nodes j ≡ taken key o) where
  pub written-IsPlaced :
      IsPlaced (set nodes j (taken key (flag immutable o))) capacity data_size len
  written-IsPlaced =
      flag-IsPlaced nodes capacity data_size len j key o (flag immutable o) v lt at_j
        (block-flag immutable o)

  find-written :
      find (set nodes j (taken key (flag immutable o))) capacity key
      ≡ some (hit j (flag immutable o))
  find-written = rw (
    find-set_offset nodes capacity data_size len j key o (flag immutable o) v lt at_j
        (block-flag immutable o) key,
    v.reach j key o at_j,
    ==_refl j,
  )

  pub view-written_self :
      view_slot
        (write_block mem (block o) val)
        len
        (find (set nodes j (taken key (flag immutable o))) capacity key)
      ≡ some val
  view-written_self =
      let moved =
        find-set_offset nodes capacity data_size len j key o (flag immutable o) v lt at_j
          (block-flag immutable o) key in
      rw (moved, v.reach j key o at_j, ==_refl j, block-flag immutable o)
        (ap some (
          ap (read_block (write_block mem (block o) val) (block o)) (sym fits)
          ∙ read-write_same val mem (block o)))

  module _ (k : ℕ) (other : k ≢ key) where
    read_other :
        (slot : Option Slot)
        → find nodes capacity k ≡ slot
        → view_slot
            (write_block mem (block o) val)
            len
            (map_slot (relabel j (flag immutable o)) slot)
          ≡ view_slot mem len slot
    read_other none h = refl
    read_other (some (empty i)) h = refl
    read_other (some (hit i p)) h =
        let at_i = (probe_hit capacity k nodes max_probe_num _ i p h).0 in
        let ne : j ≢ i = λ e. other (ground (arith, at_j, at_i, ap (at_index nodes) e)) in
        rw (==_ne j i ne) (
          ap some (
            read-write_apart len mem (block p) (block o) val
              (before_or_after (v.apart i j k key p o at_i at_j (λ e. ne (sym e))))))
      where
        before_or_after :
            (block p + len ≤ block o) ⊎ (block o + len ≤ block p)
            → (block p + len ≤ block o) ⊎ (block o + length val ≤ block p)
        before_or_after h = omega (arith, fits)

    pub view-written_other :
        view_slot
          (write_block mem (block o) val)
          len
          (find (set nodes j (taken key (flag immutable o))) capacity k)
        ≡ view_slot mem len (find nodes capacity k)
    view-written_other =
        rw
          (find-set_offset nodes capacity data_size len j key o (flag immutable o) v lt at_j
            (block-flag immutable o) k)
          (read_other (find nodes capacity k) refl)

-- What `Set` leaves: the invariant, the value at its key, and every other key as it was.
pub record Wrote {ℓ} {V : Type ℓ} (s s' : KvStore V) (key : ℕ) (val : List V) (immutable : Bool)
    : Type ℓ where
  pub valid : IsValid s'
  pub here : view s' key ≡ some val
  pub elsewhere : (k : ℕ) → k ≢ key → view s' k ≡ view s k
  pub len : s'.value_len ≡ s.value_len
  pub grown : s'.data_size ≤ s.data_size + s.value_len
  pub flagged : (j : ℕ) × (o : ℕ) × (locate s' key ≡ some (hit j (flag immutable o)))

module _ {ℓ} {V : Type ℓ} (s : KvStore V) (key : ℕ) (val : List V) (immutable : Bool)
    (fits : length val ≡ s.value_len) where
  -- The final state, from a store in which the node `j` has the key.
  finish : KvStore V → ℕ → ℕ → KvStore V
  finish t j o = record t {
    mem = write_block t.mem (block o) val;
    node = set t.node j (taken key (flag immutable o));
  }

  finish-Wrote :
      (j o : ℕ)
      → IsValid s
      → j < s.node_capacity
      → at_index s.node j ≡ taken key o
      → Wrote s (finish s j o) key val immutable
  unfolding finish view locate
  finish-Wrote j o v lt at_j = record {
    valid =
        written-IsPlaced s.node s.node_capacity s.data_size s.mem val s.value_len fits j key o
          immutable v lt at_j;
    here =
        view-written_self s.node s.node_capacity s.data_size s.mem val s.value_len fits j key o
          immutable v lt at_j;
    elsewhere =
        view-written_other s.node s.node_capacity s.data_size s.mem val s.value_len fits j key o
          immutable v lt at_j;
    len = refl;
    grown = omega arith;
    flagged = (
      j,
      o,
      find-written s.node s.node_capacity s.data_size s.mem val s.value_len fits j key o immutable v
          lt at_j,
    );
  }

  set_found-finish :
      (j o : ℕ) (immu new_data : Bool)
      → at_index s.node j ≡ taken key o
      → set_found s val immutable (found j (block o) immu new_data) ≡ finish s j o
  unfolding finish set_found flag_node
  set_found-finish j o immu new_data at_j = rw at_j

  set_hit :
      (i o : ℕ)
      → IsValid s
      → locate s key ≡ some (hit i o)
      → Wrote s
          (set_found
            (get_slot s key false (hit i o)).0
            val
            immutable
            (get_slot s key false (hit i o)).1)
          key
          val
          immutable
  unfolding locate get_slot
  set_hit i o valid h =
      let (at_i, lt) = probe_hit s.node_capacity key s.node max_probe_num _ i o h in
      elim (Bool-cases (leb immutable_mask o)) [
        | inl flagged ↦
            rw (flagged, set_found-finish i o true false at_i) (finish-Wrote i o valid lt at_i)
        | inr plain ↦
            let same : o ≡ block o = ground arith in
            rw
              (
                plain,
                ap (λ b. set_found s val immutable (found i b false false)) same,
                set_found-finish i o false false at_i,
              )
              (finish-Wrote i o valid lt at_i)
      ]

module _ {ℓ} {V : Type ℓ} (s : KvStore V) (key : ℕ) (val : List V) (immutable : Bool)
    (fits : length val ≡ s.value_len) where
  set_empty :
      (e : ℕ)
      → IsValid s
      → s.data_size < immutable_mask
      → locate s key ≡ some (empty e)
      → Wrote s
          (set_found
            (get_slot s key false (empty e)).0
            val
            immutable
            (get_slot s key false (empty e)).1)
          key
          val
          immutable
  unfolding locate get_slot add_entry view finish
  set_empty e valid small h =
      let (_, lt) = probe_empty s.node_capacity key s.node max_probe_num _ e h in
      let t = add_entry s key e in
      let placed =
        insert-IsPlaced s.node s.node_capacity s.data_size s.value_len key e valid h small in
      let at_e : at_index t.node e ≡ taken key s.data_size =
        get_or-set_self s.node e (taken key s.data_size) free (omega (arith, valid.size, lt)) in
      let same : s.data_size ≡ block s.data_size = omega (arith, small) in
      let w = finish-Wrote t key val immutable fits e s.data_size placed lt at_e in
      rw
        (
          ap (λ b. set_found t val immutable (found e b false true)) same,
          set_found-finish t key val immutable fits e s.data_size false true at_e,
        )
        (record {
          valid = w.valid;
          here = w.here;
          elsewhere = λ k ne.
              w.elsewhere k ne
              ∙ elim (find-insert s.node s.node_capacity s.data_size s.value_len key e valid h small
                  k) [
                    | inl eq ↦ absurd (ne eq)
                    | inr same_hits ↦ sym (view_slot_congr s.mem s.value_len _ _ same_hits)
                  ];
          len = refl;
          grown = omega arith;
          flagged = w.flagged;
        })

  set_slot :
      (slot : Slot)
      → IsValid s
      → s.data_size < immutable_mask
      → locate s key ≡ some slot
      → Wrote s
          (set_found (get_slot s key false slot).0 val immutable (get_slot s key false slot).1)
          key
          val
          immutable
  set_slot (hit i o) valid small h = set_hit s key val immutable fits i o valid h
  set_slot (empty e) valid small h = set_empty e valid small h

  located_Wrote :
      (s' : KvStore V) (slot : Slot)
      → IsValid s
      → s.data_size < immutable_mask
      → locate s key ≡ some slot
      → set_value s key val immutable ≡ some s'
      → Wrote s s' key val immutable
  unfolding set_value get
  located_Wrote s' slot valid small at h =
      subst (λ t. Wrote s t key val immutable) (of_some (sym step ∙ h))
        (set_slot slot valid small at)
    where
      step :
          set_value s key val immutable
          ≡ some
              (set_found (get_slot s key false slot).0 val immutable (get_slot s key false slot).1)
      step = rw at

-- `Set` on any key of a valid store that it does not stop at.
pub set_value-Wrote {ℓ} :
    {V : Type ℓ} (s s' : KvStore V) (key : ℕ) (val : List V) (immutable : Bool)
    → IsValid s
    → length val ≡ s.value_len
    → s.data_size < immutable_mask
    → set_value s key val immutable ≡ some s'
    → Wrote s s' key val immutable
unfolding set_value get
set_value-Wrote s s' key val immutable valid fits small h =
    let (r, got, wrote) = >>=-eq-some _ _ h in
    let (slot, located, answer) = >>=-eq-some _ _ got in
    located_Wrote s key val immutable fits s' slot valid small located h
