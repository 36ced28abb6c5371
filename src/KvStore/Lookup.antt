-- ===== src/KvStore/Lookup.antt =====
-- What `Get` answers, before and after a `Set`.
use ddls.Prelude.{
  ℕ, ◌+◌, ◌%◌, ◌<◌, ◌≡◌, ◌≢◌, refl, sym, ap, ◌∙◌, ◌↔◌, inl, inr, List, some, length, arith,
  Bool-cases, Bool, true, false, >>=-eq-some, of_some, leb, Option-cases,
}
use ddls.KvStore.{
  KvStore, Slot, hit, empty, immutable_mask, flag, locate, get_slot, get, get_value, value_of,
  found, missing, Found, set_value,
}
use ddls.KvStore.Memory.{read_block}
use ddls.KvStore.Valid.{find, block, IsValid, view_slot, view}
use ddls.KvStore.Refine.{set_value-Wrote}

slot_value {ℓ} :
    {V : Type ℓ} (s : KvStore V) (key : ℕ) (slot : Slot)
    → (x : Found) × (get_slot s key true slot ≡ (s, x))
      × (value_of s x ≡ view_slot s.mem s.value_len (some slot))
unfolding get_slot value_of
slot_value s key (empty e) = (missing, refl, refl)
slot_value s key (hit i o) = elim (Bool-cases (leb immutable_mask o)) [
  | inl flagged ↦ (found i (block o) true false, rw flagged, refl)
  | inr plain ↦ (
    found i o true false,
    rw plain,
    ap (λ b. some (read_block s.mem b s.value_len)) (ground arith),
  )
]

-- `Get(key)` of a key that the probing settles, as a hit or at a free node, changes nothing and
-- reads the map that the store stands for.
pub get_value-view {ℓ} :
    {V : Type ℓ} (s : KvStore V) (key : ℕ) (slot : Slot)
    → locate s key ≡ some slot
    → (get_value s key ≡ some (view s key)) × ((x : Found) × (get s key true ≡ some (s, x)))
unfolding get_value get view locate
get_value-view s key slot h =
    let (x, same, value) = slot_value s key slot in (rw (h, same, value), (x, rw (h, same)))

view_located {ℓ} :
    {V : Type ℓ} (s : KvStore V) (key : ℕ) (v : List V)
    → view s key ≡ some v
    → (slot : Slot) × (locate s key ≡ some slot)
unfolding view locate
view_located s key v h = elim (Option-cases (find s.node s.node_capacity key)) [
  | inl gone ↦ absurd (ground (arith, h, gone))
  | inr (slot, at) ↦ (slot, at)
]

pub get_value_of_view {ℓ} :
    {V : Type ℓ} (s : KvStore V) (key : ℕ) (v : List V)
    → view s key ≡ some v
    → get_value s key ≡ some (some v)
get_value_of_view s key v h =
    let (slot, at) = view_located s key v h in (get_value-view s key slot at).0 ∙ ap some h

view_of_get_value {ℓ} :
    {V : Type ℓ} (s : KvStore V) (key : ℕ) (v : List V)
    → get_value s key ≡ some (some v)
    → view s key ≡ some v
unfolding get_value get
view_of_get_value s key v h =
    let (r, got, value) = >>=-eq-some _ _ h in
    let (slot, at, answer) = >>=-eq-some _ _ got in
    of_some (sym (get_value-view s key slot at).0 ∙ h)

get_slot-flag {ℓ} :
    {V : Type ℓ} (s : KvStore V) (key j o : ℕ) (immutable : Bool)
    → get_slot s key false (hit j (flag immutable o)) ≡ (s, found j (block o) immutable false)
unfolding get_slot flag
get_slot-flag s key j o true =
    let flagged : leb immutable_mask (o % immutable_mask + immutable_mask) ≡ true = ground arith in
    rw flagged (ap (λ b. (s, found j b true false)) (omega arith))
get_slot-flag s key j o false =
    let plain : leb immutable_mask (o % immutable_mask) ≡ false = ground arith in rw plain refl

-- After `Set(key, val, immutable)` on a valid store with room, the store is valid, `Get(key)` gives
-- `val`, `Get` of any other key that had a value gives the same value, and a `Get` that reports the
-- flag reports `immutable`.
pub get_value-set_value {ℓ} :
    {V : Type ℓ} (s s' : KvStore V) (key : ℕ) (val : List V) (immutable : Bool)
    → IsValid s
    → length val ≡ s.value_len
    → s.data_size < immutable_mask
    → set_value s key val immutable ≡ some s'
    → IsValid s'
      × (get_value s' key ≡ some (some val))
      × ((k : ℕ) (w : List V)
          → k ≢ key
          → (get_value s k ≡ some (some w)) ↔ (get_value s' k ≡ some (some w)))
      × ((j : ℕ) × (o : ℕ) × (get s' key false ≡ some (s', found j o immutable false)))
unfolding get
get_value-set_value s s' key val immutable valid fits small h =
    let w = set_value-Wrote s s' key val immutable valid fits small h in
    let (j, o, at) = w.flagged in
    (
      w.valid,
      get_value_of_view s' key val w.here,
      λ k v ne. (
        λ e. get_value_of_view s' k v (w.elsewhere k ne ∙ view_of_get_value s k v e),
        λ e. get_value_of_view s k v (sym (w.elsewhere k ne) ∙ view_of_get_value s' k v e),
      ),
      (j, block o, rw (at, get_slot-flag s' key j o immutable)),
    )
