-- ===== src/KvStore/Fresh.antt =====
-- The constructor of kvstore/kvstore.cc: the capacity it rounds up to, and the store it leaves.
use ddls.Prelude.{
  ℕ, zero, suc, ◌+◌, ◌*◌, ◌^◌, ◌≤◌, ◌<◌, ◌≡◌, ◌≢◌, refl, sym, ap, ◌∙◌, ◌⊎◌, inl, inr, Option, none,
  some, arith, ltb, replicate, get_or-replicate, length-replicate, true, Bool-cases, Nat-cases, ◌%◌,
  ltb→lt, ltb_false→le, lt→ltb, >>=-eq-some, check-eq-some,
}
use native.Mathlib.Nat.{pow-suc, pow-le-pow_right}
use ddls.KvStore.{KvStore, free, taken, Slot, hit, empty, grow_capacity, new, max_probe_num}
use ddls.KvStore.Probe.{at_index, probe_hit}
use ddls.KvStore.Valid.{find, IsPlaced, IsValid, view_slot, view}
use ddls.KvStore.Refine.{set_value-Wrote}

-- From 2^n, which the wish is not half of yet.
grow_capacity_from :
    (fuel n init : ℕ)
    → 63 < fuel + n
    → n ≤ 63
    → init ≤ 2 ^ 63
    → (2 ^ n ≡ 1) ⊎ (2 ^ n < 2 * init)
    → (m : ℕ) × (grow_capacity fuel (2 ^ n) init ≡ some (2 ^ m))
      × (init ≤ 2 ^ m)
      × (m ≤ 63)
      × ((2 ^ m ≡ 1) ⊎ (2 ^ m < 2 * init))
unfolding grow_capacity
grow_capacity_from zero n init rounds le small least = absurd (omega arith)
grow_capacity_from (suc fuel) n init rounds le small least = elim (Bool-cases (ltb (2 ^ n) init)) [
  | inl below ↦
      let lt = ltb→lt (2 ^ n) init below in
      let room : n ≢ 63 = λ e. absurd (omega (arith, ap (λ k. 2 ^ k) e)) in
      let double : 2 ^ n * 2 ≡ 2 ^ suc n = sym (pow-suc 2 n) in
      let kept : 2 ^ n * 2 % 2 ^ 64 ≡ 2 ^ suc n = omega (arith, double, lt) in
      let (m, e, above, bound, close) =
        grow_capacity_from fuel (suc n) init (omega arith) (omega (arith, room)) small
          (inr (omega (arith, double, lt))) in
      (m, rw below (ap (λ c. grow_capacity fuel c init) kept ∙ e), above, bound, close)
  | inr enough ↦ (n, rw enough refl, ltb_false→le (2 ^ n) init enough, le, least)
]

-- From 2^n or 0, for a wish above 2^63.
grow_capacity_endless :
    (fuel n capacity init : ℕ)
    → 2 ^ 63 < init
    → (capacity ≡ 0) ⊎ ((n ≤ 63) × (capacity ≡ 2 ^ n))
    → grow_capacity fuel capacity init ≡ none
unfolding grow_capacity
grow_capacity_endless zero n capacity init large is = refl
grow_capacity_endless (suc fuel) n capacity init large (inl e) =
    let below : ltb capacity init ≡ true = lt→ltb capacity init (omega (arith, e)) in
    rw below
      (grow_capacity_endless fuel n (capacity * 2 % 2 ^ 64) init large (inl (omega (arith, e))))
grow_capacity_endless (suc fuel) n capacity init large (inr (le, e)) =
    let most : 2 ^ n ≤ 2 ^ 63 = pow-le-pow_right {n = 2} (omega arith) le in
    let below : ltb capacity init ≡ true = lt→ltb capacity init (omega (arith, e, most)) in
    let double : 2 ^ suc n ≡ 2 ^ n * 2 = pow-suc 2 n in
    rw below (
      grow_capacity_endless fuel (suc n) (capacity * 2 % 2 ^ 64) init large (elim (Nat-cases n 63) [
        | inl last ↦ inl (omega (arith, e, ap (λ k. 2 ^ k) last))
        | inr before ↦
            let later : suc n ≤ 63 = omega (arith, before) in
            let less : 2 ^ suc n ≤ 2 ^ 63 = pow-le-pow_right {n = 2} (omega arith) later in
            inr (later, omega (arith, e, double, less))
      ]))

-- For a wish up to 2^63 the loop of the constructor ends within 65 rounds, with the least power of
-- two that is not below the wish; for a larger one no number of rounds ends it.
pub grow_capacity-IsLeast :
    (init : ℕ)
    → (init ≤ 2 ^ 63
        → (m : ℕ) × (grow_capacity 65 1 init ≡ some (2 ^ m))
          × (init ≤ 2 ^ m)
          × (m ≤ 63)
          × ((2 ^ m ≡ 1) ⊎ (2 ^ m < 2 * init)))
      × (2 ^ 63 < init → (fuel : ℕ) → grow_capacity fuel 1 init ≡ none)
grow_capacity-IsLeast init = (
  λ small. grow_capacity_from 65 0 init (omega arith) (omega arith) small (inl refl),
  λ large fuel. grow_capacity_endless fuel 0 1 init large (inr (omega arith, refl)),
)

-- A store of free nodes only.
none_taken : (capacity i k o : ℕ) → at_index (replicate capacity free) i ≢ taken k o
none_taken capacity i k o h = ground (arith, h, get_or-replicate capacity i free)

free-IsPlaced :
    (capacity data_size len : ℕ) → IsPlaced (replicate capacity free) capacity data_size len
free-IsPlaced capacity data_size len = record {
  size = length-replicate capacity free;
  reach = λ i k o h. absurd (none_taken capacity i k o h);
  inside = λ i k o h. absurd (none_taken capacity i k o h);
  apart = λ i j k k' o o' h. absurd (none_taken capacity i k o h);
}

find_none : (capacity k : ℕ) {j o : ℕ} → find (replicate capacity free) capacity k ≢ some (hit j o)
find_none capacity k {j} {o} h =
    none_taken capacity j k o
      (probe_hit capacity k (replicate capacity free) max_probe_num _ j o h).0

pub view_none {ℓ} :
    {V : Type ℓ} (mem : ℕ → V) (len : ℕ) (slot : Option Slot)
    → ((j o : ℕ) → slot ≢ some (hit j o))
    → view_slot mem len slot ≡ none
view_none mem len none h = refl
view_none mem len (some (empty i)) h = refl
view_none mem len (some (hit j o)) h = absurd (h j o refl)

-- Where the constructor returns, the store that it makes for `init_capacity` is valid, key 0 has zeros, and no other
-- key has a value.
pub new-IsValid {ℓ} :
    {V : Type ℓ} (garbage : ℕ → V) (z : V) (init_capacity len : ℕ) (s : KvStore V)
    → new garbage z init_capacity len ≡ some s
    → IsValid s × (view s 0 ≡ some (replicate len z)) × ((k : ℕ) → k ≢ 0 → view s k ≡ none)
unfolding new view
new-IsValid garbage z init_capacity len s h =
    let (capacity, grown, rest) = >>=-eq-some (grow_capacity 65 1 init_capacity) _ h in
    let made = (check-eq-some (ltb capacity (2 ^ 31)) _ rest).1 in
    let w =
      set_value-Wrote _ s 0 (replicate len z) true (free-IsPlaced _ 0 len) (length-replicate len z)
        (omega arith) made in
    (w.valid, w.here, λ k ne. w.elsewhere k ne ∙ view_none garbage len _ (λ j o. find_none _ k))
