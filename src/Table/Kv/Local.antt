-- ===== src/Table/Kv/Local.antt =====
-- What a worker's store holds after the reply to a Get.
use ddls.Prelude.{
  ℕ, suc, ◌+◌, ◌*◌, ◌<◌, ◌≡◌, ◌≢◌, sym, ap, ◌∙◌, List, [], ◌∷◌, Option, some, false, ◌==◌,
  if◌then◌else◌, take, drop, length, length-take, length-drop, Nat-cases, ==_refl, ==_ne, inl, inr,
  arith, >>=-eq-some, check-eq-some, of_some, ==_iff, subst, ◌⊎◌,
}
use ddls.KvStore.{KvStore, set_value, immutable_mask}
use ddls.KvStore.Valid.{IsValid, view}
use ddls.KvStore.Refine.{Wrote, set_value-Wrote}
use ddls.Table.Kv.{set_all, process_reply_get}

module _ {ℓ} {V : Type ℓ} where
  -- The last block that the reply has for key `k`, or the old one.
  pub last_block : ℕ → List ℕ → List V → ℕ → Option (List V) → Option (List V)
  last_block len [] vals k old = old
  last_block len (key ∷ keys) vals k old =
      last_block len keys (drop len vals) k (if k == key then some (take len vals) else old)

  set_all-view :
      (keys : List ℕ) (vals : List V) (s s' : KvStore V)
      → IsValid s
      → length vals ≡ length keys * s.value_len
      → s.data_size + length keys * s.value_len < immutable_mask
      → set_all keys vals s ≡ some s'
      → IsValid s' × ((k : ℕ) → view s' k ≡ last_block s.value_len keys vals k (view s k))
  unfolding set_all last_block
  set_all-view [] vals s s' valid fits room h =
      let same = of_some h in (subst IsValid same valid, λ k. sym (ap (λ s. view s k) same))
  set_all-view (key ∷ keys) vals s s' valid fits room h =
      let (t, first, rest) =
        >>=-eq-some (set_value s key (take s.value_len vals) false)
          (set_all keys (drop s.value_len vals)) h in
      let L = s.value_len in
      let step : suc (length keys) * L ≡ length keys * L + L = omega arith in
      let block : length (take L vals) ≡ L = omega (arith, length-take L vals, fits, step) in
      let w =
        set_value-Wrote s t key (take L vals) false valid block (omega (arith, room, step)) first in
      let tail : length (drop L vals) ≡ length keys * t.value_len =
        rw w.len (omega (arith, length-drop L vals, fits, step)) in
      let room' : t.data_size + length keys * t.value_len < immutable_mask =
        rw w.len (omega (arith, room, step, w.grown)) in
      let (valid', all) = set_all-view keys (drop L vals) t s' w.valid tail room' rest in
      (
        valid',
        λ k.
            all k
            ∙ ap (λ n. last_block n keys (drop L vals) k (view t k)) w.len
            ∙ ap (last_block L keys (drop L vals) k) (one t w k (Nat-cases k key)),
      )
    where
      one :
          (t : KvStore V)
          → Wrote s t key (take s.value_len vals) false
          → (k : ℕ) → (k ≡ key) ⊎ (k ≢ key)
          → view t k ≡ (if k == key then some (take s.value_len vals) else view s k)
      one t w k (inl e) = rw (e, ==_refl key) w.here
      one t w k (inr ne) = rw (==_ne k key ne) (w.elsewhere k ne)

  -- A reply to a Get, with one block for each of its keys, leaves a valid local store valid; in it
  -- each key of the reply has the last block that the reply has for it, and every other key what it
  -- had. The store must have room for the blocks, and not stop in the probing.
  pub process_reply_get-view :
      (keys : List ℕ) (vals : List V) (s s' : KvStore V)
      → IsValid s
      → s.data_size + length keys * s.value_len < immutable_mask
      → process_reply_get keys vals s ≡ some s'
      → IsValid s' × ((k : ℕ) → view s' k ≡ last_block s.value_len keys vals k (view s k))
  unfolding process_reply_get
  process_reply_get-view keys vals s s' valid room h =
      let (fits, run) = check-eq-some (length keys * s.value_len == length vals) _ h in
      set_all-view keys vals s s' valid
        (sym ((==_iff (length keys * s.value_len) (length vals)).0 fits)) room run
